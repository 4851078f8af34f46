-- ===== src/Server/Pinning.antt =====
-- Every request to server/main.py keeps the table of baselines well formed.
use tpm_attest.Prelude.{
  ℕ, ◌≡◌, ◌≢◌, refl, Option, none, some, List, [], ◌∷◌, arith, inl, inr, Text, All, Option-cases,
  length,
}
use tpm_attest.Python.Unicode.{Unicode}
use tpm_attest.Server.Database.{
  Time, Baseline, PcrMap, Db, init_db, issue_nonce, deactivate_all, get_active_ima_root,
  pin_baseline, register_machine,
}
use tpm_attest.Server.Policy.{Config, Tools, AttestationReport, RegisterRequest}
use tpm_attest.Server.Checks.{consume_nonce, verify_report}
use tpm_attest.Server.Handlers.{
  Clock, challenge, finish_registration, register, attest, enroll_begin, restore, enroll_end,
  enroll,
}
use tpm_attest.Server.Run.{
  Request, get_challenge, post_register, post_attest, post_enroll, serve, run,
}
use tpm_attest.Server.Baselines.{Descends, HasRoot, IsTable, deactivate_all-All}
use tpm_attest.Server.Acceptance.Parts.{or_else-eq-none}
use tpm_attest.Server.Acceptance.Verdict.{check_report_sound}
use tpm_attest.Server.Enrollment.{IsPinnable, verified, restored}

deactivate_all-Descends :
    (n : ℕ) (rows : List Baseline) → Descends n rows → Descends n (deactivate_all rows)
unfolding deactivate_all
deactivate_all-Descends n [] d = tt
deactivate_all-Descends n (b ∷ rows) d = (d.0, deactivate_all-Descends b.id rows d.1)

deactivate_all-HasRoot :
    (rows : List Baseline) → All HasRoot rows → All HasRoot (deactivate_all rows)
unfolding deactivate_all
deactivate_all-HasRoot [] h = tt
deactivate_all-HasRoot (b ∷ rows) h = (h.0, deactivate_all-HasRoot rows h.1)

-- a new baseline in front, with all the others deactivated
pin_baseline-IsPinnable :
    (u : Unicode) (now : Time) (root : Text) (pcrs : PcrMap) (db : Db)
    → root ≢ []
    → Descends db.next_id db.baselines
    → All HasRoot db.baselines
    → IsPinnable (pin_baseline u now root pcrs db)
unfolding pin_baseline
pin_baseline-IsPinnable u now root pcrs db ne d h = record {
  descends = (omega arith, deactivate_all-Descends db.next_id db.baselines d);
  only_newest = deactivate_all-All db.baselines;
  has_roots = (λ e. ne (u.lower-eq-nil root e), deactivate_all-HasRoot db.baselines h);
}

IsTable-eq :
    {n n' : ℕ} {rows rows' : List Baseline}
    → n' ≡ n
    → rows' ≡ rows
    → IsTable n rows
    → IsTable n' rows'
IsTable-eq e q t = rw (e, q) t

restore-next_id : (root : Option Text) (db : Db) → (restore root db).next_id ≡ db.next_id
unfolding restore
restore-next_id none db = refl
restore-next_id (some []) db = refl
restore-next_id (some (c ∷ root)) db = refl

module _ (cfg : Config) (u : Unicode) (tools : Tools) where
  baselines-register :
      (now : Time) (req : RegisterRequest) (db : Db)
      → IsPinnable db
      → IsPinnable (register cfg tools now req db).1
  unfolding register finish_registration register_machine
  baselines-register now req db t = ground arith

  baselines-challenge :
      (now : Time) (token : Text) (db : Db) → IsPinnable db → IsPinnable (challenge now token db).1
  unfolding challenge issue_nonce
  baselines-challenge now token db t = ground arith

  baselines-attest :
      (clock : Clock) (token : Text) (report : AttestationReport) (db : Db)
      → IsPinnable db
      → IsPinnable (attest cfg u tools clock token report db).1
  unfolding attest verify_report consume_nonce
  baselines-attest clock token report db t = t

  long-text : (s : Text) → length s ≡ 64 → s ≢ []
  long-text [] h e = absurd (omega (arith, h))
  long-text (c ∷ s) h e = absurd (cc)

  verified-root :
      (now : Time) (report : AttestationReport) (db : Db)
      → (verify_report cfg u tools now report db).0 ≡ none
      → report.ima_merkle_root ≢ []
  unfolding verify_report
  verified-root now report db h =
      let passed = check_report_sound cfg u tools report _ ((or_else-eq-none _ _).0 h).1 in
      long-text report.ima_merkle_root passed.root_length

  verified-pinned :
      (clock : Clock) (report : AttestationReport) (db : Db)
      → IsPinnable db
      → (verified cfg u tools clock report db).0 ≡ none
      → IsPinnable (
          pin_baseline u clock.finished
            (u.lower report.ima_merkle_root)
            report.pcrs
            (verified cfg u tools clock report db).1)
  unfolding verify_report consume_nonce enroll_begin
  verified-pinned clock report db t e =
      pin_baseline-IsPinnable u clock.finished (u.lower report.ima_merkle_root) report.pcrs
        (verified cfg u tools clock report db).1
        (λ q. verified-root clock.checked report (enroll_begin db) e (u.lower-eq-nil _ q))
        (deactivate_all-Descends db.next_id db.baselines t.descends)
        (deactivate_all-HasRoot db.baselines t.has_roots)

  verified-restored :
      (clock : Clock) (report : AttestationReport) (db : Db)
      → IsPinnable db
      → IsPinnable (restore (get_active_ima_root db) (verified cfg u tools clock report db).1)
  unfolding verify_report consume_nonce enroll_begin
  verified-restored clock report db t =
      let db' = (verified cfg u tools clock report db).1 in
      IsTable-eq (restore-next_id (get_active_ima_root db) db') (restored db db' t refl) t

  pub enroll-IsPinnable :
      (clock : Clock) (report : AttestationReport) (db : Db)
      → IsPinnable db
      → IsPinnable (enroll cfg u tools clock report db).1
  unfolding enroll enroll_end
  enroll-IsPinnable clock report db t =
      elim (Option-cases (verified cfg u tools clock report db).0) [
        | inl e ↦ rw e (verified-pinned clock report db t e)
        | inr (r, e) ↦ rw e (verified-restored clock report db t)
      ]

  pub serve-IsPinnable :
      (r : Request) (db : Db) → IsPinnable db → IsPinnable (serve cfg u tools r db).1
  unfolding serve
  serve-IsPinnable (get_challenge now token) db t = baselines-challenge now token db t
  serve-IsPinnable (post_register now req) db t = baselines-register now req db t
  serve-IsPinnable (post_attest clock token report) db t = baselines-attest clock token report db t
  serve-IsPinnable (post_enroll clock report) db t = enroll-IsPinnable clock report db t

  -- Every sequence of requests keeps the table of baselines well formed: ids fall from the newest row
  -- on and stay below the next one, no row but the newest is active, and no root is empty.
  pub run-IsPinnable :
      (requests : List Request) (db : Db) → IsPinnable db → IsPinnable (run cfg u tools requests db)
  unfolding run
  run-IsPinnable [] db t = t
  run-IsPinnable (r ∷ requests) db t =
      run-IsPinnable requests (serve cfg u tools r db).1 (serve-IsPinnable r db t)

pub init_db-IsPinnable : IsPinnable init_db
init_db-IsPinnable = record { descends = tt; only_newest = tt; has_roots = tt }
