-- ===== src/Server/Anchor.antt =====
-- After a successful /enroll, /attest measures against what was enrolled (server/main.py).
use tpm_attest.Prelude.{
  ◌≡◌, ◌≢◌, ◌⊎◌, refl, ap, ◌∙◌, inl, inr, true, false, Option, none, some, List, [], ◌∷◌, arith,
  Text, codes, Option-cases,
}
use tpm_attest.Python.Unicode.{Unicode}
use tpm_attest.Server.Database.{
  Time, Baseline, PcrMap, Db, issue_nonce, select_active, later_of, deactivate_all,
  get_active_ima_root, pin_baseline, register_machine, get, get_pinned_pcr,
}
use tpm_attest.Server.Policy.{Config, Tools, AttestationReport, RegisterRequest, Reason}
use tpm_attest.Server.Checks.{consume_nonce, verify_report, reported_pcr7}
use tpm_attest.Server.Handlers.{
  Clock, granted, enrolled, not_enrolled, challenge, finish_registration, register, attest,
  enroll_end, enroll,
}
use tpm_attest.Server.Run.{
  Request, get_challenge, post_register, post_attest, post_enroll, serve, run,
}
use tpm_attest.Server.Acceptance.{IsPinned}
use tpm_attest.Server.Acceptance.Verdict.{attest_sound}
use tpm_attest.Server.Baselines.{deactivate_all-All, select_active-inactive}
use tpm_attest.Server.Enrollment.{IsPinnable, verified, enroll-failed}
use tpm_attest.Server.Pinning.{serve-IsPinnable, enroll-IsPinnable}

-- The new baseline is the active one.
select_active-pin_baseline :
    (u : Unicode) (now : Time) (root : Text) (pcrs : PcrMap) (db : Db)
    → (b : Baseline) × (select_active (pin_baseline u now root pcrs db).baselines ≡ some b)
      × (b.ima_root ≡ u.lower root)
      × (b.pcr_json ≡ pcrs)
unfolding select_active pin_baseline later_of
select_active-pin_baseline u now root pcrs db =
    let head : Baseline = record {
      id = db.next_id;
      ima_root = u.lower root;
      pcr_json = pcrs;
      created_at = now;
      is_active = true;
    } in
    (
      head,
      rw (select_active-inactive (deactivate_all db.baselines) (deactivate_all-All db.baselines)),
      refl,
      refl,
    )

module _ (cfg : Config) (u : Unicode) (tools : Tools) where
  -- none of the requests, served in this order, enrols a new baseline
  abbrev pub NoneEnrols : List Request → Db → Type 0
  NoneEnrols [] db = Unit
  NoneEnrols (r ∷ requests) db =
      ((root : Text) → (serve cfg u tools r db).0 ≢ enrolled root)
      × NoneEnrols requests (serve cfg u tools r db).1

  challenge-baselines :
      (now : Time) (token : Text) (db : Db) → (challenge now token db).1.baselines ≡ db.baselines
  unfolding challenge issue_nonce
  challenge-baselines now token db = ground arith

  register-baselines :
      (now : Time) (req : RegisterRequest) (db : Db)
      → (register cfg tools now req db).1.baselines ≡ db.baselines
  unfolding register finish_registration register_machine
  register-baselines now req db = ground arith

  attest-baselines :
      (clock : Clock) (token : Text) (report : AttestationReport) (db : Db)
      → (attest cfg u tools clock token report db).1.baselines ≡ db.baselines
  unfolding attest verify_report consume_nonce
  attest-baselines clock token report db = refl

  -- the answer of /enroll, from the verdict
  enroll-enrolled :
      (clock : Clock) (report : AttestationReport) (db : Db)
      → (verified cfg u tools clock report db).0 ≡ none
      → (enroll cfg u tools clock report db).0 ≡ enrolled (u.lower report.ima_merkle_root)
  unfolding enroll enroll_end
  enroll-enrolled clock report db e = rw e refl

  enroll-refused :
      (clock : Clock) (report : AttestationReport) (db : Db) (r : Reason)
      → (verified cfg u tools clock report db).0 ≡ some r
      → (enroll cfg u tools clock report db).0 ≡ not_enrolled r
  unfolding enroll enroll_end
  enroll-refused clock report db r e = rw e refl

  serve-baselines :
      (r : Request) (db : Db)
      → IsPinnable db
      → ((root : Text) → (serve cfg u tools r db).0 ≢ enrolled root)
      → (serve cfg u tools r db).1.baselines ≡ db.baselines
  unfolding serve
  serve-baselines (get_challenge now token) db t ne = challenge-baselines now token db
  serve-baselines (post_register now req) db t ne = register-baselines now req db
  serve-baselines (post_attest clock token report) db t ne = attest-baselines clock token report db
  serve-baselines (post_enroll clock report) db t ne =
      elim (Option-cases (verified cfg u tools clock report db).0) [
        | inl e ↦ absurd (ne _ (enroll-enrolled clock report db e))
        | inr (r, e) ↦
            enroll-failed cfg u tools clock report db t (enroll-refused clock report db r e)
      ]

  run-baselines :
      (requests : List Request) (db : Db)
      → IsPinnable db
      → NoneEnrols requests db
      → (run cfg u tools requests db).baselines ≡ db.baselines
  unfolding run
  run-baselines [] db t ne = refl
  run-baselines (r ∷ requests) db t ne =
      run-baselines requests _ (serve-IsPinnable cfg u tools r db t) ne.1
      ∙ serve-baselines r db t ne.0

  enroll-baseline :
      (clock : Clock) (report : AttestationReport) (db : Db) {root : Text}
      → (enroll cfg u tools clock report db).0 ≡ enrolled root
      → (b : Baseline) × (select_active (enroll cfg u tools clock report db).1.baselines ≡ some b)
        × (b.ima_root ≡ u.lower (u.lower report.ima_merkle_root))
        × (b.pcr_json ≡ report.pcrs)
  unfolding enroll enroll_end
  enroll-baseline clock report db h = elim (Option-cases (verified cfg u tools clock report db).0) [
    | inl e ↦ rw e (
        select_active-pin_baseline u clock.finished (u.lower report.ima_merkle_root) report.pcrs
          (verified cfg u tools clock report db).1)
    | inr (r, e) ↦ absurd (cc (rw e at h))
  ]

-- tables with this active baseline measure against it
active-root :
    (db : Db) (b : Baseline)
    → select_active db.baselines ≡ some b
    → get_active_ima_root db ≡ some b.ima_root
unfolding get_active_ima_root
active-root db b e = rw e refl

active-pcr :
    (db : Db) (b : Baseline) (k : Text)
    → select_active db.baselines ≡ some b
    → get_pinned_pcr k db ≡ get k b.pcr_json
unfolding get_pinned_pcr
active-pcr db b k e = rw (e, get_pinned_pcr) refl

pinned-some :
    (low : Text → Text) (value : Text) (v : Text) (pinned : Option Text)
    → pinned ≡ some v
    → IsPinned low value pinned
    → low value ≡ low v
pinned-some low value v pinned e (inl h) = absurd (cc)
pinned-some low value v pinned e (inr (w, h, q)) = let same : v ≡ w = (cc) in rw same q

module _ (cfg : Config) (u : Unicode) (tools : Tools) where
  -- A token that is granted against an active baseline is for its root and its PCR 7.
  granted-baseline :
      (clock : Clock) (token : Text) (report : AttestationReport) (db : Db) (b : Baseline)
      {t : Text} {e : Time}
      → select_active db.baselines ≡ some b
      → (attest cfg u tools clock token report db).0 ≡ granted t e
      → (u.lower report.ima_merkle_root ≡ u.lower b.ima_root)
        × ((cfg.require_pcr7_pinning ≡ false)
            ⊎ IsPinned u.lower (reported_pcr7 report) (get (codes "7") b.pcr_json))
  granted-baseline clock token report db b s h =
      let a = (attest_sound cfg u tools clock token report db h).1 in
      (
        pinned-some u.lower report.ima_merkle_root b.ima_root _ (active-root db b s) a.root_pinned,
        rw (active-pcr db b (codes "7") s) at a.pcr7_pinned,
      )

  granted-reference :
      (clock : Clock) (token : Text) (report reference : AttestationReport) (db : Db) (b : Baseline)
      {t : Text} {e : Time}
      → select_active db.baselines ≡ some b
      → b.ima_root ≡ u.lower (u.lower reference.ima_merkle_root)
      → b.pcr_json ≡ reference.pcrs
      → (attest cfg u tools clock token report db).0 ≡ granted t e
      → (u.lower report.ima_merkle_root ≡ u.lower reference.ima_merkle_root)
        × ((cfg.require_pcr7_pinning ≡ false)
            ⊎ IsPinned u.lower (reported_pcr7 report) (get (codes "7") reference.pcrs))
  granted-reference clock token report reference db b s r p h =
      let (root, pcr7) = granted-baseline clock token report db b s h in
      (root ∙ ap u.lower r ∙ u.lower-lower _ ∙ u.lower-lower _, rw p at pcr7)

  -- Once an enrolment has succeeded, and until another one does, whatever requests come in between,
  -- a token is granted only for the enrolled root, in any case of letters, and, where the pinning is
  -- required, for the PCR 7 that was enrolled, if there was one.
  pub attest-enrolled :
      (enroll_clock : Clock) (reference : AttestationReport) (requests : List Request) (db : Db)
      (clock : Clock) (token : Text) (report : AttestationReport) {root t : Text} {e : Time}
      → IsPinnable db
      → (enroll cfg u tools enroll_clock reference db).0 ≡ enrolled root
      → NoneEnrols cfg u tools requests (enroll cfg u tools enroll_clock reference db).1
      → (attest cfg u tools clock token report
          (run cfg u tools requests (enroll cfg u tools enroll_clock reference db).1)).0
        ≡ granted t e
      → (u.lower report.ima_merkle_root ≡ u.lower reference.ima_merkle_root)
        × ((cfg.require_pcr7_pinning ≡ false)
            ⊎ IsPinned u.lower (reported_pcr7 report) (get (codes "7") reference.pcrs))
  attest-enrolled enroll_clock reference requests db clock token report t h ne g =
      let (b, s, r, p) = enroll-baseline cfg u tools enroll_clock reference db h in
      let after = (enroll cfg u tools enroll_clock reference db).1 in
      let kept =
        run-baselines cfg u tools requests after
          (enroll-IsPinnable cfg u tools enroll_clock reference db t) ne in
      granted-reference clock token report reference (run cfg u tools requests after) b
        (ap select_active kept ∙ s) r p g
