-- ===== src/Server/Enrollment.antt =====
-- The endpoint /enroll of server/main.py: what a failure leaves and what a success pins.
use tpm_attest.Prelude.{
  ℕ, ◌≡◌, ◌≢◌, refl, Option, none, some, List, [], ◌∷◌, inl, inr, Text, All, Bool-cases,
  Option-cases,
}
use tpm_attest.Python.Unicode.{Unicode}
use tpm_attest.Server.Database.{
  Time, Baseline, Db, select_active, deactivate_all, activate_latest, get_active_ima_root,
}
use tpm_attest.Server.Policy.{Config, Tools, AttestationReport, Reason}
use tpm_attest.Server.Checks.{consume_nonce, verify_report}
use tpm_attest.Server.Handlers.{Clock, not_enrolled, enroll_begin, restore, enroll_end, enroll}
use tpm_attest.Server.Baselines.{
  IsInactive, HasRoot, IsTable, restore-IsTable, deactivate_inactive, select_active-head,
}

-- the table of baselines is well formed
abbrev pub IsPinnable : Db → Type 0
IsPinnable db = IsTable db.next_id db.baselines

select_active-none : (rows : List Baseline) → select_active rows ≡ none → All IsInactive rows
unfolding select_active
select_active-none [] h = tt
select_active-none (b ∷ rows) h = elim (Bool-cases b.is_active) [
  | inl e ↦ absurd (cc (rw e at h))
  | inr e ↦ (e, select_active-none rows (rw e at h))
]

active-HasRoot :
    (n : ℕ) (rows : List Baseline) (b : Baseline)
    → IsTable n rows
    → select_active rows ≡ some b
    → HasRoot b
unfolding select_active
active-HasRoot n [] b t e = absurd (cc)
active-HasRoot n (c ∷ rows) b t e =
    rw (← (select_active-head c rows b t.only_newest e).0) t.has_roots.0

restore-some :
    (root : Text) (db : Db)
    → root ≢ []
    → (restore (some root) db).baselines ≡ activate_latest root db.baselines
unfolding restore
restore-some [] db ne = absurd (ne refl)
restore-some (c ∷ root) db ne = refl

restored-some :
    (db db' : Db) (b : Baseline)
    → IsPinnable db
    → db'.baselines ≡ deactivate_all db.baselines
    → select_active db.baselines ≡ some b
    → (restore (get_active_ima_root db) db').baselines ≡ db.baselines
unfolding get_active_ima_root
restored-some db db' b t e q =
    rw (q, restore-some b.ima_root db' (active-HasRoot db.next_id db.baselines b t q), e)
      (restore-IsTable db.next_id db.baselines b t q)

enroll_end-failed :
    (u : Unicode) (now : Time) (root : Option Text) (report : AttestationReport)
    (fail : Option Reason) (db : Db) {r : Reason}
    → (enroll_end u now root report fail db).0 ≡ not_enrolled r
    → (enroll_end u now root report fail db).1 ≡ restore root db
unfolding enroll_end
enroll_end-failed u now root report none db h = absurd (cc)
enroll_end-failed u now root report (some r) db h = refl

pub restored :
    (db db' : Db)
    → IsPinnable db
    → db'.baselines ≡ deactivate_all db.baselines
    → (restore (get_active_ima_root db) db').baselines ≡ db.baselines
unfolding get_active_ima_root restore
restored db db' t e = elim (Option-cases (select_active db.baselines)) [
  | inl q ↦ rw (q, e) (deactivate_inactive db.baselines (select_active-none db.baselines q))
  | inr (b, q) ↦ restored-some db db' b t e q
]

-- What /enroll sees behind its first transaction and the verification.
module _ (cfg : Config) (u : Unicode) (tools : Tools) (clock : Clock) (report : AttestationReport)
    (db : Db) where
  abbrev pub verified : Option Reason × Db
  verified = verify_report cfg u tools clock.checked report (enroll_begin db)

  pub baselines-verified : verified.1.baselines ≡ deactivate_all db.baselines
  unfolding verify_report consume_nonce enroll_begin
  baselines-verified = refl

  -- On a well-formed table of baselines, an enrolment that is refused, for whatever reason, leaves the
  -- table as it was: the active baseline is active again.
  pub enroll-failed :
      {r : Reason}
      → IsPinnable db
      → (enroll cfg u tools clock report db).0 ≡ not_enrolled r
      → (enroll cfg u tools clock report db).1.baselines ≡ db.baselines
  unfolding enroll
  enroll-failed t h =
      rw
        (enroll_end-failed u clock.finished (get_active_ima_root db) report verified.0 verified.1 h)
        (restored db verified.1 t baselines-verified)
