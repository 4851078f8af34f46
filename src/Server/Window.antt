-- ===== src/Server/Window.antt =====
-- What holds between the two transactions of /enroll (server/main.py).
use tpm_attest.Prelude.{◌≡◌, refl, none, Text, codes, Bool-cases, inl, inr}
use tpm_attest.Python.Unicode.{Unicode}
use tpm_attest.Server.Database.{
  Db, select_active, deactivate_all, get_active_ima_root, get_pinned_pcr,
}
use tpm_attest.Server.Policy.{Config, AttestationReport}
use tpm_attest.Server.Checks.{check_pinned_root, check_pcr7, check_pcr7_value}
use tpm_attest.Server.Handlers.{enroll_begin}
use tpm_attest.Server.Baselines.{deactivate_all-All, select_active-inactive}

select_active-enroll_begin : (db : Db) → select_active (enroll_begin db).baselines ≡ none
unfolding enroll_begin
select_active-enroll_begin db =
    select_active-inactive (deactivate_all db.baselines) (deactivate_all-All db.baselines)

no_root : (db : Db) → get_active_ima_root (enroll_begin db) ≡ none
unfolding get_active_ima_root
no_root db = rw (select_active-enroll_begin db) refl

no_pcr : (k : Text) (db : Db) → get_pinned_pcr k (enroll_begin db) ≡ none
unfolding get_pinned_pcr
no_pcr k db = rw (select_active-enroll_begin db, get_pinned_pcr) refl

no_root_check :
    (u : Unicode) (report : AttestationReport) (db : Db)
    → check_pinned_root u report (get_active_ima_root (enroll_begin db)) ≡ none
unfolding check_pinned_root
no_root_check u report db = rw (no_root db) refl

no_pcr7_check :
    (cfg : Config) (u : Unicode) (report : AttestationReport) (db : Db)
    → check_pcr7 cfg u report (enroll_begin db) ≡ none
unfolding check_pcr7 check_pcr7_value
no_pcr7_check cfg u report db = elim (Bool-cases cfg.require_pcr7_pinning) [
  | inl e ↦ rw (e, no_pcr (codes "7") db) refl
  | inr e ↦ rw e refl
]

-- Behind the first transaction of /enroll no report fails the comparison with the pinned root, nor the
-- one with the pinned PCR 7, whatever was pinned before.
pub enroll_begin-unpins :
    (cfg : Config) (u : Unicode) (report : AttestationReport) (db : Db)
    → (check_pinned_root u report (get_active_ima_root (enroll_begin db)) ≡ none)
      × (check_pcr7 cfg u report (enroll_begin db) ≡ none)
enroll_begin-unpins cfg u report db = (no_root_check u report db, no_pcr7_check cfg u report db)
