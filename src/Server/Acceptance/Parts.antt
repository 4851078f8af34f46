-- ===== src/Server/Acceptance/Parts.antt =====
-- Each check of `_verify_report` (server/main.py) passes exactly when its part of the specification
-- holds.
use tpm_attest.Prelude.{
  ◌≡◌, ◌≢◌, ◌↔◌, ◌⊎◌, refl, ap, ◌∙◌, inl, inr, Bool, true, false, Option, none, some, [], ◌∷◌,
  arith, Text, Bytes, codes, All, length, is_empty, text_eq, text_eq_iff, Bool-cases, Bool-false,
  &&-eq-true, ◌&&◌,
}
use tpm_attest.Python.Int.{ℤ, pos, negsuc, ltz, IsPositive}
use tpm_attest.Python.Unicode.{Unicode, is_int16}
use tpm_attest.Server.Database.{Machine, PcrMap, Db, get_enrolled_machine, get_pinned_pcr}
use tpm_attest.Server.Policy.{Config, Tools, AttestationReport, Reason}
use tpm_attest.Server.Checks.{
  ◌or_else◌, require, is_blank, machine_of, verify_quote_signature, check_ek, zero_digest,
  check_pcr_values, check_pcrs, check_boot, check_root_form, check_pinned_root, reported_pcr7,
  check_pcr7, check_pcr7_value, check_entries, check_minimum, check_blobs, check_ek_row,
  check_ek_of,
}
use tpm_attest.Server.Acceptance.{IsSigned, IsMeasured, IsPinned, Meets}

pub or_else-eq-none : (a b : Option Reason) → ((a or_else b) ≡ none) ↔ ((a ≡ none) × (b ≡ none))
or_else-eq-none none b = (λ h. (refl, h), λ h. h.1)
or_else-eq-none (some r) b = (λ h. absurd (cc), λ h. h.0)

pub require-eq-none : (test : Bool) (r : Reason) → (require test r ≡ none) ↔ (test ≡ true)
require-eq-none true r = (λ h. refl, λ h. refl)
require-eq-none false r = (λ h. absurd (cc), λ h. absurd (cc))

-- the three files that tpm2_checkquote reads
check_blobs_sound :
    (tools : Tools) (n : Text) (message signature key : Option Bytes)
    → check_blobs tools n message signature key ≡ none
    → (m : Bytes) × (s : Bytes) × (k : Bytes) × (message ≡ some m)
      × (signature ≡ some s)
      × (key ≡ some k)
      × (tools.checkquote k m s n ≡ true)
unfolding check_blobs
check_blobs_sound tools n (some m) (some s) (some k) h =
    (m, s, k, refl, refl, refl, (require-eq-none _ _).0 h)
check_blobs_sound tools n (some m) (some s) none h = absurd (cc)
check_blobs_sound tools n (some m) none key h = absurd (cc)
check_blobs_sound tools n none signature key h = absurd (cc)

pub verify_quote_signature_sound :
    (tools : Tools) (report : AttestationReport) (db : Db)
    → verify_quote_signature tools report db ≡ none
    → IsSigned tools report db
unfolding verify_quote_signature
verify_quote_signature_sound tools report db h = elim (Bool-cases (is_blank report.quote_msg_b64)) [
  | inl e ↦ absurd (cc (rw e at h))
  | inr e ↦ elim (Bool-cases (is_blank report.quote_sig_b64)) [
    | inl e' ↦ absurd (cc (rw (e, e') at h))
    | inr e' ↦
        let (m, s, k, message, signature, key, verified) =
          check_blobs_sound tools report.nonce _ _ _ (rw (e, e') at h) in
        record {
          message = m;
          signature = s;
          key = k;
          message_there = e;
          signature_there = e';
          message_decoded = message;
          signature_decoded = signature;
          key_known = key;
          verified = verified;
        }
  ]
]

pub verify_quote_signature_complete :
    (tools : Tools) (report : AttestationReport) (db : Db)
    → IsSigned tools report db
    → verify_quote_signature tools report db ≡ none
unfolding verify_quote_signature
verify_quote_signature_complete tools report db s = rw (
  s.message_there, s.signature_there, s.message_decoded, s.signature_decoded, s.key_known,
  s.verified,
)

pub check_boot-eq-none :
    (report : AttestationReport) (enrolled : Bool)
    → (check_boot report enrolled ≡ none)
      ↔ ((enrolled ≡ true) ⊎ (report.ima_summary.has_boot_aggregate ≡ true))
unfolding check_boot
check_boot-eq-none report enrolled = ground arith

check_minimum-eq-none :
    (required count : ℤ) → (check_minimum required count ≡ none) ↔ Meets required count
unfolding check_minimum
check_minimum-eq-none (pos required) (pos count) = ground arith
check_minimum-eq-none (pos required) (negsuc count) = ground arith
check_minimum-eq-none (negsuc required) count = (λ h. tt, λ h. refl)

pub check_entries-eq-none :
    (cfg : Config) (report : AttestationReport)
    → (check_entries cfg report ≡ none)
      ↔ Meets cfg.require_ima_minimum_entries report.ima_leaf_count
unfolding check_entries
check_entries-eq-none cfg report =
    check_minimum-eq-none cfg.require_ima_minimum_entries report.ima_leaf_count

abbrev HasEk : Option Machine → Type 0
HasEk row = (m : Machine) × (row ≡ some m) × (m.ek_verified ≡ true)

check_ek_row-eq-none :
    (id' : Text) (row : Option Machine) → (check_ek_row id' row ≡ none) ↔ HasEk row
unfolding check_ek_row
check_ek_row-eq-none id' none = (λ h. absurd (cc), λ (m, e, v). absurd (cc e))
check_ek_row-eq-none id' (some m) =
    (λ h. (m, refl, (require-eq-none _ _).0 h), λ (m', e, v). ground arith)

check_ek_of-eq-none :
    (id' : Option Text) (db : Db) → (check_ek_of id' db ≡ none) ↔ HasEk (machine_of id' db)
unfolding check_ek_of machine_of
check_ek_of-eq-none none db = (λ h. absurd (cc), λ (m, e, v). absurd (cc e))
check_ek_of-eq-none (some []) db = (λ h. absurd (cc), λ (m, e, v). absurd (cc e))
check_ek_of-eq-none (some (c ∷ id')) db =
    check_ek_row-eq-none (c ∷ id') (get_enrolled_machine (c ∷ id') db)

-- strict verification: the machine is named, enrolled, and has a verified certificate
pub check_ek-eq-none :
    (cfg : Config) (report : AttestationReport) (db : Db)
    → (check_ek cfg report db ≡ none) ↔ (
        (cfg.strict_ek_verification ≡ false)
        ⊎ ((m : Machine) × (machine_of report.machine_id db ≡ some m) × (m.ek_verified ≡ true)))
unfolding check_ek
check_ek-eq-none cfg report db = elim (Bool-cases cfg.strict_ek_verification) [
  | inr e ↦ (λ h. inl e, λ h. rw e)
  | inl e ↦ (
    λ h. inr ((check_ek_of-eq-none report.machine_id db).0 (rw e at h)),
    λ h. elim h [
      | inl e' ↦ absurd (cc e')
      | inr ek ↦ rw e ((check_ek_of-eq-none report.machine_id db).1 ek)
    ],
  )
]

ltz-IsPositive : (i : ℤ) → (ltz (pos 0) i ≡ true) ↔ IsPositive i
ltz-IsPositive (pos i) = ground arith
ltz-IsPositive (negsuc i) = (λ h. absurd (cc), λ h. absurd h)

pub check_root_form-eq-none :
    (u : Unicode) (report : AttestationReport)
    → (check_root_form u report ≡ none) ↔ (
        (length report.ima_merkle_root ≡ 64)
        × (is_int16 u report.ima_merkle_root ≡ true)
        × IsPositive report.ima_leaf_count)
unfolding check_root_form
check_root_form-eq-none u report = ground (arith, ltz-IsPositive report.ima_leaf_count)

IsPinned-some :
    (low : Text → Text) (value v : Text)
    → IsPinned low value (some v)
    → text_eq (low value) (low v) ≡ true
IsPinned-some low value v (inl e) = absurd (cc)
IsPinned-some low value v (inr (v', e, q)) =
    let same : v' ≡ v = cc in (text_eq_iff (low value) (low v)).1 (q ∙ ap low same)

pub check_pinned_root-eq-none :
    (u : Unicode) (report : AttestationReport) (pinned : Option Text)
    → (check_pinned_root u report pinned ≡ none) ↔ IsPinned u.lower report.ima_merkle_root pinned
unfolding check_pinned_root
check_pinned_root-eq-none u report none = (λ h. inl refl, λ h. refl)
check_pinned_root-eq-none u report (some root) = (
  λ h. inr (root, refl, (text_eq_iff _ _).0 ((require-eq-none _ _).0 h)),
  λ h. (require-eq-none _ _).1 (IsPinned-some u.lower report.ima_merkle_root root h),
)

check_pcr7_value-eq-none :
    (u : Unicode) (report : AttestationReport) (pinned : Option Text)
    → (check_pcr7_value u report pinned ≡ none) ↔ IsPinned u.lower (reported_pcr7 report) pinned
unfolding check_pcr7_value
check_pcr7_value-eq-none u report none = (λ h. inl refl, λ h. refl)
check_pcr7_value-eq-none u report (some value) = (
  λ h. inr (value, refl, (text_eq_iff _ _).0 ((require-eq-none _ _).0 h)),
  λ h. (require-eq-none _ _).1 (IsPinned-some u.lower (reported_pcr7 report) value h),
)

-- without a pinned PCR 7 the policy demands nothing
pub check_pcr7-eq-none :
    (cfg : Config) (u : Unicode) (report : AttestationReport) (db : Db)
    → (check_pcr7 cfg u report db ≡ none) ↔ (
        (cfg.require_pcr7_pinning ≡ false)
        ⊎ IsPinned u.lower (reported_pcr7 report) (get_pinned_pcr (codes "7") db))
unfolding check_pcr7
check_pcr7-eq-none cfg u report db = elim (Bool-cases cfg.require_pcr7_pinning) [
  | inr e ↦ (λ h. inl e, λ h. rw e)
  | inl e ↦ (
    λ h. inr ((check_pcr7_value-eq-none u report _).0 (rw e at h)),
    λ h. elim h [
      | inl e' ↦ absurd (cc e')
      | inr p ↦ rw e ((check_pcr7_value-eq-none u report _).1 p)
    ],
  )
]

nil_of_is_empty : (pcrs : PcrMap) → is_empty pcrs ≡ true → pcrs ≡ []
nil_of_is_empty [] h = refl
nil_of_is_empty (p ∷ pcrs) h = absurd (cc)

not_nil : (pcrs : PcrMap) → is_empty pcrs ≡ false → pcrs ≢ []
not_nil pcrs h e = cc (rw e at h)

check_pcr_values_sound :
    (u : Unicode) (enrolled : Bool) (pcrs : PcrMap)
    → check_pcr_values u enrolled pcrs ≡ none
    → All (IsMeasured u enrolled) pcrs
unfolding check_pcr_values
check_pcr_values_sound u enrolled [] h = tt
check_pcr_values_sound u enrolled ((idx, digest) ∷ pcrs) h =
    elim (Bool-cases (text_eq (u.lower digest) (u.lower zero_digest))) [
      | inr z ↦ (
        inl (λ e. absurd (cc ((text_eq_iff (u.lower digest) (u.lower zero_digest)).1 e, z))),
        check_pcr_values_sound u enrolled pcrs (rw z at h),
      )
      | inl z ↦ elim (Bool-cases (enrolled && text_eq idx (codes "10"))) [
        | inr q ↦ absurd (cc (rw (z, q) at h))
        | inl q ↦
            let (e, ten) = &&-eq-true enrolled (text_eq idx (codes "10")) q in
            (
              inr (e, (text_eq_iff idx (codes "10")).0 ten),
              check_pcr_values_sound u enrolled pcrs (rw (z, q) at h),
            )
      ]
    ]

check_pcr_values_complete :
    (u : Unicode) (enrolled : Bool) (pcrs : PcrMap)
    → All (IsMeasured u enrolled) pcrs
    → check_pcr_values u enrolled pcrs ≡ none
unfolding check_pcr_values
check_pcr_values_complete u enrolled [] h = refl
check_pcr_values_complete u enrolled ((idx, digest) ∷ pcrs) h = elim h.0 [
  | inl measured ↦
      rw (Bool-false _ (λ e. measured ((text_eq_iff _ _).0 e)))
        (check_pcr_values_complete u enrolled pcrs h.1)
  | inr (e, ten) ↦
      let rest = check_pcr_values_complete u enrolled pcrs h.1 in
      elim (Bool-cases (text_eq (u.lower digest) (u.lower zero_digest))) [
        | inl z ↦ rw (z, e, (text_eq_iff idx (codes "10")).1 ten) rest
        | inr z ↦ rw z rest
      ]
]

pub check_pcrs-eq-none :
    (u : Unicode) (report : AttestationReport) (enrolled : Bool)
    → (check_pcrs u report enrolled ≡ none)
      ↔ ((report.pcrs ≢ []) × All (IsMeasured u enrolled) report.pcrs)
unfolding check_pcrs
check_pcrs-eq-none u report enrolled = elim (Bool-cases (is_empty report.pcrs)) [
  | inl e ↦ (λ h. absurd (cc (rw e at h)), λ h. absurd (h.0 (nil_of_is_empty report.pcrs e)))
  | inr e ↦ (
    λ h. (not_nil report.pcrs e, check_pcr_values_sound u enrolled report.pcrs (rw e at h)),
    λ h. rw e (check_pcr_values_complete u enrolled report.pcrs h.1),
  )
]
