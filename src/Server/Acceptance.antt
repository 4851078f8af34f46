-- ===== src/Server/Acceptance.antt =====
-- What a report must satisfy for server/main.py to accept it, stated without the code's order.
pub mod Parts
pub mod Verdict
use tpm_attest.Prelude.{
  ℕ, ◌≤◌, ◌<◌, ◌≡◌, ◌≢◌, ◌⊎◌, Bool, true, false, Option, none, some, List, [], ◌∷◌, Text, Bytes,
  codes, All, length,
}
use tpm_attest.Python.Int.{ℤ, pos, negsuc, IsPositive}
use tpm_attest.Python.Unicode.{Unicode, is_int16}
use tpm_attest.Server.Database.{Time, Machine, PcrMap, Db, get_active_ima_root, get_pinned_pcr}
use tpm_attest.Server.Policy.{Config, Tools, AttestationReport}
use tpm_attest.Server.Checks.{
  is_blank, decode_field, machine_of, ak_pub, is_enrolled, zero_digest, reported_pcr7,
}
use tpm_attest.Server.Nonces.{HasRow}

-- The TPM's signature over the message and the nonce verifies under the enrolled key, or under the
-- server's own for a machine that is not enrolled.
pub record IsSigned (tools : Tools) (report : AttestationReport) (db : Db) : Type 0 where
  pub message : Bytes
  pub signature : Bytes
  pub key : Bytes
  pub message_there : is_blank report.quote_msg_b64 ≡ false
  pub signature_there : is_blank report.quote_sig_b64 ≡ false
  pub message_decoded : decode_field report.quote_msg_b64 ≡ some message
  pub signature_decoded : decode_field report.quote_sig_b64 ≡ some signature
  pub key_known : ak_pub tools (machine_of report.machine_id db) ≡ some key
  pub verified : tools.checkquote key message signature report.nonce ≡ true

-- a PCR that is measured, or the PCR 10 of an enrolled machine
abbrev pub IsMeasured : Unicode → Bool → Text × Text → Type 0
IsMeasured u enrolled (idx, digest) =
    (u.lower digest ≢ u.lower zero_digest) ⊎ ((enrolled ≡ true) × (idx ≡ codes "10"))

-- a value against one that may be pinned
abbrev pub IsPinned : (Text → Text) → Text → Option Text → Type 0
IsPinned low value pinned = (pinned ≡ none) ⊎ ((v : Text) × (pinned ≡ some v) × (low value ≡ low v))

-- a count is not below what is required, or nothing is
abbrev pub Meets : ℤ → ℤ → Type 0
Meets (pos required) (pos count) = required ≤ count
Meets (pos required) (negsuc count) = required ≡ 0
Meets (negsuc required) count = Unit

-- the nonce is issued and has not expired
abbrev pub IsFresh : Time → AttestationReport → Db → Type 0
IsFresh now report db = (t : Time) × (now ≤ t) × HasRow report.nonce t db.active_nonces

module _ (cfg : Config) (u : Unicode) (tools : Tools) where
  pub record IsAcceptable (report : AttestationReport) (db : Db) : Type 0 where
    pub quoted : report.quote_available ≡ true
    pub signed : IsSigned tools report db
    pub hardware :
        (cfg.strict_ek_verification ≡ false)
        ⊎ ((m : Machine) × (machine_of report.machine_id db ≡ some m) × (m.ek_verified ≡ true))
    pub some_pcrs : report.pcrs ≢ []
    pub measured : All (IsMeasured u (is_enrolled report db)) report.pcrs
    pub booted : (is_enrolled report db ≡ true) ⊎ (report.ima_summary.has_boot_aggregate ≡ true)
    pub root_length : length report.ima_merkle_root ≡ 64
    pub root_number : is_int16 u report.ima_merkle_root ≡ true
    pub some_entries : IsPositive report.ima_leaf_count
    pub root_pinned : IsPinned u.lower report.ima_merkle_root (get_active_ima_root db)
    pub pcr7_pinned :
        (cfg.require_pcr7_pinning ≡ false)
        ⊎ IsPinned u.lower (reported_pcr7 report) (get_pinned_pcr (codes "7") db)
    pub enough_entries : Meets cfg.require_ima_minimum_entries report.ima_leaf_count
