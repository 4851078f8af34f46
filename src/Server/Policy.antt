-- ===== src/Server/Policy.antt =====
-- The settings, the request bodies and the reasons of server/main.py.
use tpm_attest.Prelude.{ℕ, Bool, false, ◌||◌, Option, none, some, Text, Bytes, codes, text_eq}
use tpm_attest.Python.Int.{ℤ}
use tpm_attest.Server.Database.{PcrMap}

-- `os.environ.get(name, "0") in ("1", "true", "True")`
unfoldable pub env_flag : Option Text → Bool
env_flag none = false
env_flag (some v) = text_eq v (codes "1") || text_eq v (codes "true") || text_eq v (codes "True")

pub record Config : Type 0 where
  pub strict_ek_verification : Bool
  pub require_pcr7_pinning : Bool
  pub require_iommu_enabled : Bool
  pub require_ima_minimum_entries : ℤ

-- What the server runs and does not implement: tpm2_checkquote (key, message, signature, nonce;
-- whether it exits with 0), tpm2_readpublic (the key that it writes, if it exits with 0) and the
-- X.509 parser of `cryptography` (whether it returns a certificate).
pub record Tools : Type 0 where
  pub checkquote : Bytes → Bytes → Bytes → Text → Bool
  pub readpublic : Option Bytes
  pub load_der_x509_certificate : Bytes → Bool

pub record ImaSummary : Type 0 where
  pub total_entries : ℤ
  pub unique_files : ℤ
  pub has_boot_aggregate : Bool
  pub modules_measured : ℤ

pub record AttestationReport : Type 0 where
  pub version : Text
  pub timestamp : Text
  pub nonce : Text
  pub pcrs : PcrMap
  pub ima_summary : ImaSummary
  pub ima_merkle_root : Text
  pub ima_merkle_depth : ℤ
  pub ima_leaf_count : ℤ
  pub quote_available : Bool
  pub quote_msg_b64 : Option Text
  pub quote_sig_b64 : Option Text
  pub machine_id : Option Text

pub record RegisterRequest : Type 0 where
  pub machine_id : Text
  pub ak_pub_b64 : Text
  pub ek_cert_b64 : Option Text

-- The texts that the checks return, with what the f-strings put in. None of them is empty.
pub data Reason : Type 0 where
  nonce_not_recognised : Reason
  nonce_expired : ℕ → Reason
  quote_not_available : Reason
  quote_blobs_missing : Reason
  quote_verification_failed : Reason
  no_machine_id : Reason
  not_registered : Text → Reason
  ek_not_verified : Text → Reason
  pcr_map_empty : Reason
  pcr_all_zero : Text → Reason
  no_boot_aggregate : Reason
  root_wrong_length : ℕ → Reason
  root_not_hexadecimal : Text → Reason
  no_ima_entries : Reason
  root_mismatch : Reason
  pcr7_mismatch : Text → Text → Reason
  too_few_entries : ℤ → ℤ → Reason

-- the texts that `_verify_ek_cert` returns beside its verdict
pub data EkInfo : Type 0 where
  no_cert_supplied : EkInfo
  not_base64 : EkInfo
  x509_parsed : EkInfo
  raw_key_rejected : EkInfo
  raw_key_accepted : ℕ → EkInfo
  too_short : EkInfo
