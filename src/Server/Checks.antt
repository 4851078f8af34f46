-- ===== src/Server/Checks.antt =====
-- The checks of `_verify_report` (server/main.py), one function for each, and their order.
use tpm_attest.Prelude.{
  ◌-◌, Bool, true, false, not, ◌&&◌, Option, none, some, [], ◌∷◌, ltb, ◌==◌, if◌then◌else◌, Text,
  Bytes, codes, text_eq, is_empty, length,
}
use tpm_attest.Python.Int.{ℤ, pos, ltz}
use tpm_attest.Python.Unicode.{Unicode, is_int16}
use tpm_attest.Python.Base64.{b64decode}
use tpm_attest.Server.Database.{
  Time, Machine, PcrMap, Db, purge_nonces, select_nonce, delete_nonce, get_enrolled_machine,
  get_active_ima_root, get, get_pinned_pcr,
}
use tpm_attest.Server.Policy.{
  Config, Tools, AttestationReport, Reason, nonce_not_recognised, nonce_expired,
  quote_not_available, quote_blobs_missing, quote_verification_failed, no_machine_id,
  not_registered, ek_not_verified, pcr_map_empty, pcr_all_zero, no_boot_aggregate,
  root_wrong_length, root_not_hexadecimal, no_ima_entries, root_mismatch, pcr7_mismatch,
  too_few_entries,
}

-- `if fail: return fail`
infixr 20 ◌or_else◌
abbrev pub ◌or_else◌ : Option Reason → Option Reason → Option Reason
some r or_else rest = some r
none or_else rest = rest

-- a check that returns a reason where the test fails
abbrev pub require : Bool → Reason → Option Reason
require test r = if test then none else some r

-- the row that the nonce has, once the expired rows are gone
unfoldable pub judge_nonce : Time → Option Time → Option Reason
judge_nonce now none = some nonce_not_recognised
judge_nonce now (some expiry) = if ltb expiry now then some (nonce_expired (now - expiry)) else none

unfoldable pub consume_nonce : Time → Text → Db → Option Reason × Db
unfolding judge_nonce purge_nonces select_nonce delete_nonce
consume_nonce now n db =
    let rows = purge_nonces now db.active_nonces in
    (judge_nonce now (select_nonce n rows), record db { active_nonces = delete_nonce n rows })

-- `not x`, for a field that may be missing or empty
abbrev pub is_blank : Option Text → Bool
is_blank none = true
is_blank (some s) = is_empty s

-- `base64.b64decode` of a field that is there
abbrev pub decode_field : Option Text → Option Bytes
decode_field none = none
decode_field (some s) = b64decode s

-- `if machine_id: row = _get_enrolled_machine(machine_id)`
unfoldable pub machine_of : Option Text → Db → Option Machine
machine_of none db = none
machine_of (some id') db = if is_empty id' then none else get_enrolled_machine id' db

-- the enrolled key, or the one of the server's own TPM; `none` where reading it fails
unfoldable pub ak_pub : Tools → Option Machine → Option Bytes
ak_pub tools (some m) = b64decode m.ak_pub_b64
ak_pub tools none = tools.readpublic

-- All failures behind the blobs end in one reason.
unfoldable pub check_blobs :
    Tools → Text → Option Bytes → Option Bytes → Option Bytes → Option Reason
check_blobs tools n (some msg) (some sig) (some key) =
    require (tools.checkquote key msg sig n) quote_verification_failed
check_blobs tools n _ _ _ = some quote_verification_failed

unfoldable pub verify_quote_signature : Tools → AttestationReport → Db → Option Reason
unfolding machine_of ak_pub check_blobs
verify_quote_signature tools report db =
    if is_blank report.quote_msg_b64
    then some quote_blobs_missing
    else if is_blank report.quote_sig_b64
    then some quote_blobs_missing
    else check_blobs tools report.nonce (decode_field report.quote_msg_b64)
        (decode_field report.quote_sig_b64) (ak_pub tools (machine_of report.machine_id db))

unfoldable pub check_ek_row : Text → Option Machine → Option Reason
check_ek_row id' none = some (not_registered id')
check_ek_row id' (some m) = require m.ek_verified (ek_not_verified id')

unfoldable pub check_ek_of : Option Text → Db → Option Reason
unfolding check_ek_row
check_ek_of none db = some no_machine_id
check_ek_of (some id') db =
    if is_empty id' then some no_machine_id else check_ek_row id' (get_enrolled_machine id' db)

unfoldable pub check_ek : Config → AttestationReport → Db → Option Reason
unfolding check_ek_of
check_ek cfg report db =
    if cfg.strict_ek_verification then check_ek_of report.machine_id db else none

-- `_is_enrolled`
unfoldable pub is_enrolled : AttestationReport → Db → Bool
unfolding machine_of
is_enrolled report db = elim (machine_of report.machine_id db) [ none ↦ false | some m ↦ true ]

-- `_ZERO_DIGEST_PREFIX`
abbrev pub zero_digest : Text
zero_digest = codes "0x0000000000000000000000000000000000000000000000000000000000000000"

-- the loop over the PCRs
unfoldable pub check_pcr_values : Unicode → Bool → PcrMap → Option Reason
check_pcr_values u enrolled [] = none
check_pcr_values u enrolled ((idx, digest) ∷ pcrs) =
    let rest = check_pcr_values u enrolled pcrs in
    if text_eq (u.lower digest) (u.lower zero_digest)
    then (if enrolled && text_eq idx (codes "10") then rest else some (pcr_all_zero idx))
    else rest

unfoldable pub check_pcrs : Unicode → AttestationReport → Bool → Option Reason
unfolding check_pcr_values
check_pcrs u report enrolled =
    if is_empty report.pcrs then some pcr_map_empty else check_pcr_values u enrolled report.pcrs

unfoldable pub check_boot : AttestationReport → Bool → Option Reason
check_boot report enrolled =
    if not enrolled && not report.ima_summary.has_boot_aggregate
    then some no_boot_aggregate
    else none

-- the structural checks of the root and of the leaf count
unfoldable pub check_root_form : Unicode → AttestationReport → Option Reason
check_root_form u report =
    require (length report.ima_merkle_root == 64)
      (root_wrong_length (length report.ima_merkle_root))
    or_else require (is_int16 u report.ima_merkle_root)
        (root_not_hexadecimal report.ima_merkle_root)
    or_else require (ltz (pos 0) report.ima_leaf_count) no_ima_entries

unfoldable pub check_pinned_root : Unicode → AttestationReport → Option Text → Option Reason
check_pinned_root u report none = none
check_pinned_root u report (some pinned_root) =
    require (text_eq (u.lower report.ima_merkle_root) (u.lower pinned_root)) root_mismatch

-- `report.pcrs.get("7", "")`
abbrev pub reported_pcr7 : AttestationReport → Text
reported_pcr7 report = elim (get (codes "7") report.pcrs) [ none ↦ [] | some v ↦ v ]

unfoldable pub check_pcr7_value : Unicode → AttestationReport → Option Text → Option Reason
check_pcr7_value u report none = none
check_pcr7_value u report (some pinned) =
    require (text_eq (u.lower (reported_pcr7 report)) (u.lower pinned))
      (pcr7_mismatch pinned (reported_pcr7 report))

unfoldable pub check_pcr7 : Config → Unicode → AttestationReport → Db → Option Reason
unfolding check_pcr7_value
check_pcr7 cfg u report db =
    if cfg.require_pcr7_pinning
    then check_pcr7_value u report (get_pinned_pcr (codes "7") db)
    else none

unfoldable pub check_minimum : ℤ → ℤ → Option Reason
check_minimum required count =
    if ltz (pos 0) required && ltz count required
    then some (too_few_entries count required)
    else none

unfoldable pub check_entries : Config → AttestationReport → Option Reason
unfolding check_minimum
check_entries cfg report = check_minimum cfg.require_ima_minimum_entries report.ima_leaf_count

-- The checks behind the nonce, in the order of the code. They read the tables and write none.
unfoldable pub check_report : Config → Unicode → Tools → AttestationReport → Db → Option Reason
check_report cfg u tools report db =
    require report.quote_available quote_not_available
    or_else verify_quote_signature tools report db
    or_else check_ek cfg report db
    or_else check_pcrs u report (is_enrolled report db)
    or_else check_boot report (is_enrolled report db)
    or_else check_root_form u report
    or_else check_pinned_root u report (get_active_ima_root db)
    or_else check_pcr7 cfg u report db
    or_else check_entries cfg report

-- The nonce is consumed first, whatever the other checks say.
unfoldable pub verify_report :
    Config → Unicode → Tools → Time → AttestationReport → Db → Option Reason × Db
unfolding consume_nonce check_report
verify_report cfg u tools now report db =
    let (nonce_fail, db') = consume_nonce now report.nonce db in
    (nonce_fail or_else check_report cfg u tools report db', db')
