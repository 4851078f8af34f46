-- ===== src/Server/Handlers.antt =====
-- The endpoints of server/main.py. A handler takes what it reads of the clock and of the generators
-- of nonces and tokens, and returns its response beside the tables that it leaves.
use tpm_attest.Prelude.{
  ℕ, ◌+◌, ◌*◌, Bool, true, false, Option, none, some, leb, if◌then◌else◌, Text, Bytes, is_empty,
  length, ok, raise,
}
use tpm_attest.Python.Unicode.{Unicode}
use tpm_attest.Python.Base64.{b64decode}
use tpm_attest.Server.Database.{
  Time, Db, issue_nonce, register_machine, get_active_ima_root, deactivate_all, activate_latest,
  pin_baseline,
}
use tpm_attest.Server.Policy.{
  Config, Tools, AttestationReport, RegisterRequest, Reason, EkInfo, no_cert_supplied, not_base64,
  x509_parsed, raw_key_rejected, raw_key_accepted, too_short,
}
use tpm_attest.Server.Checks.{verify_report}

-- `_TOKEN_LIFETIME_MINUTES`, in microseconds
abbrev pub token_lifetime : ℕ
token_lifetime = 5 * 60 * 1_000_000

-- the JSON bodies, in the two forms of each endpoint; `internal_error` is an exception in a handler
pub data Response : Type 0 where
  challenged : Text → Response
  registered : Text → Bool → EkInfo → Response
  not_registered : EkInfo → Response
  granted : Text → Time → Response
  denied : Reason → Response
  enrolled : Text → Response
  not_enrolled : Reason → Response
  internal_error : Response

-- the HTTP status codes
unfoldable pub status_code : Response → ℕ
status_code (challenged nonce) = 200
status_code (registered id' verified info) = 200
status_code (not_registered info) = 400
status_code (granted token expires_at) = 200
status_code (denied reason) = 400
status_code (enrolled root) = 200
status_code (not_enrolled reason) = 400
status_code internal_error = 500

-- The transaction of an insert that fails is rolled back.
unfoldable pub challenge : Time → Text → Db → Response × Db
challenge now token db = elim (issue_nonce now token db) [
  | ok (nonce, db') ↦ (challenged nonce, db')
  | raise e ↦ (internal_error, db)
]

-- the bytes, once they are decoded
unfoldable pub judge_ek : Config → Tools → Bytes → Bool × EkInfo
judge_ek cfg tools der_bytes =
    if tools.load_der_x509_certificate der_bytes
    then (true, x509_parsed)
    else if leb 4 (length der_bytes)
    then (if cfg.strict_ek_verification
        then (false, raw_key_rejected)
        else (true, raw_key_accepted (length der_bytes)))
    else (false, too_short)

unfoldable pub verify_ek_cert : Config → Tools → Text → Bool × EkInfo
unfolding judge_ek
verify_ek_cert cfg tools ek_cert_b64 = elim (b64decode ek_cert_b64) [
  | none ↦ (false, not_base64)
  | some der_bytes ↦ judge_ek cfg tools der_bytes
]

-- the verdict on the certificate of a request; `none` where there is none, or an empty text
unfoldable pub ek_verdict : Config → Tools → Option Text → Option (Bool × EkInfo)
unfolding verify_ek_cert
ek_verdict cfg tools none = none
ek_verdict cfg tools (some cert) =
    if is_empty cert then none else some (verify_ek_cert cfg tools cert)

unfoldable pub finish_registration :
    Time → RegisterRequest → Option (Bool × EkInfo) → Db → Response × Db
finish_registration now req none db = (
  registered req.machine_id false no_cert_supplied,
  register_machine now req.machine_id req.ak_pub_b64 req.ek_cert_b64 false db,
)
finish_registration now req (some (false, info)) db = (not_registered info, db)
finish_registration now req (some (true, info)) db = (
  registered req.machine_id true info,
  register_machine now req.machine_id req.ak_pub_b64 req.ek_cert_b64 true db,
)

unfoldable pub register : Config → Tools → Time → RegisterRequest → Db → Response × Db
unfolding ek_verdict finish_registration
register cfg tools now req db =
    finish_registration now req (ek_verdict cfg tools req.ek_cert_b64) db

-- what a request to /attest or /enroll reads of the clock: at the nonce, and at its end
pub record Clock : Type 0 where
  pub checked : Time
  pub finished : Time

unfoldable pub attest_response : Time → Text → Option Reason → Response
attest_response now token none = granted token (now + token_lifetime)
attest_response now token (some reason) = denied reason

-- `token` is what `uuid.uuid4` returns
unfoldable pub attest :
    Config → Unicode → Tools → Clock → Text → AttestationReport → Db → Response × Db
unfolding attest_response
attest cfg u tools clock token report db =
    let (failure_reason, db') = verify_report cfg u tools clock.checked report db in
    (attest_response clock.finished token failure_reason, db')

-- the first transaction of /enroll
unfoldable pub enroll_begin : Db → Db
enroll_begin db = record db { baselines = deactivate_all db.baselines }

-- `if current_root:`
unfoldable pub restore : Option Text → Db → Db
restore none db = db
restore (some root) db =
    if is_empty root then db else record db { baselines = activate_latest root db.baselines }

-- the rest of /enroll, behind the verification
unfoldable pub enroll_end :
    Unicode → Time → Option Text → AttestationReport → Option Reason → Db → Response × Db
unfolding restore
enroll_end u now current_root report (some reason) db =
    (not_enrolled reason, restore current_root db)
enroll_end u now current_root report none db =
    let new_root = u.lower report.ima_merkle_root in
    (enrolled new_root, pin_baseline u now new_root report.pcrs db)

unfoldable pub enroll : Config → Unicode → Tools → Clock → AttestationReport → Db → Response × Db
unfolding enroll_begin enroll_end
enroll cfg u tools clock report db =
    let current_root = get_active_ima_root db in
    let (failure_reason, db') = verify_report cfg u tools clock.checked report (enroll_begin db) in
    enroll_end u clock.finished current_root report failure_reason db'
