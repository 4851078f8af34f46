-- ===== src/Shim/Payloads.antt =====
-- What a payload to a game client says about the answer of the server (phase3/shim.py).
use tpm_attest.Prelude.{
  ◌≡◌, ◌≢◌, refl, ap, inl, inr, Bool, true, some, [], String, Bool-cases, codes, Exception, Result,
  ok, raise, is_runtime_error,
}
use tpm_attest.Python.Json.{Json, null, boolean, number, string, array, object, get, is_true}
use tpm_attest.Shim.{ShimReport, Step}
use tpm_attest.Shim.Requests.{Reply, post_report}
use tpm_attest.Shim.Client.{
  Connection, Payload, valid, invalid, Ending, closed, send_response, respond, refuse,
  is_report_error, answer, with_result, with_report,
}

-- the client was told that it is attested
abbrev pub IsValid : Json → Ending → Type 0
IsValid token ending = ending ≡ closed (some (valid token))

pub send_response-some :
    (conn : Connection) (p q : Payload) → send_response conn p ≡ closed (some q) → p ≡ q
unfolding send_response
send_response-some conn p q h = elim (Bool-cases conn.sends) [
  | inl e ↦ cc (rw e at h)
  | inr e ↦ absurd (cc (rw e at h))
]

-- a refusal is never an attestation
pub refuse-not_valid :
    (catches : Exception → Bool) (conn : Connection) (reason : String) (e : Exception)
    (token : Json)
    → refuse catches conn reason e ≢ closed (some (valid token))
unfolding refuse
refuse-not_valid catches conn reason e token h = elim (Bool-cases (catches e)) [
  | inl c ↦
      let sent =
        send_response-some conn (invalid (string (codes reason))) (valid token) (rw c at h) in
      absurd (cc)
  | inr c ↦ absurd (cc (rw c at h))
]

pub respond-valid :
    (conn : Connection) (value : Result Json) (token : Json)
    → IsValid token (respond conn valid value)
    → value ≡ ok token
unfolding respond
respond-valid conn (raise e) token h = absurd (cc)
respond-valid conn (ok value) token h =
    let sent = send_response-some conn (valid value) (valid token) h in cc

pub respond-not_valid :
    (conn : Connection) (value : Result Json) (token : Json)
    → respond conn invalid value ≢ closed (some (valid token))
unfolding respond
respond-not_valid conn (raise e) token h = absurd (cc)
respond-not_valid conn (ok value) token h =
    let sent = send_response-some conn (invalid value) (valid token) h in absurd (cc)

pub true-boolean : (flag : Json) → is_true flag ≡ true → flag ≡ boolean true
unfolding is_true
true-boolean (boolean b) h = ap boolean h
true-boolean null h = absurd (cc)
true-boolean (number l z) h = absurd (cc)
true-boolean (string s) h = absurd (cc)
true-boolean (array items) h = absurd (cc)
true-boolean (object fields) h = absurd (cc)

pub answer-valid :
    (conn : Connection) (result token : Json) (flag : Result Json)
    → IsValid token (answer conn result flag)
    → (flag ≡ ok (boolean true)) × (get (codes "token") (string []) result ≡ ok token)
unfolding answer
answer-valid conn result token (raise e) h = absurd (cc)
answer-valid conn result token (ok flag) h = elim (Bool-cases (is_true flag)) [
  | inl e ↦ (
    ap ok (true-boolean flag e),
    respond-valid conn (get (codes "token") (string []) result) token (rw e at h),
  )
  | inr e ↦ absurd (
      respond-not_valid conn (get (codes "reason") (string (codes "attestation failed")) result)
        token (rw e at h))
]

pub with_result-valid :
    (conn : Connection) (response : Result Json) (token : Json)
    → IsValid token (with_result conn response)
    → (result : Json) × (response ≡ ok result)
      × (get (codes "valid") null result ≡ ok (boolean true))
      × (get (codes "token") (string []) result ≡ ok token)
unfolding with_result
with_result-valid conn (raise e) token h =
    absurd (refuse-not_valid is_runtime_error conn "attestation server unreachable" e token h)
with_result-valid conn (ok result) token h =
    let (flag, sent) = answer-valid conn result token (get (codes "valid") null result) h in
    (result, refl, flag, sent)

-- the server was asked, and said so
pub record Confirmed (reply : Reply) (token : Json) : Type 0 where
  pub result : Json
  pub response : post_report reply ≡ ok result
  pub flag : get (codes "valid") null result ≡ ok (boolean true)
  pub token_sent : get (codes "token") (string []) result ≡ ok token

pub with_report-valid :
    (conn : Connection) (handshake token : Json) (step : Step ShimReport)
    → IsValid token (with_report conn handshake step).0
    → (report : ShimReport) × (step.0 ≡ ok report)
      × Confirmed (conn.attest_reply report handshake) token
unfolding with_report
with_report-valid conn handshake token (raise e, cache) h =
    absurd (refuse-not_valid is_report_error conn "attestation report generation failed" e token h)
with_report-valid conn handshake token (ok report, cache) h =
    let (result, response, flag, sent) =
      with_result-valid conn (post_report (conn.attest_reply report handshake)) token h in
    (report, refl, record { result = result; response = response; flag = flag; token_sent = sent })
