-- ===== src/Shim/Answers.antt =====
-- When the shim answers its client (phase3/shim.py).
use tpm_attest.Prelude.{
  ◌≡◌, ◌≢◌, true, some, codes, Text, Exception, Result, ok, raise, json_decode_error,
}
use tpm_attest.Python.Json.{Json, Fields, null, string, object, get_field}
use tpm_attest.Python.Process.{Ran, not_started}
use tpm_attest.Python.Unicode.{Unicode}
use tpm_attest.Agent.Log.{Completed}
use tpm_attest.Agent.Report.{Host}
use tpm_attest.Agent.Report.Raises.{Raises}
use tpm_attest.Shim.{ShimReport}
use tpm_attest.Shim.Requests.{Body, Reply, answered, http_error, unreachable, loads}
use tpm_attest.Shim.Client.{Connection, Payload, Ending, closed, is_report_error}

-- The body is a dict, or not JSON at all.
pub data IsDictOrNoJson : Result Json → Type 0 where
  is_dict : (fields : Fields) → IsDictOrNoJson (ok (object fields))
  no_json : IsDictOrNoJson (raise json_decode_error)

-- the body was read, and is of that kind
pub data IsReadable : Reply → Type 0 where
  is_answer : {body : Result Json} → IsDictOrNoJson body → IsReadable (answered (loads body))
  is_http_error : {body : Result Json} → IsDictOrNoJson body → IsReadable (http_error (loads body))
  is_unreachable : IsReadable unreachable

-- the endpoint for challenges keeps to its contract: a text under the key, whatever its length
pub data IsChallenge : Reply → Type 0 where
  is_text :
      (fields : Fields) (s : Text)
      → get_field (codes "nonce") null fields ≡ string s
      → IsChallenge (answered (loads (ok (object fields))))
  is_refused : (body : Body) → IsChallenge (http_error body)
  is_down : IsChallenge unreachable

-- The programs that a report runs start, and the temporary directory of the quote is made. A program
-- may still fail, leave no file, or print what is no text.
pub record Starts (host : Host) (count_log : Ran Completed) : Type 0 where
  pub pcrread : host.pcrread ≢ not_started
  pub summary_log : host.summary_log ≢ not_started
  pub line_count : count_log ≢ not_started
  pub entries_log : host.entries_log ≢ not_started
  pub quote_tempdir : host.quote_tempdir ≡ true
  pub tpm2_quote : (nonce : Text) → host.tpm2_quote nonce ≢ not_started

-- What a client that is served relies on: its handshake arrives, the programs of the machine start,
-- and the server's answers are of their kind. What the answers say is open.
pub record IsServable (conn : Connection) : Type 0 where
  pub loaded : Result Json
  pub arrives : conn.received ≡ some loaded
  pub handshake : IsDictOrNoJson loaded
  pub starts : Starts conn.host conn.count_log
  pub challenge : IsChallenge conn.challenge_reply
  pub response :
      (report : ShimReport) (handshake : Json) → IsReadable (conn.attest_reply report handshake)
  pub sends : conn.sends ≡ true

-- The client got a payload, and the connection was closed.
abbrev pub IsAnswered : Ending → Type 0
IsAnswered ending = (payload : Payload) × (ending ≡ closed (some payload))

-- the report raises what step 3 catches
abbrev IsCaught : Exception → Type 0
IsCaught e = is_report_error e ≡ true
