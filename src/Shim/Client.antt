-- ===== src/Shim/Client.antt =====
-- A connection of a game client and the loop over them (phase3/shim.py).
use tpm_attest.Prelude.{
  Bool, true, false, if◌then◌else◌, ◌||◌, List, [], ◌∷◌, Option, some, none, codes, Text, Bytes,
  String, Exception, Result, ok, raise, is_runtime_error, is_value_error, is_json_decode_error,
}
use tpm_attest.Python.Json.{Json, Fields, null, boolean, string, object, end, field, get, is_true}
use tpm_attest.Python.Unicode.{Unicode}
use tpm_attest.Python.Process.{Ran}
use tpm_attest.Agent.Log.{Completed}
use tpm_attest.Agent.Report.{Host}
use tpm_attest.Shim.{LeafCache, ShimReport, Step, collect_report_incremental}
use tpm_attest.Shim.Requests.{Reply, get_challenge, post_report}

-- What one connection meets: the handshake, `none` where recv raises an OSError, else what json.loads
-- makes of it; the server's answers; the machine and its clock; and whether sendall succeeds.
pub record Connection : Type 0 where
  pub received : Option (Result Json)
  pub challenge_reply : Reply
  pub host : Host
  pub count_log : Ran Completed
  pub timestamp : Text
  pub attest_reply : ShimReport → Json → Reply
  pub sends : Bool

-- the dicts that `_send_response` gets
pub data Payload : Type 0 where
  valid : (token : Json) → Payload
  invalid : (reason : Json) → Payload

-- the dict of a payload
unfoldable pub payload_fields : Payload → Fields
payload_fields (valid token) =
    field (codes "valid") (boolean true) (field (codes "token") token end)
payload_fields (invalid reason) =
    field (codes "valid") (boolean false) (field (codes "reason") reason end)

-- The connection is closed, with the payload that went out, or an exception leaves the handler.
pub data Ending : Type 0 where
  closed : (sent : Option Payload) → Ending
  uncaught : Exception → Ending

-- `_send_response` and `conn.close()`: an OSError is only logged
unfoldable pub send_response : Connection → Payload → Ending
send_response conn payload = closed (if conn.sends then some payload else none)

-- an `except` clause that answers with a reason
unfoldable pub refuse : (Exception → Bool) → Connection → String → Exception → Ending
unfolding send_response
refuse catches conn reason e =
    if catches e then send_response conn (invalid (string (codes reason))) else uncaught e

-- `except (RuntimeError, ValueError)`
unfoldable pub is_report_error : Exception → Bool
is_report_error e = is_runtime_error e || is_value_error e

-- Step 1: bytes that are not JSON count as an empty dict, and the log line asks it for its keys.
unfoldable pub read_handshake : Result Json → Result Json
read_handshake (raise e) = if is_json_decode_error e then ok (object end) else raise e
read_handshake (ok handshake) = elim (get (codes "game_id") null handshake) [
  | ok game_id ↦ ok handshake
  | raise e ↦ raise e
]

-- a payload with the value of a key, if the answer has keys
unfoldable pub respond : Connection → (Json → Payload) → Result Json → Ending
unfolding send_response
respond conn payload (raise e) = uncaught e
respond conn payload (ok value) = send_response conn (payload value)

-- step 5
unfoldable pub answer : Connection → Json → Result Json → Ending
unfolding respond
answer conn result (raise e) = uncaught e
answer conn result (ok flag) =
    if is_true flag
    then respond conn valid (get (codes "token") (string []) result)
    else respond conn invalid (get (codes "reason") (string (codes "attestation failed")) result)

-- step 4
unfoldable pub with_result : Connection → Result Json → Ending
unfolding answer refuse
with_result conn (raise e) = refuse is_runtime_error conn "attestation server unreachable" e
with_result conn (ok result) = answer conn result (get (codes "valid") null result)

-- step 3
unfoldable pub with_report : Connection → Json → Step ShimReport → Ending × LeafCache
unfolding with_result refuse is_report_error
with_report conn handshake (raise e, cache) =
    (refuse is_report_error conn "attestation report generation failed" e, cache)
with_report conn handshake (ok report, cache) =
    (with_result conn (post_report (conn.attest_reply report handshake)), cache)

-- the loop of `run_server` goes on
unfoldable pub serve_rest : Ending × LeafCache → List Ending × LeafCache → List Ending × LeafCache
serve_rest (closed sent, cache) (endings, last) = (closed sent ∷ endings, last)
serve_rest (uncaught e, cache) rest = (uncaught e ∷ [], cache)

module _ (u : Unicode) (sha256 : Bytes → Bytes) (machine_id : Text) where
  -- step 2
  unfoldable pub with_nonce : Connection → Json → LeafCache → Result Json → Ending × LeafCache
  unfolding with_report refuse
  with_nonce conn handshake cache (raise e) =
      (refuse is_runtime_error conn "challenge fetch failed" e, cache)
  with_nonce conn handshake cache (ok nonce) = with_report conn handshake (
      collect_report_incremental u sha256 machine_id conn.host conn.count_log conn.timestamp nonce
        cache)

  unfoldable pub with_handshake : Connection → LeafCache → Result Json → Ending × LeafCache
  unfolding with_nonce
  with_handshake conn cache (raise e) = (uncaught e, cache)
  with_handshake conn cache (ok handshake) =
      with_nonce conn handshake cache (get_challenge conn.challenge_reply)

  unfoldable pub with_received : Connection → LeafCache → Option (Result Json) → Ending × LeafCache
  unfolding with_handshake read_handshake
  with_received conn cache none = (closed none, cache)
  with_received conn cache (some loaded) = with_handshake conn cache (read_handshake loaded)

  -- `_handle_client`, on the cache of the daemon
  unfoldable pub handle_client : Connection → LeafCache → Ending × LeafCache
  unfolding with_received
  handle_client conn cache = with_received conn cache conn.received

  -- The loop of `run_server`: an exception that leaves the handler ends the daemon, and the
  -- connections behind it are not served.
  unfoldable pub serve_loop : List Connection → LeafCache → List Ending × LeafCache
  unfolding handle_client serve_rest
  serve_loop [] cache = ([], cache)
  serve_loop (conn ∷ conns) cache =
      let first = handle_client conn cache in
      let rest = serve_loop conns first.1 in serve_rest first rest
