-- ===== src/Shim/Registration.antt =====
-- The registration of the machine when the daemon starts, and what the server keeps of it
-- (phase3/shim.py, with the endpoint of server/main.py).
use tpm_attest.Prelude.{
  Bool, [], ◌>>=◌, Option, none, some, List, if◌then◌else◌, is_empty, Text, Bytes, Result, ok,
  raise,
}
use tpm_attest.Python.Process.{Ran, make_tempdir}
use tpm_attest.Python.Unicode.{Unicode}
use tpm_attest.Agent.Report.{ToolRun, Host, attempt, read_ek_cert}
use tpm_attest.Server.Policy.{RegisterRequest}
use tpm_attest.Shim.{LeafCache, empty_cache}
use tpm_attest.Shim.Requests.{Reply, answered, http_error, unreachable, broken, loads}
use tpm_attest.Shim.Client.{Connection, Ending, serve_loop}

-- `_read_ak_pub_b64`: whether the temporary directory is made, in front of the `try`, and the run of
-- tpm2_readpublic on the handle of the attestation key
unfoldable pub read_ak_pub_b64 : Bool → Ran ToolRun → Result (Option Text)
unfolding make_tempdir attempt
read_ak_pub_b64 makes run = do made ← make_tempdir makes; ok (attempt run none)

-- what `_auto_register` takes from `read_ek_cert`, whose exceptions it catches
unfoldable pub ek_cert_or_none : Result (Option Text) → Option Text
ek_cert_or_none (ok ek_cert_b64) = ek_cert_b64
ek_cert_or_none (raise e) = none

-- `if not ak_pub_b64: return`, and the payload
unfoldable pub request_for : Text → Host → Option Text → Option RegisterRequest
unfolding ek_cert_or_none read_ek_cert
request_for machine_id host none = none
request_for machine_id host (some ak_pub_b64) =
    if is_empty ak_pub_b64
    then none
    else some (record {
      machine_id = machine_id;
      ak_pub_b64 = ak_pub_b64;
      ek_cert_b64 = ek_cert_or_none (read_ek_cert host);
    })

-- Everything but a failure to read the body of an HTTP error is caught.
unfoldable pub log_reply : Reply → Result (Unit {0})
log_reply (http_error (broken e)) = raise e
log_reply (http_error (loads result)) = ok _
log_reply (answered body) = ok _
log_reply unreachable = ok _

unfoldable pub post_registration :
    Option RegisterRequest → (RegisterRequest → Reply) → Result (Unit {0})
unfolding log_reply
post_registration none post = ok _
post_registration (some req) post = log_reply (post req)

-- `_auto_register` behind the reading of the key: the request that is posted, and how the call ends
unfoldable pub register_with :
    Text
    → Host
    → (RegisterRequest → Reply)
    → Result (Option Text)
    → Option RegisterRequest × Result (Unit {0})
unfolding request_for post_registration
register_with machine_id host post (raise e) = (none, raise e)
register_with machine_id host post (ok ak_pub_b64) =
    let request = request_for machine_id host ak_pub_b64 in
    (request, post_registration request post)

-- `_auto_register`
unfoldable pub auto_register :
    Text
    → Bool
    → Ran ToolRun
    → Host
    → (RegisterRequest → Reply)
    → Option RegisterRequest × Result (Unit {0})
unfolding read_ak_pub_b64 register_with
auto_register machine_id makes ak_run host post =
    register_with machine_id host post (read_ak_pub_b64 makes ak_run)

module _ (u : Unicode) (sha256 : Bytes → Bytes) (machine_id : Text) where
  -- The socket is bound by then: an exception of the registration ends the daemon.
  unfoldable pub serve_after : Result (Unit {0}) → List Connection → List Ending × LeafCache
  unfolding serve_loop
  serve_after (raise e) conns = ([], empty_cache)
  serve_after (ok done) conns = serve_loop u sha256 machine_id conns empty_cache

  -- `run_server`
  unfoldable pub run_server :
      Bool
      → Ran ToolRun
      → Host
      → (RegisterRequest → Reply)
      → List Connection
      → List Ending × LeafCache
  unfolding auto_register serve_after
  run_server makes ak_run host post conns =
      serve_after (auto_register machine_id makes ak_run host post).1 conns
