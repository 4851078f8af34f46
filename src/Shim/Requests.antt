-- ===== src/Shim/Requests.antt =====
-- The requests of the shim to the server (phase3/shim.py): the challenge and the report.
use tpm_attest.Prelude.{
  ◌==◌, if◌then◌else◌, codes, Exception, Result, ok, raise, runtime_error, type_error,
  is_json_decode_error, ◌>>=◌,
}
use tpm_attest.Python.Json.{Json, null, string, array, get, truthy, len}

-- the body of an answer: reading it raises, or it is what json.loads makes of it
pub data Body : Type 0 where
  broken : Exception → Body
  loads : Result Json → Body

-- What urlopen comes to. An HTTPError, which is a URLError too, has a body.
pub data Reply : Type 0 where
  answered : Body → Reply
  http_error : Body → Reply
  unreachable : Reply

-- `json.loads(resp.read())`
unfoldable pub read_json : Body → Result Json
read_json (broken e) = raise e
read_json (loads result) = result

-- `nonce[:16]` for the log: a dict refuses a slice (from Python 3.12 on with a KeyError)
unfoldable pub check_slice : Json → Result Json
check_slice (string s) = ok (string s)
check_slice (array items) = ok (array items)
check_slice _ = raise type_error

unfoldable pub check_nonce : Json → Result Json
unfolding check_slice
check_nonce nonce =
    if truthy nonce
    then (do n ← len nonce; if n == 64 then check_slice nonce else raise runtime_error)
    else raise runtime_error

-- `_get_challenge`: an error of the JSON reader and an answer that is not a dict are not caught.
unfoldable pub get_challenge : Reply → Result Json
unfolding read_json check_nonce
get_challenge (answered body) = do
  data' ← read_json body
  nonce ← get (codes "nonce") null data'
  check_nonce nonce
get_challenge (http_error body) = raise runtime_error
get_challenge unreachable = raise runtime_error

-- `except json.JSONDecodeError`
unfoldable pub parse_response : Result Json → Result Json
parse_response (ok result) = ok result
parse_response (raise e) = if is_json_decode_error e then raise runtime_error else raise e

-- `_post_report`, with what the server answers: the body of an HTTP error is parsed like any other.
unfoldable pub post_report : Reply → Result Json
unfolding read_json parse_response
post_report (answered (broken e)) = raise e
post_report (answered (loads result)) = parse_response result
post_report (http_error (broken e)) = raise e
post_report (http_error (loads result)) = parse_response result
post_report unreachable = raise runtime_error
