-- ===== src/Demo/Bridge.antt =====
-- The thread that asks the shim for the result (demo_game/eos_bridge.py).
use tpm_attest.Prelude.{Bool, true, false, Option, none, some, [], codes, Text}
use tpm_attest.Python.Json.{Json, Fields, boolean, string, object, end, field, get_field}

-- `_result`; the key "token" is there once the thread has set it
pub record Outcome : Type 0 where
  pub done : Bool
  pub valid : Json
  pub reason : Json
  pub token : Option Json

abbrev pub not_started : Outcome
not_started = record {
  done = false;
  valid = boolean false;
  reason = string (codes "not started");
  token = none;
}

-- what the `try` of `_query_shim_direct` comes to: the JSON value, or the message of the exception
pub data Query : Type 0 where
  loaded : Json → Query
  failed : (message : Text) → Query

-- `_query_shim_direct`
unfoldable pub query_shim_direct : Query → Json
query_shim_direct (loaded resp) = resp
query_shim_direct (failed message) =
    object (field (codes "valid") (boolean false) (field (codes "reason") (string message) end))

-- where `_run` stands
pub data Thread : Type 0 where
  asking : Thread
  at_valid : (resp : Json) → Thread
  at_reason at_token at_done ended : (resp : Fields) → Thread
  died : Thread

-- The next statement of `_run`: each assignment to `_result` is a step of its own. `resp.get` raises
-- where the response is no dict; that ends the thread.
unfoldable pub run_statement : Query → Thread → Outcome → Thread × Outcome
unfolding query_shim_direct get_field
run_statement query asking result = (at_valid (query_shim_direct query), result)
run_statement query (at_valid (object resp)) result =
    (at_reason resp, record result { valid = get_field (codes "valid") (boolean false) resp })
run_statement query (at_valid _) result = (died, result)
run_statement query (at_reason resp) result = (
  at_token resp,
  record result { reason = get_field (codes "reason") (string (codes "unknown")) resp },
)
run_statement query (at_token resp) result =
    (at_done resp, record result { token = some (get_field (codes "token") (string []) resp) })
run_statement query (at_done resp) result = (ended resp, record result { done = true })
run_statement query (ended resp) result = (ended resp, result)
run_statement query died result = (died, result)
