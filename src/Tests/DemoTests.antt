-- ===== src/Tests/DemoTests.antt =====
-- A run of the demo game through its gate (demo_game/).
use tpm_attest.Prelude.{◌≡◌, refl, subst, sym, true, some, codes, text_eq}
use tpm_attest.Python.Json.{Json, string, object, get_field, truthy}
use tpm_attest.Tests.{ascii, toy_sha}
use tpm_attest.Tests.DaemonTests.{conn, m1, told_t}
use tpm_attest.Shim.{empty_cache}
use tpm_attest.Shim.Client.{Payload, valid, payload_fields, Ending, handle_client}
use tpm_attest.Shim.Safety.{Attested}
use tpm_attest.Demo.Bridge.{Query, loaded, run_statement}
use tpm_attest.Demo.Gate.{
  return_key, handle_event, end_frame, playing, State, started, Reach, start, next, bridges,
  handles, ends,
}
use tpm_attest.Demo.Threads.{IsWhole, Reach-IsWhole}
use tpm_attest.Demo.Launch.{Arrives, whole, launch-Attested}

abbrev pub payload : Payload
payload = valid (string (codes "t"))

abbrev pub query : Query
query = loaded (object (payload_fields payload))

-- a key, an early frame, the five steps of the bridge, RETURN and the end of the frame
abbrev pub play : State → State
play s = record s { phase = end_frame s.result (handle_event return_key s.result s.phase) }

abbrev moved : State → State
moved s = record s {
  thread = (run_statement query s.thread s.result).0;
  result = (run_statement query s.thread s.result).1;
}

abbrev pub told : State
told = moved (moved (moved (moved (moved (play started)))))

told-Reach : Reach query told
told-Reach =
    next
      (next
        (next (next (next (next (next start (handles return_key)) ends) bridges) bridges) bridges)
        bridges)
      bridges

pub played-Reach : Reach query (play told)
played-Reach = next (next told-Reach (handles return_key)) ends

done_t : told.result.done ≡ true
unfolding run_statement handle_event end_frame
done_t = refl

pub playing_t : (play told).phase ≡ playing
unfolding run_statement handle_event end_frame payload_fields get_field text_eq truthy
playing_t = refl

Reach-IsWhole_example : IsWhole query told.thread told.result
Reach-IsWhole_example = Reach-IsWhole told-Reach done_t

told-Arrives : Arrives (handle_client ascii toy_sha m1 conn empty_cache).0 query
told-Arrives = subst (λ (e : Ending). Arrives e query) (sym told_t) (whole payload)

launch-Attested_example :
    (token : Json) × ((play told).result.token ≡ some token)
    × Attested ascii toy_sha m1 conn empty_cache token
launch-Attested_example =
    launch-Attested ascii toy_sha m1 conn empty_cache told-Arrives played-Reach playing_t
