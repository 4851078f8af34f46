-- ===== src/Demo/Gate.antt =====
-- The attestation phase of the game: the loop of the main thread beside the thread of the bridge
-- (demo_game/game.py, demo_game/eos_bridge.py).
use tpm_attest.Prelude.{Bool, true, false, if◌then◌else◌, Option, none, some, []}
use tpm_attest.Python.Json.{Json, string, array, truthy}
use tpm_attest.Demo.Bridge.{Outcome, not_started, Query, Thread, asking, run_statement}

-- the events that the loop looks at
pub data Event : Type 0 where
  quit : Event
  escape_key : Event
  return_key : Event
  other : Event

-- The main thread: in the loop, with the variable `attesting`; in the game; gone; or ended by an
-- exception of the drawing.
pub data Phase : Type 0 where
  gate : (attesting : Bool) → Phase
  playing : Phase
  exited : Phase
  crashed : Phase

-- a key with RETURN
unfoldable pub press_return : Outcome → Bool → Phase
unfolding truthy
press_return r attesting =
    if r.done then (if truthy r.valid then gate false else exited) else gate attesting

-- one round of `for ev in pygame.event.get()`, with what `get_result` copies then
unfoldable pub at_gate : Event → Outcome → Bool → Phase
unfolding press_return
at_gate quit r attesting = exited
at_gate escape_key r attesting = exited
at_gate return_key r attesting = press_return r attesting
at_gate other r attesting = gate attesting

-- The events behind the one that ends the phase are still looked at.
unfoldable pub handle_event : Event → Outcome → Phase → Phase
unfolding at_gate
handle_event ev r (gate attesting) = at_gate ev r attesting
handle_event ev r playing = playing
handle_event ev r exited = exited
handle_event ev r crashed = crashed

-- `value[:n]` is taken without an exception
unfoldable pub can_slice : Json → Bool
can_slice (string s) = true
can_slice (array items) = true
can_slice _ = false

-- `result.get("token", "")`
unfoldable pub token_of : Option Json → Json
token_of none = string []
token_of (some token) = token

-- `attest_screen` returns: it cuts the token or the reason to fit
unfoldable pub draws : Outcome → Bool
unfolding can_slice token_of truthy
draws r = if r.done then can_slice (if truthy r.valid then token_of r.token else r.reason) else true

-- the end of a frame: the screen, and the test of `while attesting`
unfoldable pub end_frame : Outcome → Phase → Phase
unfolding draws
end_frame r (gate attesting) =
    if draws r then (if attesting then gate true else playing) else crashed
end_frame r playing = playing
end_frame r exited = exited
end_frame r crashed = crashed

-- both threads, and the dict that they share
pub record State : Type 0 where
  pub thread : Thread
  pub result : Outcome
  pub phase : Phase

-- `begin_attestation` has started the thread
abbrev pub started : State
started = record { thread = asking; result = not_started; phase = gate true }

-- what happens next: a statement of the bridge, an event, or the end of a frame
pub data Step (query : Query) (s : State) : State → Type 0 where
  bridges : Step query s (record s {
    thread = (run_statement query s.thread s.result).0;
    result = (run_statement query s.thread s.result).1;
  })
  handles : (ev : Event) → Step query s (record s { phase = handle_event ev s.result s.phase })
  ends : Step query s (record s { phase = end_frame s.result s.phase })

-- the states that some interleaving of the two threads leads to
pub data Reach (query : Query) : State → Type 0 where
  start : Reach query started
  next : {s t : State} → Reach query s → Step query s t → Reach query t
