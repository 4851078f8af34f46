-- ===== src/Demo/Threads.antt =====
-- What the two threads of the gate keep, whatever order they run in (demo_game/).
use tpm_attest.Prelude.{
  ◌≡◌, ◌⊎◌, refl, sym, subst, inl, inr, Bool, true, false, some, [], codes, Bool-cases,
}
use tpm_attest.Python.Json.{
  Json, Fields, null, boolean, number, string, array, object, get_field, truthy,
}
use tpm_attest.Demo.Bridge.{
  Outcome, not_started, Query, query_shim_direct, Thread, asking, at_valid, at_reason, at_token,
  at_done, ended, died, run_statement,
}
use tpm_attest.Demo.Gate.{
  Event, quit, escape_key, return_key, other, Phase, gate, playing, exited, crashed, press_return,
  at_gate, handle_event, draws, end_frame, State, started, Step, bridges, handles, ends, Reach,
  start, next,
}

-- what `_run` takes from the response
abbrev pub valid_of : Fields → Json
valid_of resp = get_field (codes "valid") (boolean false) resp

abbrev pub reason_of : Fields → Json
reason_of resp = get_field (codes "reason") (string (codes "unknown")) resp

abbrev pub token_in : Fields → Json
token_in resp = get_field (codes "token") (string []) resp

-- the result has everything from the one response
pub record IsWhole (query : Query) (thread : Thread) (result : Outcome) : Type 0 where
  pub resp : Fields
  pub response : query_shim_direct query ≡ object resp
  pub finished : thread ≡ ended resp
  pub valid : result.valid ≡ valid_of resp
  pub reason : result.reason ≡ reason_of resp
  pub token : result.token ≡ some (token_in resp)

-- what holds of the result, while the thread is at a statement
IsWritten : Query → Thread → Outcome → Type 0
IsWritten query asking r = r.done ≡ false
IsWritten query (at_valid resp) r = (r.done ≡ false) × (query_shim_direct query ≡ resp)
IsWritten query (at_reason resp) r =
    (r.done ≡ false) × (query_shim_direct query ≡ object resp) × (r.valid ≡ valid_of resp)
IsWritten query (at_token resp) r =
    (r.done ≡ false)
    × (query_shim_direct query ≡ object resp)
    × (r.valid ≡ valid_of resp)
    × (r.reason ≡ reason_of resp)
IsWritten query (at_done resp) r = (r.done ≡ false) × IsWhole query (ended resp) r
IsWritten query (ended resp) r = IsWhole query (ended resp) r
IsWritten query died r = r.done ≡ false

abbrev Written : Query → Thread × Outcome → Type 0
Written query (thread, r) = IsWritten query thread r

valid-IsWritten :
    (query : Query) (resp : Json) (r : Outcome)
    → IsWritten query (at_valid resp) r
    → Written query (run_statement query (at_valid resp) r)
unfolding run_statement IsWritten
valid-IsWritten query (object resp) r w = (w.0, w.1, refl)
valid-IsWritten query null r w = w.0
valid-IsWritten query (boolean b) r w = w.0
valid-IsWritten query (number l z) r w = w.0
valid-IsWritten query (string s) r w = w.0
valid-IsWritten query (array items) r w = w.0

statement-IsWritten :
    (query : Query) (thread : Thread) (r : Outcome)
    → IsWritten query thread r
    → Written query (run_statement query thread r)
unfolding run_statement IsWritten
statement-IsWritten query asking r w = (w, refl)
statement-IsWritten query (at_valid resp) r w = valid-IsWritten query resp r w
statement-IsWritten query (at_reason resp) r w = (w.0, w.1, w.2, refl)
statement-IsWritten query (at_token resp) r w = (
  w.0,
  record { resp = resp; response = w.1; finished = refl; valid = w.2; reason = w.3; token = refl },
)
statement-IsWritten query (at_done resp) r w = record {
  resp = (w.1).resp;
  response = (w.1).response;
  finished = (w.1).finished;
  valid = (w.1).valid;
  reason = (w.1).reason;
  token = (w.1).token;
}
statement-IsWritten query (ended resp) r w = w
statement-IsWritten query died r w = w

-- a result that is done does not change any more
statement-done :
    (query : Query) (thread : Thread) (r : Outcome)
    → IsWritten query thread r
    → r.done ≡ true
    → (run_statement query thread r).1 ≡ r
unfolding run_statement IsWritten
statement-done query asking r w d = refl
statement-done query (at_valid resp) r w d = absurd (cc (w.0))
statement-done query (at_reason resp) r w d = absurd (cc (w.0))
statement-done query (at_token resp) r w d = absurd (cc (w.0))
statement-done query (at_done resp) r w d = absurd (cc (w.0))
statement-done query (ended resp) r w d = refl
statement-done query died r w d = refl

done-IsWhole :
    (query : Query) (thread : Thread) (r : Outcome)
    → IsWritten query thread r
    → r.done ≡ true
    → IsWhole query thread r
unfolding IsWritten
done-IsWhole query asking r w d = absurd (cc)
done-IsWhole query (at_valid resp) r w d = absurd (cc (w.0))
done-IsWhole query (at_reason resp) r w d = absurd (cc (w.0))
done-IsWhole query (at_token resp) r w d = absurd (cc (w.0))
done-IsWhole query (at_done resp) r w d = absurd (cc (w.0))
done-IsWhole query (ended resp) r w d = w
done-IsWhole query died r w d = absurd (cc)

-- the game is past the gate, or leaves it at the end of the frame
abbrev pub IsAdmitted : Phase → Type 0
IsAdmitted phase = (phase ≡ gate false) ⊎ (phase ≡ playing)

abbrev pub IsGranted : Outcome → Type 0
IsGranted r = (r.done ≡ true) × (truthy r.valid ≡ true)

exited-absurd : (r : Outcome) → IsAdmitted exited → IsGranted r
exited-absurd r (inl e) = absurd (cc)
exited-absurd r (inr e) = absurd (cc)

crashed-absurd : (r : Outcome) → IsAdmitted crashed → IsGranted r
crashed-absurd r (inl e) = absurd (cc)
crashed-absurd r (inr e) = absurd (cc)

attesting-absurd : (r : Outcome) → IsAdmitted (gate true) → IsGranted r
attesting-absurd r (inl e) = absurd (cc)
attesting-absurd r (inr e) = absurd (cc)

press_return-IsGranted :
    (r : Outcome) (attesting : Bool)
    → (IsAdmitted (gate attesting) → IsGranted r)
    → IsAdmitted (press_return r attesting)
    → IsGranted r
unfolding press_return
press_return-IsGranted r attesting h a = elim (Bool-cases r.done) [
  | inr e ↦ h (rw e at a)
  | inl e ↦ elim (Bool-cases (truthy r.valid)) [
    | inl v ↦ (e, v)
    | inr v ↦ exited-absurd r (rw (e, v) at a)
  ]
]

at_gate-IsGranted :
    (ev : Event) (r : Outcome) (attesting : Bool)
    → (IsAdmitted (gate attesting) → IsGranted r)
    → IsAdmitted (at_gate ev r attesting)
    → IsGranted r
unfolding at_gate
at_gate-IsGranted quit r attesting h a = exited-absurd r a
at_gate-IsGranted escape_key r attesting h a = exited-absurd r a
at_gate-IsGranted return_key r attesting h a = press_return-IsGranted r attesting h a
at_gate-IsGranted other r attesting h a = h a

-- An event lets the game in only when the result says so.
event-IsGranted :
    (ev : Event) (r : Outcome) (phase : Phase)
    → (IsAdmitted phase → IsGranted r)
    → IsAdmitted (handle_event ev r phase)
    → IsGranted r
unfolding handle_event
event-IsGranted ev r (gate attesting) h a = at_gate-IsGranted ev r attesting h a
event-IsGranted ev r playing h a = h a
event-IsGranted ev r exited h a = h a
event-IsGranted ev r crashed h a = h a

frame-IsGranted :
    (r : Outcome) (phase : Phase)
    → (IsAdmitted phase → IsGranted r)
    → IsAdmitted (end_frame r phase)
    → IsGranted r
unfolding end_frame
frame-IsGranted r (gate true) h a = elim (Bool-cases (draws r)) [
  | inl e ↦ h (rw e at a)
  | inr e ↦ crashed-absurd r (rw e at a)
]
frame-IsGranted r (gate false) h a = h (inl refl)
frame-IsGranted r playing h a = h a
frame-IsGranted r exited h a = h a
frame-IsGranted r crashed h a = h a

-- both threads keep this
record Holds (query : Query) (s : State) : Type 0 where
  written : IsWritten query s.thread s.result
  granted : IsAdmitted s.phase → IsGranted s.result

Step-Holds : {query : Query} {s t : State} → Step query s t → Holds query s → Holds query t
Step-Holds {query} {s} bridges h = record {
  written = statement-IsWritten query s.thread s.result h.written;
  granted = λ a.
      let g = h.granted a in
      subst IsGranted (sym (statement-done query s.thread s.result h.written g.0)) g;
}
Step-Holds {query} {s} (handles ev) h = record {
  written = h.written;
  granted = event-IsGranted ev s.result s.phase h.granted;
}
Step-Holds {query} {s} ends h = record {
  written = h.written;
  granted = frame-IsGranted s.result s.phase h.granted;
}

started-Holds : (query : Query) → Holds query started
unfolding IsWritten
started-Holds query = record { written = refl; granted = attesting-absurd not_started }

Reach-Holds : {query : Query} {s : State} → Reach query s → Holds query s
Reach-Holds {query} start = started-Holds query
Reach-Holds (next r step) = Step-Holds step (Reach-Holds r)

-- Whatever order the statements of the bridge, the events and the frames come in: once the main thread
-- sees `done`, the result it copies has its three parts from one response of the shim, which is a
-- dict.
pub Reach-IsWhole :
    {query : Query} {s : State}
    → Reach query s
    → s.result.done ≡ true
    → IsWhole query s.thread s.result
Reach-IsWhole {query} {s} r d = done-IsWhole query s.thread s.result (Reach-Holds r).written d

pub Reach-IsGranted :
    {query : Query} {s : State} → Reach query s → IsAdmitted s.phase → IsGranted s.result
Reach-IsGranted r a = (Reach-Holds r).granted a
