-- ===== src/Lifecycle/Replay.antt =====
-- `replay_state` of core/incident_state.py rebuilds the state of every run from its events, and
-- refuses a stream with a transition that the table does not have.
use sciguard_autopilot.Base.{
  ℕ, ◌≡◌, refl, sym, subst, inl, inr, String, true, false, not, ◌||◌, Option, some, List, [], ◌∷◌,
  ◌++◌, arith, All, Bool-cases, Exception, Result, ok, err, Result-cases, eq_refl,
}
use sciguard_autopilot.Base.Dict.{Dict, lookup, lookup-insert}
use sciguard_autopilot.Base.Json.{Json, str}
use sciguard_autopilot.Events.{
  Event, state_transitioned, EventRecorder, Emission, emit, new_recorder,
}
use sciguard_autopilot.Events.Recorder.{
  IsRecorder, IsRecorder-valid, new_recorder_fields, new_recorder-IsRecorder, emit-Recorded,
  emit-IsRecorder, emit_refused,
}
use sciguard_autopilot.Lifecycle.{
  IncidentState, healthy, detected, IncidentRun, Request, state_value, state_of, allowed,
  transition_payload, transition_emission, transition, is_transition, replay_event, replay_from,
  replay_state, new_run, creation, has_creation, same_state, first_request, finish_start, start,
}

state_of-state_value : (s : IncidentState) → state_of (state_value s) ≡ some s
state_of-state_value IncidentState.healthy = refl
state_of-state_value _ = refl

payload_from :
    (s t : IncidentState) (p : Option (Dict Json))
    → lookup "from_state" (transition_payload s t p) ≡ some (str (state_value s))
payload_from s t p =
    rw (lookup-insert "to_state" "from_state") (rw (lookup-insert "from_state" "from_state"))

payload_to :
    (s t : IncidentState) (p : Option (Dict Json))
    → lookup "to_state" (transition_payload s t p) ≡ some (str (state_value t))
payload_to s t p = rw (lookup-insert "to_state" "to_state")

-- The event of a legal transition replays as that transition.
replay_event_of_transition :
    (s t : IncidentState) (p : Option (Dict Json)) (e : Event)
    → e.event_type ≡ state_transitioned
    → e.payload ≡ transition_payload s t p
    → allowed s t ≡ true
    → replay_event s e ≡ ok t
unfolding replay_event
replay_event_of_transition s t p e type payload legal =
    rw (type, payload)
      (rw (payload_from s t p, payload_to s t p)
        (rw (state_of-state_value s, state_of-state_value t)
          (rw (eq_refl (state_value s)) (rw legal))))

replay_from-append :
    (s t u : IncidentState) (es : List Event) (e : Event)
    → replay_from s es ≡ ok t
    → replay_event t e ≡ ok u
    → replay_from s (es ++ e ∷ []) ≡ ok u
unfolding replay_from
replay_from-append s t u [] e h k = ground arith
replay_from-append s t u (x ∷ es) e h k = elim (Result-cases (replay_event s x)) [
  | inl (s', p) ↦ ground (arith, replay_from-append s' t u es e)
  | inr (y, p) ↦ ground arith
]

-- What holds of a run between two calls.
pub record IsRun (m : IncidentRun) : Type 0 where
  pub recorder : IsRecorder m.recorder
  pub replayed : replay_from healthy m.recorder.events ≡ ok m.state

-- the rest of a transition, once `emit` has answered
transition_ok :
    (target : IncidentState) (q : Request) (m : IncidentRun) (e : Event) (m' : IncidentRun)
    → transition target q m ≡ (ok e, m')
    → (allowed m.state target ≡ true)
      × (emit q.now (transition_emission m.state target q) m.recorder ≡ (ok e, m'.recorder))
      × (m'.state ≡ target)
unfolding transition
transition_ok target q m e m' h = ground arith

-- A transition that raises changes nothing, neither the state nor the stream.
pub transition_refused :
    (target : IncidentState) (q : Request) (m m' : IncidentRun) (x : Exception)
    → transition target q m ≡ (err x, m')
    → m' ≡ m
unfolding transition
transition_refused target q m m' x h = ground (
  arith,
  emit_refused q.now (transition_emission m.state target q) m.recorder m'.recorder {x = x},
)

transition_ok-IsRun :
    (target : IncidentState) (q : Request) (m : IncidentRun) (e : Event) (m' : IncidentRun)
    → IsRun m
    → transition target q m ≡ (ok e, m')
    → IsRun m'
transition_ok-IsRun target q m e m' h p =
    let (legal, emitted, moved) = transition_ok target q m e m' p in
    let a = transition_emission m.state target q in
    let d = emit-Recorded q.now a m.recorder m'.recorder e h.recorder emitted in
    record {
      recorder = emit-IsRecorder q.now a m.recorder m'.recorder e h.recorder emitted;
      replayed =
          rw (d.appended, moved)
            (replay_from-append healthy m.state target m.recorder.events e h.replayed
              (replay_event_of_transition m.state target q.payload e d.event_type d.payload legal));
    }

-- Every transition, legal or not, keeps the run's stream and its state in step.
pub transition-IsRun :
    (target : IncidentState) (q : Request) (m : IncidentRun)
    → IsRun m
    → IsRun (transition target q m).1
transition-IsRun target q m h = go (transition target q m) refl
  where
    go : (x : Result Event × IncidentRun) → transition target q m ≡ x → IsRun x.1
    go (ok e, m') p = transition_ok-IsRun target q m e m' h p
    go (err x, m') p = subst IsRun (sym (transition_refused target q m m' x p)) h

-- `recorder.emit` by another component, on the recorder that the run shares.
abbrev pub note : ℕ → Emission → IncidentRun → IncidentRun
note now a m = record m { recorder = (emit now a m.recorder).1 }

replay_event_of_other :
    (s : IncidentState) (e : Event) → is_transition e.event_type ≡ false → replay_event s e ≡ ok s
unfolding replay_event
replay_event_of_other s e h = rw h

note-IsRun :
    (now : ℕ) (a : Emission) (m : IncidentRun)
    → is_transition a.event_type ≡ false
    → IsRun m
    → IsRun (note now a m)
note-IsRun now a m other h = go (emit now a m.recorder) refl
  where
    go :
        (x : Result Event × EventRecorder)
        → emit now a m.recorder ≡ x
        → IsRun (record m { recorder = x.1 })
    go (ok e, r) p =
        let d = emit-Recorded now a m.recorder r e h.recorder p in
        record {
          recorder = emit-IsRecorder now a m.recorder r e h.recorder p;
          replayed = rw d.appended (
              replay_from-append healthy m.state m.state m.recorder.events e h.replayed
                (replay_event_of_other m.state e (rw d.event_type other)));
        }
    go (err x, r) p =
        subst (λ r'. IsRun (record m { recorder = r' })) (sym (emit_refused now a m.recorder r p)) h

finish_start-IsRun :
    (later : ℕ) (m : IncidentRun) (x : Result Event × EventRecorder)
    → IsRun (record m { recorder = x.1 })
    → IsRun (finish_start later m x).1
finish_start-IsRun later m (ok e, r) h =
    transition-IsRun detected (first_request later) (record m { recorder = r }) h
finish_start-IsRun later m (err x, r) h = h

start-IsRun :
    (now later : ℕ) (symptom : String) (payload : Option (Dict Json)) (m : IncidentRun)
    → IsRun m
    → IsRun (start now later symptom payload m).1
unfolding start
start-IsRun now later symptom payload m h =
    elim (Bool-cases (not (same_state m.state healthy) || has_creation m.recorder.events)) [
      | inl again ↦ rw again h
      | inr first ↦ rw first (
          finish_start-IsRun later m (emit now (creation symptom payload) m.recorder)
            (note-IsRun now (creation symptom payload) m refl h))
    ]

-- What may happen to a run: its own methods, and events that other components record.
pub data Call : Type 0 where
  begin : ℕ → ℕ → String → Option (Dict Json) → Call
  move : IncidentState → Request → Call
  record_event : ℕ → Emission → Call

unfoldable pub step : Call → IncidentRun → IncidentRun
step (begin now later symptom payload) m = (start now later symptom payload m).1
step (move target q) m = (transition target q m).1
step (record_event now a) m = note now a m

unfoldable pub run_calls : List Call → IncidentRun → IncidentRun
run_calls [] m = m
run_calls (c ∷ cs) m = run_calls cs (step c m)

-- No other component records a STATE_TRANSITIONED event.
abbrev pub IsHonest : Call → Type 0
IsHonest (record_event now a) = is_transition a.event_type ≡ false
IsHonest _ = Unit

step-IsRun : (c : Call) (m : IncidentRun) → IsHonest c → IsRun m → IsRun (step c m)
unfolding step
step-IsRun (begin now later symptom payload) m c h = start-IsRun now later symptom payload m h
step-IsRun (move target q) m c h = transition-IsRun target q m h
step-IsRun (record_event now a) m c h = note-IsRun now a m c h

run_calls-IsRun :
    (cs : List Call) (m : IncidentRun) → All IsHonest cs → IsRun m → IsRun (run_calls cs m)
unfolding run_calls
run_calls-IsRun [] m c h = h
run_calls-IsRun (c ∷ cs) m (p, ps) h = run_calls-IsRun cs (step c m) ps (step-IsRun c m p h)

new_run_fields :
    (id : String) (on_event : Option (List Event)) (m : IncidentRun)
    → new_run id on_event ≡ ok m
    → (new_recorder id [] on_event ≡ ok m.recorder) × (m.state ≡ healthy)
unfolding new_run
new_run_fields id on_event m h = ground arith

pub new_run-IsRun :
    (id : String) (on_event : Option (List Event)) (m : IncidentRun)
    → new_run id on_event ≡ ok m
    → IsRun m
unfolding replay_from
new_run-IsRun id on_event m h =
    let (made, start_state) = new_run_fields id on_event m h in
    let (_, e) = new_recorder_fields id on_event m.recorder made in
    record {
      recorder = new_recorder-IsRecorder id on_event m.recorder made;
      replayed = rw (← e, start_state);
    }

-- `replay_state` rebuilds the state of every run. After any calls on a new run (starts and
-- transitions, refused ones included, and other components' events, none of which is a
-- STATE_TRANSITIONED event) replaying the recorded stream from HEALTHY gives the machine's state.
pub replay_state-run_calls :
    (id : String) (on_event : Option (List Event)) (cs : List Call) (m : IncidentRun)
    → new_run id on_event ≡ ok m
    → All IsHonest cs
    → replay_state (run_calls cs m).recorder.events healthy ≡ ok (run_calls cs m).state
unfolding replay_state
replay_state-run_calls id on_event cs m new honest =
    let h = run_calls-IsRun cs m honest (new_run-IsRun id on_event m new) in
    rw (IsRecorder-valid (run_calls cs m).recorder h.recorder, replay_state) h.replayed
