-- ===== src/Lifecycle.antt =====
-- core/incident_state.py: the incident states, the table of legal transitions, the state machine
-- that records each transition as an event, the replay of a recorded stream, and the incident run
-- that owns both. A run and its machine share one recorder, so the run is the machine's record.
pub mod Replay
pub mod Graph
use Prim.Native.String.{◌++◌ as concat}
use sciguard_autopilot.Base.{
  ℕ, ◌≡◌, String, Bool, true, false, not, ◌&&◌, ◌||◌, Option, none, some, List, [], ◌∷◌,
  if◌then◌else◌, any, Exception, value_error, lookup_error, Result, ok, err, ◌==◌,
}
use sciguard_autopilot.Base.Texts.{is_empty}
use sciguard_autopilot.Base.Dict.{Dict, lookup, insert}
use sciguard_autopilot.Base.Json.{Json, str}
use sciguard_autopilot.Events.{
  Event, EventActor, EventType, state_transitioned, incident_created, system, coordinator,
  EventRecorder, Emission, emit, new_recorder, validate_event_stream,
}

pub data IncidentState : Type 0 where
  healthy detected investigating at_risk quarantined recovery_pending resolved : IncidentState

-- `IncidentState.value`
abbrev pub state_value : IncidentState → String
state_value healthy = "HEALTHY"
state_value detected = "DETECTED"
state_value investigating = "INVESTIGATING"
state_value at_risk = "AT_RISK"
state_value quarantined = "QUARANTINED"
state_value recovery_pending = "RECOVERY_PENDING"
state_value resolved = "RESOLVED"

-- `IncidentState(text)`, `none` for its ValueError
abbrev pub state_of : String → Option IncidentState
state_of v =
    if v == "HEALTHY"
    then some healthy
    else if v == "DETECTED"
    then some detected
    else if v == "INVESTIGATING"
    then some investigating
    else if v == "AT_RISK"
    then some at_risk
    else if v == "QUARANTINED"
    then some quarantined
    else if v == "RECOVERY_PENDING"
    then some recovery_pending
    else if v == "RESOLVED"
    then some resolved
    else none

abbrev pub same_state : IncidentState → IncidentState → Bool
same_state a b = state_value a == state_value b

-- membership in `ALLOWED_TRANSITIONS`
unfoldable pub allowed : IncidentState → IncidentState → Bool
allowed healthy detected = true
allowed detected resolved = true
allowed detected investigating = true
allowed investigating at_risk = true
allowed investigating quarantined = true
allowed investigating resolved = true
allowed at_risk quarantined = true
allowed at_risk recovery_pending = true
allowed quarantined recovery_pending = true
allowed recovery_pending at_risk = true
allowed recovery_pending quarantined = true
allowed recovery_pending resolved = true
allowed _ _ = false

abbrev pub illegal : Exception
illegal = value_error "Illegal incident transition"

pub record IncidentRun : Type 0 where
  pub recorder : EventRecorder
  pub state : IncidentState

-- The arguments of `transition` but its target; `now` is the clock's reading.
pub record Request : Type 0 where
  pub now : ℕ
  pub actor : EventActor
  pub summary : Option String
  pub evidence_ids : List String
  pub duration_ms : ℕ
  pub payload : Option (Dict Json)

abbrev pub or_empty : Option (Dict Json) → Dict Json
or_empty none = []
or_empty (some d) = d

abbrev summary_or : Option String → String → String
summary_or none default = default
summary_or (some s) default = if is_empty s then default else s

-- `dict(payload or {})`, updated with the two states
abbrev pub transition_payload : IncidentState → IncidentState → Option (Dict Json) → Dict Json
transition_payload source target payload =
    insert "to_state" (str (state_value target))
      (insert "from_state" (str (state_value source)) (or_empty payload))

abbrev pub transition_emission : IncidentState → IncidentState → Request → Emission
transition_emission source target q = record {
  actor = q.actor;
  event_type = state_transitioned;
  summary = summary_or q.summary (
      concat "Incident moved from "
        (concat (state_value source) (concat " to " (state_value target))));
  evidence_ids = q.evidence_ids;
  duration_ms = q.duration_ms;
  payload = transition_payload source target q.payload;
  timestamp = none;
}

abbrev pub finish_transition :
    IncidentState → IncidentRun → Result Event × EventRecorder → Result Event × IncidentRun
finish_transition target m (ok event, r) = (ok event, record m { recorder = r; state = target })
finish_transition target m (err e, r) = (err e, record m { recorder = r })

-- `IncidentStateMachine.transition`: the table is asked first, then the event is recorded, and only
-- then the state moves.
unfoldable pub transition : IncidentState → Request → IncidentRun → Result Event × IncidentRun
transition target q m =
    if allowed m.state target
    then finish_transition target m (emit q.now (transition_emission m.state target q) m.recorder)
    else (err illegal, m)

abbrev pub is_transition : EventType → Bool
is_transition state_transitioned = true
is_transition _ = false

abbrev payload_state : Option Json → Option IncidentState
payload_state (some (str v)) = state_of v
payload_state _ = none

replay_step : Option IncidentState → Option IncidentState → IncidentState → Result IncidentState
replay_step (some claimed) (some target) state =
    if same_state claimed state
    then if allowed state target then ok target else err illegal
    else err (value_error "transition claims another from_state")
replay_step _ _ state = err (value_error "invalid state transition payload")

-- the body of the loop in `replay_state`
unfoldable pub replay_event : IncidentState → Event → Result IncidentState
unfolding replay_step
replay_event state e =
    if is_transition e.event_type
    then replay_step (payload_state (lookup "from_state" e.payload))
        (payload_state (lookup "to_state" e.payload)) state
    else ok state

unfoldable pub replay_from : IncidentState → List Event → Result IncidentState
replay_from state [] = ok state
replay_from state (e ∷ es) = elim (replay_event state e) [
  | ok state' ↦ replay_from state' es
  | err x ↦ err x
]

unfoldable pub replay_state : List Event → IncidentState → Result IncidentState
replay_state events initial = elim (validate_event_stream events) [
  | ok stream ↦ replay_from initial stream
  | err x ↦ err x
]

-- `IncidentRun.__init__`
unfoldable pub new_run : String → Option (List Event) → Result IncidentRun
new_run incident_id on_event = elim (new_recorder incident_id [] on_event) [
  | ok r ↦ ok (record { recorder = r; state = healthy })
  | err x ↦ err x
]

abbrev pub is_creation : EventType → Bool
is_creation incident_created = true
is_creation _ = false

abbrev pub has_creation : List Event → Bool
has_creation [] = false
has_creation (e ∷ es) = is_creation e.event_type || has_creation es

abbrev pub creation : String → Option (Dict Json) → Emission
creation symptom payload = record {
  actor = system;
  event_type = incident_created;
  summary = "Incident created from an escalated detection signal";
  evidence_ids = [];
  duration_ms = 0;
  payload = insert "symptom" (str symptom) (or_empty payload);
  timestamp = none;
}

abbrev pub first_request : ℕ → Request
first_request now = record {
  now = now;
  actor = coordinator;
  summary = some "Sentinel escalated the signal for investigation";
  evidence_ids = [];
  duration_ms = 0;
  payload = none;
}

abbrev pub finish_start :
    ℕ → IncidentRun → Result Event × EventRecorder → Result Event × IncidentRun
finish_start now m (ok _, r) = transition detected (first_request now) (record m { recorder = r })
finish_start now m (err e, r) = (err e, record m { recorder = r })

abbrev pub already_started : Exception
already_started = value_error "an incident run can only be started once from HEALTHY"

-- `IncidentRun.start`, at the clock's readings for its two events; the event of the transition is
-- given back where the source returns nothing.
unfoldable pub start :
    ℕ → ℕ → String → Option (Dict Json) → IncidentRun → Result Event × IncidentRun
start now later symptom payload m =
    if not (same_state m.state healthy) || has_creation m.recorder.events
    then (err already_started, m)
    else finish_start later m (emit now (creation symptom payload) m.recorder)

-- `IncidentRun.from_jsonl`, on the events that `load_events` has read
unfoldable pub from_events : List Event → Result IncidentRun
from_events [] = err (value_error "cannot create an incident recorder from an empty stream")
from_events (e ∷ es) = elim (new_recorder e.incident_id (e ∷ es) none) [
  | ok r ↦ elim (replay_state r.events healthy) [
    | ok state ↦ ok (record { recorder = r; state = state })
    | err x ↦ err x
  ]
  | err x ↦ err x
]
