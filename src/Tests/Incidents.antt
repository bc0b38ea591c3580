-- ===== src/Tests/Incidents.antt =====
-- core/events.py and core/incident_state.py at concrete inputs.
use sciguard_autopilot.Base.{ℕ, ◌≡◌, refl, ◌↔◌, String, true, none, some, List, [], ◌∷◌, any, ok}
use sciguard_autopilot.Base.Texts.{strip, lstrip, rstrip, padded}
use sciguard_autopilot.Base.Json.{str}
use sciguard_autopilot.Events.{
  type_value, nonempty_text, utc_timestamp, unique_evidence_ids, make_event, first_incident,
  validate_event_stream, new_recorder, format_event_id, emit, Event, EventRecorder, Emission,
  enforcer, evidence_observed, state_transitioned, coordinator,
}
use sciguard_autopilot.Events.Stream.{IsStream, validate_event_stream_iff}
use sciguard_autopilot.Events.Recorder.{emit_all, emit_all-valid}
use sciguard_autopilot.Lifecycle.{
  investigating, quarantined, recovery_pending, resolved, healthy, IncidentRun, Request, allowed,
  transition, new_run, start, replay_state,
}
use sciguard_autopilot.Lifecycle.Replay.{
  Call, begin, move, record_event, step, run_calls, replay_state-run_calls,
}
use sciguard_autopilot.Lifecycle.Graph.{
  ◌⟶*◌, visited, is_pending, resolved_final, resolved_needs_recovery, resolvable,
}

abbrev observation : String → List String → Emission
observation summary evidence = record {
  actor = enforcer;
  event_type = evidence_observed;
  summary = summary;
  evidence_ids = evidence;
  duration_ms = 5;
  payload = [];
  timestamp = none;
}

abbrev fresh_recorder : EventRecorder
fresh_recorder = record { incident_id = "INC-1"; events = []; delivered = none }

-- One event that is accepted, one that is refused for its blank summary, and one more.
abbrev some_emissions : List (ℕ × Emission)
some_emissions =
    (10, observation "first" ("e1" ∷ []))
    ∷ (11, observation "  " [])
    ∷ (12, observation "second" ("e2" ∷ "e3" ∷ []))
    ∷ []

emit_all-valid_example :
    validate_event_stream (emit_all some_emissions fresh_recorder).events
    ≡ ok (emit_all some_emissions fresh_recorder).events
emit_all-valid_example =
    emit_all-valid "INC-1" none some_emissions fresh_recorder
      (unfold new_recorder strip lstrip rstrip validate_event_stream in refl)

abbrev stored_event : Event
stored_event = record {
  event_id = "INC-1:0000:EVIDENCE_OBSERVED";
  incident_id = "INC-1";
  sequence = 0;
  timestamp = record { instant = 10; utc_offset = some 0 };
  actor = enforcer;
  event_type = evidence_observed;
  summary = "first";
  evidence_ids = [];
  duration_ms = 5;
  payload = [];
}

validate_event_stream_iff_example :
    (validate_event_stream (stored_event ∷ []) ≡ ok (stored_event ∷ [])) ↔ (
      (stored_event ∷ [] ≡ stored_event ∷ [])
      × IsStream (first_incident (stored_event ∷ []) "") (stored_event ∷ []))
validate_event_stream_iff_example =
    validate_event_stream_iff (stored_event ∷ []) (stored_event ∷ [])

abbrev fresh_run : IncidentRun
fresh_run = record { recorder = fresh_recorder; state = healthy }

abbrev request : ℕ → Request
request now = record {
  now = now;
  actor = coordinator;
  summary = none;
  evidence_ids = [];
  duration_ms = 0;
  payload = none;
}

-- A whole incident, with one move on the way that the table does not have.
abbrev incident_calls : List Call
incident_calls =
    begin 1 2 "contradiction" none
    ∷ move investigating (request 3)
    ∷ record_event 4 (observation "seen" [])
    ∷ move healthy (request 5)
    ∷ move quarantined (request 6)
    ∷ move recovery_pending (request 7)
    ∷ move resolved (request 8)
    ∷ []

replay_state-run_calls_example :
    replay_state (run_calls incident_calls fresh_run).recorder.events healthy
    ≡ ok (run_calls incident_calls fresh_run).state
replay_state-run_calls_example =
    replay_state-run_calls "INC-1" none incident_calls fresh_run
      (unfold new_run new_recorder strip lstrip rstrip validate_event_stream in refl)
      (tt, (tt, (refl, (tt, (tt, (tt, (tt, tt)))))))

abbrev resolved_run : IncidentRun
resolved_run = record { recorder = fresh_recorder; state = resolved }

resolved_final_example : (run_calls incident_calls resolved_run).state ≡ resolved
resolved_final_example = resolved_final incident_calls resolved_run refl

abbrev contained_run : IncidentRun
contained_run = record { recorder = fresh_recorder; state = quarantined }

abbrev closing_calls : List Call
closing_calls = move recovery_pending (request 7) ∷ move resolved (request 8) ∷ []

resolved_needs_recovery_example : any is_pending (visited closing_calls contained_run) ≡ true
resolved_needs_recovery_example = resolved_needs_recovery closing_calls contained_run refl (
    unfold run_calls step transition allowed emit make_event nonempty_text utc_timestamp
      unique_evidence_ids strip lstrip rstrip format_event_id type_value padded in
    refl)

resolvable_example : healthy ⟶* resolved
resolvable_example = resolvable healthy

abbrev started_run : IncidentRun
started_run = (start 1 2 "contradiction" none fresh_run).1

abbrev detection_event : Event
detection_event = record {
  event_id = "INC-1:0001:STATE_TRANSITIONED";
  incident_id = "INC-1";
  sequence = 1;
  timestamp = record { instant = 2; utc_offset = some 0 };
  actor = coordinator;
  event_type = state_transitioned;
  summary = "Sentinel escalated the signal for investigation";
  evidence_ids = [];
  duration_ms = 0;
  payload = ("from_state", str "HEALTHY") ∷ ("to_state", str "DETECTED") ∷ [];
}
