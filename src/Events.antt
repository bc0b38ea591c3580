-- ===== src/Events.antt =====
-- core/events.py: the immutable event, its field validators, the checks on one incident's stream,
-- and the append-only recorder. An instant is a number of microseconds; the clock's reading comes
-- as an argument. `duration_ms` and `sequence` are naturals, as their `ge=0` demands.
pub mod Stream
pub mod Recorder
pub mod Accepted
pub mod Storage
use sciguard_autopilot.Base.{
  ℕ, zero, suc, ◌+◌, ◌≡◌, String, Bool, true, false, not, ◌&&◌, ◌||◌, Option, none, some, List, [],
  ◌∷◌, ◌++◌, map, if◌then◌else◌, nat_eq, length, any, contains, dedupe, Result, ok, err,
  value_error,
}
use sciguard_autopilot.Base.Exec.{Exec}
use sciguard_autopilot.Base.Raising.{◌>>=◌, ◌>>◌, raise_if}
use sciguard_autopilot.Base.Texts.{is_empty, strip, padded}
use sciguard_autopilot.Base.Dict.{Dict}
use sciguard_autopilot.Base.Json.{Json}
use text.Mathlib.Text.{◌==◌}
use Prim.Native.String.{◌++◌ as concat}

pub data EventActor : Type 0 where
  system sentinel coordinator scientific_investigator reality_checker policy_guardian : EventActor
  enforcer remediation_agent verification_engine human_approver recovery_controller : EventActor

pub data EventType : Type 0 where
  signal_detected escalation_decided incident_created state_transitioned : EventType
  hypothesis_proposed evidence_observed hypothesis_resolved impact_mapped : EventType
  policy_decided datahub_incident_written repair_bundle_created repair_published : EventType
  repair_verified repair_applied approval_requested approval_recorded : EventType
  decision_log_written enforcement_applied notification_recorded : EventType
  recovery_evidence_refreshed recovery_checked incident_resolved : EventType

-- `EventType.value`
unfoldable pub type_value : EventType → String
type_value signal_detected = "SIGNAL_DETECTED"
type_value escalation_decided = "ESCALATION_DECIDED"
type_value incident_created = "INCIDENT_CREATED"
type_value state_transitioned = "STATE_TRANSITIONED"
type_value hypothesis_proposed = "HYPOTHESIS_PROPOSED"
type_value evidence_observed = "EVIDENCE_OBSERVED"
type_value hypothesis_resolved = "HYPOTHESIS_RESOLVED"
type_value impact_mapped = "IMPACT_MAPPED"
type_value policy_decided = "POLICY_DECIDED"
type_value datahub_incident_written = "DATAHUB_INCIDENT_WRITTEN"
type_value repair_bundle_created = "REPAIR_BUNDLE_CREATED"
type_value repair_published = "REPAIR_PUBLISHED"
type_value repair_verified = "REPAIR_VERIFIED"
type_value repair_applied = "REPAIR_APPLIED"
type_value approval_requested = "APPROVAL_REQUESTED"
type_value approval_recorded = "APPROVAL_RECORDED"
type_value decision_log_written = "DECISION_LOG_WRITTEN"
type_value enforcement_applied = "ENFORCEMENT_APPLIED"
type_value notification_recorded = "NOTIFICATION_RECORDED"
type_value recovery_evidence_refreshed = "RECOVERY_EVIDENCE_REFRESHED"
type_value recovery_checked = "RECOVERY_CHECKED"
type_value incident_resolved = "INCIDENT_RESOLVED"

-- A `datetime`: its instant, and its distance from UTC in seconds where it has a time zone.
pub record Timestamp : Type 0 where
  pub instant : ℕ
  pub utc_offset : Option ℕ

pub record Event : Type 0 where
  pub event_id : String
  pub incident_id : String
  pub sequence : ℕ
  pub timestamp : Timestamp
  pub actor : EventActor
  pub event_type : EventType
  pub summary : String
  pub evidence_ids : List String
  pub duration_ms : ℕ
  pub payload : Dict Json

-- The validator `_nonempty_text` strips before it tests.
unfoldable pub nonempty_text : String → Result String
nonempty_text value =
    let stripped = strip value in
    if is_empty stripped then err (value_error "must not be empty") else ok stripped

unfoldable pub utc_timestamp : Timestamp → Result Timestamp
utc_timestamp value = elim value.utc_offset [
  | none ↦ err (value_error "timestamp must be timezone-aware UTC")
  | some zero ↦ ok value
  | some (suc k) ↦ err (value_error "timestamp must be timezone-aware UTC")
]

unfoldable pub unique_evidence_ids : List String → Result (List String)
unique_evidence_ids value = do
  raise_if (any (λ id. is_empty (strip id)) value) (value_error "evidence IDs must not be empty")
  raise_if (not (nat_eq (length value) (length (dedupe value))))
      (value_error "evidence IDs must be unique")
  ok value

-- `Event(...)`: the fields as given, through the validators.
unfoldable pub make_event : Event → Result Event
make_event e = do
  event_id ← nonempty_text e.event_id
  incident_id ← nonempty_text e.incident_id
  timestamp ← utc_timestamp e.timestamp
  summary ← nonempty_text e.summary
  evidence_ids ← unique_evidence_ids e.evidence_ids
  ok (record e {
    event_id = event_id;
    incident_id = incident_id;
    timestamp = timestamp;
    summary = summary;
    evidence_ids = evidence_ids;
  })

-- `list(range(start, start + n))`
abbrev pub range_from : ℕ → ℕ → List ℕ
range_from start zero = []
range_from start (suc n) = start ∷ range_from (start + 1) n

abbrev pub list_eq : List ℕ → List ℕ → Bool
list_eq [] [] = true
list_eq [] (_ ∷ _) = false
list_eq (_ ∷ _) [] = false
list_eq (m ∷ ms) (n ∷ ns) = nat_eq m n && list_eq ms ns

abbrev pub event_ids : List Event → List String
event_ids [] = []
event_ids (e ∷ es) = e.event_id ∷ event_ids es

abbrev pub incident_ids : List Event → List String
incident_ids [] = []
incident_ids (e ∷ es) = e.incident_id ∷ incident_ids es

abbrev pub sequences : List Event → List ℕ
sequences [] = []
sequences (e ∷ es) = e.sequence ∷ sequences es

unfoldable pub validate_event_stream : List Event → Result (List Event)
validate_event_stream [] = ok []
validate_event_stream (e ∷ es) = do
  let stream = e ∷ es
  raise_if (not (nat_eq (length (dedupe (incident_ids stream))) 1))
      (value_error "an event stream must contain exactly one incident")
  raise_if (not (list_eq (sequences stream) (range_from 0 (length stream))))
      (value_error "event sequence must be contiguous from zero")
  raise_if (not (nat_eq (length (event_ids stream)) (length (dedupe (event_ids stream)))))
      (value_error "event IDs must be unique")
  ok stream

-- `EventRecorder`. `delivered` are the calls of the `on_event` callback, if one was given; a
-- callback that raises is not modelled.
pub record EventRecorder : Type 0 where
  pub incident_id : String
  pub events : List Event
  pub delivered : Option (List Event)

abbrev pub first_incident : List Event → String → String
first_incident [] id = id
first_incident (e ∷ _) _ = e.incident_id

-- `EventRecorder.__init__`
unfoldable pub new_recorder : String → List Event → Option (List Event) → Result EventRecorder
unfolding validate_event_stream
new_recorder incident_id events on_event = do
  raise_if (is_empty (strip incident_id)) (value_error "incident_id must not be empty")
  stream ← validate_event_stream events
  raise_if (not (first_incident stream (strip incident_id) == strip incident_id))
      (value_error "loaded events do not match recorder incident_id")
  ok (record { incident_id = strip incident_id; events = stream; delivered = on_event })

-- What a caller of `emit` chooses.
pub record Emission : Type 0 where
  pub actor : EventActor
  pub event_type : EventType
  pub summary : String
  pub evidence_ids : List String
  pub duration_ms : ℕ
  pub payload : Dict Json
  pub timestamp : Option Timestamp

-- `f"{incident_id}:{sequence:04d}:{event_type.value}"`
unfoldable pub format_event_id : String → ℕ → EventType → String
unfolding type_value
format_event_id incident_id sequence event_type =
    concat incident_id (concat ":" (padded sequence (concat ":" (type_value event_type))))

abbrev pub timestamp_or : Option Timestamp → ℕ → Timestamp
timestamp_or none now = record { instant = now; utc_offset = some 0 }
timestamp_or (some t) _ = t

abbrev pub deliver : Option (List Event) → Event → Option (List Event)
deliver none e = none
deliver (some es) e = some (es ++ e ∷ [])

-- the event that `emit` asks for, before validation
abbrev pub requested : ℕ → Emission → EventRecorder → Event
requested now a r =
    let sequence = length r.events in
    record {
      event_id = format_event_id r.incident_id sequence a.event_type;
      incident_id = r.incident_id;
      sequence = sequence;
      timestamp = timestamp_or a.timestamp now;
      actor = a.actor;
      event_type = a.event_type;
      summary = a.summary;
      evidence_ids = a.evidence_ids;
      duration_ms = a.duration_ms;
      payload = a.payload;
    }

abbrev pub append_event : EventRecorder → Event → EventRecorder
append_event r event = record r {
  events = r.events ++ event ∷ [];
  delivered = deliver r.delivered event;
}

-- `EventRecorder.emit` at the clock reading `now`: an event that a validator refuses leaves the
-- recorder as it was.
unfoldable pub emit : ℕ → Emission → EventRecorder → Result Event × EventRecorder
emit now a r = elim (make_event (requested now a r)) [
  | ok event ↦ (ok event, append_event r event)
  | err e ↦ (err e, r)
]

abbrev pub reported : Result Event × EventRecorder → Result (Unit {0}) × Option EventRecorder
reported (ok event, r) = (ok tt, some r)
reported (err e, r) = (err e, some r)

-- `if recorder: recorder.emit(...)`; the event of number `n` is made at the reading `clock n`.
unfoldable pub emit_if : (ℕ → ℕ) → Emission → Exec (Option EventRecorder) (Unit {0})
emit_if clock a none = (ok tt, none)
emit_if clock a (some r) = reported (emit (clock (length r.events)) a r)
