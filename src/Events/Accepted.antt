-- ===== src/Events/Accepted.antt =====
-- Which calls of `emit` of core/events.py the validators accept.
use sciguard_autopilot.Base.{
  ℕ, ◌≡◌, refl, ap, ◌∙◌, String, true, false, Option, none, some, length, arith, ok,
}
use sciguard_autopilot.Base.Texts.{
  is_empty, strip, starts_dark, not_empty_of_dark, starts_dark-append,
}
use sciguard_autopilot.Events.{
  Event, EventType, Timestamp, Emission, EventRecorder, nonempty_text, utc_timestamp,
  unique_evidence_ids, format_event_id, timestamp_or, make_event, requested, append_event, emit,
  emit_if,
}
use sciguard_autopilot.Events.Recorder.{IsRecorder, strip-format_event_id, emit-IsRecorder}

-- What a caller has to choose well: a summary that is not blank, no time of its own, and evidence
-- IDs that are neither blank nor repeated.
pub record IsAcceptable (a : Emission) : Type 0 where
  pub summary : is_empty (strip a.summary) ≡ false
  pub timestamp : a.timestamp ≡ none
  pub evidence : unique_evidence_ids a.evidence_ids ≡ ok a.evidence_ids

nonempty_text_ok : (s : String) → is_empty (strip s) ≡ false → nonempty_text s ≡ ok (strip s)
unfolding nonempty_text
nonempty_text_ok s h = rw h refl

dark_text_ok : (s : String) → strip s ≡ s → starts_dark s ≡ true → nonempty_text s ≡ ok (strip s)
dark_text_ok s same dark = nonempty_text_ok s (ap is_empty same ∙ not_empty_of_dark s dark)

format_event_id_ok :
    (id : String) (n : ℕ) (t : EventType)
    → starts_dark id ≡ true
    → nonempty_text (format_event_id id n t) ≡ ok (strip (format_event_id id n t))
unfolding format_event_id
format_event_id_ok id n t dark =
    dark_text_ok (format_event_id id n t) (strip-format_event_id id n t dark)
      (starts_dark-append id _ dark)

-- The event as the validators leave it.
make_event_ok :
    (x : Event) (event_id incident_id summary : String) (timestamp : Timestamp)
    → nonempty_text x.event_id ≡ ok event_id
    → nonempty_text x.incident_id ≡ ok incident_id
    → utc_timestamp x.timestamp ≡ ok timestamp
    → nonempty_text x.summary ≡ ok summary
    → unique_evidence_ids x.evidence_ids ≡ ok x.evidence_ids
    → make_event x
      ≡ ok (record x {
        event_id = event_id;
        incident_id = incident_id;
        timestamp = timestamp;
        summary = summary;
      })
unfolding make_event
make_event_ok x event_id incident_id summary timestamp a b c d e = rw (a, b, c, d, e) refl

utc_timestamp_ok :
    (t : Option Timestamp) (now : ℕ)
    → t ≡ none
    → utc_timestamp (timestamp_or t now) ≡ ok (timestamp_or none now)
unfolding utc_timestamp
utc_timestamp_ok none now h = refl
utc_timestamp_ok (some t) now h = cc

made_emitted :
    (now : ℕ) (a : Emission) (r : EventRecorder) (e : Event)
    → make_event (requested now a r) ≡ ok e
    → emit now a r ≡ (ok e, append_event r e)
unfolding emit
made_emitted now a r e h = ground (arith, h)

pub emit_accepted :
    (now : ℕ) (a : Emission) (r : EventRecorder)
    → IsRecorder r
    → IsAcceptable a
    → (e : Event) × (emit now a r ≡ (ok e, append_event r e))
emit_accepted now a r h fine =
    let made =
      make_event_ok (requested now a r) _ _ _ _
        (format_event_id_ok r.incident_id (length r.events) a.event_type h.dark)
        (dark_text_ok r.incident_id h.trimmed h.dark)
        (utc_timestamp_ok a.timestamp now fine.timestamp) (nonempty_text_ok a.summary fine.summary)
        fine.evidence in
    (_, made_emitted now a r _ made)

-- The calls of `emit` of a component that holds a recorder or none.
abbrev pub IsReady : Option EventRecorder → Type 0
IsReady none = Unit
IsReady (some r) = IsRecorder r

pub emit_if_accepted :
    (clock : ℕ → ℕ) (a : Emission) (w : Option EventRecorder)
    → IsReady w
    → IsAcceptable a
    → (w' : Option EventRecorder) × (emit_if clock a w ≡ (ok tt, w')) × IsReady w'
unfolding emit_if
emit_if_accepted clock a none h fine = (none, refl, tt)
emit_if_accepted clock a (some r) h fine =
    let now = clock (length r.events) in
    let (e, accepted) = emit_accepted now a r h fine in
    (
      some (append_event r e),
      rw accepted refl,
      emit-IsRecorder now a r (append_event r e) e h accepted,
    )
