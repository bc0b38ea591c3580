-- ===== src/Events/Stream.antt =====
-- What `validate_event_stream` of core/events.py decides: its three tests together say that the
-- stream belongs to one incident, is numbered from zero, and has no event ID twice.
use sciguard_autopilot.Base.{
  ℕ, ◌+◌, ◌≡◌, refl, sym, ap, ◌∙◌, ◌↔◌, String, true, List, [], ◌∷◌, arith, length, NoDup, ok,
}
use sciguard_autopilot.Base.Distinct.{
  full_dedupe_from, dedupe_from_full, Fresh-nil, AllSame, one_dedupe_from, dedupe_from_one,
}
use sciguard_autopilot.Events.{
  Event, range_from, list_eq, event_ids, incident_ids, sequences, validate_event_stream,
  first_incident,
}

-- Every event belongs to the incident, and they are numbered from `n` on.
abbrev pub IsNumbered : String → ℕ → List Event → Type 0
IsNumbered id n [] = Unit
IsNumbered id n (e ∷ es) = (e.incident_id ≡ id) × (e.sequence ≡ n) × IsNumbered id (n + 1) es

pub record IsStream (id : String) (es : List Event) : Type 0 where
  pub numbered : IsNumbered id 0 es
  pub distinct : NoDup (event_ids es)

IsNumbered-sequences :
    (id : String) (n : ℕ) (es : List Event)
    → list_eq (sequences es) (range_from n (length es)) ≡ true
    → AllSame id (incident_ids es)
    → IsNumbered id n es
IsNumbered-sequences id n [] h k = tt
IsNumbered-sequences id n (e ∷ es) h k =
    (k.0, ground arith, IsNumbered-sequences id (n + 1) es (ground arith) k.1)

sequences-numbered :
    (id : String) (n : ℕ) (es : List Event)
    → IsNumbered id n es
    → list_eq (sequences es) (range_from n (length es)) ≡ true
sequences-numbered id n [] h = refl
sequences-numbered id n (e ∷ es) h = ground (arith, sequences-numbered id (n + 1) es h.2)

same_incident :
    (id : String) (n : ℕ) (es : List Event) → IsNumbered id n es → AllSame id (incident_ids es)
same_incident id n [] h = tt
same_incident id n (e ∷ es) h = (h.0, same_incident id (n + 1) es h.2)

validate-IsStream :
    (e : Event) (es out : List Event)
    → validate_event_stream (e ∷ es) ≡ ok out
    → (out ≡ e ∷ es) × IsStream e.incident_id (e ∷ es)
unfolding validate_event_stream
validate-IsStream e es out h = (
  ground arith,
  record {
    numbered =
        IsNumbered-sequences e.incident_id 0 (e ∷ es) (ground arith)
          (refl, one_dedupe_from e.incident_id (incident_ids es) (ground arith));
    distinct = (full_dedupe_from [] (event_ids (e ∷ es)) (ground arith)).1;
  },
)

IsStream-validate :
    (e : Event) (es : List Event)
    → IsStream e.incident_id (e ∷ es)
    → validate_event_stream (e ∷ es) ≡ ok (e ∷ es)
unfolding validate_event_stream
IsStream-validate e es s = ground (
  arith,
  dedupe_from_one e.incident_id (incident_ids es) (same_incident e.incident_id 1 es s.numbered.2),
  sequences-numbered e.incident_id 0 (e ∷ es) s.numbered,
  dedupe_from_full [] (event_ids (e ∷ es)) (Fresh-nil (event_ids (e ∷ es))) s.distinct,
)

-- `validate_event_stream` accepts a stream exactly when all its events belong to the incident of
-- the first one, their sequence numbers are 0, 1, 2, … in order, and no event ID occurs twice; and
-- what it returns is the stream it was given.
pub validate_event_stream_iff :
    (es out : List Event)
    → (validate_event_stream es ≡ ok out) ↔ ((out ≡ es) × IsStream (first_incident es "") es)
unfolding validate_event_stream
validate_event_stream_iff [] out =
    (λ h. (ground arith, record { numbered = tt; distinct = tt }), λ h. ground arith)
validate_event_stream_iff (e ∷ es) out =
    (validate-IsStream e es out, λ h. IsStream-validate e es h.1 ∙ ap ok (sym h.0))
