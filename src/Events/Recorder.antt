-- ===== src/Events/Recorder.antt =====
-- What `EventRecorder` of core/events.py keeps: a recorder that starts empty holds, after any
-- calls of `emit`, a stream that `validate_event_stream` accepts.
use text.Mathlib.TextLemmas.{append_cancel_left}
use sciguard_autopilot.Base.{
  ℕ, ◌+◌, ◌<◌, ◌≡◌, refl, sym, ap, subst, ◌∙◌, inl, inr, String, true, false, List, [], ◌∷◌, ◌++◌,
  arith, Option, length, contains, NoDup, Exception, Result, ok, err, Bool-cases, eq_iff, ◌==◌,
}
use sciguard_autopilot.Base.Texts.{
  is_empty, strip, rstrip, starts_dark, strip-cases, strip_idem, lstrip_of_starts_dark,
  starts_dark-append, IsTrimmed, append-IsTrimmed, padded-IsTrimmed, padded_inj,
}
use sciguard_autopilot.Events.{
  Event, EventType, type_value, EventRecorder, Emission, event_ids, format_event_id, nonempty_text,
  make_event, requested, append_event, emit, new_recorder, validate_event_stream, first_incident,
}
use sciguard_autopilot.Events.Stream.{IsNumbered, IsStream, validate_event_stream_iff}

-- Two events of one incident have different IDs if they have different sequence numbers.
pub format_event_id_inj :
    (id : String) (m n : ℕ) (t u : EventType)
    → format_event_id id m t ≡ format_event_id id n u
    → m ≡ n
unfolding format_event_id
format_event_id_inj id m n t u h =
    padded_inj m n (type_value t) (type_value u)
      (append_cancel_left ":" _ _ (append_cancel_left id _ _ h))

type_value-IsTrimmed : (t : EventType) → IsTrimmed (type_value t)
unfolding type_value rstrip
type_value-IsTrimmed EventType.signal_detected = (refl, refl)
type_value-IsTrimmed _ = (refl, refl)

-- Stripping leaves an event ID alone, since it begins with the incident ID and ends with the type.
pub strip-format_event_id :
    (id : String) (n : ℕ) (t : EventType)
    → starts_dark id ≡ true
    → strip (format_event_id id n t) ≡ format_event_id id n t
unfolding strip format_event_id
strip-format_event_id id n t h =
    rw (lstrip_of_starts_dark _ (starts_dark-append id _ h))
      (append-IsTrimmed id _ (
        append-IsTrimmed ":" _
          (padded-IsTrimmed n _ (append-IsTrimmed ":" _ (type_value-IsTrimmed t))))).1

-- Each event has the ID that its place and type give.
abbrev pub HasIds : String → List Event → Type 0
HasIds id [] = Unit
HasIds id (e ∷ es) = (e.event_id ≡ format_event_id id e.sequence e.event_type) × HasIds id es

-- The recorder's stream: one incident, numbered from zero, with the IDs that `emit` gives.
pub record IsRecorder (r : EventRecorder) : Type 0 where
  pub trimmed : strip r.incident_id ≡ r.incident_id
  pub dark : starts_dark r.incident_id ≡ true
  pub numbered : IsNumbered r.incident_id 0 r.events
  pub has_ids : HasIds r.incident_id r.events

not_in_later :
    (id : String) (n k : ℕ) (t : EventType) (es : List Event)
    → IsNumbered id k es
    → HasIds id es
    → n < k
    → contains (format_event_id id n t) (event_ids es) ≡ false
not_in_later id n k t [] a b h = refl
not_in_later id n k t (e ∷ es) a b h = elim (Bool-cases (e.event_id == format_event_id id n t)) [
  | inl same ↦ absurd (
      omega (
        arith,
        format_event_id_inj id e.sequence n e.event_type t
            (sym b.0 ∙ (eq_iff e.event_id (format_event_id id n t)).0 same),
        a.1,
      ))
  | inr other ↦ ground (arith, not_in_later id n (k + 1) t es a.2 b.1)
]

HasIds-NoDup :
    (id : String) (k : ℕ) (es : List Event)
    → IsNumbered id k es
    → HasIds id es
    → NoDup (event_ids es)
HasIds-NoDup id k [] a b = tt
HasIds-NoDup id k (e ∷ es) a b = (
  rw (b.0, a.1) (not_in_later id k (k + 1) e.event_type es a.2 b.1 (omega arith)),
  HasIds-NoDup id (k + 1) es a.2 b.1,
)

pub IsStream-of_first :
    (id : String) (es : List Event)
    → IsNumbered id 0 es
    → NoDup (event_ids es)
    → IsStream (first_incident es "") es
IsStream-of_first id [] a b = record { numbered = tt; distinct = tt }
IsStream-of_first id (e ∷ es) a b = record {
  numbered = subst (λ k. IsNumbered k 0 (e ∷ es)) (sym a.0) a;
  distinct = b;
}

-- A recorder's stream passes `validate_event_stream`, so it can be saved and loaded.
pub IsRecorder-valid :
    (r : EventRecorder) → IsRecorder r → validate_event_stream r.events ≡ ok r.events
IsRecorder-valid r h = (validate_event_stream_iff r.events r.events).1 (
  refl,
  IsStream-of_first r.incident_id r.events h.numbered
      (HasIds-NoDup r.incident_id 0 r.events h.numbered h.has_ids),
)

pub new_recorder_fields :
    (id : String) (on_event : Option (List Event)) (r : EventRecorder)
    → new_recorder id [] on_event ≡ ok r
    → (is_empty (strip id) ≡ false)
      × (record { incident_id = strip id; events = []; delivered = on_event } ≡ r)
unfolding new_recorder validate_event_stream
new_recorder_fields id on_event r h = (ground arith, ground arith)

-- A recorder that is made without events is well formed.
pub new_recorder-IsRecorder :
    (id : String) (on_event : Option (List Event)) (r : EventRecorder)
    → new_recorder id [] on_event ≡ ok r
    → IsRecorder r
new_recorder-IsRecorder id on_event r h =
    let (filled, e) = new_recorder_fields id on_event r h in
    elim (strip-cases id) [
      | inl blank ↦ cc (ap is_empty blank)
      | inr dark ↦
          subst IsRecorder e
            (record { trimmed = strip_idem id; dark = dark; numbered = tt; has_ids = tt })
    ]

IsNumbered-append :
    (id : String) (k : ℕ) (es : List Event) (e : Event)
    → IsNumbered id k es
    → e.incident_id ≡ id
    → e.sequence ≡ k + length es
    → IsNumbered id k (es ++ e ∷ [])
IsNumbered-append id k [] e a p q = (p, omega arith, tt)
IsNumbered-append id k (x ∷ es) e a p q =
    (a.0, a.1, IsNumbered-append id (k + 1) es e a.2 p (omega arith))

HasIds-append :
    (id : String) (es : List Event) (e : Event)
    → HasIds id es
    → e.event_id ≡ format_event_id id e.sequence e.event_type
    → HasIds id (es ++ e ∷ [])
HasIds-append id [] e a p = (p, tt)
HasIds-append id (x ∷ es) e a p = (a.0, HasIds-append id es e a.1 p)

nonempty_text_lem : (s t : String) → nonempty_text s ≡ ok t → t ≡ strip s
unfolding nonempty_text
nonempty_text_lem s t h = ground arith

-- what a validated event keeps of what was asked for
make_event_fields :
    (x e : Event)
    → make_event x ≡ ok e
    → (nonempty_text x.event_id ≡ ok e.event_id)
      × (nonempty_text x.incident_id ≡ ok e.incident_id)
      × (e.sequence ≡ x.sequence)
      × (e.event_type ≡ x.event_type)
      × (e.payload ≡ x.payload)
unfolding make_event
make_event_fields x e h = ground arith

emit-cases :
    (now : ℕ) (a : Emission) (r r' : EventRecorder) (e : Event)
    → emit now a r ≡ (ok e, r')
    → (make_event (requested now a r) ≡ ok e) × (r' ≡ append_event r e)
unfolding emit
emit-cases now a r r' e h = ground arith

-- The event that `emit` records: the one that was asked for, under the next number and its ID.
pub record Recorded (a : Emission) (r r' : EventRecorder) (e : Event) : Type 0 where
  pub appended : r' ≡ append_event r e
  pub incident : e.incident_id ≡ r.incident_id
  pub sequence : e.sequence ≡ length r.events
  pub event_type : e.event_type ≡ a.event_type
  pub payload : e.payload ≡ a.payload
  pub event_id : e.event_id ≡ format_event_id r.incident_id (length r.events) a.event_type

pub emit-Recorded :
    (now : ℕ) (a : Emission) (r r' : EventRecorder) (e : Event)
    → IsRecorder r
    → emit now a r ≡ (ok e, r')
    → Recorded a r r' e
emit-Recorded now a r r' e h p =
    let (made, appended) = emit-cases now a r r' e p in
    let (id, incident, sequence, event_type, payload) =
      make_event_fields (requested now a r) e made in
    record {
      appended = appended;
      incident = nonempty_text_lem _ _ incident ∙ h.trimmed;
      sequence = sequence;
      event_type = event_type;
      payload = payload;
      event_id =
          nonempty_text_lem _ _ id
          ∙ strip-format_event_id r.incident_id (length r.events) a.event_type h.dark;
    }

-- Every successful `emit` keeps the recorder well formed.
pub emit-IsRecorder :
    (now : ℕ) (a : Emission) (r r' : EventRecorder) (e : Event)
    → IsRecorder r
    → emit now a r ≡ (ok e, r')
    → IsRecorder r'
emit-IsRecorder now a r r' e h p =
    let q = emit-Recorded now a r r' e h p in
    subst IsRecorder (sym q.appended) (record {
      trimmed = h.trimmed;
      dark = h.dark;
      numbered =
          IsNumbered-append r.incident_id 0 r.events e h.numbered q.incident
            (omega (arith, q.sequence));
      has_ids =
          HasIds-append r.incident_id r.events e h.has_ids
            (rw (q.sequence, q.event_type) q.event_id);
    })

-- A refused event changes nothing.
pub emit_refused :
    (now : ℕ) (a : Emission) (r r' : EventRecorder) {x : Exception}
    → emit now a r ≡ (err x, r')
    → r' ≡ r
unfolding emit
emit_refused now a r r' p = ground arith

-- Any calls of `emit`, refused ones included, each at its own clock reading.
unfoldable pub emit_all : List (ℕ × Emission) → EventRecorder → EventRecorder
emit_all [] r = r
emit_all ((now, a) ∷ calls) r = emit_all calls (emit now a r).1

emit-step :
    (now : ℕ) (a : Emission) (r : EventRecorder) → IsRecorder r → IsRecorder (emit now a r).1
emit-step now a r h = go (emit now a r) refl
  where
    go : (x : Result Event × EventRecorder) → emit now a r ≡ x → IsRecorder x.1
    go (ok e, r') p = emit-IsRecorder now a r r' e h p
    go (err x, r') p = subst IsRecorder (sym (emit_refused now a r r' p)) h

pub emit_all-IsRecorder :
    (calls : List (ℕ × Emission)) (r : EventRecorder) → IsRecorder r → IsRecorder (emit_all calls r)
unfolding emit_all
emit_all-IsRecorder [] r h = h
emit_all-IsRecorder ((now, a) ∷ calls) r h =
    emit_all-IsRecorder calls (emit now a r).1 (emit-step now a r h)

-- A recorder that was made for an incident, with no events, holds after any calls of `emit`,
-- accepted or refused, a stream that `validate_event_stream` accepts unchanged: one incident,
-- contiguous sequence numbers, and no event ID twice.
pub emit_all-valid :
    (id : String) (on_event : Option (List Event)) (calls : List (ℕ × Emission)) (r : EventRecorder)
    → new_recorder id [] on_event ≡ ok r
    → validate_event_stream (emit_all calls r).events ≡ ok (emit_all calls r).events
emit_all-valid id on_event calls r h =
    IsRecorder-valid (emit_all calls r)
      (emit_all-IsRecorder calls r (new_recorder-IsRecorder id on_event r h))
