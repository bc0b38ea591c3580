-- ===== src/RunStore/Appending.antt =====
-- `append_event` of api/run_store.py, on a store that is intact: the event file grows by the one
-- event, and the manifest is made to describe it.
use sciguard_autopilot.Base.{
  ℕ, ◌+◌, ◌≡◌, refl, sym, ap, subst, ◌∙◌, ◌⊎◌, inl, inr, String, true, false, not, ◌||◌, none, some,
  List, [], ◌∷◌, ◌++◌, arith, nat_eq, length, Result, ok, err, Exception, Bool-cases, Result-cases,
  runtime_error, value_error, any,
}
use sciguard_autopilot.Base.Dict.{lookup-insert}
use sciguard_autopilot.Events.{
  Event, EventRecorder, new_recorder, validate_event_stream, first_incident,
}
use sciguard_autopilot.Events.Storage.{Line, breaks_line, lines_of, save_jsonl}
use sciguard_autopilot.Events.Stream.{IsNumbered, IsStream, validate_event_stream_iff}
use sciguard_autopilot.RunStore.{
  RunManifest, holds_manifest, RunStore, get_manifest, with_manifest, runs_live, is_live, is_failed,
}
use sciguard_autopilot.RunStore.Operations.{write_events, append_event, appended}
use sciguard_autopilot.RunStore.Invariant.{IsShort, IsStore, Found, put-IsStore}
use sciguard_autopilot.RunStore.Reading.{get_manifest-cases, get_events-Found, get_events-Broken}
use sciguard_autopilot.RunStore.Rewriting.{Outcome, write_manifest_lem, owner_of}
use sciguard_autopilot.RunStore.Starting.{directory_of-insert}

new_recorder-IsStream :
    (id : String) (es : List Event) (r : EventRecorder)
    → new_recorder id es none ≡ ok r
    → (r.events ≡ es) × IsStream (first_incident es "") es
unfolding new_recorder
new_recorder-IsStream id es r h = elim (Result-cases (validate_event_stream es)) [
  | inr (x, e) ↦ absurd (ground arith)
  | inl (out, e) ↦
      let (same, stream) = (validate_event_stream_iff es out).0 e in
      (ground (arith, same, e), stream)
]

save_jsonl_lines :
    (r : EventRecorder) (lines : List Line) → save_jsonl r ≡ ok lines → lines ≡ lines_of r.events
unfolding save_jsonl
save_jsonl_lines r lines h = ground arith

last_incident :
    (k : String) (n : ℕ) (es : List Event) (e : Event)
    → IsNumbered k n (es ++ e ∷ [])
    → e.incident_id ≡ k
last_incident k n [] e h = h.0
last_incident k n (x ∷ es) e h = last_incident k (n + 1) es e h.2

pub length_snoc : (es : List Event) (e : Event) → length es + 1 ≡ length (es ++ e ∷ [])
length_snoc [] e = refl
length_snoc (x ∷ es) e = omega (arith, length_snoc es e)

module _ (digest : List Line → String) where
  abbrev pub extended : Event → RunManifest → List Event → ℕ → RunStore → RunStore
  extended e m es now s =
      let lines = lines_of (es ++ e ∷ []) in
      with_manifest e.incident_id (appended digest m es lines now)
        (write_events e.incident_id lines s)

  pub extended-IsStore :
      (e : Event) (now : ℕ) (s : RunStore) (m : RunManifest)
      → IsStore digest s.root s.active_incident
      → (f : Found digest s s e.incident_id m)
      → IsStream (first_incident (f.run.events ++ e ∷ []) "") (f.run.events ++ e ∷ [])
      → IsStore digest (extended e m f.run.events now s).root s.active_incident
  extended-IsStore e now s m i f stream =
      let es = f.run.events in
      let lines = lines_of (es ++ e ∷ []) in
      let id = e.incident_id in
      put-IsStore digest s.root _ s.active_incident s.active_incident id
        (record {
          manifest_file = some (holds_manifest (appended digest m es lines now));
          events_file = some lines;
          other_files = [];
        })
        i
        (λ j. rw (directory_of-insert id _ s.root) (
          rw (lookup-insert id j _ _)
            (rw (lookup-insert id j _ s.root) (ground (arith, f.listed, f.run.alone)))))
        (record {
          manifest = appended digest m es lines now;
          events = es ++ e ∷ [];
          described = refl;
          owner = owner_of digest id s m f;
          safe = f.run.safe;
          stored = refl;
          numbered =
              subst (λ k. IsNumbered k 0 (es ++ e ∷ []))
                (sym (last_incident _ 0 es e stream.numbered)) stream.numbered;
          distinct = stream.distinct;
          counted = length_snoc es e;
          sealed = refl;
          alone = refl;
          short = subst (λ (r : RunManifest). IsShort r.error) f.same f.run.short;
          active_iff = ap runs_live (sym f.same) ∙ f.run.active_iff;
        })
        (λ j h. refl) (λ j h. inr h)

  append_event_valid :
      (e : Event) (now : ℕ) (s : RunStore) (m : RunManifest) (r : EventRecorder)
      → get_manifest e.incident_id s ≡ (ok m, s)
      → (f : Found digest s s e.incident_id m)
      → (not (is_live m.mode) || is_failed m.status) ≡ false
      → any breaks_line f.run.events ≡ false
      → nat_eq e.sequence (length f.run.events) ≡ true
      → new_recorder e.incident_id (f.run.events ++ e ∷ []) none ≡ ok r
      → save_jsonl r ≡ ok (lines_of (f.run.events ++ e ∷ []))
      → append_event digest e now s ≡ (ok tt, extended e m f.run.events now s)
  unfolding append_event
  append_event_valid e now s m r got f may whole next made saved =
      rw
        (
          got,
          may,
          get_events-Found digest e.incident_id s m got f whole,
          next,
          made,
          saved,
          write_manifest_lem
              (appended digest m f.run.events (lines_of (f.run.events ++ e ∷ [])) now) e.incident_id
              (write_events e.incident_id (lines_of (f.run.events ++ e ∷ [])) s)
              (owner_of digest e.incident_id s m f) f.run.safe,
        )
        refl

  -- Refused with nothing changed, or extended by the event.
  abbrev pub Extension : Event → ℕ → RunStore → Result (Unit {0}) × RunStore → Type 0
  Extension e now s r =
      ((x : Exception) × (r ≡ (err x, s)))
      ⊎ ((m : RunManifest) × (f : Found digest s s e.incident_id m) × (get_manifest e.incident_id s
            ≡ (ok m, s))
          × (r ≡ (ok tt, extended e m f.run.events now s))
          × IsStream (first_incident (f.run.events ++ e ∷ []) "") (f.run.events ++ e ∷ [])
          × (any breaks_line f.run.events ≡ false))

  append_event_recorded :
      (e : Event) (now : ℕ) (s : RunStore) (m : RunManifest)
      → get_manifest e.incident_id s ≡ (ok m, s)
      → (f : Found digest s s e.incident_id m)
      → (not (is_live m.mode) || is_failed m.status) ≡ false
      → any breaks_line f.run.events ≡ false
      → nat_eq e.sequence (length f.run.events) ≡ true
      → Extension e now s (append_event digest e now s)
  unfolding append_event
  append_event_recorded e now s m got f may whole next =
      let es = f.run.events in
      let read = get_events-Found digest e.incident_id s m got f whole in
      elim (Result-cases (new_recorder e.incident_id (es ++ e ∷ []) none)) [
        | inr (x, bad) ↦ inl (x, rw (got, may, read, next, bad) refl)
        | inl (r, made) ↦ elim (Result-cases (save_jsonl r)) [
          | inr (x, bad) ↦ inl (x, rw (got, may, read, next, made, bad) refl)
          | inl (lines, saved) ↦
              let (same, stream) = new_recorder-IsStream e.incident_id (es ++ e ∷ []) r made in
              let saved' = saved ∙ ap ok (save_jsonl_lines r lines saved ∙ ap lines_of same) in
              inr (
                m,
                f,
                got,
                append_event_valid e now s m r got f may whole next made saved',
                stream,
                whole,
              )
        ]
      ]

  pub append_event-Extension :
      (e : Event) (now : ℕ) (s : RunStore)
      → IsStore digest s.root s.active_incident
      → Extension e now s (append_event digest e now s)
  unfolding append_event
  append_event-Extension e now s i = elim (get_manifest-cases digest e.incident_id s i) [
    | inr (x, got) ↦ inl (x, rw got refl)
    | inl (m, got, f) ↦ elim (Bool-cases (not (is_live m.mode) || is_failed m.status)) [
      | inl closed ↦
          inl (runtime_error "events cannot be appended to this run", rw (got, closed) refl)
      | inr may ↦ elim (Bool-cases (any breaks_line f.run.events)) [
        | inl bad ↦ inl (
          value_error "invalid event on JSONL line",
          rw (got, may, get_events-Broken digest e.incident_id s m got f bad) refl,
        )
        | inr whole ↦ elim (Bool-cases (nat_eq e.sequence (length f.run.events))) [
          | inl next ↦ append_event_recorded e now s m got f may whole next
          | inr other ↦ inl (
            runtime_error "unexpected event sequence",
            rw (got, may, get_events-Found digest e.incident_id s m got f whole, other) refl,
          )
        ]
      ]
    ]
  ]

  pub append_event-Outcome :
      (e : Event) (now : ℕ) (s : RunStore)
      → IsStore digest s.root s.active_incident
      → Outcome digest s (append_event digest e now s)
  append_event-Outcome e now s i = elim (append_event-Extension e now s i) [
    | inl refused ↦ inl refused
    | inr (m, f, got, done, stream, whole) ↦
        inr (tt, extended e m f.run.events now s, done, extended-IsStore e now s m i f stream)
  ]
