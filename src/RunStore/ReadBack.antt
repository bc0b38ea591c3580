-- ===== src/RunStore/ReadBack.antt =====
-- What `get_events` of api/run_store.py reads after `append_event`.
use sciguard_autopilot.Base.{
  ℕ, ◌≡◌, refl, sym, ap, ◌∙◌, inl, inr, String, Bool, true, false, Option, none, some, List, [],
  ◌∷◌, ◌++◌, any, arith, nat_eq, nat_eq_refl, length, Result-cases, ok, err, Exception, eq_refl,
  ◌==◌,
}
use sciguard_autopilot.Base.Dict.{Dict, insert, lookup-insert}
use sciguard_autopilot.Events.{Event, validate_event_stream}
use sciguard_autopilot.Events.Storage.{
  Line, breaks_line, lines_of, load_events, load_events-lines_of,
}
use sciguard_autopilot.Events.Stream.{validate_event_stream_iff}
use sciguard_autopilot.RunStore.{
  RunManifest, Directory, RunStore, open_store, get_manifest, directory_of, ManifestFile,
  unreadable, holds_manifest,
}
use sciguard_autopilot.RunStore.Identity.{validate_id, validate_id_same}
use sciguard_autopilot.RunStore.Operations.{append_event, get_events, appended}
use sciguard_autopilot.RunStore.Reading.{get_events-Found}
use sciguard_autopilot.RunStore.Starting.{directory_of-insert}
use sciguard_autopilot.RunStore.Appending.{extended, append_event-Extension, length_snoc}
use sciguard_autopilot.RunStore.History.{Operation, perform_all, perform_all-IsStore}

module _ (digest : List Line → String) where
  get_events_directory :
      (id : String) (s : RunStore) (m : RunManifest) (lines : List Line) (es : List Event)
      → validate_id id ≡ ok id
      → (directory_of id s.root).manifest_file ≡ some (holds_manifest m)
      → (directory_of id s.root).events_file ≡ some lines
      → (digest lines == m.events_sha256) ≡ true
      → load_events lines ≡ ok es
      → nat_eq (length es) m.event_count ≡ true
      → get_events digest id s ≡ (ok es, s)
  unfolding get_events get_manifest
  get_events_directory id s m lines es v described stored sealed loads counted =
      rw (v, described, stored, sealed, loads, counted) refl

  directory_of-extended :
      (e : Event) (now : ℕ) (s : RunStore) (m : RunManifest) (es : List Event)
      → directory_of e.incident_id (extended digest e m es now s).root ≡ record {
        manifest_file = some (holds_manifest (appended digest m es (lines_of (es ++ e ∷ [])) now));
        events_file = some (lines_of (es ++ e ∷ []));
        other_files = (directory_of e.incident_id s.root).other_files;
      }
  directory_of-extended e now s m es =
      directory_of-insert e.incident_id _ _ ∙ rw (directory_of-insert e.incident_id _ s.root) refl

  get_events-extended :
      (e : Event) (now : ℕ) (s : RunStore) (m : RunManifest) (es : List Event)
      → validate_id e.incident_id ≡ ok e.incident_id
      → any breaks_line (es ++ e ∷ []) ≡ false
      → validate_event_stream (es ++ e ∷ []) ≡ ok (es ++ e ∷ [])
      → get_events digest e.incident_id (extended digest e m es now s)
        ≡ (ok (es ++ e ∷ []), extended digest e m es now s)
  get_events-extended e now s m es v whole stream =
      let lines = lines_of (es ++ e ∷ []) in
      get_events_directory e.incident_id (extended digest e m es now s)
        (appended digest m es lines now) lines (es ++ e ∷ []) v
        (ap (λ (d : Directory). d.manifest_file) (directory_of-extended e now s m es))
        (ap (λ (d : Directory). d.events_file) (directory_of-extended e now s m es))
        (eq_refl (digest lines)) (load_events-lines_of (es ++ e ∷ []) ∙ rw whole stream)
        (rw (length_snoc es e) (nat_eq_refl (length (es ++ e ∷ []))))

  directory_of_other :
      (id j : String) (d : Directory) (root : Dict Directory)
      → (id == j) ≡ false
      → directory_of j (insert id d root) ≡ directory_of j root
  directory_of_other id j d root h = rw (lookup-insert id j d root, h) refl

  -- What `get_events` returns depends on the incident's own directory.
  get_events_same :
      (j : String) (s s' : RunStore) (manifest : Option ManifestFile) (file : Option (List Line))
      → validate_id j ≡ ok j
      → (directory_of j s.root).manifest_file ≡ manifest
      → (directory_of j s'.root).manifest_file ≡ manifest
      → (directory_of j s.root).events_file ≡ file
      → (directory_of j s'.root).events_file ≡ file
      → (get_events digest j s').0 ≡ (get_events digest j s).0
  unfolding get_events get_manifest
  get_events_same j s s' none file v m m' f f' = rw (v, m, m') refl
  get_events_same j s s' (some unreadable) file v m m' f f' = rw (v, m, m') refl
  get_events_same j s s' (some (holds_manifest x)) none v m m' f f' = rw (v, m, m', f, f') refl
  get_events_same j s s' (some (holds_manifest x)) (some lines) v m m' f f' =
      rw (v, m, m', f, f') (ground arith)

  get_events_invalid :
      (j : String) (s s' : RunStore) (x : Exception)
      → validate_id j ≡ err x
      → (get_events digest j s').0 ≡ (get_events digest j s).0
  unfolding get_events get_manifest
  get_events_invalid j s s' x v = rw v refl

  directory_of-extended_other :
      (e : Event) (now : ℕ) (s : RunStore) (m : RunManifest) (es : List Event) (j : String)
      → (e.incident_id == j) ≡ false
      → directory_of j (extended digest e m es now s).root ≡ directory_of j s.root
  directory_of-extended_other e now s m es j h =
      directory_of_other e.incident_id j _ _ h ∙ directory_of_other e.incident_id j _ s.root h

  get_events_others :
      (e : Event) (now : ℕ) (s : RunStore) (m : RunManifest) (es : List Event) (j : String)
      → (e.incident_id == j) ≡ false
      → (get_events digest j (extended digest e m es now s)).0 ≡ (get_events digest j s).0
  get_events_others e now s m es j h =
      let same = directory_of-extended_other e now s m es j h in
      elim (Result-cases (validate_id j)) [
        | inr (x, v) ↦ get_events_invalid j s (extended digest e m es now s) x v
        | inl (k, v) ↦
            get_events_same j s (extended digest e m es now s) _ _
              (v ∙ ap ok (validate_id_same j v)) refl (ap (λ (d : Directory). d.manifest_file) same)
              refl (ap (λ (d : Directory). d.events_file) same)
      ]

  any_snoc :
      (es : List Event) (e : Event)
      → any breaks_line es ≡ false
      → breaks_line e ≡ false
      → any breaks_line (es ++ e ∷ []) ≡ false
  any_snoc [] e h k = rw k refl
  any_snoc (x ∷ es) e h k = ground (arith, any_snoc es e, k)

  -- On a store that was opened on an empty root and then used in any way: when `append_event` of an
  -- event whose texts hold no U+0085, U+2028 or U+2029 returns, `get_events` of the event's incident
  -- then returns the events that it returned before, followed by the new one, and `get_events` of any
  -- other incident returns or raises what it did before.
  pub get_events-append_event :
      (os : List Operation) (commit : String) (dirty : Bool) (e : Event) (now : ℕ) (s' : RunStore)
      → breaks_line e ≡ false
      → append_event digest e now (perform_all digest os (open_store [] commit dirty)) ≡ (ok tt, s')
      → ((es : List Event) × (get_events digest e.incident_id
              (perform_all digest os (open_store [] commit dirty))
            ≡ (ok es, perform_all digest os (open_store [] commit dirty)))
          × (get_events digest e.incident_id s' ≡ (ok (es ++ e ∷ []), s')))
        × ((j : String)
            → (e.incident_id == j) ≡ false
            → (get_events digest j s').0
              ≡ (get_events digest j (perform_all digest os (open_store [] commit dirty))).0)
  get_events-append_event os commit dirty e now s' fits h =
      let s = perform_all digest os (open_store [] commit dirty) in
      elim (append_event-Extension digest e now s (perform_all-IsStore digest os commit dirty)) [
        | inl (x, refused) ↦ absurd (cc (sym h ∙ refused))
        | inr (m, f, got, done, stream, whole) ↦
            let es = f.run.events in
            let state : s' ≡ extended digest e m es now s = cc (sym h ∙ done) in
            rw state (
              (
                (
                  es,
                  get_events-Found digest e.incident_id s m got f whole,
                  get_events-extended e now s m es f.run.safe (any_snoc es e whole fits)
                      ((validate_event_stream_iff (es ++ e ∷ []) (es ++ e ∷ [])).1 (refl, stream)),
                ),
                get_events_others e now s m es,
              ))
      ]
