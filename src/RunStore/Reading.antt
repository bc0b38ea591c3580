-- ===== src/RunStore/Reading.antt =====
-- What `get_manifest` and `get_events` of api/run_store.py return from a store whose directories
-- are intact.
use sciguard_autopilot.Base.{
  ◌≡◌, refl, sym, ap, subst, ◌∙◌, ◌⊎◌, inl, inr, String, Option, List, any, arith, nat_eq_refl,
  length, Result, ok, err, Exception, value_error, true, false, eq_refl,
}
use sciguard_autopilot.Events.{validate_event_stream}
use sciguard_autopilot.Events.Storage.{
  Line, breaks_line, lines_of, load_events, load_events-lines_of,
}
use sciguard_autopilot.Events.Stream.{validate_event_stream_iff}
use sciguard_autopilot.Events.Recorder.{IsStream-of_first}
use sciguard_autopilot.RunStore.{RunManifest, Directory, RunStore, get_manifest}
use sciguard_autopilot.RunStore.Identity.{validate_id}
use sciguard_autopilot.RunStore.Operations.{get_events}
use sciguard_autopilot.RunStore.Invariant.{IsRun, IsStore, Found, get_manifest-Found}

get_manifest_keeps : (id : String) (s : RunStore) → (get_manifest id s).1 ≡ s
unfolding get_manifest validate_id
get_manifest_keeps id s = ground arith

module _ (digest : List Line → String) where
  pub get_manifest-cases :
      (id : String) (s : RunStore)
      → IsStore digest s.root s.active_incident
      → ((m : RunManifest) × (get_manifest id s ≡ (ok m, s)) × Found digest s s id m)
        ⊎ ((x : Exception) × (get_manifest id s ≡ (err x, s)))
  get_manifest-cases id s i = go (get_manifest id s) refl
    where
      go :
          (x : Result RunManifest × RunStore)
          → get_manifest id s ≡ x
          → ((m : RunManifest) × (get_manifest id s ≡ (ok m, s)) × Found digest s s id m)
            ⊎ ((x : Exception) × (get_manifest id s ≡ (err x, s)))
      go (ok m, s') e =
          let same : s' ≡ s =
            sym (ap (λ (p : Result RunManifest × RunStore). p.1) e) ∙ get_manifest_keeps id s in
          let e' : get_manifest id s ≡ (ok m, s) =
            subst (λ t. get_manifest id s ≡ (ok m, t)) same e in
          inl (m, e', get_manifest-Found digest s s id m i e')
      go (err x, s') e =
          let same : s' ≡ s =
            sym (ap (λ (p : Result RunManifest × RunStore). p.1) e) ∙ get_manifest_keeps id s in
          inr (x, subst (λ t. get_manifest id s ≡ (err x, t)) same e)

  pub IsRun-valid :
      (active : Option String) (id : String) (d : Directory) (r : IsRun digest active id d)
      → validate_event_stream r.events ≡ ok r.events
  IsRun-valid active id d r =
      (validate_event_stream_iff r.events r.events).1
        (refl, IsStream-of_first id r.events r.numbered r.distinct)

  pub get_events-Found :
      (id : String) (s : RunStore) (m : RunManifest)
      → get_manifest id s ≡ (ok m, s)
      → (f : Found digest s s id m) → any breaks_line f.run.events ≡ false
      → get_events digest id s ≡ (ok f.run.events, s)
  unfolding get_events
  get_events-Found id s m e f whole =
      let loads : load_events (lines_of f.run.events) ≡ ok f.run.events =
        load_events-lines_of f.run.events
        ∙ rw whole (IsRun-valid s.active_incident id f.directory f.run) in
      rw
        (
          e,
          f.listed,
          f.run.stored,
          sym f.same,
          f.run.sealed,
          eq_refl (digest (lines_of f.run.events)),
          loads,
          f.run.counted,
          nat_eq_refl (length f.run.events),
        )
        refl

  -- An event that breaks its line makes the file unreadable.
  pub get_events-Broken :
      (id : String) (s : RunStore) (m : RunManifest)
      → get_manifest id s ≡ (ok m, s)
      → (f : Found digest s s id m) → any breaks_line f.run.events ≡ true
      → get_events digest id s ≡ (err (value_error "invalid event on JSONL line"), s)
  unfolding get_events
  get_events-Broken id s m e f bad =
      let loads : load_events (lines_of f.run.events)
          ≡ err (value_error "invalid event on JSONL line") =
        load_events-lines_of f.run.events ∙ rw bad refl in
      rw
        (
          e,
          f.listed,
          f.run.stored,
          sym f.same,
          f.run.sealed,
          eq_refl (digest (lines_of f.run.events)),
          loads,
        )
        refl
