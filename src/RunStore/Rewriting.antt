-- ===== src/RunStore/Rewriting.antt =====
-- The operations of api/run_store.py that rewrite only the manifest: each, on a store that is intact, either raises and leaves the store
-- as it was, or returns and leaves the store intact.
use sciguard_autopilot.Base.{
  ℕ, ◌≡◌, refl, sym, ap, subst, ◌∙◌, ◌⊎◌, inl, inr, String, true, false, Option, none, some, List,
  arith, if◌then◌else◌, any, Bool-cases, value_error, Result, ok, err, Exception, eq_iff, eq_refl,
  ◌==◌,
}
use sciguard_autopilot.Base.Dict.{lookup-insert}
use sciguard_autopilot.Events.Storage.{Line, breaks_line}
use sciguard_autopilot.RunStore.{RunManifest, RunStore, write_manifest, with_manifest, runs_live}
use sciguard_autopilot.RunStore.Identity.{validate_id, count-take_text}
use sciguard_autopilot.RunStore.Operations.{
  is_active, deactivate, finish_run, completed_manifest, fail_run, failed_manifest, update_state,
  moved_manifest,
}
use sciguard_autopilot.RunStore.Invariant.{IsShort, IsStore, Found, put-IsStore}
use sciguard_autopilot.RunStore.Reading.{
  get_manifest-cases, get_events-Found, get_events-Broken, IsRun-valid,
}

-- Refused with nothing changed, or done with an intact store.
abbrev pub Outcome : (List Line → String) → {A : Type 0} → RunStore → Result A × RunStore → Type 0
Outcome digest s r =
    ((x : Exception) × (r ≡ (err x, s)))
    ⊎ ((a : _) × (s' : RunStore) × (r ≡ (ok a, s')) × IsStore digest s'.root s'.active_incident)

pub write_manifest_lem :
    (m : RunManifest) (id : String) (s : RunStore)
    → m.incident_id ≡ id
    → validate_id id ≡ ok id
    → write_manifest m s ≡ (ok tt, with_manifest id m s)
write_manifest_lem m id s e v = rw (e, v) refl

module _ (digest : List Line → String) where
  -- The manifest is rewritten, its events file is not.
  rewritten-IsStore :
      (id : String) (s : RunStore) (m m' : RunManifest) (active : Option String)
      → IsStore digest s.root s.active_incident
      → (f : Found digest s s id m) → m'.incident_id ≡ m.incident_id
      → m'.event_count ≡ m.event_count
      → m'.events_sha256 ≡ m.events_sha256
      → IsShort m'.error
      → runs_live m' ≡ is_active id active
      → ((j : String) → (id == j) ≡ false → is_active j active ≡ is_active j s.active_incident)
      → ((j : String) → active ≡ some j → ((id == j) ≡ true) ⊎ (s.active_incident ≡ some j))
      → IsStore digest (with_manifest id m' s).root active
  rewritten-IsStore id s m m' active i f owner counted sealed short runs same kept =
      put-IsStore digest s.root _ s.active_incident active id _ i (λ j. lookup-insert id j _ s.root)
        (rw f.listed (record {
          manifest = m';
          events = f.run.events;
          described = refl;
          owner = owner ∙ sym (ap (λ (r : RunManifest). r.incident_id) f.same) ∙ f.run.owner;
          safe = f.run.safe;
          stored = f.run.stored;
          numbered = f.run.numbered;
          distinct = f.run.distinct;
          counted = counted ∙ sym (ap (λ (r : RunManifest). r.event_count) f.same) ∙ f.run.counted;
          sealed = sealed ∙ sym (ap (λ (r : RunManifest). r.events_sha256) f.same) ∙ f.run.sealed;
          alone = f.run.alone;
          short = short;
          active_iff = runs;
        }))
        same kept

  pub owner_of :
      (id : String) (s : RunStore) (m : RunManifest) (f : Found digest s s id m)
      → m.incident_id ≡ id
  owner_of id s m f = sym (ap (λ (r : RunManifest). r.incident_id) f.same) ∙ f.run.owner

  -- The run is no longer active.
  ended_active :
      (id : String) (a : Option String) → false ≡ is_active id (if is_active id a then none else a)
  ended_active id a = ground arith

  ended_others :
      (id : String) (a : Option String) (j : String)
      → (id == j) ≡ false
      → is_active j (if is_active id a then none else a) ≡ is_active j a
  ended_others id none j h = refl
  ended_others id (some a) j h = ground (arith, eq_iff a id, eq_iff a j, eq_iff id j, eq_refl id)

  ended_kept :
      (id : String) (a : Option String) (j : String)
      → (if is_active id a then none else a) ≡ some j
      → ((id == j) ≡ true) ⊎ (a ≡ some j)
  ended_kept id a j h = inr (ground arith)

  pub update_state-Outcome :
      (id state : String) (now : ℕ) (s : RunStore)
      → IsStore digest s.root s.active_incident
      → Outcome digest s (update_state id state now s)
  unfolding update_state
  update_state-Outcome id state now s i = elim (get_manifest-cases digest id s i) [
    | inr (x, e) ↦ inl (x, rw e refl)
    | inl (m, e, f) ↦
        let m' = moved_manifest m state now in
        inr (
          m',
          with_manifest id m' s,
          rw (e, write_manifest_lem m' id s (owner_of id s m f) f.run.safe) refl,
          rewritten-IsStore id s m m' s.active_incident i f refl refl refl
              (subst (λ (r : RunManifest). IsShort r.error) f.same f.run.short)
              (ap runs_live (sym f.same) ∙ f.run.active_iff) (λ j h. refl) (λ j h. inr h),
        )
  ]

  pub fail_run-Outcome :
      (id error : String) (now : ℕ) (s : RunStore)
      → IsStore digest s.root s.active_incident
      → Outcome digest s (fail_run id error now s)
  unfolding fail_run
  fail_run-Outcome id error now s i = elim (get_manifest-cases digest id s i) [
    | inr (x, e) ↦ inl (x, rw e refl)
    | inl (m, e, f) ↦
        let m' = failed_manifest m error now in
        inr (
          m',
          deactivate id (with_manifest id m' s),
          rw (e, write_manifest_lem m' id s (owner_of id s m f) f.run.safe) refl,
          rewritten-IsStore id s m m' _ i f refl refl refl (count-take_text 2000 error)
              (ground (arith, ended_active id s.active_incident))
              (ended_others id s.active_incident) (ended_kept id s.active_incident),
        )
  ]

  pub finish_run-Outcome :
      (id state backend : String) (now : ℕ) (s : RunStore)
      → IsStore digest s.root s.active_incident
      → Outcome digest s (finish_run digest id state backend now s)
  unfolding finish_run
  finish_run-Outcome id state backend now s i = elim (get_manifest-cases digest id s i) [
    | inr (x, e) ↦ inl (x, rw e refl)
    | inl (m, e, f) ↦
        let m' = completed_manifest digest m state backend now in
        elim (Bool-cases (any breaks_line f.run.events)) [
          | inl bad ↦ inl (
            value_error "invalid event on JSONL line",
            rw (e, get_events-Broken digest id s m e f bad) refl,
          )
          | inr whole ↦ inr (
            m',
            deactivate id (with_manifest id m' s),
            rw
                (
                  e,
                  get_events-Found digest id s m e f whole,
                  IsRun-valid digest s.active_incident id f.directory f.run,
                  write_manifest_lem m' id s (owner_of id s m f) f.run.safe,
                )
                refl,
            rewritten-IsStore id s m m' _ i f refl refl refl
                (subst (λ (r : RunManifest). IsShort r.error) f.same f.run.short)
                (ground (arith, ended_active id s.active_incident))
                (ended_others id s.active_incident) (ended_kept id s.active_incident),
          )
        ]
  ]
