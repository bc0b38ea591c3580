-- ===== src/RunStore/Starting.antt =====
-- `start_run` and `delete_run` of api/run_store.py, on a store that is intact.
use sciguard_autopilot.Base.{
  ℕ, ◌≡◌, refl, sym, ap, ◌∙◌, inl, inr, String, false, none, some, List, [], ◌∷◌, arith,
  if◌then◌else◌, ok, Bool-cases, Option-cases, Result-cases, runtime_error, os_error, eq_iff,
  eq_refl, ◌==◌,
}
use sciguard_autopilot.Base.Dict.{Dict, lookup, insert, without, lookup-insert, lookup-without}
use sciguard_autopilot.Events.Storage.{Line, lines_of}
use sciguard_autopilot.RunStore.{
  holds_manifest, Directory, RunStore, directory_of, put_directory, with_manifest, empty_directory,
  is_running, runs_live,
}
use sciguard_autopilot.RunStore.Identity.{validate_id, validate_id_same}
use sciguard_autopilot.RunStore.Operations.{
  is_active, activate, write_events, new_manifest, start_run, delete_run,
}
use sciguard_autopilot.RunStore.Invariant.{IsStore, put-IsStore}
use sciguard_autopilot.RunStore.Reading.{get_manifest-cases}
use sciguard_autopilot.RunStore.Rewriting.{Outcome}

pub directory_of-insert :
    (id : String) (d : Directory) (root : Dict Directory) → directory_of id (insert id d root) ≡ d
directory_of-insert id d root = rw (lookup-insert id id d root, eq_refl id) refl

module _ (digest : List Line → String) where
  -- the store after the files of a new run are written
  abbrev pub started : String → String → ℕ → RunStore → RunStore
  started id backend now s = activate id (
      with_manifest id (new_manifest digest id backend now s)
        (write_events id [] (put_directory id empty_directory s)))

  abbrev first_directory : String → String → ℕ → RunStore → Directory
  first_directory id backend now s = record {
    manifest_file = some (holds_manifest (new_manifest digest id backend now s));
    events_file = some [];
    other_files = [];
  }

  lookup-started :
      (id backend : String) (now : ℕ) (s : RunStore) (j : String)
      → lookup j (started id backend now s).root
        ≡ (if id == j then some (first_directory id backend now s) else lookup j s.root)
  lookup-started id backend now s j = rw (directory_of-insert id empty_directory s.root) (
      rw (directory_of-insert id _ _) (
        rw (lookup-insert id j _ _) (
          rw (lookup-insert id j _ _)
            (rw (lookup-insert id j empty_directory s.root) (ground arith)))))

  started-IsStore :
      (id backend : String) (now : ℕ) (s : RunStore)
      → IsStore digest s.root s.active_incident
      → validate_id id ≡ ok id
      → s.active_incident ≡ none
      → IsStore digest (started id backend now s).root (some id)
  unfolding lines_of
  started-IsStore id backend now s i v idle =
      put-IsStore digest s.root _ s.active_incident (some id) id (first_directory id backend now s)
        i (lookup-started id backend now s)
        (record {
          manifest = new_manifest digest id backend now s;
          events = [];
          described = refl;
          owner = refl;
          safe = v;
          stored = refl;
          numbered = tt;
          distinct = tt;
          counted = refl;
          sealed = refl;
          alone = refl;
          short = tt;
          active_iff = sym (eq_refl id);
        })
        (λ j h. rw (idle, h) refl) (λ j e. inl (ground (arith, eq_iff id j)))

  pub start_run_valid :
      (id backend : String) (now : ℕ) (s : RunStore)
      → validate_id id ≡ ok id
      → s.active_incident ≡ none
      → lookup id s.root ≡ none
      → start_run digest id backend now s
        ≡ (ok (new_manifest digest id backend now s), started id backend now s)
  unfolding start_run
  start_run_valid id backend now s v idle fresh = rw (v, idle, fresh, v) refl

  pub start_run-Outcome :
      (id backend : String) (now : ℕ) (s : RunStore)
      → IsStore digest s.root s.active_incident
      → Outcome digest s (start_run digest id backend now s)
  unfolding start_run
  start_run-Outcome id backend now s i = elim (Result-cases (validate_id id)) [
    | inr (x, e) ↦ inl (x, rw e refl)
    | inl (out, e) ↦
        let v = e ∙ ap ok (validate_id_same id e) in
        elim (Option-cases s.active_incident) [
          | inr (a, busy) ↦ inl (runtime_error "incident is already running", rw (v, busy) refl)
          | inl idle ↦ elim (Option-cases (lookup id s.root)) [
            | inr (d, there) ↦ inl (os_error "incident already exists", rw (v, idle, there) refl)
            | inl fresh ↦ inr (
              new_manifest digest id backend now s,
              started id backend now s,
              start_run_valid id backend now s v idle fresh,
              started-IsStore id backend now s i v idle,
            )
          ]
        ]
  ]

  removed-IsStore :
      (id : String) (s : RunStore)
      → IsStore digest s.root s.active_incident
      → is_active id s.active_incident ≡ false
      → IsStore digest (without (id ∷ []) s.root) s.active_incident
  removed-IsStore id s i idle = record {
    runs = λ j d e. i.runs j d (ground (arith, lookup-without j (id ∷ []) s.root));
    live = λ j e.
        rw (lookup-without j (id ∷ []) s.root)
          (ground (arith, e, idle, i.live j e, eq_iff id j, eq_iff j id));
  }

  pub delete_run-Outcome :
      (id : String) (s : RunStore)
      → IsStore digest s.root s.active_incident
      → Outcome digest s (delete_run id s)
  unfolding delete_run
  delete_run-Outcome id s i = elim (get_manifest-cases digest id s i) [
    | inr (x, e) ↦ inl (x, rw e refl)
    | inl (m, e, f) ↦ elim (Bool-cases (is_running m.status)) [
      | inl busy ↦ inl (runtime_error "cannot reset an active run", rw (e, busy) refl)
      | inr over ↦ inr (
        tt,
        record s { root = without (id ∷ []) s.root },
        rw (e, over, f.listed, f.run.alone) refl,
        removed-IsStore id s i (sym f.run.active_iff ∙ ap runs_live f.same ∙ ground (arith, over)),
      )
    ]
  ]
