-- ===== src/RunStore/Invariant.antt =====
-- What the operations of api/run_store.py keep true of the directories and of the active run.
use Prim.Native.String.{count}
use sciguard_autopilot.Base.{
  ◌≤◌, ◌≡◌, refl, sym, ap, subst, ◌∙◌, ◌⊎◌, inl, inr, String, Bool, true, false, Option, none, some,
  List, [], arith, is_some, length, NoDup, if◌then◌else◌, ok, Bool-cases, eq_iff, ◌==◌,
}
use sciguard_autopilot.Base.Dict.{Dict, lookup}
use sciguard_autopilot.Events.{Event, event_ids}
use sciguard_autopilot.Events.Storage.{Line, lines_of}
use sciguard_autopilot.Events.Stream.{IsNumbered}
use sciguard_autopilot.RunStore.{
  RunManifest, holds_manifest, Directory, RunStore, runs_live, get_manifest,
}
use sciguard_autopilot.RunStore.Operations.{is_active}
use sciguard_autopilot.RunStore.Identity.{validate_id}

-- The text of an error is cut.
abbrev pub IsShort : Option String → Type 0
IsShort none = Unit
IsShort (some text) = count text ≤ 2000

module _ (digest : List Line → String) where
  -- A directory whose manifest describes the events file beside it, and whose run is the store's
  -- active one exactly if it runs live.
  pub record IsRun (active : Option String) (id : String) (d : Directory) : Type 0 where
    pub manifest : RunManifest
    pub events : List Event
    pub described : d.manifest_file ≡ some (holds_manifest manifest)
    pub owner : manifest.incident_id ≡ id
    pub safe : validate_id id ≡ ok id
    pub stored : d.events_file ≡ some (lines_of events)
    pub numbered : IsNumbered id 0 events
    pub distinct : NoDup (event_ids events)
    pub counted : manifest.event_count ≡ length events
    pub sealed : manifest.events_sha256 ≡ digest (lines_of events)
    pub alone : d.other_files ≡ []
    pub short : IsShort manifest.error
    pub active_iff : runs_live manifest ≡ is_active id active

  pub record IsStore (root : Dict Directory) (active : Option String) : Type 0 where
    pub runs : (id : String) (d : Directory) → lookup id root ≡ some d → IsRun active id d
    pub live : (id : String) → active ≡ some id → is_some (lookup id root) ≡ true

  -- One directory is written, and the active run is this one, none, or the one it was.
  pub put-IsStore :
      (root root' : Dict Directory) (active active' : Option String) (id : String) (d : Directory)
      → IsStore root active
      → ((j : String) → lookup j root' ≡ (if id == j then some d else lookup j root))
      → IsRun active' id d
      → ((j : String) → (id == j) ≡ false → is_active j active' ≡ is_active j active)
      → ((j : String) → active' ≡ some j → ((id == j) ≡ true) ⊎ (active ≡ some j))
      → IsStore root' active'
  put-IsStore root root' active active' id d s agree run same kept = record {
    runs = λ j e found. elim (Bool-cases (id == j)) [
      | inl this ↦
          subst (λ k. IsRun active' k e) ((eq_iff id j).0 this)
            (subst (IsRun active' id)
              (cc (agree j, found, ap {A = Bool} (λ b. if b then some d else lookup j root) this))
              run)
      | inr other ↦
          let was = s.runs j e (
            cc (
              sym (agree j) ∙ found,
              ap {A = Bool} (λ b. if b then some d else lookup j root) other,
            )) in
          record {
            manifest = was.manifest;
            events = was.events;
            described = was.described;
            owner = was.owner;
            safe = was.safe;
            stored = was.stored;
            numbered = was.numbered;
            distinct = was.distinct;
            counted = was.counted;
            sealed = was.sealed;
            alone = was.alone;
            short = was.short;
            active_iff = was.active_iff ∙ sym (same j other);
          }
    ];
    live = λ j e. elim (kept j e) [
      | inl this ↦ rw (agree j, this)
      | inr before ↦ ground (arith, agree j, s.live j before)
    ];
  }

  -- The run that `get_manifest` found.
  pub record Found (s s' : RunStore) (id : String) (m : RunManifest) : Type 0 where
    pub directory : Directory
    pub listed : lookup id s.root ≡ some directory
    pub run : IsRun s.active_incident id directory
    pub same : run.manifest ≡ m
    pub unchanged : s' ≡ s

  manifest-Found :
      (s s' : RunStore) (id : String) (m : RunManifest) (o : Option Directory)
      → IsStore s.root s.active_incident
      → lookup id s.root ≡ o
      → get_manifest id s ≡ (ok m, s')
      → Found s s' id m
  unfolding get_manifest validate_id
  manifest-Found s s' id m none i e h = absurd (ground arith)
  manifest-Found s s' id m (some d) i e h =
      let run = i.runs id d e in
      record {
        directory = d;
        listed = e;
        run = run;
        same = ground (arith, run.described);
        unchanged = ground arith;
      }

  pub get_manifest-Found :
      (s s' : RunStore) (id : String) (m : RunManifest)
      → IsStore s.root s.active_incident
      → get_manifest id s ≡ (ok m, s')
      → Found s s' id m
  get_manifest-Found s s' id m i h = manifest-Found s s' id m (lookup id s.root) i refl h
