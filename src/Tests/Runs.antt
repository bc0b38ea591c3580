-- ===== src/Tests/Runs.antt =====
-- api/run_store.py at concrete inputs.
use Prim.Native.String.{count}
use sciguard_autopilot.Base.{
  ℕ, ◌≤◌, ◌≡◌, refl, String, false, none, some, List, [], ◌∷◌, ◌++◌, length, Result, ok, err,
  value_error, runtime_error, ◌==◌,
}
use sciguard_autopilot.Base.Texts.{strip, decimal}
use sciguard_autopilot.Events.{Event, sentinel, signal_detected}
use sciguard_autopilot.Events.Storage.{
  Line, breaks_line, line_of, lines_of, blank, invalid, holds, load_events, from_jsonl,
}
use sciguard_autopilot.RunStore.{
  RunStore, RunManifest, open_store, get_manifest, live, running, default_validation,
}
use sciguard_autopilot.RunStore.Identity.{validate_id, IsDirectChild}
use sciguard_autopilot.RunStore.Operations.{get_events, start_run, append_event, delete_run}
use sciguard_autopilot.RunStore.Export.{export_replay}
use sciguard_autopilot.RunStore.Invariant.{IsStore, IsShort}
use sciguard_autopilot.RunStore.History.{
  Operation, start, append, finish, fail, delete, perform, perform_all, perform_all-IsStore,
  perform_refused, get_manifest_bounds,
}
use sciguard_autopilot.RunStore.ReadBack.{get_events-append_event}

-- a stand-in for SHA-256
abbrev line_count : List Line → String
line_count lines = decimal (length lines) ""

abbrev observed : ℕ → String → Event
observed n id = record {
  event_id = id;
  incident_id = "INC-1";
  sequence = n;
  timestamp = record { instant = 10; utc_offset = some 0 };
  actor = sentinel;
  event_type = signal_detected;
  summary = "seen";
  evidence_ids = [];
  duration_ms = 0;
  payload = [];
}

abbrev fresh_store : RunStore
fresh_store = record {
  root = [];
  source_commit = "abc";
  source_worktree_dirty = false;
  active_incident = none;
}

abbrev two_appended : List Operation
two_appended = start "INC-1" "mcp" 1 ∷ append (observed 0 "a") 2 ∷ append (observed 1 "b") 3 ∷ []

abbrev replayed : List Operation
replayed = two_appended ++ finish "INC-1" "RESOLVED" "mcp" 4 ∷ []

-- The tests of `append_event` that a run goes through are decided by the text functions.
appended_events :
    (get_events line_count "INC-1" (perform_all line_count two_appended fresh_store)).0
    ≡ ok (observed 0 "a" ∷ observed 1 "b" ∷ [])
unfolding perform_all get_events decimal strip
appended_events = refl

-- The append of an event with a line separator in its summary returns, and then the run's file is
-- refused.
abbrev separated : Event
separated = record (observed 2 "c") { summary = "one\u{2028}two" }

separated_is_appended :
    (append_event line_count separated 4 (perform_all line_count two_appended fresh_store)).0
    ≡ ok tt
unfolding perform_all append_event decimal strip
separated_is_appended = refl

separated_is_unreadable :
    (get_events line_count "INC-1"
      (append_event line_count separated 4 (perform_all line_count two_appended fresh_store)).1).0
    ≡ err (value_error "invalid event on JSONL line")
unfolding perform_all append_event get_events lines_of line_of breaks_line decimal strip
separated_is_unreadable = refl

-- A second run, an event out of sequence, an event ID twice, and a name that is no ID are refused.
second_run_refused :
    (start_run line_count "INC-2" "mcp" 9 (perform_all line_count two_appended fresh_store)).0
    ≡ err (runtime_error "incident is already running")
unfolding perform_all start_run decimal strip
second_run_refused = refl

gap_refused :
    (append_event line_count (observed 5 "c") 9 (perform_all line_count two_appended fresh_store)).0
    ≡ err (runtime_error "unexpected event sequence")
unfolding perform_all append_event decimal strip
gap_refused = refl

twice_refused :
    (append_event line_count (observed 2 "a") 9 (perform_all line_count two_appended fresh_store)).0
    ≡ err (value_error "event IDs must be unique")
unfolding perform_all append_event decimal strip
twice_refused = refl

path_refused : validate_id "../INC-1" ≡ err (value_error "incident_id must be 1-64 safe characters")
unfolding validate_id
path_refused = refl

active_not_deleted :
    (delete_run "INC-1" (perform_all line_count two_appended fresh_store)).0
    ≡ err (runtime_error "cannot reset an active run")
unfolding perform_all delete_run decimal strip
active_not_deleted = refl

deleted_after_failure :
    perform_all line_count (two_appended ++ fail "INC-1" "boom" 4 ∷ delete "INC-1" ∷ []) fresh_store
    ≡ fresh_store
unfolding perform_all decimal strip
deleted_after_failure = refl

exported :
    (get_events line_count "INC-1"
      (export_replay line_count "INC-1"
        (perform_all line_count replayed fresh_store)
        fresh_store).1).0
    ≡ ok (observed 0 "a" ∷ observed 1 "b" ∷ [])
unfolding export_replay perform_all get_events decimal strip open_store
exported = refl

-- the recorded replay that an export made
abbrev replay_store : RunStore
replay_store =
    (export_replay line_count "INC-1" (perform_all line_count replayed fresh_store) fresh_store).1

-- A recorded replay can be exported once more, since the mode is not tested.
replay_exported :
    (get_events line_count "INC-1" (export_replay line_count "INC-1" replay_store fresh_store).1).0
    ≡ ok (observed 0 "a" ∷ observed 1 "b" ∷ [])
unfolding export_replay perform_all get_events decimal strip open_store
replay_exported = refl

bad_line :
    load_events (holds (observed 0 "a") ∷ blank ∷ invalid ∷ [])
    ≡ err (value_error "invalid event on JSONL line")
unfolding load_events
bad_line = refl

empty_file :
    from_jsonl (blank ∷ [])
    ≡ err (value_error "cannot create an incident recorder from an empty stream")
unfolding from_jsonl
empty_file = refl

perform_all-IsStore_example :
    IsStore line_count
      (perform_all line_count two_appended (open_store [] "abc" false)).root
      (perform_all line_count two_appended (open_store [] "abc" false)).active_incident
perform_all-IsStore_example = perform_all-IsStore line_count two_appended "abc" false

perform_refused_example :
    perform_all line_count two_appended (open_store [] "abc" false)
    ≡ perform_all line_count two_appended (open_store [] "abc" false)
perform_refused_example =
    perform_refused line_count two_appended (append (observed 5 "c") 9) "abc" false
      (runtime_error "unexpected event sequence")
      (perform_all line_count two_appended (open_store [] "abc" false))
      (unfold perform perform_all open_store decimal strip in refl)

abbrev failed_once : List Operation
failed_once = two_appended ++ fail "INC-1" "boom" 4 ∷ []

abbrev last_manifest : Result RunManifest → RunManifest
last_manifest (ok m) = m
last_manifest (err _) = record {
  schema_version = 1;
  incident_id = "";
  mode = live;
  status = running;
  incident_state = "";
  datahub_backend = "";
  source_commit = "";
  source_worktree_dirty = false;
  generated_at = 0;
  updated_at = 0;
  completed_at = none;
  event_count = 0;
  events_sha256 = "";
  validation = default_validation;
  source_run_id = none;
  error = none;
}

abbrev failed_store : RunStore
failed_store = perform_all line_count failed_once (open_store [] "abc" false)

get_manifest_bounds_example :
    (1 ≤ count "INC-1")
    × (count "INC-1" ≤ 64)
    × IsDirectChild "INC-1"
    × IsShort (last_manifest (get_manifest "INC-1" failed_store).0).error
get_manifest_bounds_example =
    get_manifest_bounds line_count failed_once "abc" false "INC-1"
      (last_manifest (get_manifest "INC-1" failed_store).0) failed_store
      (unfold get_manifest perform_all open_store decimal strip in refl)

abbrev first_appended : List Operation
first_appended = start "INC-1" "mcp" 1 ∷ append (observed 0 "a") 2 ∷ []

abbrev first_store : RunStore
first_store = perform_all line_count first_appended (open_store [] "abc" false)

abbrev second_store : RunStore
second_store = (append_event line_count (observed 1 "b") 3 first_store).1

get_events-append_event_example :
    ((es : List Event) × (get_events line_count "INC-1" first_store ≡ (ok es, first_store))
      × (get_events line_count "INC-1" second_store
          ≡ (ok (es ++ observed 1 "b" ∷ []), second_store)))
    × ((j : String)
        → ("INC-1" == j) ≡ false
        → (get_events line_count j second_store).0 ≡ (get_events line_count j first_store).0)
get_events-append_event_example =
    get_events-append_event line_count first_appended "abc" false (observed 1 "b") 3 second_store
      (unfold breaks_line in refl)
      (unfold append_event perform_all open_store decimal strip in refl)
