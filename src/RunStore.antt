-- ===== src/RunStore.antt =====
-- api/run_store.py: the manifest of a run, the store's directories, and every operation of
-- `RunStore`. The disk is a dict from a directory's name to its files; a file is replaced as a
-- whole, as `_atomic_text` does. The SHA-256 of the events file is the parameter `digest`, and the
-- clock's reading comes as an argument.
pub mod Identity
pub mod Export
pub mod Invariant
pub mod Operations
pub mod Rewriting
pub mod Starting
pub mod Appending
pub mod History
pub mod ReadBack
pub mod Reading
use sciguard_autopilot.Base.{
  ℕ, ◌+◌, ◌≡◌, String, Bool, true, false, not, ◌&&◌, ◌||◌, Option, none, some, List, [], ◌∷◌, ◌++◌,
  is_some, is_nil, nat_eq, length, if◌then◌else◌, or_default, value_error, runtime_error, os_error,
  Result, ok, err, ◌==◌,
}
use sciguard_autopilot.Base.Exec.{
  Exec, pure, raise, lift, gets, modify, or_raise, raise_if, ◌>>=◌, ◌>>◌,
}
use sciguard_autopilot.Base.Dict.{Dict, lookup, insert, without}
use sciguard_autopilot.Events.{Event, Timestamp, new_recorder, validate_event_stream}
use sciguard_autopilot.Events.Storage.{Line, load_events, save_jsonl}
use sciguard_autopilot.RunStore.Identity.{validate_id, take_text}

pub data RunMode : Type 0 where
  live recorded_replay : RunMode

pub data RunStatus : Type 0 where
  running completed failed : RunStatus

pub record EventValidation : Type 0 where
  pub event_schema : String
  pub single_incident : Bool
  pub contiguous_sequence : Bool
  pub unique_event_ids : Bool

abbrev pub default_validation : EventValidation
default_validation = record {
  event_schema = "core.events.Event@1";
  single_incident = true;
  contiguous_sequence = true;
  unique_event_ids = true;
}

pub record RunManifest : Type 0 where
  pub schema_version : ℕ
  pub incident_id : String
  pub mode : RunMode
  pub status : RunStatus
  pub incident_state : String
  pub datahub_backend : String
  pub source_commit : String
  pub source_worktree_dirty : Bool
  pub generated_at : ℕ
  pub updated_at : ℕ
  pub completed_at : Option ℕ
  pub event_count : ℕ
  pub events_sha256 : String
  pub validation : EventValidation
  pub source_run_id : Option String
  pub error : Option String

-- `manifest.json`, as the model's parser reads it.
pub data ManifestFile : Type 0 where
  unreadable : ManifestFile
  holds_manifest : RunManifest → ManifestFile

-- One incident's directory: `manifest.json`, `events.jsonl`, and what else lies there.
pub record Directory : Type 0 where
  pub manifest_file : Option ManifestFile
  pub events_file : Option (List Line)
  pub other_files : List String

pub record RunStore : Type 0 where
  pub root : Dict Directory
  pub source_commit : String
  pub source_worktree_dirty : Bool
  pub active_incident : Option String

abbrev pub empty_directory : Directory
empty_directory = record { manifest_file = none; events_file = none; other_files = [] }

-- `manifest.mode is RunMode.LIVE and manifest.status is RunStatus.RUNNING`
abbrev pub is_running : RunStatus → Bool
is_running running = true
is_running _ = false

abbrev pub is_live : RunMode → Bool
is_live live = true
is_live recorded_replay = false

abbrev pub is_failed : RunStatus → Bool
is_failed failed = true
is_failed _ = false

abbrev pub is_completed : RunStatus → Bool
is_completed completed = true
is_completed _ = false

abbrev pub runs_live : RunManifest → Bool
runs_live m = is_live m.mode && is_running m.status

abbrev active_in : Option ManifestFile → Option String
active_in (some (holds_manifest m)) = if runs_live m then some m.incident_id else none
active_in _ = none

abbrev pub find_active : Dict Directory → Option String
find_active [] = none
find_active ((_, d) ∷ root) =
    let rest = find_active root in
    elim (active_in d.manifest_file) [ none ↦ rest | some id ↦ some id ]

-- `RunStore.__init__`, on the directories that the root holds
unfoldable pub open_store : Dict Directory → String → Bool → RunStore
open_store root source_commit source_worktree_dirty = record {
  root = root;
  source_commit = source_commit;
  source_worktree_dirty = source_worktree_dirty;
  active_incident = find_active root;
}

abbrev pub directory_of : String → Dict Directory → Directory
directory_of id root = or_default (lookup id root) empty_directory

abbrev pub put_directory : String → Directory → RunStore → RunStore
put_directory id d s = record s { root = insert id d s.root }

abbrev pub with_manifest : String → RunManifest → RunStore → RunStore
with_manifest id m s =
    put_directory id (record (directory_of id s.root) { manifest_file = some (holds_manifest m) }) s

-- `_write_manifest`: the path is that of the manifest's own incident.
abbrev pub write_manifest : RunManifest → Exec RunStore (Unit {0})
write_manifest m = do id ← lift (validate_id m.incident_id); modify (with_manifest id m)

abbrev pub parse_manifest : Option ManifestFile → Result RunManifest
parse_manifest none = err (os_error "incident not found")
parse_manifest (some unreadable) = err (value_error "invalid run manifest")
parse_manifest (some (holds_manifest m)) = ok m

unfoldable pub get_manifest : String → Exec RunStore RunManifest
unfolding validate_id
get_manifest incident_id = do
  id ← lift (validate_id incident_id)
  root ← gets (λ s. s.root)
  lift (parse_manifest (directory_of id root).manifest_file)
