-- ===== src/RunStore/Operations.antt =====
-- The operations of `RunStore` in api/run_store.py on one store. `export_replay`, which writes to
-- a second store, is in Export.
use sciguard_autopilot.Base.{
  ℕ, ◌+◌, String, Bool, false, not, ◌||◌, Option, none, some, List, [], ◌∷◌, ◌++◌, is_some, is_nil,
  nat_eq, length, if◌then◌else◌, runtime_error, os_error, ok, err, ◌==◌,
}
use sciguard_autopilot.Base.Exec.{Exec, pure, lift, gets, modify, or_raise, raise_if, ◌>>=◌, ◌>>◌}
use sciguard_autopilot.Base.Dict.{lookup, without}
use sciguard_autopilot.Events.{Event, new_recorder, validate_event_stream}
use sciguard_autopilot.Events.Storage.{Line, load_events, save_jsonl}
use sciguard_autopilot.RunStore.{
  RunMode, RunStatus, RunManifest, RunStore, default_validation, empty_directory, is_running,
  is_failed, is_live, directory_of, put_directory, write_manifest, get_manifest,
}
use sciguard_autopilot.RunStore.Identity.{validate_id, take_text}

-- `if self._active_incident == incident_id: self._active_incident = None`
abbrev pub is_active : String → Option String → Bool
is_active id none = false
is_active id (some a) = a == id

abbrev pub deactivate : String → RunStore → RunStore
deactivate id s = record s {
  active_incident = if is_active id s.active_incident then none else s.active_incident;
}

abbrev pub activate : String → RunStore → RunStore
activate id s = record s { active_incident = some id }

abbrev pub write_events : String → List Line → RunStore → RunStore
write_events id lines s =
    put_directory id (record (directory_of id s.root) { events_file = some lines }) s

module _ (digest : List Line → String) where
  -- the manifest that `start_run` writes
  abbrev pub new_manifest : String → String → ℕ → RunStore → RunManifest
  new_manifest id datahub_backend now s = record {
    schema_version = 1;
    incident_id = id;
    mode = RunMode.live;
    status = RunStatus.running;
    incident_state = "HEALTHY";
    datahub_backend = datahub_backend;
    source_commit = s.source_commit;
    source_worktree_dirty = s.source_worktree_dirty;
    generated_at = now;
    updated_at = now;
    completed_at = none;
    event_count = 0;
    events_sha256 = digest [];
    validation = default_validation;
    source_run_id = none;
    error = none;
  }

  unfoldable pub start_run : String → String → ℕ → Exec RunStore RunManifest
  unfolding validate_id
  start_run incident_id datahub_backend now = do
    id ← lift (validate_id incident_id)
    active ← gets (λ s. s.active_incident)
    raise_if (is_some active) (runtime_error "incident is already running")
    root ← gets (λ s. s.root)
    raise_if (is_some (lookup id root)) (os_error "incident already exists")
    modify (put_directory id empty_directory)
    modify (write_events id [])
    manifest ← gets (new_manifest id datahub_backend now)
    write_manifest manifest
    modify (activate id)
    pure manifest

  unfoldable pub get_events : String → Exec RunStore (List Event)
  unfolding get_manifest load_events
  get_events incident_id = do
    manifest ← get_manifest incident_id
    root ← gets (λ s. s.root)
    lines ←
        or_raise (directory_of incident_id root).events_file (runtime_error "event file is missing")
    raise_if (not (digest lines == manifest.events_sha256))
        (runtime_error "event file digest does not match manifest")
    events ← lift (load_events lines)
    raise_if (not (nat_eq (length events) manifest.event_count))
        (runtime_error "event count does not match manifest")
    pure events

  abbrev pub appended : RunManifest → List Event → List Line → ℕ → RunManifest
  appended manifest events lines now = record manifest {
    updated_at = now;
    event_count = length events + 1;
    events_sha256 = digest lines;
  }

  unfoldable pub append_event : Event → ℕ → Exec RunStore (Unit {0})
  unfolding get_manifest get_events new_recorder save_jsonl
  append_event event now = do
    manifest ← get_manifest event.incident_id
    raise_if (not (is_live manifest.mode) || is_failed manifest.status)
        (runtime_error "events cannot be appended to this run")
    events ← get_events event.incident_id
    raise_if (not (nat_eq event.sequence (length events)))
        (runtime_error "unexpected event sequence")
    recorder ← lift (new_recorder event.incident_id (events ++ event ∷ []) none)
    lines ← lift (save_jsonl recorder)
    modify (write_events event.incident_id lines)
    write_manifest (appended manifest events lines now)

  abbrev pub completed_manifest : RunManifest → String → String → ℕ → RunManifest
  completed_manifest manifest incident_state datahub_backend now = record manifest {
    status = RunStatus.completed;
    incident_state = incident_state;
    datahub_backend = datahub_backend;
    updated_at = now;
    completed_at = some now;
  }

  unfoldable pub finish_run : String → String → String → ℕ → Exec RunStore RunManifest
  unfolding get_manifest get_events validate_event_stream
  finish_run incident_id incident_state datahub_backend now = do
    manifest ← get_manifest incident_id
    events ← get_events incident_id
    _ ← lift (validate_event_stream events)
    let updated = completed_manifest manifest incident_state datahub_backend now
    write_manifest updated
    modify (deactivate incident_id)
    pure updated

abbrev pub failed_manifest : RunManifest → String → ℕ → RunManifest
failed_manifest manifest error now = record manifest {
  status = RunStatus.failed;
  updated_at = now;
  completed_at = some now;
  error = some (take_text 2000 error);
}

unfoldable pub fail_run : String → String → ℕ → Exec RunStore RunManifest
unfolding get_manifest take_text
fail_run incident_id error now = do
  manifest ← get_manifest incident_id
  let updated = failed_manifest manifest error now
  write_manifest updated
  modify (deactivate incident_id)
  pure updated

abbrev pub moved_manifest : RunManifest → String → ℕ → RunManifest
moved_manifest manifest incident_state now = record manifest {
  incident_state = incident_state;
  updated_at = now;
}

unfoldable pub update_state : String → String → ℕ → Exec RunStore RunManifest
unfolding get_manifest
update_state incident_id incident_state now = do
  manifest ← get_manifest incident_id
  let updated = moved_manifest manifest incident_state now
  write_manifest updated
  pure updated

-- The two files are unlinked before `rmdir`, which refuses a directory that holds more.
abbrev pub remove_directory : String → Exec RunStore (Unit {0})
remove_directory id s =
    let others = (directory_of id s.root).other_files in
    if is_nil others then (ok tt, record s { root = without (id ∷ []) s.root }) else (
      err (os_error "directory not empty"),
      put_directory id (record empty_directory { other_files = others }) s,
    )

unfoldable pub delete_run : String → Exec RunStore (Unit {0})
unfolding get_manifest
delete_run incident_id = do
  manifest ← get_manifest incident_id
  raise_if (is_running manifest.status) (runtime_error "cannot reset an active run")
  remove_directory incident_id
