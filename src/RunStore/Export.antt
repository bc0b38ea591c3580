-- ===== src/RunStore/Export.antt =====
-- `export_replay` of api/run_store.py: it reads one store and writes to the directories of a
-- second root, so the action's state is the destination.
use sciguard_autopilot.Base.{
  String, Bool, not, ◌&&◌, none, some, List, is_some, is_nil, value_error, os_error,
}
use sciguard_autopilot.Base.Exec.{Exec, pure, lift, gets, modify, raise_if, ◌>>=◌, ◌>>◌}
use sciguard_autopilot.Events.{new_recorder}
use sciguard_autopilot.Events.Storage.{Line, save_jsonl}
use sciguard_autopilot.RunStore.{
  RunMode, RunManifest, Directory, RunStore, empty_directory, is_completed, directory_of,
  write_manifest, get_manifest, open_store, put_directory,
}
use sciguard_autopilot.RunStore.Operations.{get_events, write_events}

-- `any(directory.iterdir())`
abbrev pub has_files : Directory → Bool
has_files d =
    not (not (is_some d.manifest_file) && not (is_some d.events_file) && is_nil d.other_files)

module _ (digest : List Line → String) where
  abbrev pub replay_manifest : RunManifest → String → List Line → RunManifest
  replay_manifest manifest incident_id lines = record manifest {
    mode = RunMode.recorded_replay;
    source_run_id = some incident_id;
    events_sha256 = digest lines;
  }

  unfoldable pub export_replay : String → RunStore → Exec RunStore RunManifest
  unfolding get_manifest get_events new_recorder save_jsonl
  export_replay incident_id source = do
    manifest ← lift (get_manifest incident_id source).0
    events ← lift (get_events digest incident_id source).0
    raise_if (not (is_completed manifest.status))
        (value_error "only completed live runs can be exported")
    root ← gets (λ s. s.root)
    modify (λ s. open_store s.root manifest.source_commit manifest.source_worktree_dirty)
    raise_if (has_files (directory_of incident_id root)) (os_error "replay already exists")
    modify (put_directory incident_id empty_directory)
    recorder ← lift (new_recorder incident_id events none)
    lines ← lift (save_jsonl recorder)
    modify (write_events incident_id lines)
    let replay = replay_manifest manifest incident_id lines
    write_manifest replay
    pure replay
