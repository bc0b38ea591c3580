-- ===== src/Lib.antt =====
-- SciGuard Autopilot: the deterministic core that contains a scientific-data incident and lets it
-- resume only on evidence.
--
-- The parts and how they interact. The sentinel (core/sentinel.py) compares two snapshots of a
-- schema, assesses the changes by the rules of a domain profile (core/profiles.py) and decides
-- whether to escalate. An incident run (core/incident_state.py) owns a state machine and an event
-- recorder (core/events.py); every transition is an event, and replaying the events rebuilds the
-- state. When an incident's impact is known, the policy engine (core/policy_engine.py) decides on
-- each asset from the action policy of the profile. Enforcement (core/enforcement.py) writes those
-- decisions to DataHub with the writers of datahub_client/metadata_writer.py, on the dataset and on
-- the native ML entities that its properties name. Which assets are affected comes from the lineage
-- search of core/impact.py. Recovery (core/recovery.py) reads that state back, appends a run of
-- checks to the persisted history, and releases the controlled datasets when the policy allows. A
-- local pipeline controller (core/pipeline_controller.py) blocks operations by that persisted
-- state. The run store (api/run_store.py) keeps the events of each run with a manifest that seals
-- them. The coordinator (core/coordinator.py) resolves
-- three hypotheses on the evidence of two workers. A repair is a bundle (core/repair.py) that becomes published
-- (core/change_provider.py), verified (core/verification.py), approved (core/approval.py) and applied
-- (core/application.py), each time by a receipt that is attached to it; its patch is a unified diff,
-- which core/unified_patch.py applies to a file's text.
--
-- Which file models which part:
--   Base            library names, tests on numbers, lists, texts, dicts, JSON, exceptions, and actions
--                   on a state that may raise (Exec): what was written before a raise stays written.
--   Events          core/events.py. EventRecorder.emit is emit, validate_event_stream keeps its name,
--                   the clock is an argument; .Storage is the JSONL file
--                   as the lines that splitlines makes of it. Events.Stream,
--                   Events.Recorder and Events.Accepted prove.
--   Lifecycle       core/incident_state.py. ALLOWED_TRANSITIONS is allowed; IncidentStateMachine and
--                   IncidentRun share the record IncidentRun, since they share one recorder.
--                   Lifecycle.Replay and Lifecycle.Graph prove.
--   DataHub         the client of DataHub as a record of operations and of the laws it documents,
--                   DataHub.Store a graph in memory that has them.
--   MetadataWriter  datahub_client/metadata_writer.py, one function for each of its own; .Tags and
--                   .Props prove.
--   Profiles        core/profiles.py, the models with their validators; .Tokens is rule_matches with what
--                   it uses, .Loading is load_profile, where reading and parsing a file is a parameter.
--   Policy          core/policy_engine.py, decide with the events it emits; .Decisions and .Total prove.
--   Enforcement     core/enforcement.py. The body of the loop in enforce is control with hold;
--                   .Controls, .Plan and .Marks prove.
--   Recovery        core/recovery.py. RecoveryController.evaluate is opening, judge, persist and the
--                   event, in that order; .History and .Checks hold the pure parts, .Release the loop
--                   over the controlled URNs, .Evaluate the rest; .Gate, .Streak and .Released prove.
--   Pipeline        core/pipeline_controller.py, the local and the dry-run controller.
--   Impact          core/impact.py, over a record of the backend's calls; .Taint proves.
--   Sentinel        core/sentinel.py: snapshots, changes and assessment, .Escalation with the signal and
--                   the decision, where the digest of an evidence ID is a parameter; .Severity proves.
--   Patch           core/unified_patch.py: .Parsing reads lines and headers, .Applying is
--                   apply_unified_patch, whose two nested loops are one recursion over the lines;
--                   .Applying.Edits proves.
--   RunStore        api/run_store.py. The root directory is a dict from names to directories; .Identity
--                   is validate_id, .Operations the store's methods, .Export is export_replay;
--                   .Invariant, .Reading, .Rewriting, .Starting, .Appending, .History and .ReadBack prove.
--   Repair          core/repair.py: the bundle with its validators; .Proposal is
--                   create_unit_repair_bundle, .Templates the texts of its artifacts, .Valid a lemma.
--   Investigation   core/investigation_models.py.
--   Reset           core/reset.py: the plan and the ownership test come before the first write; .Frame and
--                   .Owned prove.
--   Investigator    core/investigator.py: the worker that reads the catalog upstream of a report; .Traced
--                   proves.
--   Coordinator     core/coordinator.py: resolve; .Report is the pure part, .Cause the root cause,
--                   .Values how a payload is read; .Readings and .Grounds prove.
--   Publication     core/change_provider.py: ChangeReceipt and attach_change_receipt.
--   Verification    core/verification.py: the receipts, .Attaching is attach_verification_receipt,
--                   .Commands _trusted_pytest_command with the lexer of shlex, .Local the engine over a
--                   record of git, files and processes; .Alignment, .Trusted and .Outcome prove.
--   Approval        core/approval.py, .Attaching is attach_approval_receipt; .RoundTrip proves.
--   Application     core/application.py: ApplicationReceipt and attach_application_receipt; .Staging is
--                   LocalStagingApplicator.apply over the deployment root as a dict; .Applied and .Again prove.
--   Custody         the four attachments as a step relation on bundles; .Inversion and .Chain prove.
--   Tests           runs at concrete inputs.
--
-- Conventions. A text that json.dumps wrote and json.loads reads back is kept as the JSON value
-- that it encodes (DataHub.Value); a number that is not a natural is a decimal fraction, which every
-- finite float is exactly. An exception is its class with the fixed part of its message. An
-- instant is a natural number; a duration and a sequence number are naturals, as their validators
-- demand. Loops are structural recursion, but for two that spend fuel: the
-- decimal printing of Base.Texts, where the number itself plus one is enough, and the walk along
-- extends in load_profile, where the number of profile files plus one is enough.
--
-- Not modelled: files and network I/O, the language model, hashes, and the components of the repository
-- that have no file here (API, readers, evaluation, security, narration, the publishers that call
-- git and GitHub, the check runs of GitHub, the reality checker).
-- A client request that fails on the network and an event callback that raises are left out as well.
pub mod Base
pub mod Events
pub mod Lifecycle
pub mod DataHub
pub mod MetadataWriter
pub mod Profiles
pub mod Policy
pub mod Enforcement
pub mod Recovery
pub mod Tests
pub mod Pipeline
pub mod Impact
pub mod Sentinel
pub mod Patch
pub mod RunStore
pub mod Repair
pub mod Publication
pub mod Verification
pub mod Approval
pub mod Application
pub mod Custody
pub mod Investigation
pub mod Coordinator
pub mod Investigator
pub mod Reset
