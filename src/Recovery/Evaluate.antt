-- ===== src/Recovery/Evaluate.antt =====
-- `RecoveryController.evaluate` of core/recovery.py: its reads, its writes, its result and event.
use sciguard_autopilot.DataHub.Values.{properties_in}
use sciguard_autopilot.DataHub.Values.{items}
use sciguard_autopilot.DataHub.Values.{text_at}
use sciguard_autopilot.Base.{
  ℕ, String, Bool, true, false, not, ◌&&◌, Option, none, some, List, [], ◌∷◌, if◌then◌else◌,
  is_some, lookup_error, Result, ok, err, ◌==◌,
}
use sciguard_autopilot.Base.Texts.{is_empty, lower}
use sciguard_autopilot.Base.Exec.{Exec, ◌>>=◌, ◌>>◌, pure, lift}
use sciguard_autopilot.Base.Dict.{merge}
use sciguard_autopilot.Base.Json.{Json, null, bool, num, str, arr, nil, str_array}
use sciguard_autopilot.DataHub.{text, dumped, Properties, dataset_properties, Aspect, Client}
use sciguard_autopilot.MetadataWriter.{add_custom_properties}
use sciguard_autopilot.Events.{
  Emission, emit_if, recovery_controller, recovery_checked, incident_resolved,
}
use sciguard_autopilot.Enforcement.{World, on_graph, on_recorder, calls}
use sciguard_autopilot.Recovery.Checks.{
  RecoveryCheck, HumanApprovalEvidence, RecoveryResult, RecoveryController, authorized, Verdict,
  judge,
}
use sciguard_autopilot.Recovery.Release.{controlled_urns, release_all}

-- `expected_incident_id is not None and incident_id != expected_incident_id`
abbrev mismatch : Option String → String → Bool
mismatch none incident = false
mismatch (some id) incident = not (incident == id)

-- the state that `evaluate` reads, and its incident's ID
unfoldable pub opening : Option Aspect → Option String → Result (Properties × String)
opening none expected = err (lookup_error "no persisted incident state")
opening (some a) expected =
    let props = properties_in (some a) in
    let incident = text_at "sciguard:incident_id" "" props in
    if is_empty incident
    then err (lookup_error "persisted DataHub state has no incident ID")
    else if mismatch expected incident
    then err (lookup_error "persisted DataHub incident does not match the requested recovery")
    else ok (props, incident)

-- the properties that `evaluate` writes on the control dataset
unfoldable pub recovery_updates : Verdict → Properties
unfolding lower
recovery_updates v =
    merge
      (("sciguard:incident_state", text v.state)
        ∷ ("sciguard:status", text (lower v.state))
        ∷ ("sciguard:recovery_history", dumped (arr (items v.history)))
        ∷ ("sciguard:recovery_evidence_ids", dumped (str_array v.evidence_ids))
        ∷ ("sciguard:resume_authorized", text (if v.resume then "true" else "false"))
        ∷ [])
      (if v.resume
        then ("sciguard:policy_decision", text "ALLOW")
          ∷ ("sciguard:catalog_status", text "RESOLVED")
          ∷ ("sciguard:enforcement_actions", dumped (arr nil))
          ∷ []
        else [])

approval_text :
    (HumanApprovalEvidence → String) → Bool → Option HumanApprovalEvidence → Option String
approval_text f true (some a) = some (f a)
approval_text f _ _ = none

-- `RecoveryResult(...)`
unfoldable pub recovery_result :
    String → Verdict → Option HumanApprovalEvidence → Option String → RecoveryResult
unfolding approval_text
recovery_result incident v approval llm_instruction = record {
  incident_id = incident;
  resume_allowed = v.resume;
  incident_state = v.state;
  missing_checks = v.missing;
  failed_checks = v.failed;
  clean_run_count = v.consecutive;
  human_approval_used = v.approved_by_human;
  approval_receipt_id = approval_text (λ a. a.receipt_id) v.approved_by_human approval;
  approval_identity_assurance =
      approval_text (λ a. a.identity_assurance) v.approved_by_human approval;
  approval_production_authorized = v.approved_by_human && authorized approval;
  llm_instruction_ignored = is_some llm_instruction;
}

abbrev optional_text : Option String → Json
optional_text none = null
optional_text (some s) = str s

abbrev pub recovery_emission : RecoveryResult → List String → Emission
recovery_emission r evidence = record {
  actor = recovery_controller;
  event_type = if r.resume_allowed then incident_resolved else recovery_checked;
  summary = if r.resume_allowed then "Recovery authorized" else "Recovery remains locked";
  evidence_ids = evidence;
  duration_ms = 0;
  payload =
      ("incident_id", str r.incident_id)
      ∷ ("resume_allowed", bool r.resume_allowed)
      ∷ ("incident_state", str r.incident_state)
      ∷ ("missing_checks", str_array r.missing_checks)
      ∷ ("failed_checks", str_array r.failed_checks)
      ∷ ("clean_run_count", num r.clean_run_count)
      ∷ ("human_approval_used", bool r.human_approval_used)
      ∷ ("approval_receipt_id", optional_text r.approval_receipt_id)
      ∷ ("approval_identity_assurance", optional_text r.approval_identity_assurance)
      ∷ ("approval_production_authorized", bool r.approval_production_authorized)
      ∷ ("llm_instruction_ignored", bool r.llm_instruction_ignored)
      ∷ [];
  timestamp = none;
}

module _ (c : Client) where
  open c use {Graph, get_aspect}

  -- `if resume:`, from the reading of the controlled URNs on
  unfoldable pub resume_incident : String → Properties → Verdict → Exec Graph (Unit {0})
  resume_incident control_urn props v =
      if v.resume
      then (do
        urns ← lift (controlled_urns control_urn props)
        release_all c control_urn v.evidence_ids urns)
      else pure tt

  -- the writes of `evaluate`
  unfoldable pub persist : String → Properties → Verdict → Exec Graph (Unit {0})
  persist control_urn props v = do
    calls c (add_custom_properties c control_urn (recovery_updates v))
    resume_incident control_urn props v

  unfoldable pub evaluate :
      (ℕ → ℕ)
      → RecoveryController
      → List RecoveryCheck
      → Option HumanApprovalEvidence
      → Option String
      → Option String
      → Exec (World c) RecoveryResult
  evaluate clock self checks approval llm_instruction expected w =
      (do
        (props, incident) ←
            lift (opening (get_aspect w.0 dataset_properties self.control_urn) expected)
        v ← lift (judge self.policy props checks approval)
        on_graph c (persist self.control_urn props v)
        let result = recovery_result incident v approval llm_instruction
        on_recorder c (emit_if clock (recovery_emission result v.evidence_ids))
        pure result)
        w
