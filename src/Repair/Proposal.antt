-- ===== src/Repair/Proposal.antt =====
-- `create_unit_repair_bundle` of core/repair.py. The SHA-256 is the parameter `digest`, the
-- content-derived ID of core/events.py is `stable_evidence_id`, and `unified_diff` is the diff of two
-- lists of lines under two file names, written as one text.
use Prim.Native.String.{◌++◌ as concat}
use sciguard_autopilot.Base.{
  String, true, not, ◌||◌, Option, none, List, [], ◌∷◌, map, is_nil, contains, dedupe, value_error,
  Result, ◌==◌,
}
use sciguard_autopilot.Base.Raising.{◌>>◌, raise_if}
use sciguard_autopilot.Base.Dict.{Dict}
use sciguard_autopilot.Base.Json.{Json, Items, nil, cons, bool, num, str, arr, obj, str_array}
use sciguard_autopilot.Impact.{FieldImpact}
use sciguard_autopilot.Investigation.{RootCause, to_fields}
use sciguard_autopilot.Patch.Parsing.{split_lines}
use sciguard_autopilot.Publication.{str_or_null}
use sciguard_autopilot.Repair.{
  RepairBundle, RepairArtifact, VerificationCheck, NativeMlDecisionContext, ArtifactKind,
  code_patch, contract_test, scientific_regression_test, safe_branch_test, rollback_plan, proposed,
  critical, approval_required, make_bundle,
}
use sciguard_autopilot.Repair.Templates.{
  normalizer_before, normalizer_after, contract_test_text, scientific_regression_test_text,
  safe_branch_test_text,
}

abbrev pub kind_value : ArtifactKind → String
kind_value code_patch = "CODE_PATCH"
kind_value contract_test = "CONTRACT_TEST"
kind_value scientific_regression_test = "SCIENTIFIC_REGRESSION_TEST"
kind_value safe_branch_test = "SAFE_BRANCH_TEST"
kind_value rollback_plan = "ROLLBACK_PLAN"

abbrev dict_items : List (Dict Json) → Items
dict_items [] = nil
dict_items (d ∷ ds) = cons (obj (to_fields d)) (dict_items ds)

abbrev context_dump : NativeMlDecisionContext → Dict Json
context_dump c =
    ("dataset_projection_urn", str c.dataset_projection_urn)
    ∷ ("native_model_urn", str c.native_model_urn)
    ∷ ("model_name", str c.model_name)
    ∷ ("model_version", str c.model_version)
    ∷ ("model_type", str c.model_type)
    ∷ ("feature_urns", str_array c.feature_urns)
    ∷ ("training_job_urns", str_array c.training_job_urns)
    ∷ ("inference_job_urns", str_array c.inference_job_urns)
    ∷ ("deployment_context", arr (dict_items c.deployment_context))
    ∷ ("owner_urns", str_array c.owner_urns)
    ∷ ("criticality", str c.criticality)
    ∷ ("expected_target_unit", str_or_null c.expected_target_unit)
    ∷ ("affected", bool c.affected)
    ∷ []

abbrev root_cause_dump : RootCause → Dict Json
root_cause_dump r =
    ("batch_id", str r.batch_id)
    ∷ ("instrument_firmware_before", str r.instrument_firmware_before)
    ∷ ("instrument_firmware_after", str r.instrument_firmware_after)
    ∷ ("expected_unit", str r.expected_unit)
    ∷ ("observed_units", str_array r.observed_units)
    ∷ ("normalization_version", str r.normalization_version)
    ∷ ("affected_rows", num r.affected_rows)
    ∷ ("explanation", str r.explanation)
    ∷ []

abbrev impact_dump : FieldImpact → Dict Json
impact_dump i =
    ("source_urn", str i.source_urn)
    ∷ ("source_fields", str_array i.source_fields)
    ∷ ("affected_urns", str_array i.affected_urns)
    ∷ ("affected_names", str_array i.affected_names)
    ∷ ("unaffected_urns", str_array i.unaffected_urns)
    ∷ ("unaffected_names", str_array i.unaffected_names)
    ∷ ("tainted_field_urns", str_array i.tainted_field_urns)
    ∷ []

-- What the caller names besides the root cause and the impact.
pub record RepairRequest : Type 0 where
  pub incident_id : String
  pub evidence_ids : List String
  pub approver_urn : String
  pub native_ml_context : List NativeMlDecisionContext
  pub datahub_incident_urn : Option String
  pub datahub_decision_log_urn : Option String
  pub target_repository : String
  pub target_base_revision : String

abbrev rollback_text : String
rollback_text =
    concat "Revert the repair commit, restore tg-normalizer-v1, keep the candidate "
      "ranking publication blocked, and return the incident to QUARANTINED."

abbrev approval_reason : String
approval_reason =
    concat "The patch changes a CRITICAL model input contract and a candidate-selection "
      "decision; accountable scientific-owner approval is mandatory."

abbrev pub unit_checks : List String → List VerificationCheck
unit_checks evidence_ids =
    record {
      check_id = "unit_contract";
      name = "Scientific unit contract";
      command = "pytest -q tests/test_unit_contract.py";
      expected_result = "Kelvin and Celsius normalize identically; unknown units fail closed.";
      protects = "cleaned_polymer_dataset.tg_degC" ∷ [];
      evidence_ids = evidence_ids;
    }
    ∷ record {
      check_id = "candidate_ranking_stability";
      name = "Scientific decision regression";
      command = "pytest -q tests/test_scientific_decision.py";
      expected_result =
          concat "The locked B042 fixture fails at P-204 rank #1 under the legacy "
            "normalizer and exactly matches all trusted ranks after repair.";
      protects = "candidate_ranking_report" ∷ [];
      evidence_ids = evidence_ids;
    }
    ∷ record {
      check_id = "safe_branch_preservation";
      name = "Preserved branch non-regression";
      command = "pytest -q tests/test_safe_branch.py";
      expected_result =
          concat "The real molecular-weight artifact digest is unchanged after executing "
            "the repaired Tg path and the artifact is published byte-for-byte.";
      protects = "formulation_report" ∷ "durability_model" ∷ [];
      evidence_ids = evidence_ids;
    }
    ∷ []

module _ (digest : String → String) (stable_evidence_id : String → Json → String)
    (unified_diff : List String → List String → String → String → String) where
  -- `_normalizer_patch`
  unfoldable pub normalizer_patch : RootCause → String
  unfolding normalizer_before normalizer_after split_lines
  normalizer_patch root_cause =
      unified_diff (split_lines normalizer_before)
        (split_lines (normalizer_after root_cause.expected_unit)) "a/pipeline/normalize.py"
        "b/pipeline/normalize.py"

  -- the fields that `_artifact` gives to `RepairArtifact`
  abbrev pub artifact_for : ArtifactKind → String → String → List String → String → RepairArtifact
  artifact_for kind path description evidence_ids content = record {
    artifact_id = stable_evidence_id "repair-artifact" (
        obj (
          to_fields (
            ("kind", str (kind_value kind))
            ∷ ("path", str path)
            ∷ ("content_sha256", str (digest content))
            ∷ [])));
    kind = kind;
    path = path;
    description = description;
    content_sha256 = digest content;
    content = content;
    evidence_ids = evidence_ids;
  }

  abbrev pub unit_artifacts : RootCause → List String → List RepairArtifact
  unit_artifacts root_cause evidence_ids =
      artifact_for code_patch "pipeline/normalize.py.patch"
        "Fail-closed K-to-degC scientific-unit normalization patch." evidence_ids
        (normalizer_patch root_cause)
      ∷ artifact_for contract_test "tests/test_unit_contract.py"
          "Unit contract and fail-closed unknown-unit tests." evidence_ids
          (contract_test_text root_cause.expected_unit)
      ∷ artifact_for scientific_regression_test "tests/test_scientific_decision.py"
          "Counterfactual P-204 ranking restoration check." evidence_ids
          scientific_regression_test_text
      ∷ artifact_for safe_branch_test "tests/test_safe_branch.py"
          "Non-regression proof for the preserved molecular-weight branch." evidence_ids
          safe_branch_test_text
      ∷ artifact_for rollback_plan "SCIGUARD_ROLLBACK.md"
          "Fail-safe rollback and re-quarantine procedure." evidence_ids rollback_text
      ∷ []

  abbrev artifact_digests : List RepairArtifact → List String
  artifact_digests [] = []
  artifact_digests (a ∷ rest) = a.content_sha256 ∷ artifact_digests rest

  abbrev pub bundle_identity : RepairRequest → RootCause → FieldImpact → List RepairArtifact → Json
  bundle_identity request root_cause impact artifacts = obj (
      to_fields (
        ("incident_id", str request.incident_id)
        ∷ ("root_cause", obj (to_fields (root_cause_dump root_cause)))
        ∷ ("impact", obj (to_fields (impact_dump impact)))
        ∷ ("native_ml_context", arr (dict_items (map context_dump request.native_ml_context)))
        ∷ ("artifact_sha256", str_array (artifact_digests artifacts))
        ∷ []))

  -- the bundle that the call returns
  abbrev pub unit_bundle : RepairRequest → RootCause → FieldImpact → List String → RepairBundle
  unit_bundle request root_cause impact evidence_ids =
      let artifacts = unit_artifacts root_cause evidence_ids in
      record {
        schema_version = "1.0";
        bundle_id =
            stable_evidence_id "repair-bundle"
              (bundle_identity request root_cause impact artifacts);
        incident_id = request.incident_id;
        status = proposed;
        risk = critical;
        title = concat "Normalize " (
            concat root_cause.batch_id (
              concat " Tg values from K to "
                (concat root_cause.expected_unit " before scientific ranking")));
        root_cause_summary = root_cause.explanation;
        target_repository = request.target_repository;
        target_base_revision = request.target_base_revision;
        datahub_incident_urn = request.datahub_incident_urn;
        datahub_decision_log_urn = request.datahub_decision_log_urn;
        affected_urns = impact.affected_urns;
        preserved_urns = impact.unaffected_urns;
        native_ml_context = request.native_ml_context;
        evidence_ids = evidence_ids;
        artifacts = artifacts;
        verification_checks = unit_checks evidence_ids;
        approval = record {
          required = true;
          status = approval_required;
          policy_id = "SCIENTIFIC_DECISION_CRITICAL";
          approver_urn = request.approver_urn;
          reason = approval_reason;
          evidence_ids = evidence_ids;
        };
        external_action_receipt = none;
        verification_receipt = none;
        approval_receipt = none;
        application_receipt = none;
      }

  unfoldable pub create_unit_repair_bundle :
      RepairRequest → RootCause → FieldImpact → Result RepairBundle
  unfolding normalizer_patch contract_test_text scientific_regression_test_text
      safe_branch_test_text make_bundle
  create_unit_repair_bundle request root_cause impact = do
    let evidence_ids = dedupe request.evidence_ids
    raise_if (is_nil evidence_ids)
        (value_error "a repair bundle requires validated root-cause evidence")
    raise_if
        (not (root_cause.expected_unit == "degC") || not (contains "K" root_cause.observed_units))
        (value_error "flagship repair only supports the verified K-to-degC contract")
    make_bundle digest (unit_bundle request root_cause impact evidence_ids)
