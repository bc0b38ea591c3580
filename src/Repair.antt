-- ===== src/Repair.antt =====
-- core/repair.py: the repair bundle with its parts, and the validators that every new state of it
-- passes. A receipt is kept as the dict that `model_dump` makes of it. The SHA-256 of a text is the
-- parameter `digest`.
pub mod Templates
pub mod Proposal
pub mod Valid
use sciguard_autopilot.Base.{
  ℕ, ◌≡◌, String, Bool, true, false, not, ◌&&◌, ◌||◌, Option, none, some, List, [], ◌∷◌, ◌++◌, any,
  all, is_nil, contains, if◌then◌else◌, value_error, Result, ok, err, ◌==◌,
}
use sciguard_autopilot.Base.Raising.{◌>>=◌, ◌>>◌, raise_if}
use sciguard_autopilot.Base.Dict.{Dict}
use sciguard_autopilot.Base.Texts.{is_empty, strip}
use sciguard_autopilot.Base.Json.{Json}

pub data RepairRisk : Type 0 where
  low medium high critical : RepairRisk

pub data RepairStatus : Type 0 where
  proposed published verified approved applied rejected : RepairStatus

pub data ArtifactKind : Type 0 where
  code_patch contract_test scientific_regression_test safe_branch_test rollback_plan : ArtifactKind

pub data ApprovalStatus : Type 0 where
  approval_required approval_approved approval_rejected : ApprovalStatus

pub record RepairArtifact : Type 0 where
  pub artifact_id : String
  pub kind : ArtifactKind
  pub path : String
  pub description : String
  pub content_sha256 : String
  pub content : String
  pub evidence_ids : List String

pub record VerificationCheck : Type 0 where
  pub check_id : String
  pub name : String
  pub command : String
  pub expected_result : String
  pub protects : List String
  pub evidence_ids : List String

pub record ApprovalGate : Type 0 where
  pub required : Bool
  pub status : ApprovalStatus
  pub policy_id : String
  pub approver_urn : String
  pub reason : String
  pub evidence_ids : List String

pub record NativeMlDecisionContext : Type 0 where
  pub dataset_projection_urn : String
  pub native_model_urn : String
  pub model_name : String
  pub model_version : String
  pub model_type : String
  pub feature_urns : List String
  pub training_job_urns : List String
  pub inference_job_urns : List String
  pub deployment_context : List (Dict Json)
  pub owner_urns : List String
  pub criticality : String
  pub expected_target_unit : Option String
  pub affected : Bool

-- `dict[str, Any] | None`
abbrev pub Receipt : Type 0
Receipt = Option (Dict Json)

pub record RepairBundle : Type 0 where
  pub schema_version : String
  pub bundle_id : String
  pub incident_id : String
  pub status : RepairStatus
  pub risk : RepairRisk
  pub title : String
  pub root_cause_summary : String
  pub target_repository : String
  pub target_base_revision : String
  pub datahub_incident_urn : Option String
  pub datahub_decision_log_urn : Option String
  pub affected_urns : List String
  pub preserved_urns : List String
  pub native_ml_context : List NativeMlDecisionContext
  pub evidence_ids : List String
  pub artifacts : List RepairArtifact
  pub verification_checks : List VerificationCheck
  pub approval : ApprovalGate
  pub external_action_receipt : Receipt
  pub verification_receipt : Receipt
  pub approval_receipt : Receipt
  pub application_receipt : Receipt

-- The truth of a receipt: neither `None` nor empty.
abbrev pub is_given : Receipt → Bool
is_given none = false
is_given (some d) = not (is_nil d)

-- `receipt or {}`
abbrev pub or_empty : Receipt → Dict Json
or_empty none = []
or_empty (some d) = d

abbrev pub is_proposed : RepairStatus → Bool
is_proposed proposed = true
is_proposed _ = false

abbrev pub is_published : RepairStatus → Bool
is_published published = true
is_published _ = false

abbrev pub is_verified : RepairStatus → Bool
is_verified verified = true
is_verified _ = false

abbrev pub is_approved : RepairStatus → Bool
is_approved approved = true
is_approved _ = false

abbrev pub gate_approved : ApprovalStatus → Bool
gate_approved approval_approved = true
gate_approved _ = false

abbrev pub gate_rejected : ApprovalStatus → Bool
gate_rejected approval_rejected = true
gate_rejected _ = false

-- `RepairArtifact(...)`
abbrev pub blank_artifact : RepairArtifact → Bool
blank_artifact a =
    any (λ text. is_empty (strip text)) (a.artifact_id ∷ a.path ∷ a.description ∷ a.content ∷ [])

module _ (digest : String → String) where
  unfoldable pub make_artifact : RepairArtifact → Result RepairArtifact
  unfolding strip
  make_artifact a = do
    raise_if (blank_artifact a) (value_error "repair artifact fields must not be empty")
    raise_if (not (digest a.content == a.content_sha256))
        (value_error "content_sha256 does not match artifact content")
    ok a

-- `VerificationCheck(...)`
unfoldable pub make_check : VerificationCheck → Result VerificationCheck
make_check c = do
  raise_if (is_nil c.evidence_ids) (value_error "verification checks require evidence links")
  ok c

abbrev pub artifact_evidence : List RepairArtifact → List String
artifact_evidence [] = []
artifact_evidence (a ∷ rest) = a.evidence_ids ++ artifact_evidence rest

abbrev pub check_evidence : List VerificationCheck → List String
check_evidence [] = []
check_evidence (c ∷ cs) = c.evidence_ids ++ check_evidence cs

-- the evidence that the parts of a bundle name
abbrev pub referenced : RepairBundle → List String
referenced b =
    artifact_evidence b.artifacts
    ++ (check_evidence b.verification_checks ++ b.approval.evidence_ids)

-- `set(xs) <= set(ys)`, and `set(xs) & set(ys)`
abbrev pub subset : List String → List String → Bool
subset xs ys = all (λ x. contains x ys) xs

abbrev pub overlaps : List String → List String → Bool
overlaps xs ys = any (λ x. contains x ys) xs

-- What the status demands of the receipts and of the gate.
abbrev pub status_error : RepairBundle → Option String
status_error b = elim b.status [
  | proposed ↦
      if is_given b.external_action_receipt
      then some "a proposed bundle cannot claim an external action receipt"
      else none
  | published ↦ none
  | verified ↦
      if is_given b.verification_receipt
      then none
      else some "a verified bundle requires a verification receipt"
  | approved ↦
      if not (is_given b.approval_receipt)
      then some "an approved bundle requires an approval receipt"
      else if gate_approved b.approval.status
      then none
      else some "approved bundle and approval gate must agree"
  | rejected ↦
      if not (is_given b.approval_receipt)
      then some "a rejected bundle requires an approval receipt"
      else if gate_rejected b.approval.status
      then none
      else some "rejected bundle and approval gate must agree"
  | applied ↦
      if not (is_given b.application_receipt)
      then some "an applied bundle requires an application receipt"
      else if not (is_given b.approval_receipt)
      then some "an applied bundle requires an approval receipt"
      else if gate_approved b.approval.status
      then none
      else some "applied bundle and approval gate must agree"
]

abbrev pub agree : Option String → Result (Unit {0})
agree none = ok tt
agree (some message) = err (value_error message)

-- The validator `_evidence_closure`.
unfoldable pub evidence_closure : RepairBundle → Result RepairBundle
evidence_closure b = do
  raise_if (not (subset (referenced b) b.evidence_ids))
      (value_error "bundle children reference evidence outside the bundle")
  raise_if (overlaps b.affected_urns b.preserved_urns)
      (value_error "affected and preserved URNs must be disjoint")
  agree (status_error b)
  ok b

module _ {A : Type 0} where
  -- every element of a list through a validator
  abbrev pub each : (A → Result A) → List A → Result (Unit {0})
  each f [] = ok tt
  each f (x ∷ xs) = do _ ← f x; each f xs

-- `RepairBundle.model_validate`
unfoldable pub make_bundle : (String → String) → RepairBundle → Result RepairBundle
unfolding make_artifact make_check evidence_closure
make_bundle digest b = do
  each (make_artifact digest) b.artifacts
  each make_check b.verification_checks
  evidence_closure b
