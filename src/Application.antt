-- ===== src/Application.antt =====
-- core/application.py: the receipt of an applied repair, and its attachment to an approved bundle.
pub mod Staging
pub mod Again
pub mod Applied
use sciguard_autopilot.Base.{ℕ, String, Bool, not, some, [], ◌∷◌, runtime_error, Result, ◌==◌}
use sciguard_autopilot.Base.Raising.{◌>>◌, raise_if}
use sciguard_autopilot.Base.Dict.{Dict}
use sciguard_autopilot.Base.Json.{Json, bool, num, str}
use sciguard_autopilot.Repair.{RepairBundle, applied, is_approved, or_empty, make_bundle}
use sciguard_autopilot.Verification.Attaching.{holds_text}

pub record ApplicationReceipt : Type 0 where
  pub receipt_id : String
  pub provider : String
  pub status : String
  pub bundle_id : String
  pub commit_sha : String
  pub target_environment : String
  pub deployment_id : String
  pub source_tree_sha256 : String
  pub production_authorized : Bool
  pub applied_at : ℕ

abbrev pub application_dump : ApplicationReceipt → Dict Json
application_dump r =
    ("receipt_id", str r.receipt_id)
    ∷ ("provider", str r.provider)
    ∷ ("status", str r.status)
    ∷ ("bundle_id", str r.bundle_id)
    ∷ ("commit_sha", str r.commit_sha)
    ∷ ("target_environment", str r.target_environment)
    ∷ ("deployment_id", str r.deployment_id)
    ∷ ("source_tree_sha256", str r.source_tree_sha256)
    ∷ ("production_authorized", bool r.production_authorized)
    ∷ ("applied_at", num r.applied_at)
    ∷ []

abbrev pub applied_bundle : RepairBundle → ApplicationReceipt → RepairBundle
applied_bundle bundle receipt = record bundle {
  status = applied;
  application_receipt = some (application_dump receipt);
}

unfoldable pub attach_application_receipt :
    (String → String) → RepairBundle → ApplicationReceipt → Result RepairBundle
unfolding make_bundle
attach_application_receipt digest bundle receipt = do
  raise_if (not (is_approved bundle.status))
      (runtime_error "only an approved bundle can be applied")
  raise_if (not (receipt.bundle_id == bundle.bundle_id))
      (runtime_error "application receipt does not belong to this bundle")
  raise_if (not (holds_text "commit_sha" receipt.commit_sha (or_empty bundle.approval_receipt)))
      (runtime_error "application receipt targets a different commit")
  raise_if (not (receipt.status == "APPLIED"))
      (runtime_error "application receipt did not observe an applied revision")
  make_bundle digest (applied_bundle bundle receipt)
