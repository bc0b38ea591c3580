-- ===== src/Publication.antt =====
-- core/change_provider.py: the receipt of a publication, the attachment of it to a bundle, and the
-- paths that an artifact may name. The publisher itself runs git.
use sciguard_autopilot.Base.{
  ℕ, String, not, Option, none, some, List, [], ◌∷◌, value_error, Result, ◌==◌,
}
use sciguard_autopilot.Base.Raising.{◌>>◌, raise_if}
use sciguard_autopilot.Base.Dict.{Dict}
use sciguard_autopilot.Base.Json.{Json, null, num, str, str_array}
use sciguard_autopilot.Repair.{RepairBundle, published, make_bundle}

pub record ChangeReceipt : Type 0 where
  pub provider : String
  pub status : String
  pub bundle_id : String
  pub repository : String
  pub base_revision : String
  pub base_commit_sha : Option String
  pub branch : String
  pub commit_sha : String
  pub changed_files : List String
  pub created_at : ℕ
  pub remote_url : Option String
  pub pull_request_number : Option ℕ

abbrev pub str_or_null : Option String → Json
str_or_null none = null
str_or_null (some s) = str s

abbrev pub num_or_null : Option ℕ → Json
num_or_null none = null
num_or_null (some n) = num n

-- `receipt.model_dump(mode="python")`; an instant stands as its number
abbrev pub change_dump : ChangeReceipt → Dict Json
change_dump r =
    ("provider", str r.provider)
    ∷ ("status", str r.status)
    ∷ ("bundle_id", str r.bundle_id)
    ∷ ("repository", str r.repository)
    ∷ ("base_revision", str r.base_revision)
    ∷ ("base_commit_sha", str_or_null r.base_commit_sha)
    ∷ ("branch", str r.branch)
    ∷ ("commit_sha", str r.commit_sha)
    ∷ ("changed_files", str_array r.changed_files)
    ∷ ("created_at", num r.created_at)
    ∷ ("remote_url", str_or_null r.remote_url)
    ∷ ("pull_request_number", num_or_null r.pull_request_number)
    ∷ []

unfoldable pub attach_change_receipt :
    (String → String) → RepairBundle → ChangeReceipt → Result RepairBundle
unfolding make_bundle
attach_change_receipt digest bundle receipt = do
  raise_if (not (receipt.bundle_id == bundle.bundle_id))
      (value_error "change receipt does not belong to this repair bundle")
  make_bundle digest
      (record bundle { status = published; external_action_receipt = some (change_dump receipt) })
