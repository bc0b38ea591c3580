-- ===== src/Tests/Releases.antt =====
-- LocalStagingApplicator.apply of core/application.py at concrete inputs.
use sciguard_autopilot.Base.{◌≡◌, refl, String, some, [], ◌∷◌, runtime_error, ok, err}
use sciguard_autopilot.Base.Json.{Json}
use sciguard_autopilot.Application.{ApplicationReceipt, applied_bundle, attach_application_receipt}
use sciguard_autopilot.Repair.{make_bundle}
use sciguard_autopilot.Base.{true}
use sciguard_autopilot.Application.Staging.{
  tree, receipt_file, existing, Repository, directory, special, regular, refused_file, extracted,
  tree_digest, new_receipt, approved_files, apply,
}
use sciguard_autopilot.Application.Again.{apply-apply}
use sciguard_autopilot.Application.Applied.{
  IsApplied, apply-IsApplied, attach_application_receipt-apply,
}
use sciguard_autopilot.Tests.Repairs.{same_text, kind_id}
use sciguard_autopilot.Tests.Custody.{a_bundle}

abbrev no_json : Json → String
no_json j = "json"

-- The approved commit c1 is checked out; its tree has one directory with one file.
abbrev checkout : Repository
checkout = record {
  head = ok "c1";
  changes = ok "";
  archive = λ commit. ok (
      record { name = "pipeline/"; kind = directory }
      ∷ record { name = "pipeline/normalize.py"; kind = regular (some "text") }
      ∷ []);
}

-- A link in the archive is refused, and nothing is written.
link_is_refused :
    apply same_text no_json kind_id no_json
      (record checkout { archive = λ commit. ok (record { name = "l"; kind = special } ∷ []) })
      a_bundle
      5
      []
    ≡ (err (runtime_error "application archive contains a non-regular entry"), [])
unfolding apply approved_files extracted
link_is_refused = refl

-- A receipt without its release is left to an operator.
partial_is_refused :
    (apply same_text no_json kind_id no_json checkout a_bundle 5
      (("staging-deployment.json", refused_file (runtime_error "cut off")) ∷ [])).0
    ≡ err (runtime_error "partial staging application requires operator review")
unfolding apply approved_files extracted tree_digest
partial_is_refused = refl

-- The receipt on disk is compared in three fields alone: one that claims production authority is
-- returned as it is.
abbrev claimed : ApplicationReceipt
claimed = record (new_receipt same_text no_json kind_id no_json a_bundle "json" 5) {
  production_authorized = true;
}

claim_is_returned :
    (apply same_text no_json kind_id no_json checkout a_bundle 9
      (("staging-deployment", tree []) ∷ ("staging-deployment.json", receipt_file claimed) ∷ [])).0
    ≡ ok claimed
unfolding apply approved_files extracted existing tree_digest
claim_is_returned = refl

apply-apply_example :
    apply same_text no_json kind_id no_json checkout a_bundle 9
      (apply same_text no_json kind_id no_json checkout a_bundle 5 []).1
    ≡ (
      ok (new_receipt same_text no_json kind_id no_json a_bundle "json" 5),
      (apply same_text no_json kind_id no_json checkout a_bundle 5 []).1,
    )
apply-apply_example =
    apply-apply same_text no_json kind_id no_json checkout a_bundle 5 9 []
      (new_receipt same_text no_json kind_id no_json a_bundle "json" 5)
      (unfold apply approved_files extracted tree_digest in refl)

apply-IsApplied_example :
    IsApplied same_text no_json kind_id no_json checkout a_bundle
      (new_receipt same_text no_json kind_id no_json a_bundle "json" 5)
      (apply same_text no_json kind_id no_json checkout a_bundle 5 []).1
apply-IsApplied_example =
    apply-IsApplied same_text no_json kind_id no_json checkout a_bundle 5 []
      (new_receipt same_text no_json kind_id no_json a_bundle "json" 5)
      (unfold apply approved_files extracted tree_digest in refl)

attach_application_receipt-apply_example :
    attach_application_receipt same_text a_bundle
      (new_receipt same_text no_json kind_id no_json a_bundle "json" 5)
    ≡ make_bundle same_text
        (applied_bundle a_bundle (new_receipt same_text no_json kind_id no_json a_bundle "json" 5))
attach_application_receipt-apply_example =
    attach_application_receipt-apply same_text no_json kind_id no_json same_text checkout a_bundle 5
      [] (new_receipt same_text no_json kind_id no_json a_bundle "json" 5)
      (unfold apply approved_files extracted tree_digest in refl) refl
