-- ===== src/Tests/Custody.antt =====
-- core/approval.py and core/application.py at concrete inputs, and a repair from its proposal to its
-- application.
use sciguard_autopilot.Base.{◌≡◌, refl, true, false, [], ok}
use sciguard_autopilot.Base.Texts.{strip, lstrip, rstrip}
use sciguard_autopilot.Base.{◌∷◌}
use sciguard_autopilot.Repair.{VerificationCheck, RepairBundle, published, make_bundle}
use sciguard_autopilot.Publication.{attach_change_receipt}
use sciguard_autopilot.Verification.{make_verification_receipt}
use sciguard_autopilot.Verification.Attaching.{attach_verification_receipt, verified_bundle}
use sciguard_autopilot.Approval.{
  ApprovalReceipt, ApprovalAuthority, Review, approve, reject, verify, record_approval, drafted,
  make_approval_receipt,
}
use sciguard_autopilot.Approval.Attaching.{attach_approval_receipt, decided_bundle}
use sciguard_autopilot.Approval.RoundTrip.{attach_approval_receipt-record_approval}
use sciguard_autopilot.Application.{ApplicationReceipt, applied_bundle, attach_application_receipt}
use sciguard_autopilot.Custody.{Attached, here, next, change, verification, approval, application}
use sciguard_autopilot.Custody.Chain.{Custody, Reached-Custody}
-- stand-ins for the digests
use sciguard_autopilot.Tests.Repairs.{
  same_text, kind_id, key_hmac, repr, bundle, change_receipt, published_bundle, unit_receipt,
}

abbrev v_bundle : RepairBundle
v_bundle = verified_bundle published_bundle (unit_receipt 0)

abbrev authority : ApprovalAuthority
authority = record {
  signing_key = [];
  key_id = "sciguard-demo-v1";
  identity_provider = "SCIGUARD_LOCAL_REVIEW_SESSION";
  identity_assurance = "DEMO_SIGNED_NOT_SSO";
  production_authorized = false;
}

abbrev review : Review
review = record {
  authenticated_approver_urn = "urn:owner";
  decision = approve;
  note = "  checked the units  ";
}

abbrev approval_receipt : ApprovalReceipt
approval_receipt = drafted kind_id authority v_bundle "verification-receipt" "c1" review 3 "mac"

attach_approval_receipt-record_approval_example :
    (verify key_hmac authority approval_receipt ≡ ok true)
    × (attach_approval_receipt same_text key_hmac v_bundle approval_receipt authority
        ≡ ok (decided_bundle v_bundle approval_receipt))
attach_approval_receipt-record_approval_example =
    attach_approval_receipt-record_approval same_text kind_id key_hmac repr authority v_bundle
      (unit_receipt 0) review 3 approval_receipt (λ key payload. refl)
      (unfold make_bundle strip lstrip rstrip in refl) refl
      (unfold record_approval strip lstrip rstrip make_approval_receipt in refl)

abbrev pub a_bundle : RepairBundle
a_bundle = decided_bundle v_bundle approval_receipt

abbrev application_receipt : ApplicationReceipt
application_receipt = record {
  receipt_id = "application-receipt";
  provider = "LOCAL_STAGING";
  status = "APPLIED";
  bundle_id = "repair-bundle:1";
  commit_sha = "c1";
  target_environment = "SCIGUARD_SYNTHETIC_STAGING";
  deployment_id = "d";
  source_tree_sha256 = "t";
  production_authorized = false;
  applied_at = 4;
}

abbrev Step : RepairBundle → RepairBundle → Type 0
Step = Attached same_text key_hmac authority

bundle_published : Step bundle published_bundle
bundle_published =
    change change_receipt (unfold attach_change_receipt make_bundle strip lstrip rstrip in refl)

bundle_verified : Step published_bundle v_bundle
bundle_verified =
    verification (unit_receipt 0) (unfold make_verification_receipt in refl)
      (unfold attach_verification_receipt make_bundle strip lstrip rstrip in refl)

bundle_approved : Step v_bundle a_bundle
bundle_approved =
    approval approval_receipt
      (unfold attach_approval_receipt verify make_bundle strip lstrip rstrip in refl)

bundle_applied : Step a_bundle (applied_bundle a_bundle application_receipt)
bundle_applied =
    application application_receipt
      (unfold attach_application_receipt make_bundle strip lstrip rstrip in refl)

Reached-Custody_example :
    Custody same_text key_hmac authority bundle (applied_bundle a_bundle application_receipt)
Reached-Custody_example =
    Reached-Custody same_text key_hmac authority bundle
      (applied_bundle a_bundle application_receipt) refl
      (next (next (next (next here bundle_published) bundle_verified) bundle_approved)
        bundle_applied)
      refl

-- Two checks are declared under one ID, and the first, which is never run, is not asked for.
abbrev never_run : VerificationCheck
never_run = record {
  check_id = "unit_contract";
  name = "never run";
  command = "pytest -q tests/other.py";
  expected_result = "PASS";
  protects = "urn:a" ∷ [];
  evidence_ids = "e1" ∷ [];
}

abbrev doubled : RepairBundle
doubled = record published_bundle {
  verification_checks = never_run ∷ published_bundle.verification_checks;
}

doubled_is_verified :
    attach_verification_receipt same_text doubled (unit_receipt 0)
    ≡ ok (verified_bundle doubled (unit_receipt 0))
unfolding attach_verification_receipt make_bundle strip lstrip rstrip
doubled_is_verified = refl

abbrev rejection : ApprovalReceipt
rejection = record approval_receipt { decision = reject }

-- The attachment of a publication does not look at the status: a rejected bundle is published anew.
rejected_republished :
    attach_change_receipt same_text (decided_bundle v_bundle rejection) change_receipt
    ≡ ok (record (decided_bundle v_bundle rejection) { status = published })
unfolding attach_change_receipt make_bundle strip lstrip rstrip
rejected_republished = refl
