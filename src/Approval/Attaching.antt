-- ===== src/Approval/Attaching.antt =====
-- `attach_approval_receipt` of core/approval.py.
use sciguard_autopilot.Base.{String, not, some, runtime_error, Result, ◌==◌}
use sciguard_autopilot.Base.Raising.{◌>>=◌, ◌>>◌, raise_if}
use sciguard_autopilot.Repair.{
  RepairBundle, RepairStatus, ApprovalStatus, approved, rejected, approval_approved,
  approval_rejected, is_verified, or_empty, make_bundle,
}
use sciguard_autopilot.Verification.Attaching.{holds_text}
use sciguard_autopilot.Approval.{
  ApprovalDecision, approve, reject, ApprovalReceipt, ApprovalAuthority, Hmac, verify,
  approval_dump,
}

abbrev pub next_status : ApprovalDecision → RepairStatus
next_status approve = approved
next_status reject = rejected

abbrev pub gate_status : ApprovalDecision → ApprovalStatus
gate_status approve = approval_approved
gate_status reject = approval_rejected

-- the bundle with the decision on it
abbrev pub decided_bundle : RepairBundle → ApprovalReceipt → RepairBundle
decided_bundle bundle receipt = record bundle {
  status = next_status receipt.decision;
  approval = record (bundle.approval) { status = gate_status receipt.decision };
  approval_receipt = some (approval_dump receipt);
}

unfoldable pub attach_approval_receipt :
    (String → String)
    → Hmac
    → RepairBundle
    → ApprovalReceipt
    → ApprovalAuthority
    → Result RepairBundle
unfolding make_bundle verify
attach_approval_receipt digest hmac bundle receipt authority = do
  signed ← verify hmac authority receipt
  raise_if (not signed) (runtime_error "approval receipt signature is invalid")
  raise_if (not (is_verified bundle.status))
      (runtime_error "only a verified bundle can receive approval")
  raise_if (not (receipt.bundle_id == bundle.bundle_id))
      (runtime_error "approval receipt does not belong to this repair bundle")
  let verification = or_empty bundle.verification_receipt
  raise_if (not (holds_text "receipt_id" receipt.verification_receipt_id verification))
      (runtime_error "approval receipt targets a different verification result")
  raise_if (not (holds_text "commit_sha" receipt.commit_sha verification))
      (runtime_error "approval receipt targets a different commit")
  raise_if (not (receipt.approver_urn == bundle.approval.approver_urn))
      (runtime_error "approval receipt was not issued to the accountable owner")
  make_bundle digest (decided_bundle bundle receipt)
