-- ===== src/Custody.antt =====
-- How a repair bundle moves through core/change_provider.py, core/verification.py, core/approval.py
-- and core/application.py: each new state of it is one of the four attachments, made with whatever
-- receipt the provider, the reviewer or the applicator hands over.
pub mod Inversion
pub mod Chain
use sciguard_autopilot.Base.{◌≡◌, String, Result, ok}
use sciguard_autopilot.Repair.{RepairBundle}
use sciguard_autopilot.Publication.{ChangeReceipt, attach_change_receipt}
use sciguard_autopilot.Verification.{VerificationReceipt, make_verification_receipt}
use sciguard_autopilot.Verification.Attaching.{attach_verification_receipt}
use sciguard_autopilot.Approval.{ApprovalReceipt, ApprovalAuthority, Hmac, make_approval_receipt}
use sciguard_autopilot.Approval.Attaching.{attach_approval_receipt}
use sciguard_autopilot.Application.{ApplicationReceipt, attach_application_receipt}

module _ (digest : String → String) (hmac : Hmac) (authority : ApprovalAuthority) where
  pub data Attached (b b' : RepairBundle) : Type 0 where
    change : (r : ChangeReceipt) → attach_change_receipt digest b r ≡ ok b' → Attached b b'
    verification :
        (r : VerificationReceipt)
        → make_verification_receipt r ≡ ok r
        → attach_verification_receipt digest b r ≡ ok b'
        → Attached b b'
    approval :
        (r : ApprovalReceipt)
        → attach_approval_receipt digest hmac b r authority ≡ ok b'
        → Attached b b'
    application :
        (r : ApplicationReceipt) → attach_application_receipt digest b r ≡ ok b' → Attached b b'

  pub data Reached (b : RepairBundle) : RepairBundle → Type 0 where
    here : Reached b b
    next : {c d : RepairBundle} → Reached b c → Attached c d → Reached b d
