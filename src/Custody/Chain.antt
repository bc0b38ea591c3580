-- ===== src/Custody/Chain.antt =====
-- What an applied bundle rests on, however its receipts were handed over: the verification, the
-- approval and the application that core/verification.py, core/approval.py and core/application.py
-- attached are for one commit of one bundle.
use sciguard_autopilot.Base.{◌≡◌, refl, sym, ap, subst, ◌∙◌, String, List, ok}
use sciguard_autopilot.Base.Dict.{lookup}
use sciguard_autopilot.Repair.{
  RepairBundle, RepairArtifact, RepairStatus, VerificationCheck, proposed, published, verified,
  approved, rejected, applied, or_empty,
}
use sciguard_autopilot.Verification.{VerificationReceipt, make_verification_receipt}
use sciguard_autopilot.Approval.{
  ApprovalDecision, approve, reject, ApprovalReceipt, ApprovalAuthority, Hmac,
}
use sciguard_autopilot.Approval.Attaching.{decided_bundle, next_status}
use sciguard_autopilot.Application.{ApplicationReceipt, applied_bundle}
use sciguard_autopilot.Custody.{
  Attached, change, verification, approval, application, Reached, here, next,
}
use sciguard_autopilot.Custody.Inversion.{
  VerifiedBy, SignedBy, AppliedBy, attach_change_receipt_lem,
  attach_verification_receipt-VerifiedBy, attach_approval_receipt-SignedBy,
  attach_application_receipt-AppliedBy,
}

-- The parts of a bundle that no attachment changes.
pub record Proposal : Type 0 where
  pub bundle_id : String
  pub incident_id : String
  pub artifacts : List RepairArtifact
  pub checks : List VerificationCheck
  pub evidence : List String
  pub approver : String

abbrev pub proposal_of : RepairBundle → Proposal
proposal_of b = record {
  bundle_id = b.bundle_id;
  incident_id = b.incident_id;
  artifacts = b.artifacts;
  checks = b.verification_checks;
  evidence = b.evidence_ids;
  approver = b.approval.approver_urn;
}

pub record Verified (b : RepairBundle) : Type 0 where
  pub receipt : VerificationReceipt
  pub valid : make_verification_receipt receipt ≡ ok receipt
  pub by : VerifiedBy b receipt

module _ (digest : String → String) (hmac : Hmac) (authority : ApprovalAuthority) where
  pub record Signed (decision : ApprovalDecision) (b : RepairBundle) : Type 0 where
    pub receipt : ApprovalReceipt
    pub decided : receipt.decision ≡ decision
    pub by : SignedBy hmac authority b receipt

  pub record Applied (b : RepairBundle) : Type 0 where
    pub receipt : ApplicationReceipt
    pub by : AppliedBy b receipt

  -- What the status of a bundle promises.
  abbrev Promised : RepairStatus → RepairBundle → Type 0
  Promised proposed b = Unit
  Promised published b = Unit
  Promised verified b = Verified b
  Promised approved b = Verified b × Signed approve b
  Promised rejected b = Verified b × Signed reject b
  Promised applied b = Verified b × Signed approve b × Applied b

  Verified-decided_bundle :
      (b : RepairBundle) (a : ApprovalReceipt) → Verified b → Verified (decided_bundle b a)
  Verified-decided_bundle b a v = record {
    receipt = v.receipt;
    valid = v.valid;
    by = record {
      same_bundle = v.by.same_bundle;
      passed = v.by.passed;
      commit = v.by.commit;
      repository = v.by.repository;
      branch = v.by.branch;
      covers = v.by.covers;
      kept = v.by.kept;
    };
  }

  Verified-applied_bundle :
      (b : RepairBundle) (r : ApplicationReceipt) → Verified b → Verified (applied_bundle b r)
  Verified-applied_bundle b r v = record {
    receipt = v.receipt;
    valid = v.valid;
    by = record {
      same_bundle = v.by.same_bundle;
      passed = v.by.passed;
      commit = v.by.commit;
      repository = v.by.repository;
      branch = v.by.branch;
      covers = v.by.covers;
      kept = v.by.kept;
    };
  }

  Signed-applied_bundle :
      (b : RepairBundle) (r : ApplicationReceipt) (d : ApprovalDecision)
      → Signed d b
      → Signed d (applied_bundle b r)
  Signed-applied_bundle b r d s = record {
    receipt = s.receipt;
    decided = s.decided;
    by = record {
      signed = s.by.signed;
      same_bundle = s.by.same_bundle;
      receipt = s.by.receipt;
      commit = s.by.commit;
      accountable = s.by.accountable;
      kept = s.by.kept;
    };
  }

  decided-Promised :
      (b : RepairBundle) (a : ApprovalReceipt) (d : ApprovalDecision)
      → a.decision ≡ d
      → Verified b
      → SignedBy hmac authority (decided_bundle b a) a
      → Promised (next_status d) (decided_bundle b a)
  decided-Promised b a approve e v s =
      (Verified-decided_bundle b a v, record { receipt = a; decided = e; by = s })
  decided-Promised b a reject e v s =
      (Verified-decided_bundle b a v, record { receipt = a; decided = e; by = s })

  Attached-Promised :
      (b b' : RepairBundle)
      → Promised b.status b
      → Attached digest hmac authority b b'
      → Promised b'.status b'
  Attached-Promised b b' p (change r h) = rw (attach_change_receipt_lem digest b b' r h).1 tt
  Attached-Promised b b' p (verification r valid h) =
      let (same, by) = attach_verification_receipt-VerifiedBy digest b b' r h in
      subst (λ c. Promised c.status c) (sym same) (record { receipt = r; valid = valid; by = by })
  Attached-Promised b b' p (approval a h) =
      let (status, same, by) = attach_approval_receipt-SignedBy digest hmac b b' a authority h in
      let v : Verified b = subst (λ x. Promised x b) status p in
      subst (λ c. Promised c.status c) (sym same) (decided-Promised b a a.decision refl v by)
  Attached-Promised b b' p (application r h) =
      let (status, same, by) = attach_application_receipt-AppliedBy digest b b' r h in
      let (v, s) : Verified b × Signed approve b = subst (λ x. Promised x b) status p in
      subst (λ c. Promised c.status c) (sym same)
        (
          Verified-applied_bundle b r v,
          Signed-applied_bundle b r approve s,
          record { receipt = r; by = by },
        )

  proposal_of-Attached :
      (b b' : RepairBundle) → Attached digest hmac authority b b' → proposal_of b' ≡ proposal_of b
  proposal_of-Attached b b' (change r h) =
      ap proposal_of (attach_change_receipt_lem digest b b' r h).1
  proposal_of-Attached b b' (verification r valid h) =
      ap proposal_of (attach_verification_receipt-VerifiedBy digest b b' r h).0
  proposal_of-Attached b b' (approval a h) =
      ap proposal_of (attach_approval_receipt-SignedBy digest hmac b b' a authority h).1
  proposal_of-Attached b b' (application r h) =
      ap proposal_of (attach_application_receipt-AppliedBy digest b b' r h).1

  Reached-Promised :
      {b b' : RepairBundle}
      → b.status ≡ proposed
      → Reached digest hmac authority b b'
      → Promised b'.status b' × (proposal_of b' ≡ proposal_of b)
  Reached-Promised {b = b} e here = (subst (λ x. Promised x b) (sym e) tt, refl)
  Reached-Promised {b = b} {b' = d} e (next {c = c} r st) =
      let (p, same) = Reached-Promised e r in
      (Attached-Promised c d p st, proposal_of-Attached c d st ∙ same)

  -- The four receipts of an applied bundle, and the one commit that they are for.
  pub record Custody (b b' : RepairBundle) : Type 0 where
    pub same : proposal_of b' ≡ proposal_of b
    pub verification_receipt : VerificationReceipt
    pub approval_receipt : ApprovalReceipt
    pub application_receipt : ApplicationReceipt
    pub valid : make_verification_receipt verification_receipt ≡ ok verification_receipt
    pub verified_by : VerifiedBy b' verification_receipt
    pub signed_by : SignedBy hmac authority b' approval_receipt
    pub approving : approval_receipt.decision ≡ approve
    pub applied_by : AppliedBy b' application_receipt
    pub approved_commit : approval_receipt.commit_sha ≡ verification_receipt.commit_sha
    pub approved_result : approval_receipt.verification_receipt_id ≡ verification_receipt.receipt_id
    pub applied_commit : application_receipt.commit_sha ≡ verification_receipt.commit_sha

  -- The commit and the ID of the verification that a decision names.
  decided_on :
      (b : RepairBundle) (v : VerificationReceipt) (a : ApprovalReceipt)
      → VerifiedBy b v
      → SignedBy hmac authority b a
      → (a.commit_sha ≡ v.commit_sha) × (a.verification_receipt_id ≡ v.receipt_id)
  decided_on b v a p q =
      let dict = ap or_empty p.kept in
      let commit = sym q.commit ∙ ap (lookup "commit_sha") dict in
      let id = sym q.receipt ∙ ap (lookup "receipt_id") dict in (cc commit, cc id)

  applied_at_approved :
      (b : RepairBundle) (a : ApprovalReceipt) (r : ApplicationReceipt)
      → SignedBy hmac authority b a
      → AppliedBy b r
      → r.commit_sha ≡ a.commit_sha
  applied_at_approved b a r p q =
      let commit = sym q.commit ∙ ap (lookup "commit_sha") (ap or_empty p.kept) in cc commit

  -- Whatever receipts are attached to a proposed bundle, in whatever order and number: a bundle that
  -- reaches the status APPLIED has the bundle ID, incident, artifacts, declared checks, evidence and
  -- approver of the proposal; it carries a valid verification receipt for this bundle, with status
  -- PASS, for the commit, repository and branch of the publication, in which, for each check ID, the
  -- last check that is declared under it passed under its declared name, command and evidence (of
  -- several checks under one ID the others are not asked for); an approval that the authority signed,
  -- of this verification, for the accountable approver, with the decision APPROVE; and an application
  -- receipt; and all of these are for one commit.
  pub Reached-Custody :
      (b b' : RepairBundle)
      → b.status ≡ proposed
      → Reached digest hmac authority b b'
      → b'.status ≡ applied
      → Custody b b'
  Reached-Custody b b' e r done =
      let (p, same) = Reached-Promised e r in
      let (v, s, a) : Verified b' × Signed approve b' × Applied b' =
        subst (λ x. Promised x b') done p in
      let (commit, result) = decided_on b' v.receipt s.receipt v.by s.by in
      record {
        same = same;
        verification_receipt = v.receipt;
        approval_receipt = s.receipt;
        application_receipt = a.receipt;
        valid = v.valid;
        verified_by = v.by;
        signed_by = s.by;
        approving = s.decided;
        applied_by = a.by;
        approved_commit = commit;
        approved_result = result;
        applied_commit = applied_at_approved b' s.receipt a.receipt s.by a.by ∙ commit;
      }
