-- ===== src/Approval/RoundTrip.antt =====
-- A decision that `ApprovalAuthority.record` of core/approval.py signs can be attached to the bundle
-- that it was made on.
use sciguard_autopilot.Base.{
  ℕ, ◌≡◌, refl, ap, ◌∙◌, inl, inr, String, true, none, some, List, arith, Result-cases, ok, eq_iff,
  eq_refl,
}
use sciguard_autopilot.Base.Json.{Json}
use sciguard_autopilot.Repair.{
  RepairBundle, is_verified, make_bundle, evidence_closure, status_error,
}
use sciguard_autopilot.Repair.Valid.{make_bundle_parts}
use sciguard_autopilot.Verification.{VerificationReceipt, verification_dump}
use sciguard_autopilot.Approval.{
  ApprovalDecision, approve, reject, ApprovalReceipt, ApprovalAuthority, Hmac, Review, verify,
  is_ascii, signature_payload, make_approval_receipt, record_approval, unsigned_mark, drafted,
}
use sciguard_autopilot.Approval.Attaching.{attach_approval_receipt, decided_bundle}

decided-agrees : (b : RepairBundle) (a : ApprovalReceipt) → status_error (decided_bundle b a) ≡ none
decided-agrees b a = go a.decision refl
  where
    go : (d : ApprovalDecision) → a.decision ≡ d → status_error (decided_bundle b a) ≡ none
    go approve e = rw e refl
    go reject e = rw e refl

-- A decision leaves a valid bundle valid.
make_bundle-decided_bundle :
    (digest : String → String) (b c : RepairBundle) (a : ApprovalReceipt)
    → make_bundle digest b ≡ ok c
    → make_bundle digest (decided_bundle b a) ≡ ok (decided_bundle b a)
unfolding make_bundle evidence_closure
make_bundle-decided_bundle digest b c a h =
    let (artifacts, checks, within, apart) = make_bundle_parts digest b c h in
    rw (artifacts, checks, within, apart, decided-agrees b a) refl

make_approval_receipt_same : (a a' : ApprovalReceipt) → make_approval_receipt a ≡ ok a' → a' ≡ a
unfolding make_approval_receipt
make_approval_receipt_same a a' h = ground arith

module _ (digest : String → String) (evidence_id : String → Json → String) (hmac : Hmac)
    (repr : Json → String) where
  -- the receipt that is signed for a verified bundle
  abbrev signed_for :
      ApprovalAuthority → RepairBundle → VerificationReceipt → Review → ℕ → String → ApprovalReceipt
  signed_for authority b v review now signature =
      drafted evidence_id authority b v.receipt_id v.commit_sha review now signature

  record_approval_lem :
      (authority : ApprovalAuthority) (b : RepairBundle) (v : VerificationReceipt) (review : Review)
      (now : ℕ) (a : ApprovalReceipt)
      → b.verification_receipt ≡ some (verification_dump v)
      → record_approval evidence_id hmac repr authority b review now ≡ ok a
      → (is_verified b.status ≡ true)
        × (review.authenticated_approver_urn ≡ b.approval.approver_urn)
        × (a
            ≡ signed_for authority b v review now (
                hmac authority.signing_key
                  (signature_payload (signed_for authority b v review now unsigned_mark))))
  unfolding record_approval
  record_approval_lem authority b v review now a kept h =
      let draft = signed_for authority b v review now in
      let signed = draft (hmac authority.signing_key (signature_payload (draft unsigned_mark))) in
      let h' = rw kept at h in
      elim (Result-cases (make_approval_receipt (draft unsigned_mark))) [
        | inr (x, e) ↦ absurd (ground (arith, e, h'))
        | inl (u, e) ↦
            let e' : make_approval_receipt (draft unsigned_mark) ≡ ok (draft unsigned_mark) =
              e ∙ ap ok (make_approval_receipt_same (draft unsigned_mark) u e) in
            (
              ground (arith, h'),
              ground (arith, h', eq_iff review.authenticated_approver_urn b.approval.approver_urn),
              make_approval_receipt_same signed a (ground (arith, e', h')),
            )
      ]

  verify-signed_for :
      (authority : ApprovalAuthority) (b : RepairBundle) (v : VerificationReceipt) (review : Review)
      (now : ℕ)
      → ((key : List ℕ) (payload : Json) → is_ascii (hmac key payload) ≡ true)
      → verify hmac authority (
          signed_for authority b v review now (
            hmac authority.signing_key
              (signature_payload (signed_for authority b v review now unsigned_mark))))
        ≡ ok true
  unfolding verify
  verify-signed_for authority b v review now hexadecimal =
      let signature =
        hmac authority.signing_key
          (signature_payload (signed_for authority b v review now unsigned_mark)) in
      rw
        (
          eq_refl authority.key_id,
          hexadecimal authority.signing_key
              (signature_payload (signed_for authority b v review now unsigned_mark)),
          eq_refl signature,
        )
        refl

  -- When the HMAC is written in ASCII, and a valid bundle carries the receipt of a verification: a
  -- receipt that `record` returns for the bundle verifies under the same authority, and
  -- `attach_approval_receipt` accepts it on the bundle and returns the bundle with the decision:
  -- APPROVED with an approved gate, or REJECTED with a rejected gate.
  pub attach_approval_receipt-record_approval :
      (authority : ApprovalAuthority) (b : RepairBundle) (v : VerificationReceipt) (review : Review)
      (now : ℕ) (a : ApprovalReceipt)
      → ((key : List ℕ) (payload : Json) → is_ascii (hmac key payload) ≡ true)
      → make_bundle digest b ≡ ok b
      → b.verification_receipt ≡ some (verification_dump v)
      → record_approval evidence_id hmac repr authority b review now ≡ ok a
      → (verify hmac authority a ≡ ok true)
        × (attach_approval_receipt digest hmac b a authority ≡ ok (decided_bundle b a))
  unfolding attach_approval_receipt
  attach_approval_receipt-record_approval authority b v review now a hexadecimal valid kept h =
      let (status, approver, made) = record_approval_lem authority b v review now a kept h in
      let signed : verify hmac authority a ≡ ok true =
        ap (verify hmac authority) made ∙ verify-signed_for authority b v review now hexadecimal in
      (
        signed,
        ground (
          arith,
          signed,
          status,
          kept,
          approver,
          made,
          eq_refl b.bundle_id,
          eq_refl v.receipt_id,
          eq_refl v.commit_sha,
          eq_refl b.approval.approver_urn,
          make_bundle-decided_bundle digest b b a valid,
        ),
      )
