-- ===== src/Application/Applied.antt =====
-- What LocalStagingApplicator.apply of core/application.py has checked when it returns a receipt.
use Prim.Native.String.{[] as no_text, ◌∷◌ as put_before}
use sciguard_autopilot.Base.{
  ℕ, ◌≡◌, refl, sym, ap, ◌∙◌, inl, inr, subst, String, true, not, ◌||◌, Option, none, some, List,
  [], arith, eq_iff, ok, ◌==◌,
}
use sciguard_autopilot.Base.Raising.{raise_if, >>=-eq-ok, ok_inj, Result-cases}
use sciguard_autopilot.Base.Texts.{is_empty}
use sciguard_autopilot.Base.Dict.{Dict, lookup}
use sciguard_autopilot.Base.Json.{Json}
use sciguard_autopilot.Repair.{RepairBundle, is_approved, or_empty, make_bundle}
use sciguard_autopilot.Verification.Attaching.{holds_text}
use sciguard_autopilot.Application.{ApplicationReceipt, applied_bundle, attach_application_receipt}
use sciguard_autopilot.Application.Staging.{
  Member, Repository, Entry, receipt_file, refused_file, tree, Root, extracted, tree_digest,
  commit_of, release_name, new_receipt, approved_files, existing, released, placed, apply,
}
use sciguard_autopilot.Application.Again.{lookup_release}

empty_text : (s : String) → is_empty s ≡ true → s ≡ ""
empty_text no_text h = refl
empty_text (put_before c s) h = cc

module _ (sha256 : String → String) (canonical : Json → String)
    (stable_evidence_id : String → Json → String) (repr : Json → String) where
  -- The approved commit is checked out, and these are its files.
  pub record IsApproved (repository : Repository) (bundle : RepairBundle) (commit : String)
      (files : Dict String) : Type 0 where
    pub approved : is_approved bundle.status ≡ true
    pub signed : holds_text "commit_sha" commit (or_empty bundle.approval_receipt) ≡ true
    pub verified : holds_text "commit_sha" commit (or_empty bundle.verification_receipt) ≡ true
    pub head : repository.head ≡ ok commit
    pub clean : repository.changes ≡ ok ""
    pub archived :
        (ms : List Member) × (repository.archive commit ≡ ok ms) × (extracted ms [] ≡ ok files)

  approved_files-IsApproved :
      (repository : Repository) (bundle : RepairBundle) (files : Dict String)
      → approved_files sha256 canonical stable_evidence_id repr repository bundle ≡ ok files
      → IsApproved repository bundle
          (commit_of sha256 canonical stable_evidence_id repr bundle)
          files
  unfolding approved_files
  approved_files-IsApproved repository bundle files h =
      let commit = commit_of sha256 canonical stable_evidence_id repr bundle in
      let (u1, e1, h1) = >>=-eq-ok (raise_if (not (is_approved bundle.status)) _) _ h in
      let (u2, e2, h2) =
        >>=-eq-ok
          (raise_if
            (is_empty commit
              || not (holds_text "commit_sha" commit (or_empty bundle.approval_receipt))
              || not (holds_text "commit_sha" commit (or_empty bundle.verification_receipt)))
            _)
          _ h1 in
      let (head, e3, h3) = >>=-eq-ok repository.head _ h2 in
      let (u4, e4, h4) = >>=-eq-ok (raise_if (not (head == commit)) _) _ h3 in
      let (changes, e5, h5) = >>=-eq-ok repository.changes _ h4 in
      let (u6, e6, h6) = >>=-eq-ok (raise_if (not (is_empty changes)) _) _ h5 in
      let (ms, e7, h7) = >>=-eq-ok (repository.archive commit) _ h6 in
      record {
        approved = ground (arith, e1);
        signed = ground (arith, e2);
        verified = ground (arith, e2);
        head = e3 ∙ ap ok ((eq_iff head commit).0 (ground (arith, e4)));
        clean = e5 ∙ ap ok (empty_text changes (ground (arith, e6)));
        archived = (ms, e7, h7);
      }

  -- A receipt for the bundle, its approved commit and the digest of that commit's files, where the
  -- release in the root has that digest.
  pub record IsApplied (repository : Repository) (bundle : RepairBundle)
      (receipt : ApplicationReceipt) (root : Root) : Type 0 where
    pub bundle_id : receipt.bundle_id ≡ bundle.bundle_id
    pub files : Dict String
    pub approved : IsApproved repository bundle receipt.commit_sha files
    pub digest :
        receipt.source_tree_sha256 ≡ tree_digest sha256 canonical stable_evidence_id repr files
    pub observed : Dict String
    pub release :
        lookup
          (release_name sha256 canonical stable_evidence_id repr bundle receipt.source_tree_sha256)
          root
        ≡ some (tree observed)
    pub unmodified :
        tree_digest sha256 canonical stable_evidence_id repr observed ≡ receipt.source_tree_sha256

  existing-IsApplied :
      (repository : Repository) (bundle : RepairBundle) (files observed : Dict String) (root : Root)
      (saved receipt : ApplicationReceipt)
      → IsApproved repository bundle
          (commit_of sha256 canonical stable_evidence_id repr bundle)
          files
      → lookup
          (release_name sha256 canonical stable_evidence_id repr bundle
            (tree_digest sha256 canonical stable_evidence_id repr files))
          root
        ≡ some (tree observed)
      → existing sha256 canonical stable_evidence_id repr bundle
          (tree_digest sha256 canonical stable_evidence_id repr files)
          saved
          observed
        ≡ ok receipt
      → IsApplied repository bundle receipt root
  unfolding existing
  existing-IsApplied repository bundle files observed root saved receipt approved there h =
      let commit = commit_of sha256 canonical stable_evidence_id repr bundle in
      let digest = tree_digest sha256 canonical stable_evidence_id repr files in
      let (u1, e1, h1) =
        >>=-eq-ok
          (raise_if
            (not (saved.bundle_id == bundle.bundle_id)
              || not (saved.commit_sha == commit)
              || not (saved.source_tree_sha256 == digest))
            _)
          _ h in
      let (u2, e2, h2) =
        >>=-eq-ok
          (raise_if (not (tree_digest sha256 canonical stable_evidence_id repr observed == digest))
            _)
          _ h1 in
      let same = ok_inj h2 in
      let of_commit =
        ap (λ (r : ApplicationReceipt). r.commit_sha) (sym same)
        ∙ (eq_iff saved.commit_sha commit).0 (ground (arith, e1)) in
      let of_digest =
        ap (λ (r : ApplicationReceipt). r.source_tree_sha256) (sym same)
        ∙ (eq_iff saved.source_tree_sha256 digest).0 (ground (arith, e1)) in
      record {
        bundle_id =
            ap (λ (r : ApplicationReceipt). r.bundle_id) (sym same)
            ∙ (eq_iff saved.bundle_id bundle.bundle_id).0 (ground (arith, e1));
        files = files;
        approved = rw of_commit approved;
        digest = of_digest;
        observed = observed;
        release = rw of_digest there;
        unmodified =
            (eq_iff (tree_digest sha256 canonical stable_evidence_id repr observed) digest).0
              (ground (arith, e2))
            ∙ sym of_digest;
      }

  placed-IsApplied :
      (repository : Repository) (bundle : RepairBundle) (files : Dict String) (now : ℕ)
      (root : Root) (saved release : Option Entry) (receipt : ApplicationReceipt)
      → IsApproved repository bundle
          (commit_of sha256 canonical stable_evidence_id repr bundle)
          files
      → lookup
          (release_name sha256 canonical stable_evidence_id repr bundle
            (tree_digest sha256 canonical stable_evidence_id repr files))
          root
        ≡ release
      → (placed sha256 canonical stable_evidence_id repr bundle files
          (tree_digest sha256 canonical stable_evidence_id repr files)
          now
          root
          saved
          release).0
        ≡ ok receipt
      → IsApplied repository bundle receipt
          (placed sha256 canonical stable_evidence_id repr bundle files
            (tree_digest sha256 canonical stable_evidence_id repr files)
            now
            root
            saved
            release).1
  placed-IsApplied repository bundle files now root (some (receipt_file x)) (some (tree observed))
        receipt a e h =
      existing-IsApplied repository bundle files observed root x receipt a e h
  placed-IsApplied repository bundle files now root none none receipt a e h =
      let digest = tree_digest sha256 canonical stable_evidence_id repr files in
      let fresh = new_receipt sha256 canonical stable_evidence_id repr bundle digest now in
      subst
        (λ r.
          IsApplied repository bundle r
            (released sha256 canonical stable_evidence_id repr bundle digest files fresh root))
        (ok_inj h)
        (record {
          bundle_id = refl;
          files = files;
          approved = a;
          digest = refl;
          observed = files;
          release =
              lookup_release sha256 canonical stable_evidence_id repr bundle digest files fresh
                root;
          unmodified = refl;
        })
  placed-IsApplied repository bundle files now root (some (tree x)) o receipt a e h = cc
  placed-IsApplied repository bundle files now root none (some x) receipt a e h = cc
  placed-IsApplied repository bundle files now root (some x) none receipt a e h = cc
  placed-IsApplied repository bundle files now root (some (refused_file x)) (some (receipt_file y))
        receipt a e h =
      cc
  placed-IsApplied repository bundle files now root (some (refused_file x)) (some (refused_file y))
        receipt a e h =
      cc
  placed-IsApplied repository bundle files now root (some (refused_file x)) (some (tree y)) receipt
        a e h =
      cc
  placed-IsApplied repository bundle files now root (some (receipt_file x)) (some (receipt_file y))
        receipt a e h =
      cc
  placed-IsApplied repository bundle files now root (some (receipt_file x)) (some (refused_file y))
        receipt a e h =
      cc

  -- When `apply` returns a receipt, the bundle is approved; the receipt is for it and for the commit
  -- that its approval and its verification name and that is checked out without changes; and the release
  -- that stands in the root has the receipt's digest, which is that of the files extracted from the
  -- commit's archive.
  pub apply-IsApplied :
      (repository : Repository) (bundle : RepairBundle) (now : ℕ) (root : Root)
      (receipt : ApplicationReceipt)
      → (apply sha256 canonical stable_evidence_id repr repository bundle now root).0 ≡ ok receipt
      → IsApplied repository bundle receipt
          (apply sha256 canonical stable_evidence_id repr repository bundle now root).1
  unfolding apply
  apply-IsApplied repository bundle now root receipt h =
      elim (Result-cases
        (approved_files sha256 canonical stable_evidence_id repr repository bundle)) [
          | inl (files, e) ↦ rw e (
              placed-IsApplied repository bundle files now root _ _ receipt
                (approved_files-IsApproved repository bundle files e) refl (rw e at h))
          | inr (raised, e) ↦ absurd (ground (arith, e, h))
        ]

  -- A receipt that `apply` returns and that says APPLIED passes every test of the attachment: what is
  -- left to decide is whether the applied bundle is valid.
  pub attach_application_receipt-apply :
      (digest : String → String) (repository : Repository) (bundle : RepairBundle) (now : ℕ)
      (root : Root) (receipt : ApplicationReceipt)
      → (apply sha256 canonical stable_evidence_id repr repository bundle now root).0 ≡ ok receipt
      → receipt.status ≡ "APPLIED"
      → attach_application_receipt digest bundle receipt
        ≡ make_bundle digest (applied_bundle bundle receipt)
  unfolding attach_application_receipt
  attach_application_receipt-apply digest repository bundle now root receipt h status =
      let done = apply-IsApplied repository bundle now root receipt h in
      let same_id = (eq_iff receipt.bundle_id bundle.bundle_id).1 done.bundle_id in
      let is_applied = (eq_iff receipt.status "APPLIED").1 status in
      rw (done.approved.approved, same_id, done.approved.signed, is_applied) refl
