-- ===== src/Application/Again.antt =====
-- Applying an approved bundle again (LocalStagingApplicator.apply of core/application.py): the receipt
-- that is there is returned, and nothing is written.
use Prim.Native.String.{count, ◌++◌ as concat}
use text.Mathlib.TextLemmas.{length-append}
use text.Mathlib.TextPositions.{eq_refl}
use sciguard_autopilot.Base.{
  ℕ, ◌≡◌, refl, ap, inl, inr, String, false, Option, none, some, arith, Bool-cases, eq_iff, ok,
  ◌==◌,
}
use sciguard_autopilot.Base.Raising.{Result-cases}
use sciguard_autopilot.Base.Dict.{Dict, lookup, insert, lookup-insert}
use sciguard_autopilot.Base.Json.{Json}
use sciguard_autopilot.Repair.{RepairBundle}
use sciguard_autopilot.Application.{ApplicationReceipt}
use sciguard_autopilot.Application.Staging.{
  Repository, Entry, receipt_file, refused_file, tree, Root, tree_digest, commit_of, release_name,
  receipt_name, new_receipt, approved_files, existing, released, placed, apply,
}

-- The name of the receipt is not the name of the release.
names_differ : (s : String) → (concat s ".json" == s) ≡ false
names_differ s = elim (Bool-cases (concat s ".json" == s)) [
  | inl same ↦
      let longer = length-append s ".json" in
      let equal = ap count ((eq_iff (concat s ".json") s).0 same) in
      absurd (omega (arith, longer, equal))
  | inr differ ↦ differ
]

module _ (sha256 : String → String) (canonical : Json → String)
    (stable_evidence_id : String → Json → String) (repr : Json → String) where
  existing_new :
      (bundle : RepairBundle) (files : Dict String) (now : ℕ)
      → let digest = tree_digest sha256 canonical stable_evidence_id repr files in
        let receipt = new_receipt sha256 canonical stable_evidence_id repr bundle digest now in
        existing sha256 canonical stable_evidence_id repr bundle digest receipt files ≡ ok receipt
  unfolding existing
  existing_new bundle files now =
      rw
        (
          eq_refl bundle.bundle_id,
          eq_refl (commit_of sha256 canonical stable_evidence_id repr bundle),
          eq_refl (tree_digest sha256 canonical stable_evidence_id repr files),
        )
        refl

  lookup_receipt :
      (bundle : RepairBundle) (digest : String) (files : Dict String) (receipt : ApplicationReceipt)
      (root : Root)
      → lookup
          (receipt_name sha256 canonical stable_evidence_id repr bundle digest)
          (released sha256 canonical stable_evidence_id repr bundle digest files receipt root)
        ≡ some (receipt_file receipt)
  lookup_receipt bundle digest files receipt root =
      let name = receipt_name sha256 canonical stable_evidence_id repr bundle digest in
      rw
        (
          lookup-insert name name (receipt_file receipt) (
              insert (release_name sha256 canonical stable_evidence_id repr bundle digest)
                (tree files) root),
          eq_refl name,
        )
        refl

  pub lookup_release :
      (bundle : RepairBundle) (digest : String) (files : Dict String) (receipt : ApplicationReceipt)
      (root : Root)
      → lookup
          (release_name sha256 canonical stable_evidence_id repr bundle digest)
          (released sha256 canonical stable_evidence_id repr bundle digest files receipt root)
        ≡ some (tree files)
  lookup_release bundle digest files receipt root =
      let release = release_name sha256 canonical stable_evidence_id repr bundle digest in
      rw
        (
          lookup-insert (receipt_name sha256 canonical stable_evidence_id repr bundle digest)
              release (receipt_file receipt) (insert release (tree files) root),
          names_differ release,
          lookup-insert release release (tree files) root,
          eq_refl release,
        )
        refl

  placed-again :
      (bundle : RepairBundle) (files : Dict String) (now later : ℕ) (root : Root)
      (saved release : Option Entry) (receipt : ApplicationReceipt)
      → let digest = tree_digest sha256 canonical stable_evidence_id repr files in
        let after =
          placed sha256 canonical stable_evidence_id repr bundle files digest now root saved
            release in
        (lookup (receipt_name sha256 canonical stable_evidence_id repr bundle digest) root ≡ saved)
        → (lookup (release_name sha256 canonical stable_evidence_id repr bundle digest) root
            ≡ release)
        → after.0 ≡ ok receipt
        → placed sha256 canonical stable_evidence_id repr bundle files digest later after.1
            (lookup (receipt_name sha256 canonical stable_evidence_id repr bundle digest) after.1)
            (lookup (release_name sha256 canonical stable_evidence_id repr bundle digest) after.1)
          ≡ (ok receipt, after.1)
  placed-again bundle files now later root (some (receipt_file x)) (some (tree observed)) receipt e1
        e2 h =
      rw (e1, e2, h) refl
  placed-again bundle files now later root none none receipt e1 e2 h =
      let digest = tree_digest sha256 canonical stable_evidence_id repr files in
      let fresh = new_receipt sha256 canonical stable_evidence_id repr bundle digest now in
      rw
        (
          lookup_receipt bundle digest files fresh root,
          lookup_release bundle digest files fresh root,
          existing_new bundle files now,
          h,
        )
        refl
  placed-again bundle files now later root (some (tree x)) o receipt e1 e2 h = cc
  placed-again bundle files now later root none (some x) receipt e1 e2 h = cc
  placed-again bundle files now later root (some x) none receipt e1 e2 h = cc
  placed-again bundle files now later root (some (refused_file x)) (some (receipt_file y)) receipt
        e1 e2 h =
      cc
  placed-again bundle files now later root (some (refused_file x)) (some (refused_file y)) receipt
        e1 e2 h =
      cc
  placed-again bundle files now later root (some (refused_file x)) (some (tree y)) receipt e1 e2 h =
      cc
  placed-again bundle files now later root (some (receipt_file x)) (some (receipt_file y)) receipt
        e1 e2 h =
      cc
  placed-again bundle files now later root (some (receipt_file x)) (some (refused_file y)) receipt
        e1 e2 h =
      cc

  -- When `apply` returns a receipt, applying the same bundle from the same repository to the root that
  -- it left returns that receipt, at whatever time, and leaves that root as it is.
  pub apply-apply :
      (repository : Repository) (bundle : RepairBundle) (now later : ℕ) (root : Root)
      (receipt : ApplicationReceipt)
      → (apply sha256 canonical stable_evidence_id repr repository bundle now root).0 ≡ ok receipt
      → apply sha256 canonical stable_evidence_id repr repository bundle later
          (apply sha256 canonical stable_evidence_id repr repository bundle now root).1
        ≡ (
          ok receipt,
          (apply sha256 canonical stable_evidence_id repr repository bundle now root).1,
        )
  unfolding apply
  apply-apply repository bundle now later root receipt h =
      elim (Result-cases
        (approved_files sha256 canonical stable_evidence_id repr repository bundle)) [
          | inl (files, e) ↦
              rw e (placed-again bundle files now later root _ _ receipt refl refl (rw e at h))
          | inr (raised, e) ↦ absurd (ground (arith, e, h))
        ]
