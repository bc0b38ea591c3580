-- ===== src/Repair/Valid.antt =====
-- What the validators of core/repair.py have tested when a bundle passes them.
use sciguard_autopilot.Base.{◌≡◌, String, true, false, arith, ok}
use sciguard_autopilot.Repair.{
  RepairBundle, make_bundle, evidence_closure, each, make_artifact, make_check, referenced, subset,
  overlaps,
}

pub make_bundle_parts :
    (digest : String → String) (b c : RepairBundle)
    → make_bundle digest b ≡ ok c
    → (each (make_artifact digest) b.artifacts ≡ ok tt)
      × (each make_check b.verification_checks ≡ ok tt)
      × (subset (referenced b) b.evidence_ids ≡ true)
      × (overlaps b.affected_urns b.preserved_urns ≡ false)
unfolding make_bundle evidence_closure
make_bundle_parts digest b c h = (ground arith, ground arith, ground arith, ground arith)
