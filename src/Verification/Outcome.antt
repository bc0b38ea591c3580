-- ===== src/Verification/Outcome.antt =====
-- What a receipt of `LocalVerificationEngine` in core/verification.py shows, and that
-- `attach_verification_receipt` accepts it exactly if every check passed.
use sciguard_autopilot.Base.{
  ◌≡◌, refl, sym, ap, subst, ◌∙◌, inl, inr, String, Bool, true, false, some, List, [], ◌∷◌, arith,
  all, Bool-cases, ok, err, value_error, eq_iff, eq_refl, if◌then◌else◌, ◌==◌,
}
use sciguard_autopilot.Base.Raising.{>>=-eq-ok}
use sciguard_autopilot.Base.Dict.{lookup, keys}
use sciguard_autopilot.Base.Json.{Json, str}
use sciguard_autopilot.Publication.{ChangeReceipt, change_dump}
use sciguard_autopilot.Repair.{
  RepairBundle, VerificationCheck, subset, make_bundle, evidence_closure, is_published, or_empty,
}
use sciguard_autopilot.Verification.{
  VerificationReceipt, VerificationCheckReceipt, passes, overall, is_zero,
  make_verification_receipt,
}
use sciguard_autopilot.Verification.Attaching.{
  is_provider, expected_provider, attach_verification_receipt, verified_bundle, holds_text,
  texts_eq, matches_check, match_checks, declared_checks, observed_checks,
}
use sciguard_autopilot.Repair.Valid.{make_bundle_parts}
use sciguard_autopilot.Verification.Alignment.{Pairwise, Pairwise-matched}
use sciguard_autopilot.Verification.Trusted.{Ran, AllRan, run_checks-AllRan}
use sciguard_autopilot.Verification.Local.{
  Machine, run_checks, verify_locally, local_receipt, checked_out, verifiable,
}

texts_eq_refl : (xs : List String) → texts_eq xs xs ≡ true
texts_eq_refl [] = refl
texts_eq_refl (x ∷ xs) = ground (arith, eq_refl x, texts_eq_refl xs)

Ran-matches :
    (machine : Machine) (c : VerificationCheck) (r : VerificationCheckReceipt)
    → Ran machine c r
    → passes r.status ≡ true
    → matches_check c r ≡ ok tt
Ran-matches machine c r ran h = ground (
  arith,
  h,
  eq_iff r.name c.name,
  eq_iff r.declared_command c.command,
  ran.name,
  ran.command,
  ap (texts_eq r.evidence_ids) (sym ran.evidence) ∙ texts_eq_refl r.evidence_ids,
)

AllRan-Pairwise :
    (machine : Machine) (cs : List VerificationCheck) (rs : List VerificationCheckReceipt)
    → AllRan machine cs rs
    → all (λ (r : VerificationCheckReceipt). passes r.status) rs ≡ true
    → Pairwise cs rs
AllRan-Pairwise machine [] [] ran h = tt
AllRan-Pairwise machine [] (r ∷ rs) ran h = absurd ran
AllRan-Pairwise machine (c ∷ cs) [] ran h = absurd ran
AllRan-Pairwise machine (c ∷ cs) (r ∷ rs) ran h = (
  sym ran.0.check_id,
  Ran-matches machine c r ran.0 (ground arith),
  AllRan-Pairwise machine cs rs ran.1 (ground arith),
)

make_verification_receipt_same :
    (r r' : VerificationReceipt) → make_verification_receipt r ≡ ok r' → r' ≡ r
unfolding make_verification_receipt
make_verification_receipt_same r r' h = ground arith

local_provider :
    (p : String)
    → p ≡ "LOCAL_GIT"
    → is_provider (expected_provider (some (str p))) "LOCAL_PROCESS" ≡ true
local_provider p e = rw e refl

make_bundle-verified_bundle :
    (digest : String → String) (b c : RepairBundle) (r : VerificationReceipt)
    → make_bundle digest b ≡ ok c
    → make_bundle digest (verified_bundle b r) ≡ ok (verified_bundle b r)
unfolding make_bundle evidence_closure
make_bundle-verified_bundle digest b c r h =
    let (artifacts, checks, within, apart) = make_bundle_parts digest b c h in
    rw (artifacts, checks, within, apart) refl

-- The attachment, once each of its tests has come out well.
attach_tested :
    (digest : String → String) (b : RepairBundle) (r : VerificationReceipt)
    → is_published b.status ≡ true
    → (r.bundle_id == b.bundle_id) ≡ true
    → passes r.status ≡ true
    → holds_text "commit_sha" r.commit_sha (or_empty b.external_action_receipt) ≡ true
    → holds_text "repository" r.repository (or_empty b.external_action_receipt) ≡ true
    → holds_text "branch" r.branch (or_empty b.external_action_receipt) ≡ true
    → is_provider
        (expected_provider (lookup "provider" (or_empty b.external_action_receipt)))
        r.provider
      ≡ true
    → (keys (observed_checks r.checks) ≡ keys (declared_checks b.verification_checks))
      × (subset
            (keys (declared_checks b.verification_checks))
            (keys (declared_checks b.verification_checks))
          ≡ true)
      × (match_checks (declared_checks b.verification_checks) (observed_checks r.checks) ≡ ok tt)
    → attach_verification_receipt digest b r ≡ make_bundle digest (verified_bundle b r)
unfolding attach_verification_receipt
attach_tested digest b r status bundle passed commit repository branch provider
      (same, covered, matched) =
    rw (status, bundle, passed, commit, repository, branch, provider, same, covered, matched) refl

attach_failed :
    (digest : String → String) (b : RepairBundle) (r : VerificationReceipt)
    → is_published b.status ≡ true
    → (r.bundle_id == b.bundle_id) ≡ true
    → passes r.status ≡ false
    → attach_verification_receipt digest b r
      ≡ err (value_error "a failed verification receipt cannot unlock approval")
unfolding attach_verification_receipt
attach_failed digest b r status bundle failed = rw (status, bundle, failed) refl

passes_exit_codes :
    (machine : Machine) (cs : List VerificationCheck) (rs : List VerificationCheckReceipt)
    → AllRan machine cs rs
    → all (λ (r : VerificationCheckReceipt). passes r.status) rs
      ≡ all (λ (r : VerificationCheckReceipt). is_zero r.exit_code) rs
passes_exit_codes machine [] [] ran = refl
passes_exit_codes machine [] (r ∷ rs) ran = absurd ran
passes_exit_codes machine (c ∷ cs) [] ran = absurd ran
passes_exit_codes machine (c ∷ cs) (r ∷ rs) ran =
    rw (ran.0.status, ran.0.exit_code, passes_exit_codes machine cs rs ran.1) refl

passes-overall :
    (rs : List VerificationCheckReceipt)
    → passes (overall rs) ≡ all (λ (r : VerificationCheckReceipt). passes r.status) rs
passes-overall rs = ground arith

module _ (digest : String → String) (digest_json : Json → String)
    (stable_evidence_id : String → Json → String) where
  verify_locally_lem :
      (machine : Machine) (b : RepairBundle) (change : ChangeReceipt) (r : VerificationReceipt)
      → verify_locally digest digest_json stable_evidence_id machine b change ≡ ok r
      → (change.provider ≡ "LOCAL_GIT")
        × (receipts : List VerificationCheckReceipt) × (run_checks digest digest_json machine
              b.verification_checks
            ≡ ok receipts)
        × (r ≡ local_receipt digest digest_json stable_evidence_id machine b change receipts)
  unfolding verify_locally
  verify_locally_lem machine b change r h =
      let (done, allowed, h1) = >>=-eq-ok (verifiable digest digest_json machine b change) _ h in
      let (receipts, ran, h2) = >>=-eq-ok (checked_out digest digest_json machine b change) _ h1 in
      (
        ground (arith, eq_iff change.provider "LOCAL_GIT"),
        receipts,
        ground (arith, ran),
        make_verification_receipt_same
            (local_receipt digest digest_json stable_evidence_id machine b change receipts) r h2,
      )

  attach_passed :
      (machine : Machine) (b : RepairBundle) (change : ChangeReceipt)
      (receipts : List VerificationCheckReceipt)
      → make_bundle digest b ≡ ok b
      → is_published b.status ≡ true
      → b.external_action_receipt ≡ some (change_dump change)
      → machine.resolve change.repository ≡ change.repository
      → change.provider ≡ "LOCAL_GIT"
      → AllRan machine b.verification_checks receipts
      → passes (overall receipts) ≡ true
      → attach_verification_receipt digest b
          (local_receipt digest digest_json stable_evidence_id machine b change receipts)
        ≡ ok (
            verified_bundle b
              (local_receipt digest digest_json stable_evidence_id machine b change receipts))
  attach_passed machine b change receipts valid status external resolved provider ran good =
      let pairs =
        AllRan-Pairwise machine b.verification_checks receipts ran
          (sym (passes-overall receipts) ∙ good) in
      let r = local_receipt digest digest_json stable_evidence_id machine b change receipts in
      attach_tested digest b r status (eq_refl b.bundle_id) good
        (rw external (eq_refl change.commit_sha))
        (rw external (rw resolved (eq_refl change.repository)))
        (rw external (eq_refl change.branch))
        (rw external (local_provider change.provider provider))
        (Pairwise-matched b.verification_checks receipts pairs)
      ∙ make_bundle-verified_bundle digest b b r valid

  -- When a published, valid bundle carries the receipt of a publication to a repository whose path is
  -- resolved, and the local engine returns a verification receipt for it: every check of the receipt
  -- was run as `python -m pytest -q` on an existing file below tests/, in the order of the declared
  -- checks, and shows the exit code of that run; the receipt passes exactly if all exit codes are 0;
  -- and then `attach_verification_receipt` returns the verified bundle, while it refuses a receipt
  -- that does not pass.
  pub attach_verification_receipt-verify_locally :
      (machine : Machine) (b : RepairBundle) (change : ChangeReceipt) (r : VerificationReceipt)
      → make_bundle digest b ≡ ok b
      → is_published b.status ≡ true
      → b.external_action_receipt ≡ some (change_dump change)
      → machine.resolve change.repository ≡ change.repository
      → verify_locally digest digest_json stable_evidence_id machine b change ≡ ok r
      → AllRan machine b.verification_checks r.checks
        × (passes r.status ≡ all (λ (c : VerificationCheckReceipt). is_zero c.exit_code) r.checks)
        × (attach_verification_receipt digest b r ≡ (
            if passes r.status
            then ok (verified_bundle b r)
            else err (value_error "a failed verification receipt cannot unlock approval")))
  attach_verification_receipt-verify_locally machine b change r valid status external resolved h =
      let (provider, receipts, ran, made) = verify_locally_lem machine b change r h in
      let all_ran =
        run_checks-AllRan digest digest_json machine b.verification_checks receipts ran in
      let codes =
        passes-overall receipts
        ∙ passes_exit_codes machine b.verification_checks receipts all_ran in
      let receipt = local_receipt digest digest_json stable_evidence_id machine b change receipts in
      subst
        (λ (x : VerificationReceipt).
          AllRan machine b.verification_checks x.checks
          × (passes x.status ≡ all (λ (c : VerificationCheckReceipt). is_zero c.exit_code) x.checks)
          × (attach_verification_receipt digest b x ≡ (
              if passes x.status
              then ok (verified_bundle b x)
              else err (value_error "a failed verification receipt cannot unlock approval"))))
        (sym made)
        (
          all_ran,
          codes,
          elim (Bool-cases (passes (overall receipts))) [
            | inl good ↦
                attach_passed machine b change receipts valid status external resolved provider
                  all_ran good
                ∙ ap {A = Bool}
                    (λ x.
                      if x
                      then ok (verified_bundle b receipt)
                      else err (value_error "a failed verification receipt cannot unlock approval"))
                    (sym good)
            | inr bad ↦
                attach_failed digest b receipt status (eq_refl b.bundle_id) bad
                ∙ ap {A = Bool}
                    (λ x.
                      if x
                      then ok (verified_bundle b receipt)
                      else err (value_error "a failed verification receipt cannot unlock approval"))
                    (sym bad)
          ],
        )
