-- ===== src/Verification/Attaching.antt =====
-- `attach_verification_receipt` of core/verification.py.
use sciguard_autopilot.Base.{
  String, Bool, true, false, not, ◌&&◌, Option, none, some, List, [], ◌∷◌, if◌then◌else◌,
  value_error, key_error, Result, ok, ◌==◌,
}
use sciguard_autopilot.Base.Raising.{◌>>=◌, ◌>>◌, raise_if, or_raise}
use sciguard_autopilot.Base.Dict.{Dict, lookup, insert, keys}
use sciguard_autopilot.Base.Json.{Json, str}
use sciguard_autopilot.Repair.{
  RepairBundle, VerificationCheck, verified, is_published, or_empty, subset, make_bundle,
}
use sciguard_autopilot.Verification.{
  VerificationReceipt, VerificationCheckReceipt, passes, verification_dump,
}

abbrev pub text_is : Option Json → String → Bool
text_is (some (str t)) s = t == s
text_is _ s = false

-- `d.get(key) == text`
abbrev pub holds_text : String → String → Dict Json → Bool
holds_text key s d = text_is (lookup key d) s

-- the provider that may verify a publication, by the publication's own provider
abbrev pub expected_provider : Option Json → Option String
expected_provider (some (str p)) =
    if p == "GITHUB"
    then some "GITHUB_CHECK_RUNS"
    else if p == "LOCAL_GIT"
    then some "LOCAL_PROCESS"
    else none
expected_provider _ = none

abbrev pub is_provider : Option String → String → Bool
is_provider none p = false
is_provider (some q) p = p == q

abbrev pub declared_into : Dict VerificationCheck → List VerificationCheck → Dict VerificationCheck
declared_into d [] = d
declared_into d (c ∷ cs) = declared_into (insert c.check_id c d) cs

-- `{check.check_id: check for check in bundle.verification_checks}`
abbrev pub declared_checks : List VerificationCheck → Dict VerificationCheck
declared_checks = declared_into []

abbrev pub observed_into :
    Dict VerificationCheckReceipt → List VerificationCheckReceipt → Dict VerificationCheckReceipt
observed_into d [] = d
observed_into d (c ∷ cs) = observed_into (insert c.check_id c d) cs

abbrev pub observed_checks : List VerificationCheckReceipt → Dict VerificationCheckReceipt
observed_checks = observed_into []

abbrev pub texts_eq : List String → List String → Bool
texts_eq [] [] = true
texts_eq (x ∷ xs) (y ∷ ys) = x == y && texts_eq xs ys
texts_eq _ _ = false

abbrev pub matches_check : VerificationCheck → VerificationCheckReceipt → Result (Unit {0})
matches_check expected actual = do
  raise_if (not (passes actual.status)) (value_error "verification check did not pass")
  raise_if (not (actual.name == expected.name)) (value_error "verification check name changed")
  raise_if (not (actual.declared_command == expected.command))
      (value_error "verification command changed")
  raise_if (not (texts_eq actual.evidence_ids expected.evidence_ids))
      (value_error "verification evidence changed")

-- the loop over the declared checks
abbrev pub match_checks : Dict VerificationCheck → Dict VerificationCheckReceipt → Result (Unit {0})
match_checks [] observed = ok tt
match_checks ((check_id, expected) ∷ declared) observed = do
  actual ← or_raise (lookup check_id observed) (key_error "check_id")
  matches_check expected actual
  match_checks declared observed

abbrev pub verified_bundle : RepairBundle → VerificationReceipt → RepairBundle
verified_bundle bundle receipt = record bundle {
  status = verified;
  verification_receipt = some (verification_dump receipt);
}

unfoldable pub attach_verification_receipt :
    (String → String) → RepairBundle → VerificationReceipt → Result RepairBundle
unfolding make_bundle
attach_verification_receipt digest bundle receipt = do
  raise_if (not (is_published bundle.status))
      (value_error "only a published bundle can receive verification")
  raise_if (not (receipt.bundle_id == bundle.bundle_id))
      (value_error "verification receipt does not belong to this repair bundle")
  raise_if (not (passes receipt.status))
      (value_error "a failed verification receipt cannot unlock approval")
  let external = or_empty bundle.external_action_receipt
  raise_if (not (holds_text "commit_sha" receipt.commit_sha external))
      (value_error "verification receipt commit does not match publication")
  raise_if (not (holds_text "repository" receipt.repository external))
      (value_error "verification receipt repository does not match publication")
  raise_if (not (holds_text "branch" receipt.branch external))
      (value_error "verification receipt branch does not match publication")
  raise_if (not (is_provider (expected_provider (lookup "provider" external)) receipt.provider))
      (value_error "verification provider does not match the publication provider")
  let declared = declared_checks bundle.verification_checks
  let observed = observed_checks receipt.checks
  raise_if (not (subset (keys declared) (keys observed) && subset (keys observed) (keys declared)))
      (value_error "verification receipt must cover exactly the declared check IDs")
  match_checks declared observed
  make_bundle digest (verified_bundle bundle receipt)
