-- ===== src/Custody/Inversion.antt =====
-- What each attachment of a receipt has tested when it returns, and the bundle that it returns.
use sciguard_autopilot.Base.{
  ◌≡◌, refl, sym, ap, subst, ◌∙◌, ◌⊎◌, if◌then◌else◌, inl, inr, String, true, Option, none, some,
  List, [], ◌∷◌, arith, ok, Bool-cases, Option-cases, eq_iff, ◌==◌,
}
use sciguard_autopilot.Base.Dict.{Dict, lookup, insert, lookup-insert, or_else}
use sciguard_autopilot.Base.Json.{Json, str, null, bool, num, frac, arr, obj}
use sciguard_autopilot.Repair.{
  RepairBundle, VerificationCheck, published, verified, approved, or_empty, make_bundle,
  evidence_closure,
}
use sciguard_autopilot.Publication.{ChangeReceipt, change_dump, attach_change_receipt}
use sciguard_autopilot.Verification.{
  VerificationReceipt, VerificationCheckReceipt, passes, verification_dump,
}
use sciguard_autopilot.Verification.Attaching.{
  attach_verification_receipt, text_is, verified_bundle, holds_text, texts_eq, matches_check,
  match_checks, declared_checks, declared_into, observed_checks, observed_into,
}
use sciguard_autopilot.Approval.{ApprovalReceipt, ApprovalAuthority, Hmac, verify, approval_dump}
use sciguard_autopilot.Approval.Attaching.{attach_approval_receipt, decided_bundle}
use sciguard_autopilot.Application.{
  ApplicationReceipt, applied_bundle, application_dump, attach_application_receipt,
}

pub make_bundle_same :
    (digest : String → String) (b b' : RepairBundle) → make_bundle digest b ≡ ok b' → b' ≡ b
unfolding make_bundle evidence_closure
make_bundle_same digest b b' h = ground arith

pub attach_change_receipt_lem :
    (digest : String → String) (b b' : RepairBundle) (r : ChangeReceipt)
    → attach_change_receipt digest b r ≡ ok b'
    → (r.bundle_id ≡ b.bundle_id)
      × (b' ≡ record b { status = published; external_action_receipt = some (change_dump r) })
unfolding attach_change_receipt
attach_change_receipt_lem digest b b' r h =
    (ground (arith, eq_iff r.bundle_id b.bundle_id), make_bundle_same digest _ b' (ground arith))

text_is→some : (o : Option Json) (s : String) → text_is o s ≡ true → o ≡ some (str s)
text_is→some none s h = cc
text_is→some (some (str t)) s h = ap (λ (u : String). some (str u)) ((eq_iff t s).0 h)
text_is→some (some null) s h = cc
text_is→some (some (bool x)) s h = cc
text_is→some (some (num x)) s h = cc
text_is→some (some (frac x y z)) s h = cc
text_is→some (some (arr x)) s h = cc
text_is→some (some (obj x)) s h = cc

pub holds_text-lookup :
    (key s : String) (d : Dict Json) → holds_text key s d ≡ true → lookup key d ≡ some (str s)
holds_text-lookup key s d h = text_is→some (lookup key d) s h

texts_eq→eq : (xs ys : List String) → texts_eq xs ys ≡ true → xs ≡ ys
texts_eq→eq [] [] h = refl
texts_eq→eq [] (y ∷ ys) h = cc
texts_eq→eq (x ∷ xs) [] h = cc
texts_eq→eq (x ∷ xs) (y ∷ ys) h = ground (arith, eq_iff x y, texts_eq→eq xs ys)

-- A declared check and what its run showed.
pub record Passed (expected : VerificationCheck) (actual : VerificationCheckReceipt) : Type 0 where
  pub status : passes actual.status ≡ true
  pub name : actual.name ≡ expected.name
  pub command : actual.declared_command ≡ expected.command
  pub evidence : actual.evidence_ids ≡ expected.evidence_ids

matches_check-Passed :
    (expected : VerificationCheck) (actual : VerificationCheckReceipt)
    → matches_check expected actual ≡ ok tt
    → Passed expected actual
matches_check-Passed expected actual h = record {
  status = ground arith;
  name = ground (arith, eq_iff actual.name expected.name);
  command = ground (arith, eq_iff actual.declared_command expected.command);
  evidence = texts_eq→eq actual.evidence_ids expected.evidence_ids (ground arith);
}

-- The last check that is declared under an ID: nothing makes the IDs of a bundle's checks unique.
abbrev pub last_declared : String → List VerificationCheck → Option VerificationCheck
last_declared id [] = none
last_declared id (c ∷ cs) =
    or_else (last_declared id cs) (if c.check_id == id then some c else none)

-- The receipt of a check is one of those in the list.
abbrev pub IsAmong : VerificationCheckReceipt → List VerificationCheckReceipt → Type 0
IsAmong r [] = ⊥
IsAmong r (c ∷ cs) = (c ≡ r) ⊎ IsAmong r cs

-- The last check declared under each ID is among the observed ones, and has passed as declared.
abbrev pub Covers : List VerificationCheck → List VerificationCheckReceipt → Type 0
Covers declared observed =
    (id : String) (expected : VerificationCheck)
    → last_declared id declared ≡ some expected
    → (actual : VerificationCheckReceipt) × IsAmong actual observed
      × (actual.check_id ≡ id)
      × Passed expected actual

lookup-declared_into :
    (id : String) (d : Dict VerificationCheck) (cs : List VerificationCheck)
    → lookup id (declared_into d cs) ≡ or_else (last_declared id cs) (lookup id d)
lookup-declared_into id d [] = refl
lookup-declared_into id d (c ∷ cs) =
    ground
      (arith, lookup-declared_into id (insert c.check_id c d) cs, lookup-insert c.check_id id c d)

lookup-observed_into :
    (id : String) (d : Dict VerificationCheckReceipt) (cs : List VerificationCheckReceipt)
    (r : VerificationCheckReceipt)
    → lookup id (observed_into d cs) ≡ some r
    → (IsAmong r cs × (r.check_id ≡ id)) ⊎ (lookup id d ≡ some r)
lookup-observed_into id d [] r h = inr h
lookup-observed_into id d (c ∷ cs) r h =
    elim (lookup-observed_into id (insert c.check_id c d) cs r h) [
      | inl (among, key) ↦ inl (inr among, key)
      | inr found ↦ elim (Bool-cases (c.check_id == id)) [
        | inl this ↦
            let same : c ≡ r = ground (arith, lookup-insert c.check_id id c d, this, found) in
            inl (
              inl same,
              ap (λ (x : VerificationCheckReceipt). x.check_id) (sym same)
                  ∙ (eq_iff c.check_id id).0 this,
            )
        | inr other ↦ inr (ground (arith, lookup-insert c.check_id id c d, other, found))
      ]
    ]

match_checks_covers :
    (declared : Dict VerificationCheck) (observed : Dict VerificationCheckReceipt)
    → match_checks declared observed ≡ ok tt
    → (id : String) (expected : VerificationCheck) → lookup id declared ≡ some expected
    → (actual : VerificationCheckReceipt) × (lookup id observed ≡ some actual)
      × Passed expected actual
match_checks_covers [] observed h id expected e = absurd (cc e)
match_checks_covers ((k, c) ∷ declared) observed h id expected e =
    elim (Option-cases (lookup k observed)) [
      | inl missing ↦ absurd (ground arith)
      | inr (actual, found) ↦ elim (Bool-cases (k == id)) [
        | inl this ↦
            let same : c ≡ expected = ground arith in
            let key : k ≡ id = (eq_iff k id).0 this in
            (
              actual,
              sym (ap (λ (x : String). lookup x observed) key) ∙ found,
              subst (λ x. Passed x actual) same (matches_check-Passed c actual (ground arith)),
            )
        | inr other ↦
            match_checks_covers declared observed (ground arith) id expected (ground arith)
      ]
    ]

match_checks-Covers :
    (declared : List VerificationCheck) (observed : List VerificationCheckReceipt)
    → match_checks (declared_checks declared) (observed_checks observed) ≡ ok tt
    → Covers declared observed
match_checks-Covers declared observed h id expected last =
    let listed : lookup id (declared_checks declared) ≡ some expected =
      lookup-declared_into id [] declared ∙ rw last refl in
    let (actual, found, passed) =
      match_checks_covers (declared_checks declared) (observed_checks observed) h id expected
        listed in
    elim (lookup-observed_into id [] observed actual found) [
      | inl (among, key) ↦ (actual, among, key, passed)
      | inr none_there ↦ absurd (cc none_there)
    ]

-- The bundle has been verified by the receipt.
pub record VerifiedBy (b : RepairBundle) (r : VerificationReceipt) : Type 0 where
  pub same_bundle : r.bundle_id ≡ b.bundle_id
  pub passed : passes r.status ≡ true
  pub commit : lookup "commit_sha" (or_empty b.external_action_receipt) ≡ some (str r.commit_sha)
  pub repository :
      lookup "repository" (or_empty b.external_action_receipt) ≡ some (str r.repository)
  pub branch : lookup "branch" (or_empty b.external_action_receipt) ≡ some (str r.branch)
  pub covers : Covers b.verification_checks r.checks
  pub kept : b.verification_receipt ≡ some (verification_dump r)

pub attach_verification_receipt-VerifiedBy :
    (digest : String → String) (b b' : RepairBundle) (r : VerificationReceipt)
    → attach_verification_receipt digest b r ≡ ok b'
    → (b' ≡ verified_bundle b r) × VerifiedBy (verified_bundle b r) r
unfolding attach_verification_receipt
attach_verification_receipt-VerifiedBy digest b b' r h =
    let external = or_empty b.external_action_receipt in
    (
      make_bundle_same digest (verified_bundle b r) b' (ground arith),
      record {
        same_bundle = ground (arith, eq_iff r.bundle_id b.bundle_id);
        passed = ground arith;
        commit = holds_text-lookup "commit_sha" r.commit_sha external (ground arith);
        repository = holds_text-lookup "repository" r.repository external (ground arith);
        branch = holds_text-lookup "branch" r.branch external (ground arith);
        covers = match_checks-Covers b.verification_checks r.checks (ground arith);
        kept = refl;
      },
    )

-- The bundle carries a decision that the authority signed for its accountable approver.
pub record SignedBy (hmac : Hmac) (authority : ApprovalAuthority) (b : RepairBundle)
    (a : ApprovalReceipt) : Type 0 where
  pub signed : verify hmac authority a ≡ ok true
  pub same_bundle : a.bundle_id ≡ b.bundle_id
  pub receipt :
      lookup "receipt_id" (or_empty b.verification_receipt) ≡ some (str a.verification_receipt_id)
  pub commit : lookup "commit_sha" (or_empty b.verification_receipt) ≡ some (str a.commit_sha)
  pub accountable : a.approver_urn ≡ b.approval.approver_urn
  pub kept : b.approval_receipt ≡ some (approval_dump a)

pub attach_approval_receipt-SignedBy :
    (digest : String → String) (hmac : Hmac) (b b' : RepairBundle) (a : ApprovalReceipt)
    (authority : ApprovalAuthority)
    → attach_approval_receipt digest hmac b a authority ≡ ok b'
    → (b.status ≡ verified)
      × (b' ≡ decided_bundle b a)
      × SignedBy hmac authority (decided_bundle b a) a
unfolding attach_approval_receipt
attach_approval_receipt-SignedBy digest hmac b b' a authority h = (
  ground arith,
  make_bundle_same digest (decided_bundle b a) b' (ground arith),
  record {
    signed = ground arith;
    same_bundle = ground (arith, eq_iff a.bundle_id b.bundle_id);
    receipt =
        holds_text-lookup "receipt_id" a.verification_receipt_id (or_empty b.verification_receipt)
          (ground arith);
    commit =
        holds_text-lookup "commit_sha" a.commit_sha (or_empty b.verification_receipt)
          (ground arith);
    accountable = ground (arith, eq_iff a.approver_urn b.approval.approver_urn);
    kept = refl;
  },
)

-- The bundle has been applied at the commit that was approved.
pub record AppliedBy (b : RepairBundle) (r : ApplicationReceipt) : Type 0 where
  pub same_bundle : r.bundle_id ≡ b.bundle_id
  pub commit : lookup "commit_sha" (or_empty b.approval_receipt) ≡ some (str r.commit_sha)
  pub observed : r.status ≡ "APPLIED"
  pub kept : b.application_receipt ≡ some (application_dump r)

pub attach_application_receipt-AppliedBy :
    (digest : String → String) (b b' : RepairBundle) (r : ApplicationReceipt)
    → attach_application_receipt digest b r ≡ ok b'
    → (b.status ≡ approved) × (b' ≡ applied_bundle b r) × AppliedBy (applied_bundle b r) r
unfolding attach_application_receipt
attach_application_receipt-AppliedBy digest b b' r h = (
  ground arith,
  make_bundle_same digest (applied_bundle b r) b' (ground arith),
  record {
    same_bundle = ground (arith, eq_iff r.bundle_id b.bundle_id);
    commit =
        holds_text-lookup "commit_sha" r.commit_sha (or_empty b.approval_receipt) (ground arith);
    observed = ground (arith, eq_iff r.status "APPLIED");
    kept = refl;
  },
)
