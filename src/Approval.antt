-- ===== src/Approval.antt =====
-- core/approval.py: the signed decision on a verified bundle. The HMAC of a JSON value under a key
-- is the parameter `hmac`, the content-derived ID of core/events.py is `evidence_id`, and `repr` is
-- Python's text of an array or an object. An instant stands as its number.
pub mod Attaching
pub mod RoundTrip
use Prim.Native.Char.{Char, code}
use Prim.Native.String.{[] as no_text, ◌∷◌ as put_before, count}
use sciguard_autopilot.Base.{
  ℕ, ◌≡◌, String, Bool, true, false, not, ◌&&◌, ◌||◌, Option, none, some, List, [], ◌∷◌, ◌++◌,
  length, ltb, leb, dedupe, if◌then◌else◌, value_error, runtime_error, type_error, Result, ok, err,
  ◌==◌,
}
use sciguard_autopilot.Base.Raising.{◌>>=◌, ◌>>◌, raise_if}
use sciguard_autopilot.Base.Dict.{Dict, lookup}
use sciguard_autopilot.Base.Texts.{is_empty, strip, decimal}
use sciguard_autopilot.Base.Json.{
  Json, Fields, end, field, null, bool, num, frac, str, arr, obj, str_array,
}
use sciguard_autopilot.Investigation.{to_fields}
use sciguard_autopilot.Repair.{RepairBundle, is_verified, or_empty}
use sciguard_autopilot.Verification.Attaching.{holds_text}

pub data ApprovalDecision : Type 0 where
  approve reject : ApprovalDecision

abbrev pub approval_value : ApprovalDecision → String
approval_value approve = "APPROVE"
approval_value reject = "REJECT"

pub record ApprovalReceipt : Type 0 where
  pub receipt_id : String
  pub bundle_id : String
  pub verification_receipt_id : String
  pub commit_sha : String
  pub approver_urn : String
  pub expected_approver_urn : String
  pub decision : ApprovalDecision
  pub note : String
  pub identity_provider : String
  pub identity_assurance : String
  pub production_authorized : Bool
  pub signing_key_id : String
  pub created_at : ℕ
  pub evidence_ids : List String
  pub signature_sha256 : String

-- `ApprovalReceipt(...)`: the bounds of the note
unfoldable pub make_approval_receipt : ApprovalReceipt → Result ApprovalReceipt
make_approval_receipt r = do
  raise_if (ltb (count r.note) 8) (value_error "note should have at least 8 characters")
  raise_if (ltb 1000 (count r.note)) (value_error "note should have at most 1000 characters")
  ok r

-- `receipt.model_dump(exclude={"signature_sha256"})`
abbrev pub unsigned_dump : ApprovalReceipt → Dict Json
unsigned_dump r =
    ("receipt_id", str r.receipt_id)
    ∷ ("bundle_id", str r.bundle_id)
    ∷ ("verification_receipt_id", str r.verification_receipt_id)
    ∷ ("commit_sha", str r.commit_sha)
    ∷ ("approver_urn", str r.approver_urn)
    ∷ ("expected_approver_urn", str r.expected_approver_urn)
    ∷ ("decision", str (approval_value r.decision))
    ∷ ("note", str r.note)
    ∷ ("identity_provider", str r.identity_provider)
    ∷ ("identity_assurance", str r.identity_assurance)
    ∷ ("production_authorized", bool r.production_authorized)
    ∷ ("signing_key_id", str r.signing_key_id)
    ∷ ("created_at", num r.created_at)
    ∷ ("evidence_ids", str_array r.evidence_ids)
    ∷ []

abbrev pub approval_dump : ApprovalReceipt → Dict Json
approval_dump r = unsigned_dump r ++ ("signature_sha256", str r.signature_sha256) ∷ []

-- `_signature_payload`, before it is written as a canonical text
abbrev pub signature_payload : ApprovalReceipt → Json
signature_payload r = obj (to_fields (unsigned_dump r))

pub record ApprovalAuthority : Type 0 where
  pub signing_key : List ℕ
  pub key_id : String
  pub identity_provider : String
  pub identity_assurance : String
  pub production_authorized : Bool

-- `ApprovalAuthority.__init__`
unfoldable pub make_authority : ApprovalAuthority → Result ApprovalAuthority
make_authority a = do
  raise_if (ltb (length a.signing_key) 32)
      (value_error "approval signing key must contain at least 32 bytes")
  ok a

-- `hmac.compare_digest` of two texts, which refuses what is not ASCII
abbrev pub is_ascii : String → Bool
is_ascii no_text = true
is_ascii (put_before c s) = ltb (code c) 128 && is_ascii s

abbrev pub compare_digest : String → String → Result Bool
compare_digest s t =
    if is_ascii s && is_ascii t
    then ok (s == t)
    else err (type_error "comparing strings with non-ASCII characters is not supported")

-- The key, and what it signs.
abbrev pub Hmac : Type 0
Hmac = List ℕ → Json → String

module _ (hmac : Hmac) where
  -- `ApprovalAuthority.verify`
  unfoldable pub verify : ApprovalAuthority → ApprovalReceipt → Result Bool
  verify authority receipt =
      if not (receipt.signing_key_id == authority.key_id)
      then ok false
      else compare_digest (hmac authority.signing_key (signature_payload receipt))
          receipt.signature_sha256

module _ (repr : Json → String) where
  -- `str(value)`
  abbrev pub str_of : Json → String
  str_of null = "None"
  str_of (bool true) = "True"
  str_of (bool false) = "False"
  str_of (num n) = decimal n ""
  str_of (frac b m k) = repr (frac b m k)
  str_of (str s) = s
  str_of (arr js) = repr (arr js)
  str_of (obj fs) = repr (obj fs)

  -- `str(d.get(key, ""))`
  abbrev pub str_at : String → Dict Json → String
  str_at key d = elim (lookup key d) [ none ↦ "" | some j ↦ str_of j ]

-- `"0" * 64`
abbrev pub unsigned_mark : String
unsigned_mark = "0000000000000000000000000000000000000000000000000000000000000000"

-- What a reviewer decides.
pub record Review : Type 0 where
  pub authenticated_approver_urn : String
  pub decision : ApprovalDecision
  pub note : String

module _ (evidence_id : String → Json → String) where
  abbrev pub approval_identity : String → String → String → Review → ℕ → Json
  approval_identity bundle_id verification_id commit_sha review now = obj (
      to_fields (
        ("bundle_id", str bundle_id)
        ∷ ("verification_receipt_id", str verification_id)
        ∷ ("commit_sha", str commit_sha)
        ∷ ("approver_urn", str review.authenticated_approver_urn)
        ∷ ("decision", str (approval_value review.decision))
        ∷ ("created_at", num now)
        ∷ []))

  -- the receipt with the given signature
  abbrev pub drafted :
      ApprovalAuthority → RepairBundle → String → String → Review → ℕ → String → ApprovalReceipt
  drafted authority bundle verification_id commit_sha review now signature =
      let receipt_id =
        evidence_id "approval-receipt"
          (approval_identity bundle.bundle_id verification_id commit_sha review now) in
      record {
        receipt_id = receipt_id;
        bundle_id = bundle.bundle_id;
        verification_receipt_id = verification_id;
        commit_sha = commit_sha;
        approver_urn = review.authenticated_approver_urn;
        expected_approver_urn = bundle.approval.approver_urn;
        decision = review.decision;
        note = strip review.note;
        identity_provider = authority.identity_provider;
        identity_assurance = authority.identity_assurance;
        production_authorized = authority.production_authorized;
        signing_key_id = authority.key_id;
        created_at = now;
        evidence_ids = dedupe (bundle.evidence_ids ++ verification_id ∷ receipt_id ∷ []);
        signature_sha256 = signature;
      }

  -- `ApprovalAuthority.record`
  unfoldable pub record_approval :
      Hmac
      → (Json → String)
      → ApprovalAuthority
      → RepairBundle
      → Review
      → ℕ
      → Result ApprovalReceipt
  unfolding make_approval_receipt strip decimal
  record_approval hmac repr authority bundle review now = do
    raise_if (not (is_verified bundle.status)) (runtime_error "approval requires a VERIFIED bundle")
    raise_if (not (review.authenticated_approver_urn == bundle.approval.approver_urn))
        (runtime_error "authenticated reviewer is not the accountable approver")
    let verification = or_empty bundle.verification_receipt
    let external = or_empty bundle.external_action_receipt
    let verification_id = str_at repr "receipt_id" verification
    let commit_sha = str_at repr "commit_sha" verification
    raise_if (is_empty verification_id || is_empty commit_sha)
        (runtime_error "verified bundle is missing receipt identity")
    raise_if (not (holds_text "commit_sha" commit_sha external))
        (runtime_error "approval cannot span different publication commits")
    raise_if (ltb (count (strip review.note)) 8)
        (runtime_error "approval note must explain the review decision")
    let draft = drafted authority bundle verification_id commit_sha review now
    unsigned ← make_approval_receipt (draft unsigned_mark)
    make_approval_receipt (draft (hmac authority.signing_key (signature_payload unsigned)))
