-- ===== src/Application/Staging.antt =====
-- LocalStagingApplicator.apply of core/application.py. The git commands are a record of their
-- outcomes, SHA-256 and the canonical JSON text are arguments, and the deployment root is a dict
-- from names to what stands there.
use Prim.Native.Char.{code}
use Prim.Native.String.{[] as no_text, ◌∷◌ as put_before, ◌++◌ as concat}
use sciguard_autopilot.Base.{
  ℕ, String, Bool, true, false, not, ◌||◌, Option, none, some, List, [], ◌∷◌, is_nil, nat_eq,
  contains, if◌then◌else◌, runtime_error, Exception, Result, ok, err, ◌==◌,
}
use sciguard_autopilot.Base.Raising.{◌>>=◌, ◌>>◌, raise_if, or_raise}
use sciguard_autopilot.Base.Texts.{is_empty, decimal}
use sciguard_autopilot.Base.Dict.{Dict, lookup, insert}
use sciguard_autopilot.Base.Json.{
  Json, null, bool, num, str, arr, obj, Items, nil, cons, end, field,
}
use sciguard_autopilot.Patch.Parsing.{path_parts, joined, starts_with_code}
use sciguard_autopilot.Impact.{sorted, text_le}
use sciguard_autopilot.Repair.{RepairBundle, is_approved, or_empty}
use sciguard_autopilot.Verification.Attaching.{holds_text}
use sciguard_autopilot.Application.{ApplicationReceipt}

-- An entry of the tar archive: a regular file with what reading it gives.
pub data MemberKind : Type 0 where
  directory special : MemberKind
  regular : Option String → MemberKind

pub record Member : Type 0 where
  pub name : String
  pub kind : MemberKind

-- `git rev-parse HEAD`, `git status --porcelain`, `git archive`
pub record Repository : Type 0 where
  pub head : Result String
  pub changes : Result String
  pub archive : String → Result (List Member)

-- What stands in the deployment root: a file that reads as a receipt, one that is refused, or a
-- directory with the files below it.
pub data Entry : Type 0 where
  receipt_file : ApplicationReceipt → Entry
  refused_file : Exception → Entry
  tree : Dict String → Entry

abbrev pub Root : Type 0
Root = Dict Entry

-- `_safe_member`
abbrev pub is_special : MemberKind → Bool
is_special special = true
is_special _ = false

abbrev pub safe_member : Member → Result String
safe_member m = do
  raise_if
      (starts_with_code 47 m.name
        || contains ".." (path_parts m.name)
        || is_nil (path_parts m.name))
      (runtime_error "unsafe application archive path")
  raise_if (is_special m.kind) (runtime_error "application archive contains a non-regular entry")
  ok (joined (path_parts m.name))

abbrev pub with_member : String → MemberKind → Dict String → Result (Dict String)
with_member path (regular content) files = do
  text ← or_raise content (runtime_error "could not read application archive file")
  ok (insert path text files)
with_member path _ files = ok files

-- the loop over the archive's members
unfoldable pub extracted : List Member → Dict String → Result (Dict String)
extracted [] files = ok files
extracted (m ∷ ms) files = do
  path ← safe_member m
  more ← with_member path m.kind files
  extracted ms more

-- `deployment_id.replace(":", "-")`
abbrev pub without_colons : String → String
without_colons no_text = no_text
without_colons (put_before c s) =
    let rest = without_colons s in
    if nat_eq (code c) 58 then put_before "-" rest else put_before c rest

-- `str(change.get("commit_sha", ""))`; `repr` writes a fraction, a list or a dict
abbrev pub commit_text : (Json → String) → Option Json → String
commit_text repr none = ""
commit_text repr (some (str s)) = s
commit_text repr (some null) = "None"
commit_text repr (some (bool true)) = "True"
commit_text repr (some (bool false)) = "False"
commit_text repr (some (num n)) = decimal n ""
commit_text repr (some j) = repr j

module _ (sha256 : String → String) (canonical : Json → String)
    (stable_evidence_id : String → Json → String) (repr : Json → String) where
  abbrev digest_items : List (String × String) → Items
  digest_items [] = nil
  digest_items ((path, content) ∷ files) =
      cons (obj (field "path" (str path) (field "sha256" (str (sha256 content)) end)))
        (digest_items files)

  -- `_tree_digest`
  unfoldable pub tree_digest : Dict String → String
  tree_digest files =
      sha256
        (canonical (arr (digest_items (sorted (λ (f g : String × String). text_le f.0 g.0) files))))

  abbrev pub commit_of : RepairBundle → String
  commit_of bundle =
      commit_text repr (lookup "commit_sha" (or_empty bundle.external_action_receipt))

  abbrev pub identity : RepairBundle → String → Json
  identity bundle digest = obj (
      field "bundle_id" (str bundle.bundle_id) (
        field "commit_sha" (str (commit_of bundle)) (
          field "source_tree_sha256" (str digest)
            (field "target_environment" (str "SCIGUARD_SYNTHETIC_STAGING") end))))

  abbrev pub deployment_id : RepairBundle → String → String
  deployment_id bundle digest = stable_evidence_id "staging-deployment" (identity bundle digest)

  abbrev pub release_name : RepairBundle → String → String
  release_name bundle digest = without_colons (deployment_id bundle digest)

  abbrev pub receipt_name : RepairBundle → String → String
  receipt_name bundle digest = concat (release_name bundle digest) ".json"

  abbrev receipt_identity : RepairBundle → String → Json
  receipt_identity bundle digest = obj (
      field "bundle_id" (str bundle.bundle_id) (
        field "commit_sha" (str (commit_of bundle)) (
          field "source_tree_sha256" (str digest) (
            field "target_environment" (str "SCIGUARD_SYNTHETIC_STAGING")
              (field "deployment_id" (str (deployment_id bundle digest)) end)))))

  abbrev pub new_receipt : RepairBundle → String → ℕ → ApplicationReceipt
  new_receipt bundle digest now = record {
    receipt_id = stable_evidence_id "application-receipt" (receipt_identity bundle digest);
    provider = "LOCAL_STAGING";
    status = "APPLIED";
    bundle_id = bundle.bundle_id;
    commit_sha = commit_of bundle;
    target_environment = "SCIGUARD_SYNTHETIC_STAGING";
    deployment_id = deployment_id bundle digest;
    source_tree_sha256 = digest;
    production_authorized = false;
    applied_at = now;
  }

  -- The guards, and the files of the approved commit.
  unfoldable pub approved_files : Repository → RepairBundle → Result (Dict String)
  unfolding extracted
  approved_files repository bundle = do
    raise_if (not (is_approved bundle.status))
        (runtime_error "application requires an APPROVED repair bundle")
    raise_if
        (is_empty (commit_of bundle)
          || not (holds_text "commit_sha" (commit_of bundle) (or_empty bundle.approval_receipt))
          || not
              (holds_text "commit_sha" (commit_of bundle) (or_empty bundle.verification_receipt)))
        (runtime_error "application commit is not bound to change, verification, and approval")
    head ← repository.head
    raise_if (not (head == commit_of bundle))
        (runtime_error "repository HEAD does not match the approved commit")
    changes ← repository.changes
    raise_if (not (is_empty changes)) (runtime_error "repository must be clean before application")
    members ← repository.archive (commit_of bundle)
    extracted members []

  -- A release that is there already.
  unfoldable pub existing :
      RepairBundle → String → ApplicationReceipt → Dict String → Result ApplicationReceipt
  unfolding tree_digest
  existing bundle digest receipt observed = do
    raise_if
        (not (receipt.bundle_id == bundle.bundle_id)
          || not (receipt.commit_sha == commit_of bundle)
          || not (receipt.source_tree_sha256 == digest))
        (runtime_error "existing staging receipt does not match the repair")
    raise_if (not (tree_digest observed == digest))
        (runtime_error "existing staging release has been modified")
    ok receipt

  -- the release directory is moved into place, then the receipt is written
  abbrev pub released : RepairBundle → String → Dict String → ApplicationReceipt → Root → Root
  released bundle digest files receipt root =
      insert (receipt_name bundle digest) (receipt_file receipt)
        (insert (release_name bundle digest) (tree files) root)

  abbrev pub placed :
      RepairBundle
      → Dict String
      → String
      → ℕ
      → Root
      → Option Entry
      → Option Entry
      → Result ApplicationReceipt × Root
  placed bundle files digest now root (some (receipt_file receipt)) (some (tree observed)) =
      (existing bundle digest receipt observed, root)
  placed bundle files digest now root (some (refused_file e)) (some (tree observed)) = (err e, root)
  placed bundle files digest now root none none =
      let receipt = new_receipt bundle digest now in
      (ok receipt, released bundle digest files receipt root)
  placed bundle files digest now root _ _ =
      (err (runtime_error "partial staging application requires operator review"), root)

  abbrev pub place :
      RepairBundle → ℕ → Root → Result (Dict String) → Result ApplicationReceipt × Root
  place bundle now root (err e) = (err e, root)
  place bundle now root (ok files) =
      let digest = tree_digest files in
      placed bundle files digest now root (lookup (receipt_name bundle digest) root)
        (lookup (release_name bundle digest) root)

  unfoldable pub apply : Repository → RepairBundle → ℕ → Root → Result ApplicationReceipt × Root
  unfolding approved_files existing tree_digest
  apply repository bundle now root = place bundle now root (approved_files repository bundle)
