-- ===== src/Verification.antt =====
-- core/verification.py: the receipts of a verification with their validator, and the attachment of
-- one to a published bundle.
pub mod Attaching
pub mod Commands
pub mod Local
pub mod Alignment
pub mod Trusted
pub mod Outcome
use Prim.Native.Nat.{◌<◌}
use sciguard_autopilot.Base.{
  ℕ, ◌≡◌, String, Bool, true, false, not, ◌&&◌, ◌||◌, Option, none, some, List, [], ◌∷◌, any, all,
  is_nil, is_some, contains, dedupe, length, nat_eq, ltb, if◌then◌else◌, value_error, key_error,
  Result, ok, err, ◌==◌,
}
use sciguard_autopilot.Base.Raising.{◌>>=◌, ◌>>◌, raise_if, or_raise}
use sciguard_autopilot.Base.Dict.{Dict, lookup, insert, keys}
use sciguard_autopilot.Base.Texts.{is_empty}
use sciguard_autopilot.Base.Json.{
  Json, Items, nil, cons, Fields, end, field, null, bool, num, str, arr, obj, str_array,
}
use sciguard_autopilot.Publication.{str_or_null, num_or_null}
use sciguard_autopilot.Repair.{
  RepairBundle, VerificationCheck, verified, is_published, or_empty, subset, make_bundle,
}

pub data CheckExecutionStatus : Type 0 where
  pass fail : CheckExecutionStatus

abbrev pub passes : CheckExecutionStatus → Bool
passes pass = true
passes fail = false

abbrev pub execution_status_value : CheckExecutionStatus → String
execution_status_value pass = "PASS"
execution_status_value fail = "FAIL"

-- Python's `int`: a process that a signal ends has a negative exit code.
pub data ℤ : Type 0 where
  pos negsuc : ℕ → ℤ

abbrev pub is_zero : ℤ → Bool
is_zero (pos n) = nat_eq n 0
is_zero (negsuc _) = false

abbrev pub is_positive : Option ℤ → Bool
is_positive (some (pos n)) = ltb 0 n
is_positive _ = false

pub record VerificationCheckReceipt : Type 0 where
  pub check_id : String
  pub name : String
  pub status : CheckExecutionStatus
  pub declared_command : String
  pub executed_command : List String
  pub exit_code : ℤ
  pub duration_ms : ℕ
  pub output_sha256 : String
  pub result_sha256 : String
  pub output_excerpt : String
  pub evidence_ids : List String
  pub details_url : Option String
  pub external_run_id : Option ℤ
  pub external_app_id : Option ℤ
  pub external_app_slug : Option String
  pub check_suite_id : Option ℤ
  pub workflow_run_id : Option ℤ
  pub workflow_run_attempt : Option ℤ
  pub workflow_id : Option ℤ
  pub workflow_path : Option String
  pub workflow_conclusion : Option String

pub record VerificationReceipt : Type 0 where
  pub receipt_id : String
  pub provider : String
  pub status : CheckExecutionStatus
  pub bundle_id : String
  pub repository : String
  pub branch : String
  pub commit_sha : String
  pub source_tree_clean : Option Bool
  pub checks : List VerificationCheckReceipt
  pub created_at : ℕ

abbrev pub receipt_check_ids : List VerificationCheckReceipt → List String
receipt_check_ids [] = []
receipt_check_ids (c ∷ cs) = c.check_id ∷ receipt_check_ids cs

abbrev pub same_status : CheckExecutionStatus → CheckExecutionStatus → Bool
same_status s t = if passes s then passes t else not (passes t)

-- `PASS if all(...) else FAIL`
abbrev pub overall : List VerificationCheckReceipt → CheckExecutionStatus
overall cs = if all (λ (c : VerificationCheckReceipt). passes c.status) cs then pass else fail

abbrev pub same_int : ℤ → ℤ → Bool
same_int (pos m) (pos n) = nat_eq m n
same_int (negsuc m) (negsuc n) = nat_eq m n
same_int _ _ = false

abbrev pub same_run : Option ℤ → Option ℤ → Bool
same_run none none = true
same_run (some m) (some n) = same_int m n
same_run _ _ = false

-- `len(ids) == len(set(ids))`
abbrev pub unique_runs : List VerificationCheckReceipt → Bool
unique_runs [] = true
unique_runs (c ∷ cs) =
    not (any (λ (d : VerificationCheckReceipt). same_run c.external_run_id d.external_run_id) cs)
    && unique_runs cs

-- `not text`
abbrev pub is_missing : Option String → Bool
is_missing none = true
is_missing (some s) = is_empty s

abbrev pub conclusions : List String
conclusions =
    "success" ∷ "failure" ∷ "neutral" ∷ "cancelled" ∷ "skipped" ∷ "timed_out" ∷ "action_required"
    ∷ "stale" ∷ "startup_failure" ∷ []

abbrev pub is_conclusion : Option String → Bool
is_conclusion none = false
is_conclusion (some s) = contains s conclusions

abbrev pub lacks_provenance : VerificationCheckReceipt → Bool
lacks_provenance c =
    not (is_positive c.external_run_id)
    || not (is_positive c.external_app_id)
    || is_missing c.external_app_slug
    || not (is_positive c.check_suite_id)
    || not (is_positive c.workflow_run_id)
    || not (is_positive c.workflow_run_attempt)
    || not (is_positive c.workflow_id)
    || is_missing c.workflow_path
    || not (is_conclusion c.workflow_conclusion)
    || is_missing c.details_url

abbrev pub check_provenance : VerificationReceipt → Result (Unit {0})
check_provenance r = if not (r.provider == "GITHUB_CHECK_RUNS") then ok tt else do
  raise_if (not (unique_runs r.checks))
      (value_error "GitHub verification Check Run IDs must be unique")
  raise_if (any lacks_provenance r.checks)
      (value_error "GitHub verification checks require complete provider provenance")

-- `VerificationReceipt(...)`, with the validator `_check_set_is_complete_and_consistent`
unfoldable pub make_verification_receipt : VerificationReceipt → Result VerificationReceipt
make_verification_receipt r = do
  raise_if (is_nil r.checks) (value_error "verification receipt must contain at least one check")
  raise_if
      (not (
        nat_eq (length (receipt_check_ids r.checks))
          (length (dedupe (receipt_check_ids r.checks)))))
      (value_error "verification receipt check IDs must be unique")
  raise_if (not (same_status r.status (overall r.checks)))
      (value_error "verification receipt status does not match its checks")
  check_provenance r
  ok r

-- The JSON values of the model have natural numbers only: a negative one stands as a pair.
abbrev pub int_json : ℤ → Json
int_json (pos n) = num n
int_json (negsuc n) = arr (cons (str "-") (cons (num (Prim.Native.Nat.suc n)) nil))

abbrev int_or_null : Option ℤ → Json
int_or_null none = null
int_or_null (some n) = int_json n

abbrev check_dump : VerificationCheckReceipt → Fields
check_dump c = field "check_id" (str c.check_id) (
    field "name" (str c.name) (
      field "status" (str (execution_status_value c.status)) (
        field "declared_command" (str c.declared_command) (
          field "executed_command" (str_array c.executed_command) (
            field "exit_code" (int_json c.exit_code) (
              field "duration_ms" (num c.duration_ms) (
                field "output_sha256" (str c.output_sha256) (
                  field "result_sha256" (str c.result_sha256) (
                    field "output_excerpt" (str c.output_excerpt)
                      (field "evidence_ids" (str_array c.evidence_ids) (external_fields c)))))))))))
  where
    external_fields : VerificationCheckReceipt → Fields
    external_fields c = field "details_url" (str_or_null c.details_url) (
        field "external_run_id" (int_or_null c.external_run_id) (
          field "external_app_id" (int_or_null c.external_app_id) (
            field "external_app_slug" (str_or_null c.external_app_slug) (
              field "check_suite_id" (int_or_null c.check_suite_id) (
                field "workflow_run_id" (int_or_null c.workflow_run_id) (
                  field "workflow_run_attempt" (int_or_null c.workflow_run_attempt) (
                    field "workflow_id" (int_or_null c.workflow_id) (
                      field "workflow_path" (str_or_null c.workflow_path) (
                        field "workflow_conclusion" (str_or_null c.workflow_conclusion) end)))))))))

abbrev checks_dump : List VerificationCheckReceipt → Items
checks_dump [] = nil
checks_dump (c ∷ cs) = cons (obj (check_dump c)) (checks_dump cs)

abbrev bool_or_null : Option Bool → Json
bool_or_null none = null
bool_or_null (some b) = bool b

-- `receipt.model_dump(mode="python")`
abbrev pub verification_dump : VerificationReceipt → Dict Json
verification_dump r =
    ("receipt_id", str r.receipt_id)
    ∷ ("provider", str r.provider)
    ∷ ("status", str (execution_status_value r.status))
    ∷ ("bundle_id", str r.bundle_id)
    ∷ ("repository", str r.repository)
    ∷ ("branch", str r.branch)
    ∷ ("commit_sha", str r.commit_sha)
    ∷ ("source_tree_clean", bool_or_null r.source_tree_clean)
    ∷ ("checks", arr (checks_dump r.checks))
    ∷ ("created_at", num r.created_at)
    ∷ []
