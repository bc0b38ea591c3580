-- ===== src/Verification/Local.antt =====
-- `LocalVerificationEngine` of core/verification.py. Git in the repository, the files of the
-- checkout, the processes that run the checks and the path resolution are a record of calls; the
-- SHA-256 digests and the content-derived ID are parameters.
use Prim.Native.String.{[] as no_text, ◌∷◌ as put_before, ◌++◌ as concat, count}
use sciguard_autopilot.Base.{
  ℕ, zero, suc, ◌-◌, String, Bool, true, false, not, ◌||◌, none, some, List, [], ◌∷◌, if◌then◌else◌,
  runtime_error, Result, ok, ◌==◌,
}
use sciguard_autopilot.Base.Raising.{◌>>=◌, ◌>>◌, raise_if}
use sciguard_autopilot.Base.Texts.{is_empty, strip, within}
use sciguard_autopilot.Base.Json.{Json, Items, nil, cons, str, arr, obj, str_array}
use sciguard_autopilot.Investigation.{to_fields}
use sciguard_autopilot.Publication.{ChangeReceipt}
use sciguard_autopilot.Repair.{RepairBundle, RepairStatus, proposed, rejected, VerificationCheck}
use sciguard_autopilot.Verification.{
  ℤ, is_zero, int_json, CheckExecutionStatus, pass, fail, execution_status_value, overall,
  VerificationCheckReceipt, VerificationReceipt, make_verification_receipt,
}
use sciguard_autopilot.Verification.Commands.{trusted_pytest_command}

-- `subprocess.run` of one check: its result, and the milliseconds that the clock counted
pub record Execution : Type 0 where
  pub returncode : ℤ
  pub stdout : String
  pub stderr : String
  pub duration_ms : ℕ

pub record Machine : Type 0 where
  pub resolve : String → String
  pub is_dir : String → Bool
  pub git : String → List String → Result String
  pub is_file : String → Bool
  pub executable : String
  pub checkout : String
  pub execute : List String → Result Execution
  pub now : ℕ

abbrev without_first : ℕ → String → String
without_first zero s = s
without_first (suc n) no_text = no_text
without_first (suc n) (put_before c s) = without_first n s

-- `text[-n:]`
abbrev pub last_characters : ℕ → String → String
last_characters n s = without_first (count s - n) s

abbrev pub is_released : RepairStatus → Bool
is_released proposed = false
is_released rejected = false
is_released _ = true

-- `PASS if result.returncode == 0 else FAIL`
abbrev pub status_of_code : ℤ → CheckExecutionStatus
status_of_code n = if is_zero n then pass else fail

module _ (digest : String → String) (digest_json : Json → String) where
  abbrev pub output_of : Execution → String
  output_of run = strip (concat run.stdout (concat "\n" run.stderr))

  abbrev pub check_receipt : VerificationCheck → List String → Execution → VerificationCheckReceipt
  check_receipt check command run =
      let output = output_of run in
      record {
        check_id = check.check_id;
        name = check.name;
        status = status_of_code run.returncode;
        declared_command = check.command;
        executed_command = command;
        exit_code = run.returncode;
        duration_ms = run.duration_ms;
        output_sha256 = digest output;
        result_sha256 = digest_json (
            obj (
              to_fields (
                ("check_id", str check.check_id)
                ∷ ("declared_command", str check.command)
                ∷ ("executed_command", str_array command)
                ∷ ("exit_code", int_json run.returncode)
                ∷ ("output_sha256", str (digest output))
                ∷ [])));
        output_excerpt = last_characters 800 output;
        evidence_ids = check.evidence_ids;
        details_url = none;
        external_run_id = none;
        external_app_id = none;
        external_app_slug = none;
        check_suite_id = none;
        workflow_run_id = none;
        workflow_run_attempt = none;
        workflow_id = none;
        workflow_path = none;
        workflow_conclusion = none;
      }

  -- the loop over the declared checks
  unfoldable pub run_checks :
      Machine → List VerificationCheck → Result (List VerificationCheckReceipt)
  unfolding trusted_pytest_command strip
  run_checks machine [] = ok []
  run_checks machine (check ∷ checks) = do
    command ← trusted_pytest_command machine.is_file machine.executable check.command
    run ← machine.execute command
    receipts ← run_checks machine checks
    ok (check_receipt check command run ∷ receipts)

  abbrev check_identities : List VerificationCheckReceipt → Items
  check_identities [] = nil
  check_identities (c ∷ cs) =
      cons
        (obj (
          to_fields (
            ("check_id", str c.check_id)
            ∷ ("status", str (execution_status_value c.status))
            ∷ ("exit_code", int_json c.exit_code)
            ∷ ("output_sha256", str c.output_sha256)
            ∷ ("result_sha256", str c.result_sha256)
            ∷ [])))
        (check_identities cs)

  -- What `verify` tests before it makes a checkout.
  abbrev pub verifiable : Machine → RepairBundle → ChangeReceipt → Result (Unit {0})
  verifiable machine bundle change = do
    raise_if (not (is_released bundle.status))
        (runtime_error "verification requires a published repair revision")
    raise_if (not (change.provider == "LOCAL_GIT") || not (change.status == "COMMITTED"))
        (runtime_error "local verification requires a committed LOCAL_GIT receipt")
    raise_if (not (change.bundle_id == bundle.bundle_id))
        (runtime_error "change receipt does not belong to this repair bundle")
    let repository = machine.resolve change.repository
    raise_if (not (machine.is_dir repository)) (runtime_error "repository does not exist")
    head ← machine.git repository ("rev-parse" ∷ "HEAD" ∷ [])
    raise_if (not (head == change.commit_sha))
        (runtime_error "repository HEAD no longer matches the published commit")
    branch ← machine.git repository ("branch" ∷ "--show-current" ∷ [])
    raise_if (not (branch == change.branch))
        (runtime_error "repository branch no longer matches the publication receipt")
    changes ← machine.git repository ("status" ∷ "--porcelain" ∷ [])
    raise_if (not (is_empty changes))
        (runtime_error "repository is dirty; verification would not be reproducible")
    message ← machine.git repository ("show" ∷ "-s" ∷ "--format=%B" ∷ "HEAD" ∷ [])
    raise_if (not (within (concat "SciGuard-Bundle: " bundle.bundle_id) message))
        (runtime_error "published commit is not bound to the repair bundle")

  -- The `finally` clause removes the work tree however the checks end; its own error comes first.
  abbrev pub checked_out :
      Machine → RepairBundle → ChangeReceipt → Result (List VerificationCheckReceipt)
  checked_out machine bundle change = do
    let repository = machine.resolve change.repository
    _ ←
        machine.git repository
          ("worktree" ∷ "add" ∷ "--quiet" ∷ "--detach" ∷ machine.checkout ∷ change.commit_sha ∷ [])
    let receipts = run_checks machine bundle.verification_checks
    _ ← machine.git repository ("worktree" ∷ "remove" ∷ "--force" ∷ machine.checkout ∷ [])
    receipts

  module _ (stable_evidence_id : String → Json → String) where
    abbrev pub local_receipt :
        Machine → RepairBundle → ChangeReceipt → List VerificationCheckReceipt → VerificationReceipt
    local_receipt machine bundle change receipts = record {
      receipt_id = stable_evidence_id "verification-receipt" (
          obj (
            to_fields (
              ("bundle_id", str bundle.bundle_id)
              ∷ ("commit_sha", str change.commit_sha)
              ∷ ("checks", arr (check_identities receipts))
              ∷ [])));
      provider = "LOCAL_PROCESS";
      status = overall receipts;
      bundle_id = bundle.bundle_id;
      repository = machine.resolve change.repository;
      branch = change.branch;
      commit_sha = change.commit_sha;
      source_tree_clean = some true;
      checks = receipts;
      created_at = machine.now;
    }

    -- `LocalVerificationEngine.verify`
    unfoldable pub verify_locally :
        Machine → RepairBundle → ChangeReceipt → Result VerificationReceipt
    unfolding run_checks make_verification_receipt
    verify_locally machine bundle change = do
      verifiable machine bundle change
      receipts ← checked_out machine bundle change
      make_verification_receipt (local_receipt machine bundle change receipts)
