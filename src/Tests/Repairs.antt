-- ===== src/Tests/Repairs.antt =====
-- core/repair.py, core/change_provider.py and core/verification.py at concrete inputs.
use sciguard_autopilot.Base.{
  ℕ, ◌≡◌, refl, String, true, none, some, List, [], ◌∷◌, all, if◌then◌else◌, Result, ok, err,
  value_error, runtime_error, ◌==◌,
}
use sciguard_autopilot.Base.Texts.{strip, lstrip, rstrip}
use sciguard_autopilot.Base.Json.{Json}
use sciguard_autopilot.Repair.{
  RepairBundle, low, proposed, published, code_patch, approval_required, make_bundle,
}
use sciguard_autopilot.Publication.{ChangeReceipt, change_dump}
use sciguard_autopilot.Verification.{
  VerificationReceipt, VerificationCheckReceipt, passes, pos, is_zero,
}
use sciguard_autopilot.Verification.Attaching.{attach_verification_receipt, verified_bundle}
use sciguard_autopilot.Verification.Commands.{shell_split, trusted_pytest_command}
use sciguard_autopilot.Verification.Local.{Machine, verify_locally, local_receipt, check_receipt}
use sciguard_autopilot.Verification.Trusted.{AllRan}
use sciguard_autopilot.Verification.Outcome.{attach_verification_receipt-verify_locally}

-- stand-ins for the digests
abbrev pub same_text : String → String
same_text s = s

abbrev pub kind_id : String → Json → String
kind_id kind payload = kind

abbrev json_digest : Json → String
json_digest j = "digest"

abbrev pub key_hmac : List ℕ → Json → String
key_hmac key payload = "mac"

abbrev pub repr : Json → String
repr j = "[]"

abbrev pub bundle : RepairBundle
bundle = record {
  schema_version = "1.0";
  bundle_id = "repair-bundle:1";
  incident_id = "INC-1";
  status = proposed;
  risk = low;
  title = "title";
  root_cause_summary = "units";
  target_repository = "/repo";
  target_base_revision = "main";
  datahub_incident_urn = none;
  datahub_decision_log_urn = none;
  affected_urns = "urn:a" ∷ [];
  preserved_urns = "urn:b" ∷ [];
  native_ml_context = [];
  evidence_ids = "e1" ∷ [];
  artifacts =
      record {
        artifact_id = "a1";
        kind = code_patch;
        path = "p.patch";
        description = "a patch";
        content_sha256 = "diff";
        content = "diff";
        evidence_ids = "e1" ∷ [];
      }
      ∷ [];
  verification_checks =
      record {
        check_id = "unit_contract";
        name = "Unit";
        command = "pytest -q tests/test_unit.py";
        expected_result = "green";
        protects = [];
        evidence_ids = "e1" ∷ [];
      }
      ∷ [];
  approval = record {
    required = true;
    status = approval_required;
    policy_id = "P";
    approver_urn = "urn:owner";
    reason = "critical";
    evidence_ids = "e1" ∷ [];
  };
  external_action_receipt = none;
  verification_receipt = none;
  approval_receipt = none;
  application_receipt = none;
}

abbrev pub change_receipt : ChangeReceipt
change_receipt = record {
  provider = "LOCAL_GIT";
  status = "COMMITTED";
  bundle_id = "repair-bundle:1";
  repository = "/repo";
  base_revision = "main";
  base_commit_sha = some "c0";
  branch = "sciguard/inc-1";
  commit_sha = "c1";
  changed_files = "p.py" ∷ [];
  created_at = 1;
  remote_url = none;
  pull_request_number = none;
}

abbrev pub published_bundle : RepairBundle
published_bundle = record bundle {
  status = published;
  external_action_receipt = some (change_dump change_receipt);
}

-- git and the processes: the checks exit with the code that is given
abbrev answers : List String → Result String
answers [] = ok ""
answers (command ∷ _) =
    if command == "rev-parse"
    then ok "c1"
    else if command == "branch"
    then ok "sciguard/inc-1"
    else if command == "show"
    then ok "fix\n\nSciGuard-Bundle: repair-bundle:1\n"
    else ok ""

abbrev machine : ℕ → Machine
machine code = record {
  resolve = λ path. path;
  is_dir = λ path. true;
  git = λ repository args. answers args;
  is_file = λ path. path == "tests/test_unit.py";
  executable = "python";
  checkout = "/tmp/checkout";
  execute = λ command.
      ok (record { returncode = pos code; stdout = "1 test"; stderr = ""; duration_ms = 7 });
  now = 2;
}

abbrev pub unit_receipt : ℕ → VerificationReceipt
unit_receipt code =
    local_receipt same_text json_digest kind_id (machine code) published_bundle change_receipt (
      check_receipt same_text json_digest
        (record {
          check_id = "unit_contract";
          name = "Unit";
          command = "pytest -q tests/test_unit.py";
          expected_result = "green";
          protects = [];
          evidence_ids = "e1" ∷ [];
        })
        ("python" ∷ "-m" ∷ "pytest" ∷ "-q" ∷ "tests/test_unit.py" ∷ [])
        (record { returncode = pos code; stdout = "1 test"; stderr = ""; duration_ms = 7 })
      ∷ [])

verified_run :
    verify_locally same_text json_digest kind_id (machine 0) published_bundle change_receipt
    ≡ ok (unit_receipt 0)
unfolding verify_locally trusted_pytest_command
verified_run = refl

failed_run :
    verify_locally same_text json_digest kind_id (machine 1) published_bundle change_receipt
    ≡ ok (unit_receipt 1)
unfolding verify_locally trusted_pytest_command
failed_run = refl

attach_verification_receipt-verify_locally_example :
    AllRan (machine 1) published_bundle.verification_checks (unit_receipt 1).checks
    × (passes (unit_receipt 1).status
        ≡ all (λ (c : VerificationCheckReceipt). is_zero c.exit_code) (unit_receipt 1).checks)
    × (attach_verification_receipt same_text published_bundle (unit_receipt 1) ≡ (
        if passes (unit_receipt 1).status
        then ok (verified_bundle published_bundle (unit_receipt 1))
        else err (value_error "a failed verification receipt cannot unlock approval")))
attach_verification_receipt-verify_locally_example =
    attach_verification_receipt-verify_locally same_text json_digest kind_id (machine 1)
      published_bundle change_receipt (unit_receipt 1)
      (unfold make_bundle strip lstrip rstrip in refl) refl refl refl
      (unfold verify_locally trusted_pytest_command in refl)

-- Words, quotes and escapes, and what is refused.
quoted_words :
    shell_split "pytest  -q 'tests/a b.py' \"x\\\"y\" c\\ d ''"
    ≡ ok ("pytest" ∷ "-q" ∷ "tests/a b.py" ∷ "x\"y" ∷ "c d" ∷ "" ∷ [])
unfolding shell_split
quoted_words = refl

open_quote : shell_split "pytest -q 'tests" ≡ err (value_error "No closing quotation")
unfolding shell_split
open_quote = refl

other_directory :
    trusted_pytest_command (λ p. true) "python" "pytest -q tests/../secrets.py"
    ≡ err (runtime_error "unsafe verification target")
unfolding trusted_pytest_command
other_directory = refl

other_suffix :
    trusted_pytest_command (λ p. true) "python" "pytest -q tests/run.sh"
    ≡ err (runtime_error "unsafe verification target")
unfolding trusted_pytest_command
other_suffix = refl

more_flags :
    trusted_pytest_command (λ p. true) "python" "pytest -q -p tests/a.py"
    ≡ err (runtime_error "unsupported verification command")
unfolding trusted_pytest_command
more_flags = refl
