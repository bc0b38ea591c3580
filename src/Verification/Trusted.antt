-- ===== src/Verification/Trusted.antt =====
-- Which commands `LocalVerificationEngine` of core/verification.py runs, and what the receipt of a
-- check has to do with its run.
use sciguard_autopilot.Base.{
  ◌≡◌, refl, subst, inl, inr, String, true, false, List, [], ◌∷◌, arith, contains, Result-cases,
  Option-cases, ok,
}
use sciguard_autopilot.Base.Raising.{>>=-eq-ok, ok_inj}
use sciguard_autopilot.Base.Json.{Json}
use sciguard_autopilot.Patch.Parsing.{path_parts, joined}
use sciguard_autopilot.Repair.{VerificationCheck}
use sciguard_autopilot.Verification.{VerificationCheckReceipt, passes, is_zero}
use sciguard_autopilot.Verification.Commands.{
  trusted_pytest_command, shell_split, pytest_target, target_command, starts_in_tests,
}
use sciguard_autopilot.Verification.Local.{Machine, Execution, run_checks, status_of_code}

-- The command runs pytest on one existing file below the tests directory of the checkout.
pub record IsTrusted (machine : Machine) (command : List String) : Type 0 where
  pub target : String
  pub runs : command ≡ machine.executable ∷ "-m" ∷ "pytest" ∷ "-q" ∷ joined (path_parts target) ∷ []
  pub in_tests : starts_in_tests (path_parts target) ≡ true
  pub no_parent : contains ".." (path_parts target) ≡ false
  pub exists : machine.is_file (joined (path_parts target)) ≡ true

target_command-IsTrusted :
    (machine : Machine) (target : String) (command : List String)
    → target_command machine.is_file machine.executable target ≡ ok command
    → IsTrusted machine command
target_command-IsTrusted machine target command h = record {
  target = target;
  runs = ground arith;
  in_tests = ground arith;
  no_parent = ground arith;
  exists = ground arith;
}

trusted_pytest_command-IsTrusted :
    (machine : Machine) (text : String) (command : List String)
    → trusted_pytest_command machine.is_file machine.executable text ≡ ok command
    → IsTrusted machine command
unfolding trusted_pytest_command
trusted_pytest_command-IsTrusted machine text command h = elim (Result-cases (shell_split text)) [
  | inr (x, e) ↦ absurd (ground (arith, e))
  | inl (tokens, e) ↦ elim (Option-cases (pytest_target tokens)) [
    | inl odd ↦ absurd (ground (arith, e, odd))
    | inr (target, found) ↦
        target_command-IsTrusted machine target command (ground (arith, e, found, h))
  ]
]

-- The receipt of a check that was run, and how it was run.
pub record Ran (machine : Machine) (check : VerificationCheck) (receipt : VerificationCheckReceipt)
    : Type 0 where
  pub trusted : IsTrusted machine receipt.executed_command
  pub run : Execution
  pub executed : machine.execute receipt.executed_command ≡ ok run
  pub exit_code : receipt.exit_code ≡ run.returncode
  pub status : passes receipt.status ≡ is_zero run.returncode
  pub check_id : receipt.check_id ≡ check.check_id
  pub name : receipt.name ≡ check.name
  pub command : receipt.declared_command ≡ check.command
  pub evidence : receipt.evidence_ids ≡ check.evidence_ids

abbrev pub AllRan : Machine → List VerificationCheck → List VerificationCheckReceipt → Type 0
AllRan machine [] [] = Unit
AllRan machine (c ∷ cs) (r ∷ rs) = Ran machine c r × AllRan machine cs rs
AllRan machine _ _ = ⊥

passes-status_of_code :
    (run : Execution) → passes (status_of_code run.returncode) ≡ is_zero run.returncode
passes-status_of_code run = ground arith

module _ (digest : String → String) (digest_json : Json → String) where
  pub run_checks-AllRan :
      (machine : Machine) (checks : List VerificationCheck)
      (receipts : List VerificationCheckReceipt)
      → run_checks digest digest_json machine checks ≡ ok receipts
      → AllRan machine checks receipts
  unfolding run_checks
  run_checks-AllRan machine [] [] h = tt
  run_checks-AllRan machine [] (r ∷ rs) h = absurd (cc h)
  run_checks-AllRan machine (c ∷ cs) receipts h =
      let (command, trusted, h1) =
        >>=-eq-ok (trusted_pytest_command machine.is_file machine.executable c.command) _ h in
      let (run, executed, h2) = >>=-eq-ok (machine.execute command) _ h1 in
      let (rest, ran, h3) = >>=-eq-ok (run_checks digest digest_json machine cs) _ h2 in
      subst (AllRan machine (c ∷ cs)) (ok_inj h3) (
        record {
          trusted = trusted_pytest_command-IsTrusted machine c.command command trusted;
          run = run;
          executed = executed;
          exit_code = refl;
          status = passes-status_of_code run;
          check_id = refl;
          name = refl;
          command = refl;
          evidence = refl;
        },
        run_checks-AllRan machine cs rest ran,
      )
