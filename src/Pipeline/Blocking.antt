-- ===== src/Pipeline/Blocking.antt =====
-- What the controllers of core/pipeline_controller.py let through.
use sciguard_autopilot.Base.{
  ◌≡◌, refl, ◌⊎◌, inl, inr, String, true, false, arith, Bool-cases, Option-cases, Result-cases,
  Result, ok, err, ◌==◌, eq_refl,
}
use sciguard_autopilot.Base.Exec.{Exec, continue}
use sciguard_autopilot.Base.Dict.{lookup, lookup-insert}
use sciguard_autopilot.Policy.{block_publish, block_execution, has_action, AssetPolicyDecision}
use sciguard_autopilot.Pipeline.{
  PipelineResult, PipelineController, Files, blocked_exit_code, blocked_result, decision_for,
  copyfile, publish, execute, execute_dry_run,
}

-- The plan blocks the operation on the asset: nothing ran, and nothing changed.
abbrev pub IsBlocked : {S : Type 0} → PipelineResult → S → S → Type 0
IsBlocked r s s' =
    (r.executed ≡ false) × (r.would_block ≡ true) × (r.exit_code ≡ blocked_exit_code) × (s' ≡ s)

abbrev pub IsDone : PipelineResult → Type 0
IsDone r = (r.executed ≡ true) × (r.would_block ≡ false) × (r.exit_code ≡ 0)

copyfile-copies :
    (source target : String) (files files' : Files)
    → copyfile source target files ≡ (ok tt, files')
    → lookup target files' ≡ lookup source files
unfolding copyfile
copyfile-copies source target files files' h = elim (Bool-cases (source == target)) [
  | inl e ↦ absurd (ground arith)
  | inr e ↦ elim (Option-cases (lookup source files)) [
    | inl k ↦ absurd (ground arith)
    | inr (content, k) ↦ ground (arith, lookup-insert target target content files, eq_refl target)
  ]
]

-- A publication that returns is either blocked by the plan, with exit code 42 and every file as it
-- was, or let through by it, and then the target has the content of the source.
pub publish-decides :
    (self : PipelineController) (asset source target : String) (files files' : Files)
    (r : PipelineResult)
    → publish self asset source target files ≡ (ok r, files')
    → (d : AssetPolicyDecision) × (decision_for self asset ≡ ok d)
      × (((has_action block_publish d.actions ≡ true) × IsBlocked r files files')
          ⊎ ((has_action block_publish d.actions ≡ false)
              × IsDone r
              × (lookup target files' ≡ lookup source files)))
unfolding publish
publish-decides self asset source target files files' r h =
    elim (Result-cases (decision_for self asset)) [
      | inr (e, p) ↦ absurd (ground arith)
      | inl (d, p) ↦ elim (Bool-cases (has_action block_publish d.actions)) [
        | inl blocked ↦ (d, p, inl (blocked, ground arith))
        | inr free ↦ (
          d,
          p,
          inr (free, ground arith, ground (arith, copyfile-copies source target files files')),
        )
      ]
    ]

-- An execution that returns is either blocked by the plan, with exit code 42 and without a call of
-- the operation, or let through by it, and then its effect is that of one call of the operation.
pub execute-decides :
    {S : Type 0} (self : PipelineController) (asset : String) (operation : Exec S (Unit {0}))
    (s s' : S) (r : PipelineResult)
    → execute self asset operation s ≡ (ok r, s')
    → (d : AssetPolicyDecision) × (decision_for self asset ≡ ok d)
      × (((has_action block_execution d.actions ≡ true) × IsBlocked r s s')
          ⊎ ((has_action block_execution d.actions ≡ false)
              × IsDone r
              × (operation s ≡ (ok tt, s'))))
unfolding execute
execute-decides self asset operation s s' r h = elim (Result-cases (decision_for self asset)) [
  | inr (e, p) ↦ absurd (ground arith)
  | inl (d, p) ↦ elim (Bool-cases (has_action block_execution d.actions)) [
    | inl blocked ↦ (d, p, inl (blocked, ground arith))
    | inr free ↦ (d, p, inr (free, ground arith, ground arith))
  ]
]

-- What an execution that is let through does: it calls the operation once; an exception of the
-- operation is its own, with the state that the operation left, and else it returns a result that
-- says it was executed.
abbrev pub RunsAs : {S : Type 0} → Result (Unit {0}) × S → Result PipelineResult × S → Type 0
RunsAs (ok _, s') executed = (r : PipelineResult) × (executed ≡ (ok r, s')) × IsDone r
RunsAs (err e, s') executed = executed ≡ (err e, s')

-- The dry run changes nothing and executes nothing, and it predicts the local controller: where it
-- says that it would block, the local controller blocks the same operation, with exit code 42 and
-- without a call of it; elsewhere the local controller calls it once: it returns a result that says
-- so, with exit code 0, and the state that the operation left, or raises the operation's exception.
pub execute_dry_run-predicts :
    {S : Type 0} (self : PipelineController) (asset : String) (operation : Exec S (Unit {0}))
    (s s' : S) (p : PipelineResult)
    → execute_dry_run self asset operation s ≡ (ok p, s')
    → (s' ≡ s)
      × (p.executed ≡ false)
      × (((p.would_block ≡ true)
            × ((r : PipelineResult) × (execute self asset operation s ≡ (ok r, s))
                × IsBlocked r s s))
          ⊎ ((p.would_block ≡ false) × RunsAs (operation s) (execute self asset operation s)))
unfolding execute execute_dry_run
execute_dry_run-predicts {S = S} self asset operation s s' p h =
    elim (Result-cases (decision_for self asset)) [
      | inr (e, q) ↦ absurd (ground arith)
      | inl (d, q) ↦ elim (Bool-cases (has_action block_execution d.actions)) [
        | inl blocked ↦ (
          ground arith,
          ground arith,
          inl (
            ground arith,
            (blocked_result self asset "EXECUTE", rw q (rw blocked), (refl, refl, refl, refl)),
          ),
        )
        | inr free ↦ (
          ground arith,
          ground arith,
          inr (ground arith, rw q (rw free (runs _ (refl, refl, refl) (operation s)))),
        )
      ]
    ]
  where
    runs :
        (r : PipelineResult)
        → IsDone r
        → (x : Result (Unit {0}) × S) → RunsAs x (continue x (λ _ t. (ok r, t)))
    runs r done (ok _, t) = (r, refl, done)
    runs r done (err e, t) = refl
