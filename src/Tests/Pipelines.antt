-- ===== src/Tests/Pipelines.antt =====
-- core/pipeline_controller.py at concrete inputs.
use sciguard_autopilot.Base.{ℕ, suc, ◌≡◌, refl, ◌⊎◌, true, false, [], ◌∷◌, All, ok}
use sciguard_autopilot.Base.Exec.{Exec, modify}
use sciguard_autopilot.DataHub.Store.{memory}
use sciguard_autopilot.Policy.{block_execution, has_action, AssetPolicyDecision}
use sciguard_autopilot.Enforcement.{enforce}
use sciguard_autopilot.Pipeline.{
  PipelineResult, PipelineController, Files, new_pipeline, pipeline_result, blocked_result,
  decision_for, execute, execute_dry_run,
}
use sciguard_autopilot.Pipeline.Blocking.{
  IsBlocked, IsDone, RunsAs, execute-decides, execute_dry_run-predicts,
}
use sciguard_autopilot.Pipeline.Restart.{IsRestored, from_datahub-enforce}
use sciguard_autopilot.Tests.Plans.{clock, plan, world, receipts, enforce_returns}

abbrev controller : PipelineController
controller = new_pipeline plan

abbrev files : Files
files = ("in.csv", "1,2") ∷ []

abbrev published : PipelineResult
published =
    pipeline_result controller "report" "PUBLISH" true false 0
      "Published by LocalPipelineController"

abbrev seven : ℕ
seven = 7

abbrev count_up : Exec ℕ (Unit {0})
count_up = modify suc

execute-decides_example :
    (d : AssetPolicyDecision) × (decision_for controller "model" ≡ ok d)
    × (((has_action block_execution d.actions ≡ true)
          × IsBlocked (blocked_result controller "model" "EXECUTE") seven seven)
        ⊎ ((has_action block_execution d.actions ≡ false)
            × IsDone (blocked_result controller "model" "EXECUTE")
            × (count_up seven ≡ (ok tt, seven))))
execute-decides_example =
    execute-decides controller "model" count_up seven seven
      (blocked_result controller "model" "EXECUTE") (unfold execute decision_for in refl)

abbrev predicted : PipelineResult
predicted =
    pipeline_result controller "model" "EXECUTE_DRY_RUN" false true 0 "Would block execution"

execute_dry_run-predicts_example :
    (seven ≡ seven)
    × (predicted.executed ≡ false)
    × (((predicted.would_block ≡ true)
          × ((r : PipelineResult) × (execute controller "model" count_up seven ≡ (ok r, seven))
              × IsBlocked r seven seven))
        ⊎ ((predicted.would_block ≡ false)
            × RunsAs (count_up seven) (execute controller "model" count_up seven)))
execute_dry_run-predicts_example =
    execute_dry_run-predicts controller "model" count_up seven seven predicted
      (unfold execute_dry_run decision_for in refl)

from_datahub-enforce_example :
    All (IsRestored memory "INC-1" (enforce memory clock plan world).1.0) plan.decisions
from_datahub-enforce_example =
    from_datahub-enforce memory clock plan world (enforce memory clock plan world).1 receipts
      (refl, tt) enforce_returns
