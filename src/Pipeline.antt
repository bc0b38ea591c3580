-- ===== src/Pipeline.antt =====
-- core/pipeline_controller.py: the local controller, which blocks or lets pass by a policy plan, its
-- start from the state that DataHub persists, and the dry-run controller.
pub mod Blocking
pub mod Restart
use sciguard_autopilot.Base.{
  ℕ, String, Bool, true, false, not, ◌&&◌, ◌||◌, Option, none, some, List, [], ◌∷◌, if◌then◌else◌,
  all, is_some, contains, key_error, value_error, lookup_error, runtime_error, Result, ok, err,
  ◌==◌,
}
use sciguard_autopilot.Base.Texts.{is_empty}
use sciguard_autopilot.Base.Exec.{Exec, ◌>>=◌, ◌>>◌, pure, lift, raise}
use sciguard_autopilot.Base.Dict.{Dict, lookup, insert}
use sciguard_autopilot.Base.Json.{Json, Items, nil, cons, arr, str}
use sciguard_autopilot.DataHub.{Properties, dataset_properties, Aspect, Client}
use sciguard_autopilot.DataHub.Values.{text_at, loads, value_at, iterated_value, properties_in}
use sciguard_autopilot.Policy.{
  PolicyDecision, CatalogStatus, EnforcementAction, block_execution, block_publish, decision_of,
  status_of, action_of, has_action, AssetPolicyContext, made_decision, AssetPolicyDecision,
  PolicyPlan,
}
use Prim.Native.String.{◌++◌ as concat}

abbrev pub blocked_exit_code : ℕ
blocked_exit_code = 42

pub record PipelineResult : Type 0 where
  pub asset_name : String
  pub operation : String
  pub executed : Bool
  pub would_block : Bool
  pub exit_code : ℕ
  pub incident_id : Option String
  pub message : String

-- Both controllers: `DryRunPipelineController` inherits the state of the local one.
pub record PipelineController : Type 0 where
  pub plan : PolicyPlan
  pub decisions : Dict AssetPolicyDecision

abbrev pub index_decisions :
    List AssetPolicyDecision → Dict AssetPolicyDecision → Dict AssetPolicyDecision
index_decisions [] d = d
index_decisions (x ∷ xs) d = index_decisions xs (insert x.name x d)

-- `LocalPipelineController.__init__`
abbrev pub new_pipeline : PolicyPlan → PipelineController
new_pipeline plan = record { plan = plan; decisions = index_decisions plan.decisions [] }

unfoldable pub decision_for : PipelineController → String → Result AssetPolicyDecision
decision_for self asset = elim (lookup asset self.decisions) [
  | none ↦ err (key_error "no policy decision exists for asset")
  | some d ↦ ok d
]

abbrev pub pipeline_result :
    PipelineController → String → String → Bool → Bool → ℕ → String → PipelineResult
pipeline_result self asset operation executed would_block exit_code message = record {
  asset_name = asset;
  operation = operation;
  executed = executed;
  would_block = would_block;
  exit_code = exit_code;
  incident_id = some self.plan.incident_id;
  message = message;
}

abbrev pub blocked_result : PipelineController → String → String → PipelineResult
blocked_result self asset operation =
    pipeline_result self asset operation false true blocked_exit_code
      (concat "BLOCKED by SciGuard incident " self.plan.incident_id)

-- The files of a host: the content at each path. Directories come with the files below them.
abbrev pub Files : Type 0
Files = Dict String

-- `shutil.copyfile`
unfoldable pub copyfile : String → String → Exec Files (Unit {0})
copyfile source target files =
    if source == target
    then (err (runtime_error "SameFileError"), files)
    else elim (lookup source files) [
      | none ↦ (err (runtime_error "FileNotFoundError"), files)
      | some content ↦ (ok tt, insert target content files)
    ]

unfoldable pub publish : PipelineController → String → String → String → Exec Files PipelineResult
publish self asset source target = do
  decision ← lift (decision_for self asset)
  if has_action block_publish decision.actions
      then pure (blocked_result self asset "PUBLISH")
      else (do
        copyfile source target
        pure (
            pipeline_result self asset "PUBLISH" true false 0
              "Published by LocalPipelineController"))

-- `operation` is the callable, an action on whatever it changes.
unfoldable pub execute :
    {S : Type 0} → PipelineController → String → Exec S (Unit {0}) → Exec S PipelineResult
execute self asset operation = do
  decision ← lift (decision_for self asset)
  if has_action block_execution decision.actions
      then pure (blocked_result self asset "EXECUTE")
      else (do
        operation
        pure (
            pipeline_result self asset "EXECUTE" true false 0
              "Executed by LocalPipelineController"))

-- the two methods of `DryRunPipelineController`, which get the paths and the callable and use neither
unfoldable pub publish_dry_run :
    PipelineController → String → String → String → Exec Files PipelineResult
publish_dry_run self asset source target = do
  decision ← lift (decision_for self asset)
  let would_block = has_action block_publish decision.actions
  pure (
      pipeline_result self asset "PUBLISH_DRY_RUN" false would_block 0
        (if would_block then "Would block publish" else "Would allow publish"))

unfoldable pub execute_dry_run :
    {S : Type 0} → PipelineController → String → Exec S (Unit {0}) → Exec S PipelineResult
execute_dry_run self asset operation = do
  decision ← lift (decision_for self asset)
  let would_block = has_action block_execution decision.actions
  pure (
      pipeline_result self asset "EXECUTE_DRY_RUN" false would_block 0
        (if would_block then "Would block execution" else "Would allow execution"))

abbrev pub required_keys : List String
required_keys =
    "sciguard:incident_id" ∷ "sciguard:policy_decision" ∷ "sciguard:catalog_status"
    ∷ "sciguard:enforcement_actions" ∷ []

abbrev pub name_or : Option String → String → String
name_or none urn = urn
name_or (some name) urn = if is_empty name then urn else name

-- `EnforcementAction(action)` of what `json.loads` returned: a value that is no text is no action.
abbrev json_action : Json → Result EnforcementAction
json_action (str a) = action_of a
json_action _ = err (value_error "not a valid EnforcementAction")

unfoldable pub json_actions : List Json → Result (List EnforcementAction)
json_actions [] = ok []
json_actions (j ∷ js) = elim (json_action j) [
  | ok a ↦ elim (json_actions js) [ ok rest ↦ ok (a ∷ rest) | err e ↦ err e ]
  | err e ↦ err e
]

-- The validator of `evidence_ids: list[str]` takes a list of texts.
unfoldable pub text_items : Items → Result (List String)
text_items nil = ok []
text_items (cons (str s) js) = elim (text_items js) [ ok rest ↦ ok (s ∷ rest) | err e ↦ err e ]
text_items (cons _ js) = err (value_error "not a text")

abbrev pub text_list : Json → Result (List String)
text_list (arr js) = text_items js
text_list _ = err (value_error "not a list")

-- `props["sciguard:catalog_status"] not in {"HEALTHY", "RESOLVED"}`
abbrev pub persisted_context : String → Option String → Properties → AssetPolicyContext
persisted_context urn name props = record {
  urn = urn;
  name = name_or name urn;
  role = text_at "entity_role" "unknown" props;
  criticality = text_at "sciguard:criticality" "UNKNOWN" props;
  affected =
      not (contains (text_at "sciguard:catalog_status" "" props) ("HEALTHY" ∷ "RESOLVED" ∷ []));
}

persisted_actions : Result (List Json) → Result (List EnforcementAction)
persisted_actions (ok js) = json_actions js
persisted_actions (err e) = err e

persisted_evidence : Result Json → Result (List String)
persisted_evidence (ok j) = text_list j
persisted_evidence (err e) = err e

with_evidence : Result AssetPolicyDecision → Result (List String) → Result AssetPolicyDecision
with_evidence (ok d) (ok evidence) = ok (record d { evidence_ids = evidence })
with_evidence (ok d) (err e) = err e
with_evidence (err e) _ = err e

-- the decision that `from_datahub` rebuilds, once the required keys are there
unfoldable pub persisted_decision : String → Option String → Properties → Result AssetPolicyDecision
unfolding persisted_actions persisted_evidence with_evidence
persisted_decision urn name props =
    with_evidence
      (made_decision (persisted_context urn name props) []
        (text_at "sciguard:reason_code" "PERSISTED_CONTROL_STATE" props)
        (decision_of (text_at "sciguard:policy_decision" "" props))
        (status_of (text_at "sciguard:catalog_status" "" props))
        (persisted_actions
          (iterated_value (loads (value_at "sciguard:enforcement_actions" nothing props)))))
      (persisted_evidence (loads (value_at "sciguard:evidence_ids" nothing props)))
  where
    nothing : Json
    nothing = arr nil

abbrev single_plan : Properties → Result AssetPolicyDecision → Result PipelineController
single_plan props (ok d) = ok (
    new_pipeline
      (record { incident_id = text_at "sciguard:incident_id" "" props; decisions = d ∷ [] }))
single_plan props (err e) = err e

-- `LocalPipelineController.from_datahub`
unfoldable pub from_datahub : (c : Client) → c.Graph → String → Result PipelineController
from_datahub c g urn = elim (c.get_aspect g dataset_properties urn) [
  | none ↦ err (lookup_error "no DataHub properties found")
  | some a ↦
      let props = properties_in (some a) in
      if all (λ k. is_some (lookup k props)) required_keys
      then single_plan props (persisted_decision urn a.name props)
      else err (lookup_error "DataHub control state is incomplete")
]
