-- ===== src/Policy.antt =====
-- core/policy_engine.py: one decision for each asset, from the profile's action policy.
pub mod Decisions
pub mod Total
use Prim.Native.String.{◌++◌ as concat}
use sciguard_autopilot.Base.{
  ℕ, String, Bool, true, false, not, Option, none, some, List, [], ◌∷◌, if◌then◌else◌, map,
  Exception, value_error, Result, ok, err, ◌==◌,
}
use sciguard_autopilot.Base.Texts.{upper}
use sciguard_autopilot.Base.Exec.{Exec, ◌>>=◌, ◌>>◌, pure, raise, lift, or_raise}
use sciguard_autopilot.Base.Dict.{Dict, lookup}
use sciguard_autopilot.Base.Json.{Json, str, bool, str_array}
use sciguard_autopilot.Events.{EventRecorder, Emission, emit_if, policy_guardian, policy_decided}
use sciguard_autopilot.Profiles.{ActionPolicyRule, ActionPolicy, Profile}

pub data PolicyDecision : Type 0 where
  halt warn allow : PolicyDecision

pub data CatalogStatus : Type 0 where
  healthy at_risk quarantined resolved : CatalogStatus

pub data EnforcementAction : Type 0 where
  quarantine block_execution block_publish write_back notify resume : EnforcementAction

abbrev pub decision_value : PolicyDecision → String
decision_value halt = "HALT"
decision_value warn = "WARN"
decision_value allow = "ALLOW"

abbrev pub status_value : CatalogStatus → String
status_value healthy = "HEALTHY"
status_value at_risk = "AT_RISK"
status_value quarantined = "QUARANTINED"
status_value resolved = "RESOLVED"

abbrev pub action_value : EnforcementAction → String
action_value quarantine = "QUARANTINE"
action_value block_execution = "BLOCK_EXECUTION"
action_value block_publish = "BLOCK_PUBLISH"
action_value write_back = "WRITE_BACK"
action_value notify = "NOTIFY"
action_value resume = "RESUME"

-- `PolicyDecision(text)`, and so for the other two
unfoldable pub decision_of : String → Result PolicyDecision
decision_of v =
    if v == "HALT"
    then ok halt
    else if v == "WARN"
    then ok warn
    else if v == "ALLOW"
    then ok allow
    else err (value_error "not a valid PolicyDecision")

unfoldable pub status_of : String → Result CatalogStatus
status_of v =
    if v == "HEALTHY"
    then ok healthy
    else if v == "AT_RISK"
    then ok at_risk
    else if v == "QUARANTINED"
    then ok quarantined
    else if v == "RESOLVED"
    then ok resolved
    else err (value_error "not a valid CatalogStatus")

unfoldable pub action_of : String → Result EnforcementAction
action_of v =
    if v == "QUARANTINE"
    then ok quarantine
    else if v == "BLOCK_EXECUTION"
    then ok block_execution
    else if v == "BLOCK_PUBLISH"
    then ok block_publish
    else if v == "WRITE_BACK"
    then ok write_back
    else if v == "NOTIFY"
    then ok notify
    else if v == "RESUME"
    then ok resume
    else err (value_error "not a valid EnforcementAction")

-- `[EnforcementAction(action) for action in actions]`
unfoldable pub actions_of : List String → Result (List EnforcementAction)
actions_of [] = ok []
actions_of (a ∷ rest) = elim (action_of a) [
  | ok x ↦ elim (actions_of rest) [ ok xs ↦ ok (x ∷ xs) | err e ↦ err e ]
  | err e ↦ err e
]

-- `action in actions`
abbrev pub has_action : EnforcementAction → List EnforcementAction → Bool
has_action a [] = false
has_action a (x ∷ xs) = if action_value x == action_value a then true else has_action a xs

pub record AssetPolicyContext : Type 0 where
  pub urn : String
  pub name : String
  pub role : String
  pub criticality : String
  pub affected : Bool

pub record AssetPolicyDecision : Type 0 where
  pub context : AssetPolicyContext
  pub open context use *
  pub decision : PolicyDecision
  pub catalog_status : CatalogStatus
  pub actions : List EnforcementAction
  pub reason_code : String
  pub evidence_ids : List String

pub record PolicyPlan : Type 0 where
  pub incident_id : String
  pub decisions : List AssetPolicyDecision

-- `decision.model_dump(mode="json")`
abbrev pub decision_payload : AssetPolicyDecision → Dict Json
decision_payload d =
    ("urn", str d.urn)
    ∷ ("name", str d.name)
    ∷ ("role", str d.role)
    ∷ ("criticality", str d.criticality)
    ∷ ("affected", bool d.affected)
    ∷ ("decision", str (decision_value d.decision))
    ∷ ("catalog_status", str (status_value d.catalog_status))
    ∷ ("actions", str_array (map action_value d.actions))
    ∷ ("reason_code", str d.reason_code)
    ∷ ("evidence_ids", str_array d.evidence_ids)
    ∷ []

-- the rule of an asset and its reason code
unfoldable pub rule_for : ActionPolicy → AssetPolicyContext → Result (ActionPolicyRule × String)
rule_for policy asset =
    if asset.affected
    then elim (lookup asset.role policy.affected_roles) [
      | none ↦ err (value_error "no affected-role policy")
      | some rule ↦ ok (rule, concat "AFFECTED_" (upper asset.role))
    ]
    else ok (policy.unaffected, "UNAFFECTED_BRANCH")

unfoldable pub made_decision :
    AssetPolicyContext
    → List String
    → String
    → Result PolicyDecision
    → Result CatalogStatus
    → Result (List EnforcementAction)
    → Result AssetPolicyDecision
made_decision asset evidence reason (ok d) (ok s) (ok a) = ok (record {
  context = asset;
  decision = d;
  catalog_status = s;
  actions = a;
  reason_code = reason;
  evidence_ids = evidence;
})
made_decision asset evidence reason (err e) _ _ = err e
made_decision asset evidence reason (ok _) (err e) _ = err e
made_decision asset evidence reason (ok _) (ok _) (err e) = err e

-- the body of the loop in `decide`, before its event
unfoldable pub decide_asset :
    ActionPolicy → List String → AssetPolicyContext → Result AssetPolicyDecision
unfolding rule_for made_decision
decide_asset policy evidence asset = elim (rule_for policy asset) [
  | ok (rule, reason) ↦
      made_decision asset evidence reason (decision_of rule.decision)
        (status_of rule.catalog_status) (actions_of rule.actions)
  | err e ↦ err e
]

abbrev pub decided : List String → AssetPolicyDecision → Emission
decided evidence d = record {
  actor = policy_guardian;
  event_type = policy_decided;
  summary =
      concat d.name
        (concat ": " (concat (decision_value d.decision) (concat " (" (concat d.reason_code ")"))));
  evidence_ids = evidence;
  duration_ms = 0;
  payload = decision_payload d;
  timestamp = none;
}

unfoldable pub decide_all :
    (ℕ → ℕ)
    → ActionPolicy
    → List String
    → List AssetPolicyContext
    → Exec (Option EventRecorder) (List AssetPolicyDecision)
decide_all clock policy evidence [] = pure []
decide_all clock policy evidence (asset ∷ assets) = do
  d ← lift (decide_asset policy evidence asset)
  emit_if clock (decided evidence d)
  ds ← decide_all clock policy evidence assets
  pure (d ∷ ds)

unfoldable pub decide :
    (ℕ → ℕ)
    → Profile
    → String
    → List AssetPolicyContext
    → List String
    → Exec (Option EventRecorder) PolicyPlan
unfolding decide_all
decide clock profile incident_id assets evidence = do
  policy ← or_raise profile.action_policy (value_error "profile has no action_policy")
  decisions ← decide_all clock policy evidence assets
  pure (record { incident_id = incident_id; decisions = decisions })
