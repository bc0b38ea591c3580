-- ===== src/Profiles.antt =====
-- core/profiles.py: the models of a domain profile with their field validators.
pub mod Tokens
pub mod Loading
use sciguard_autopilot.Base.{
  ℕ, String, Bool, true, not, Option, List, [], ◌∷◌, if◌then◌else◌, all, contains, value_error,
  Result, ok, err,
}
use sciguard_autopilot.Base.Raising.{◌>>=◌, ◌>>◌, raise_if}
use sciguard_autopilot.Base.Dict.{Dict}

abbrev pub allowed_severity : List String
allowed_severity = "low" ∷ "medium" ∷ "high" ∷ "critical" ∷ []

abbrev pub allowed_decisions : List String
allowed_decisions = "HALT" ∷ "WARN" ∷ "ALLOW" ∷ []

abbrev pub allowed_catalog_statuses : List String
allowed_catalog_statuses = "HEALTHY" ∷ "AT_RISK" ∷ "QUARANTINED" ∷ "RESOLVED" ∷ []

abbrev pub allowed_actions : List String
allowed_actions =
    "QUARANTINE" ∷ "BLOCK_EXECUTION" ∷ "BLOCK_PUBLISH" ∷ "WRITE_BACK" ∷ "NOTIFY" ∷ "RESUME" ∷ []

pub record Rule : Type 0 where
  pub id : String
  pub field : String
  pub change : String
  pub severity : String
  pub accepted_units : List String
  pub remediation : List String

-- `Rule(...)`, with the validator `_known_severity`
unfoldable pub make_rule : Rule → Result Rule
make_rule r =
    if contains r.severity allowed_severity then ok r else err (value_error "unknown severity")

pub record ActionPolicyRule : Type 0 where
  pub decision : String
  pub catalog_status : String
  pub actions : List String

-- `ActionPolicyRule(...)`, with its three validators
unfoldable pub make_action_policy_rule : ActionPolicyRule → Result ActionPolicyRule
make_action_policy_rule r = do
  raise_if (not (contains r.decision allowed_decisions)) (value_error "unknown policy decision")
  raise_if (not (contains r.catalog_status allowed_catalog_statuses))
      (value_error "unknown catalog status")
  raise_if (not (all (λ a. contains a allowed_actions) r.actions))
      (value_error "unknown enforcement actions")
  ok r

pub record ActionPolicy : Type 0 where
  pub affected_roles : Dict ActionPolicyRule
  pub unaffected : ActionPolicyRule

unfoldable pub make_affected_roles : Dict ActionPolicyRule → Result (Dict ActionPolicyRule)
make_affected_roles [] = ok []
make_affected_roles ((role, r) ∷ d) = do
  r' ← make_action_policy_rule r
  rest ← make_affected_roles d
  ok ((role, r') ∷ rest)

-- `ActionPolicy.model_validate`
unfoldable pub make_action_policy : ActionPolicy → Result ActionPolicy
make_action_policy p = do
  roles ← make_affected_roles p.affected_roles
  unaffected ← make_action_policy_rule p.unaffected
  ok (record { affected_roles = roles; unaffected = unaffected })

pub record RecoveryPolicy : Type 0 where
  pub required_checks : List String
  pub consecutive_clean_runs : ℕ
  pub allow_one_clean_with_human_approval : Bool

pub record EscalationPolicy : Type 0 where
  pub minimum_severity : String
  pub decision_roles : List String
  pub require_decision_path : Bool

-- `EscalationPolicy()`
abbrev pub default_escalation : EscalationPolicy
default_escalation = record {
  minimum_severity = "high";
  decision_roles = "model" ∷ "decision_report" ∷ [];
  require_decision_path = true;
}

-- `EscalationPolicy(...)`, with the validator `_known_minimum_severity`
unfoldable pub make_escalation_policy : EscalationPolicy → Result EscalationPolicy
make_escalation_policy p =
    if contains p.minimum_severity allowed_severity
    then ok p
    else err (value_error "unknown escalation severity")

pub record Profile : Type 0 where
  pub name : String
  pub rules : List Rule
  pub action_policy : Option ActionPolicy
  pub recovery_policy : Option RecoveryPolicy
  pub escalation_policy : Option EscalationPolicy
