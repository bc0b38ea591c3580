-- ===== src/Sentinel/Escalation.antt =====
-- build_signal and decide_escalation of core/sentinel.py. `evidence_id` stands for
-- stable_evidence_id, a SHA-256 digest of a JSON value.
use sciguard_autopilot.Base.{
  String, Bool, not, ◌&&◌, ◌||◌, Option, none, some, List, [], ◌∷◌, ◌++◌, if◌then◌else◌, is_nil,
  contains, dedupe, Result, ok, err,
}
use sciguard_autopilot.Base.Texts.{is_empty}
use sciguard_autopilot.Base.Json.{
  Json, Items, nil, cons, end, field, null, bool, num, str, arr, obj, str_array,
}
use sciguard_autopilot.Profiles.{EscalationPolicy, default_escalation, Profile}
use sciguard_autopilot.Impact.{AffectedEntity, sorted, text_le}
use sciguard_autopilot.Sentinel.{
  severity_order, at_least, kind_value, Change, RuleFinding, RiskAssessment,
}

pub record DetectionSignal : Type 0 where
  pub signal_id : String
  pub changed_urn : String
  pub changes : List Change
  pub matched_rule_ids : List String
  pub severity : String
  pub initial_scope : List AffectedEntity
  pub decision_assets_reached : List String
  pub responsible_owners : List String
  pub evidence_ids : List String

pub record EscalationDecision : Type 0 where
  pub escalate : Bool
  pub reason_code : String
  pub minimum_severity : String
  pub triggered_roles : List String
  pub evidence_ids : List String

abbrev text_or_null : Option String → Json
text_or_null none = null
text_or_null (some s) = str s

abbrev change_json : Change → Json
change_json c = obj (
    field "kind" (str (kind_value c.kind)) (
      field "field" (str c.field_name)
        (field "before" (text_or_null c.before) (field "after" (text_or_null c.after) end))))

-- `item.model_dump(mode="json")` of a finding and of an affected entity
abbrev finding_json : RuleFinding → Json
finding_json f = obj (
    field "change" (change_json f.change) (
      field "rule_id" (str f.rule_id) (
        field "severity" (str f.severity) (
          field "accepted_units" (str_array f.accepted_units)
            (field "rationale" (str f.rationale) end)))))

abbrev entity_json : AffectedEntity → Json
entity_json a = obj (
    field "urn" (str a.urn) (
      field "name" (text_or_null a.name) (
        field "role" (str a.role)
          (field "degree" (num a.degree) (field "owners" (str_array a.owners) end)))))

abbrev json_list {ℓ} : {A : Type ℓ} → (A → Json) → List A → Items
json_list f [] = nil
json_list f (x ∷ xs) = cons (f x) (json_list f xs)

abbrev urn_list : List AffectedEntity → List String
urn_list [] = []
urn_list (a ∷ rest) = a.urn ∷ urn_list rest

abbrev rule_ids : List RuleFinding → List String
rule_ids [] = []
rule_ids (f ∷ fs) = f.rule_id ∷ rule_ids fs

abbrev changes_of : List RuleFinding → List Change
changes_of [] = []
changes_of (f ∷ fs) = f.change ∷ changes_of fs

-- `item.name or item.urn`
abbrev name_or_urn : Option String → String → String
name_or_urn none urn = urn
name_or_urn (some name) urn = if is_empty name then urn else name

abbrev pub decision_assets : List AffectedEntity → List String
decision_assets [] = []
decision_assets (a ∷ rest) =
    let others = decision_assets rest in
    if contains a.role ("model" ∷ "decision_report" ∷ [])
    then name_or_urn a.name a.urn ∷ others
    else others

-- `{item.role for item in scope if item.role in roles}`, with the repetitions that a set drops
abbrev pub roles_among : List String → List AffectedEntity → List String
roles_among roles [] = []
roles_among roles (a ∷ rest) =
    let others = roles_among roles rest in if contains a.role roles then a.role ∷ others else others

abbrev pub policy_of : Option EscalationPolicy → EscalationPolicy
policy_of none = default_escalation
policy_of (some p) = p

abbrev pub reason_for : Bool → Bool → String
reason_for severe_enough decision_path_ok =
    if not severe_enough
    then "BELOW_ESCALATION_SEVERITY"
    else if not decision_path_ok
    then "NO_DECISION_CRITICAL_PATH"
    else "SCIENTIFIC_CONTRACT_DRIFT_REACHES_DECISION"

module _ (evidence_id : String → Json → String) where
  unfoldable pub build_signal : String → RiskAssessment → DetectionSignal
  build_signal changed_urn r =
      let evidence =
        evidence_id "metadata-drift" (arr (json_list finding_json r.findings))
        ∷ evidence_id "initial-lineage-scope" (arr (json_list entity_json r.affected))
        ∷ [] in
      let assets = decision_assets r.affected in
      let payload = obj (
        field "changed_urn" (str changed_urn) (
          field "severity" (str r.overall_severity) (
            field "matched_rule_ids" (str_array (rule_ids r.findings)) (
              field "initial_scope_urns" (str_array (urn_list r.affected)) (
                field "decision_assets_reached" (str_array assets)
                  (field "evidence_ids" (str_array evidence) end)))))) in
      record {
        signal_id = evidence_id "detection-signal" payload;
        changed_urn = changed_urn;
        changes = changes_of r.findings;
        matched_rule_ids = rule_ids r.findings;
        severity = r.overall_severity;
        initial_scope = r.affected;
        decision_assets_reached = assets;
        responsible_owners = r.responsible_owners;
        evidence_ids = evidence;
      }

  abbrev pub escalation :
      EscalationPolicy → DetectionSignal → List String → Bool → Bool → EscalationDecision
  escalation policy signal roles severe_enough decision_path_ok =
      let reason = reason_for severe_enough decision_path_ok in
      let payload = obj (
        field "signal_id" (str signal.signal_id) (
          field "escalate" (bool (severe_enough && decision_path_ok)) (
            field "reason_code" (str reason) (
              field "minimum_severity" (str policy.minimum_severity)
                (field "triggered_roles" (str_array roles) end))))) in
      record {
        escalate = severe_enough && decision_path_ok;
        reason_code = reason;
        minimum_severity = policy.minimum_severity;
        triggered_roles = roles;
        evidence_ids = signal.evidence_ids ++ evidence_id "escalation" payload ∷ [];
      }

  unfoldable pub decide_escalation : Profile → DetectionSignal → Result EscalationDecision
  decide_escalation profile signal =
      let policy = policy_of profile.escalation_policy in
      let roles =
        sorted text_le (dedupe (roles_among policy.decision_roles signal.initial_scope)) in
      elim (at_least (severity_order signal.severity) (severity_order policy.minimum_severity)) [
        | err e ↦ err e
        | ok severe_enough ↦ ok (
            escalation policy signal roles severe_enough
              (not (is_nil roles) || not policy.require_decision_path))
      ]
