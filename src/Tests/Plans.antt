-- ===== src/Tests/Plans.antt =====
-- core/policy_engine.py and core/enforcement.py at concrete inputs.
use sciguard_autopilot.Base.{
  ℕ, ◌≡◌, refl, String, Bool, true, false, ◌&&◌, ◌||◌, Option, none, some, List, [], ◌∷◌, inl, inr,
  All, NoDup, contains, Result, ok, err,
}
use sciguard_autopilot.Base.Json.{null}
use sciguard_autopilot.Base.Texts.{strip, lstrip, rstrip}
use sciguard_autopilot.Events.{
  EventRecorder, unique_evidence_ids, validate_event_stream, new_recorder, emit_if,
}
use sciguard_autopilot.Events.Recorder.{new_recorder-IsRecorder}
use sciguard_autopilot.Events.Accepted.{IsReady}
use sciguard_autopilot.Profiles.{
  ActionPolicy, Profile, make_action_policy, make_affected_roles, make_action_policy_rule,
}
use sciguard_autopilot.DataHub.{Value_discrete, text, Aspect}
use sciguard_autopilot.DataHub.Store.{Memory, memory}
use sciguard_autopilot.MetadataWriter.{
  dict_eq, new_association, add_tags, remove_tags, add_custom_properties,
  add_aspect_custom_properties,
}
use sciguard_autopilot.Policy.{
  halt, allow, healthy, quarantined, write_back, block_execution, decision_of, status_of, action_of,
  actions_of, AssetPolicyContext, AssetPolicyDecision, PolicyPlan, rule_for, made_decision,
  decide_asset, decide_all, decide,
}
use sciguard_autopilot.Policy.Decisions.{Lawful, decide-Lawful}
use sciguard_autopilot.Policy.Total.{decide_total}
use sciguard_autopilot.Enforcement.{
  EnforcementReceipt, World, status_tag_of, controlled, control, native_targets, control_updates,
  clear_tags, retag, mirror_targets, mirror_native_projection_state, enforce_all, enforce,
}
use sciguard_autopilot.Enforcement.Controls.{dataset}
use sciguard_autopilot.Enforcement.Plan.{
  receipt_urns, IsEnforced, enforce-others, enforce-IsEnforced,
}
use sciguard_autopilot.Enforcement.Marks.{has_tag, after_retag, has_tag-control}

abbrev pub clock : ℕ → ℕ
clock n = n

abbrev policy : ActionPolicy
policy = record {
  affected_roles =
      (
        "model",
        record {
          decision = "HALT";
          catalog_status = "QUARANTINED";
          actions = "BLOCK_EXECUTION" ∷ "WRITE_BACK" ∷ [];
        },
      )
      ∷ [];
  unaffected = record { decision = "ALLOW"; catalog_status = "HEALTHY"; actions = [] };
}

abbrev profile : Profile
profile = record {
  name = "polymer";
  rules = [];
  action_policy = some policy;
  recovery_policy = none;
  escalation_policy = none;
}

abbrev model_asset : AssetPolicyContext
model_asset = record {
  urn = "urn:model";
  name = "model";
  role = "model";
  criticality = "high";
  affected = true;
}

abbrev report_asset : AssetPolicyContext
report_asset = record {
  urn = "urn:report";
  name = "report";
  role = "report";
  criticality = "low";
  affected = false;
}

abbrev assets : List AssetPolicyContext
assets = model_asset ∷ report_asset ∷ []

abbrev pub model_decision : AssetPolicyDecision
model_decision = record {
  context = model_asset;
  decision = halt;
  catalog_status = quarantined;
  actions = block_execution ∷ write_back ∷ [];
  reason_code = "AFFECTED_MODEL";
  evidence_ids = "e1" ∷ [];
}

abbrev pub report_decision : AssetPolicyDecision
report_decision = record {
  context = report_asset;
  decision = allow;
  catalog_status = healthy;
  actions = [];
  reason_code = "UNAFFECTED_BRANCH";
  evidence_ids = "e1" ∷ [];
}

abbrev pub plan : PolicyPlan
plan = record { incident_id = "INC-1"; decisions = model_decision ∷ report_decision ∷ [] }

decide-Lawful_example :
    (p : ActionPolicy) × (profile.action_policy ≡ some p)
    × (plan.incident_id ≡ "INC-1")
    × Lawful clock p ("e1" ∷ []) assets plan.decisions
decide-Lawful_example = decide-Lawful clock profile "INC-1" assets ("e1" ∷ []) none none plan (
    unfold decide decide_all decide_asset rule_for made_decision decision_of status_of action_of
      actions_of emit_if sciguard_autopilot.Base.Texts.upper in
    refl)

abbrev recorder : EventRecorder
recorder = record { incident_id = "INC-1"; events = []; delivered = some [] }

recorder-IsReady : IsReady (some recorder)
recorder-IsReady =
    new_recorder-IsRecorder " INC-1" (some []) recorder
      (unfold new_recorder strip lstrip rstrip validate_event_stream in refl)

decide_total_example :
    (ds : List AssetPolicyDecision) × (w' : Option EventRecorder) × (decide clock profile "INC-1"
        assets
        ("e1" ∷ [])
        (some recorder)
      ≡ (ok (record { incident_id = "INC-1"; decisions = ds }), w'))
    × IsReady w'
decide_total_example =
    decide_total clock profile policy policy "INC-1" assets ("e1" ∷ []) (some recorder)
      (unfold make_action_policy make_affected_roles make_action_policy_rule in refl) refl
      (inr refl, (inl refl, tt)) (inr (unfold unique_evidence_ids strip lstrip rstrip in refl))
      recorder-IsReady

abbrev projected : Aspect
projected = record {
  name = none;
  custom_properties = some (
      ("owner", text "ana")
      ∷ ("sciguard:native_projection_urn", text "urn:native")
      ∷ ("sciguard:native_projection_aspect", text "MLModelPropertiesClass")
      ∷ []);
  fields = null;
}

-- Every entity is AT_RISK, and names a native model.
abbrev graph : Memory
graph = record {
  tags = λ v. some (new_association "urn:li:tag:sciguard:at-risk" ∷ []);
  aspects = λ k v. some projected;
}

abbrev pub world : World memory
world = (graph, none)

enforce-others_example :
    dataset memory "urn:report" (enforce memory clock plan world).1.0
    ≡ dataset memory "urn:report" graph
enforce-others_example = enforce-others memory clock plan "urn:report" world refl

has_tag-control_example :
    has_tag memory "urn:model" "urn:li:tag:sciguard:at-risk"
      (control memory "INC-1" ("urn:model" ∷ []) model_decision graph).1
    ≡ after_retag
        (status_tag_of quarantined)
        "urn:li:tag:sciguard:at-risk"
        (has_tag memory "urn:model" "urn:li:tag:sciguard:at-risk" graph)
has_tag-control_example =
    has_tag-control memory "INC-1" "urn:li:tag:sciguard:at-risk" ("urn:model" ∷ []) model_decision
      graph

abbrev returned : Result (List EnforcementReceipt) → List EnforcementReceipt
returned (ok rs) = rs
returned (err _) = []

abbrev pub receipts : List EnforcementReceipt
receipts = returned (enforce memory clock plan world).0

pub enforce_returns :
    enforce memory clock plan world ≡ (ok receipts, (enforce memory clock plan world).1)
unfolding enforce enforce_all control control_updates clear_tags retag mirror_targets
    mirror_native_projection_state native_targets add_tags remove_tags add_custom_properties
    add_aspect_custom_properties dict_eq Value_discrete emit_if
enforce_returns = refl

enforce-IsEnforced_example :
    All
      (IsEnforced memory "INC-1"
        (controlled plan.decisions)
        world
        (enforce memory clock plan world).1)
      plan.decisions
    × (receipt_urns receipts ≡ controlled plan.decisions)
enforce-IsEnforced_example =
    enforce-IsEnforced memory clock plan world (enforce memory clock plan world).1 receipts
      (refl, tt) enforce_returns
