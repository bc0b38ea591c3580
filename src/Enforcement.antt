-- ===== src/Enforcement.antt =====
-- core/enforcement.py: the controls of a policy plan written to DataHub, on each controlled dataset
-- and mirrored to the native ML entities that its properties name.
pub mod Controls
pub mod Plan
pub mod Marks
use sciguard_autopilot.DataHub.Values.{properties_in}
use sciguard_autopilot.DataHub.Values.{text_at}
use sciguard_autopilot.Base.{
  ℕ, ◌≡◌, String, Bool, true, false, not, ◌&&◌, Option, none, some, List, [], ◌∷◌, ◌++◌, map,
  if◌then◌else◌, keep_if, length, Exception, value_error, Result, ok, err, ◌==◌,
}
use sciguard_autopilot.Base.Texts.{is_empty, lower, decimal}
use sciguard_autopilot.Base.Exec.{Exec, ◌>>=◌, ◌>>◌, pure, raise, lift, gets, modify}
use sciguard_autopilot.Base.Dict.{Dict, lookup}
use sciguard_autopilot.Base.Json.{Json, Fields, end, field, arr, obj, nil, str, str_array}
use sciguard_autopilot.DataHub.{
  Value, text, dumped, Properties, AspectType, dataset_properties, ml_feature_table, ml_model,
  ml_deployment, Client,
}
use sciguard_autopilot.MetadataWriter.{
  add_tags, remove_tags, add_custom_properties, add_aspect_custom_properties,
}
use sciguard_autopilot.Events.{EventRecorder, Emission, emit_if, enforcer, enforcement_applied}
use sciguard_autopilot.Policy.{
  PolicyDecision, CatalogStatus, EnforcementAction, write_back, decision_value, status_value,
  action_value, has_action, AssetPolicyDecision, PolicyPlan,
}
use Prim.Native.String.{◌++◌ as concat}

abbrev pub at_risk_tag : String
at_risk_tag = "urn:li:tag:sciguard:at-risk"

abbrev pub quarantined_tag : String
quarantined_tag = "urn:li:tag:sciguard:quarantined"

abbrev pub resolved_tag : String
resolved_tag = "urn:li:tag:sciguard:resolved"

-- `STATUS_TAGS.get(status)`
abbrev pub status_tag_of : CatalogStatus → Option String
status_tag_of CatalogStatus.healthy = none
status_tag_of CatalogStatus.at_risk = some at_risk_tag
status_tag_of CatalogStatus.quarantined = some quarantined_tag
status_tag_of CatalogStatus.resolved = some resolved_tag

-- `STATUS_TAGS.values()`
abbrev pub status_tags : List String
status_tags = at_risk_tag ∷ quarantined_tag ∷ resolved_tag ∷ []

-- `[tag for tag in STATUS_TAGS.values() if tag != status_tag]`
abbrev pub other_tags : String → List String
other_tags tag = keep_if (λ t. not (t == tag)) status_tags

-- `NATIVE_ASPECT_TYPES[name]`
abbrev pub native_aspect_type : String → Result AspectType
native_aspect_type name =
    if name == "MLFeatureTablePropertiesClass"
    then ok ml_feature_table
    else if name == "MLModelPropertiesClass"
    then ok ml_model
    else err (value_error "unsupported native projection aspect")

projection_targets : String → String → Result (List (String × AspectType))
projection_targets urn aspect =
    if is_empty urn
    then ok []
    else if is_empty aspect
    then ok []
    else elim (native_aspect_type aspect) [ ok kind ↦ ok ((urn, kind) ∷ []) | err e ↦ err e ]

deployment_targets : String → List (String × AspectType)
deployment_targets urn = if is_empty urn then [] else (urn, ml_deployment) ∷ []

-- the targets that `mirror_native_projection_state` collects before it writes
unfoldable pub native_targets : Properties → Result (List (String × AspectType))
unfolding projection_targets deployment_targets
native_targets props =
    elim (projection_targets (text_at "sciguard:native_projection_urn" "" props)
      (text_at "sciguard:native_projection_aspect" "" props)) [
        | ok ts ↦ ok (ts ++ deployment_targets (text_at "sciguard:native_deployment_urn" "" props))
        | err e ↦ err e
      ]

pub record EnforcementReceipt : Type 0 where
  pub incident_id : String
  pub urn : String
  pub decision : String
  pub catalog_status : String
  pub tags : List String
  pub properties : Properties
  pub evidence_ids : List String
  pub native_projection_urns : List String

-- `[item.urn for item in plan.decisions if WRITE_BACK in item.actions]`
abbrev pub controlled : List AssetPolicyDecision → List String
controlled [] = []
controlled (d ∷ ds) =
    if has_action write_back d.actions then d.urn ∷ controlled ds else controlled ds

-- what a new plan on the same incident keeps of the recovery history
abbrev pub existing_history : String → Properties → Value
existing_history incident props =
    if text_at "sciguard:incident_id" "" props == incident
    then elim (lookup "sciguard:recovery_history" props) [ none ↦ dumped (arr nil) | some v ↦ v ]
    else dumped (arr nil)

-- the properties that `enforce` writes on one asset
unfoldable pub control_updates :
    String → List String → AssetPolicyDecision → Properties → Properties
unfolding lower decimal
control_updates incident urns d existing =
    let status = status_value d.catalog_status in
    ("sciguard:incident_id", text incident)
    ∷ ("sciguard:incident_state", text status)
    ∷ ("sciguard:status", text (lower status))
    ∷ ("sciguard:policy_decision", text (decision_value d.decision))
    ∷ ("sciguard:catalog_status", text status)
    ∷ ("sciguard:enforcement_actions", dumped (str_array (map action_value d.actions)))
    ∷ ("sciguard:evidence_ids", dumped (str_array d.evidence_ids))
    ∷ (
      "sciguard:evidence_summary",
      text (decimal (length d.evidence_ids) " validated evidence item(s)"),
    )
    ∷ ("sciguard:reason_code", text d.reason_code)
    ∷ ("sciguard:controlled_urns", dumped (str_array urns))
    ∷ ("sciguard:recovery_history", existing_history incident existing)
    ∷ []

abbrev property_fields : Properties → Fields
property_fields [] = end
property_fields ((k, text v) ∷ d) = field k (str v) (property_fields d)
property_fields ((k, dumped v) ∷ d) = field k v (property_fields d)

-- `receipt.model_dump(mode="json")`; a property that holds JSON stands as that JSON.
abbrev pub receipt_payload : EnforcementReceipt → Dict Json
receipt_payload r =
    ("incident_id", str r.incident_id)
    ∷ ("urn", str r.urn)
    ∷ ("decision", str r.decision)
    ∷ ("catalog_status", str r.catalog_status)
    ∷ ("tags", str_array r.tags)
    ∷ ("properties", obj (property_fields r.properties))
    ∷ ("evidence_ids", str_array r.evidence_ids)
    ∷ ("native_projection_urns", str_array r.native_projection_urns)
    ∷ []

abbrev pub applied : AssetPolicyDecision → EnforcementReceipt → Emission
applied d receipt = record {
  actor = enforcer;
  event_type = enforcement_applied;
  summary = concat "Persisted " (concat (decision_value d.decision) (concat " control on " d.name));
  evidence_ids = d.evidence_ids;
  duration_ms = 0;
  payload = receipt_payload receipt;
  timestamp = none;
}

abbrev pub as_list : Option String → List String
as_list none = []
as_list (some t) = t ∷ []

module _ (c : Client) where
  open c use {Graph, get_aspect}

  -- the graph and the recorder that a component was given
  abbrev pub World : Type 0
  World = Graph × Option EventRecorder

  abbrev pub beside : {A : Type 0} → Option EventRecorder → Result A × Graph → Result A × World
  beside r (x, g) = (x, (g, r))

  abbrev pub before : {A : Type 0} → Graph → Result A × Option EventRecorder → Result A × World
  before g (x, r) = (x, (g, r))

  abbrev pub on_graph : {A : Type 0} → Exec Graph A → Exec World A
  on_graph m w = beside w.1 (m w.0)

  abbrev pub on_recorder : {A : Type 0} → Exec (Option EventRecorder) A → Exec World A
  on_recorder m w = before w.0 (m w.1)

  abbrev returned : {A : Type 0} → A × Graph → Result A × Graph
  returned (a, g) = (ok a, g)

  -- a call of a writer that does not raise
  abbrev pub calls : {A : Type 0} → (Graph → A × Graph) → Exec Graph A
  calls f g = returned (f g)

  -- `if status_tag: remove_tags(...)`
  unfoldable pub clear_tags : String → Option String → Graph → Graph
  clear_tags urn none g = g
  clear_tags urn (some tag) g = (remove_tags c urn (other_tags tag) g).1

  -- the tags of one native entity
  unfoldable pub retag : String → Option String → Graph → Graph
  unfolding clear_tags
  retag urn none g = g
  retag urn (some tag) g = (add_tags c urn (tag ∷ []) (clear_tags urn (some tag) g)).1

  -- the loop over the targets
  unfoldable pub mirror_targets :
      Properties → Option String → List (String × AspectType) → Exec Graph (List String)
  mirror_targets updates tag [] = pure []
  mirror_targets updates tag ((urn, kind) ∷ ts) = do
    modify (retag urn tag)
    add_aspect_custom_properties c urn kind updates
    written ← mirror_targets updates tag ts
    pure (urn ∷ written)

  unfoldable pub mirror_native_projection_state :
      Properties → Properties → Option String → Exec Graph (List String)
  mirror_native_projection_state existing updates tag = do
    targets ← lift (native_targets existing)
    mirror_targets updates tag targets

  -- the writes of the loop's body, without the event
  unfoldable pub control :
      String → List String → AssetPolicyDecision → Exec Graph EnforcementReceipt
  control incident urns d g =
      let existing = properties_in (get_aspect g dataset_properties d.urn) in
      let tag = status_tag_of d.catalog_status in
      let updates = control_updates incident urns d existing in
      (do
        modify (clear_tags d.urn tag)
        tags ← calls (add_tags c d.urn (as_list tag))
        properties ← calls (add_custom_properties c d.urn updates)
        native ← mirror_native_projection_state existing updates tag
        pure (record {
          incident_id = incident;
          urn = d.urn;
          decision = decision_value d.decision;
          catalog_status = status_value d.catalog_status;
          tags = tags;
          properties = properties;
          evidence_ids = d.evidence_ids;
          native_projection_urns = native;
        }))
        g

  -- the body of the loop for a decision that is written back, and then the rest of the loop
  abbrev pub hold :
      (ℕ → ℕ)
      → String
      → List String
      → AssetPolicyDecision
      → Exec World (List EnforcementReceipt)
      → Exec World (List EnforcementReceipt)
  hold clock incident urns d rest = do
    receipt ← on_graph (control incident urns d)
    on_recorder (emit_if clock (applied d receipt))
    receipts ← rest
    pure (receipt ∷ receipts)

  unfoldable pub enforce_all :
      (ℕ → ℕ)
      → String
      → List String
      → List AssetPolicyDecision
      → Exec World (List EnforcementReceipt)
  enforce_all clock incident urns [] = pure []
  enforce_all clock incident urns (d ∷ ds) =
      let rest = enforce_all clock incident urns ds in
      if has_action write_back d.actions then hold clock incident urns d rest else rest

  unfoldable pub enforce : (ℕ → ℕ) → PolicyPlan → Exec World (List EnforcementReceipt)
  enforce clock plan = enforce_all clock plan.incident_id (controlled plan.decisions) plan.decisions
