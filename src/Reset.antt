-- ===== src/Reset.antt =====
-- core/reset.py: the removal of what one incident wrote, planned and validated before the first
-- write. The incident's own entities, which the incident writer makes, are a record of calls beside
-- the client, with the documented effect of a deletion.
pub mod Frame
pub mod Owned
use sciguard_autopilot.Base.{
  ℕ, ◌+◌, ◌≡◌, String, Bool, true, false, not, ◌&&◌, ◌||◌, Option, none, some, List, [], ◌∷◌, ◌++◌,
  is_some, is_nil, length, keep_if, contains, dedupe, if◌then◌else◌, any, value_error, lookup_error,
  Result, ok, err, ◌==◌,
}
use sciguard_autopilot.Base.Raising.{◌>>=◌, ◌>>◌, raise_if}
use sciguard_autopilot.Base.Texts.{is_empty}
use sciguard_autopilot.Base.Dict.{Dict, lookup, keys}
use sciguard_autopilot.Base.Json.{Json, Items, nil, cons, str, arr}
use sciguard_autopilot.DataHub.{
  Value, text, dumped, Properties, AspectType, dataset_properties, same_aspect, Client,
}
use sciguard_autopilot.DataHub.Values.{properties_in, value_at, loads}
use sciguard_autopilot.MetadataWriter.{
  remove_aspect_custom_properties, remove_custom_properties, remove_tags,
}
use sciguard_autopilot.Enforcement.{status_tags, native_targets}

-- `sorted(INCIDENT_PROPERTY_KEYS)`
abbrev pub incident_property_keys : List String
incident_property_keys =
    "sciguard:catalog_status" ∷ "sciguard:controlled_urns" ∷ "sciguard:enforcement_actions"
    ∷ "sciguard:evidence_ids" ∷ "sciguard:evidence_summary" ∷ "sciguard:incident_id"
    ∷ "sciguard:incident_state" ∷ "sciguard:policy_decision" ∷ "sciguard:reason_code"
    ∷ "sciguard:recovery_evidence_ids" ∷ "sciguard:recovery_history" ∷ "sciguard:resume_authorized"
    ∷ "sciguard:status" ∷ []

pub record ResetReceipt : Type 0 where
  pub incident_id : String
  pub reset_urns : List String
  pub skipped_urns : List String
  pub removed_property_count : ℕ
  pub reset_native_projection_urns : List String
  pub skipped_native_projection_urns : List String
  pub deleted_incident_artifact_urns : List String

-- `properties.get("sciguard:incident_id") == incident_id`
abbrev pub is_own : Option Value → String → Bool
is_own (some (text s)) incident_id = s == incident_id
is_own _ incident_id = false

abbrev pub owns : String → Properties → Bool
owns incident_id props = is_own (lookup "sciguard:incident_id" props) incident_id

-- the incident's keys among the properties
abbrev pub own_keys : Properties → List String
own_keys props = keep_if (λ k. contains k (keys props)) incident_property_keys

abbrev with_urn : String → Result (List String) → Result (List String)
with_urn s (ok ss) = ok (s ∷ ss)
with_urn s (err e) = err e

abbrev pub urns_of : Items → Result (List String)
urns_of nil = ok []
urns_of (cons (str s) js) =
    let rest = with_urn s (urns_of js) in
    if is_empty s
    then err (value_error "persisted controlled URNs must contain non-empty strings")
    else rest
urns_of (cons _ js) = err (value_error "persisted controlled URNs must contain non-empty strings")

abbrev pub listed_urns : Json → Result (List String)
listed_urns (arr js) = urns_of js
listed_urns _ = err (value_error "persisted controlled URNs must be a list")

-- What a reset will touch: datasets with their properties, and native aspects.
pub record ResetPlan : Type 0 where
  pub datasets : List (String × Properties)
  pub skipped : List String
  pub targets : List (String × AspectType)

abbrev pub has_target : String × AspectType → List (String × AspectType) → Bool
has_target t ts = any (λ (s : String × AspectType). s.0 == t.0 && same_aspect s.1 t.1) ts

-- `list(dict.fromkeys(native_targets))`
abbrev distinct_from :
    List (String × AspectType) → List (String × AspectType) → List (String × AspectType)
distinct_from seen [] = []
distinct_from seen (t ∷ ts) =
    let skip = distinct_from seen ts in
    let keep = t ∷ distinct_from (t ∷ seen) ts in if has_target t seen then skip else keep

abbrev pub distinct_targets : List (String × AspectType) → List (String × AspectType)
distinct_targets = distinct_from []

abbrev control_last : String → List (String × Properties) → List (String × Properties)
control_last control_urn datasets =
    keep_if (λ (d : String × Properties). not (d.0 == control_urn)) datasets
    ++ keep_if (λ (d : String × Properties). d.0 == control_urn) datasets

-- What the writes have done so far.
pub record Done : Type 0 where
  pub urns : List String
  pub skipped : List String
  pub removed : ℕ

module _ (c : Client) where
  open c use {Graph, get_tags, emit_tags, get_aspect, emit_aspect}

  -- The native Incident's `customType`, the Decision Log's `sciguard:incident_id`, where the entity
  -- is there, and the deletion of an entity.
  pub record Artifacts : Type 1 where
    pub incident_urn : String → String
    pub decision_log_urn : String → String
    pub incident_type : Graph → String → Option (Option String)
    pub log_incident : Graph → String → Option (Option String)
    pub delete_entity : String → Graph → Graph
    pub aspect-delete_entity :
        (u v : String) (k : AspectType) (g : Graph)
        → (u == v) ≡ false
        → get_aspect (delete_entity u g) k v ≡ get_aspect g k v
    pub tags-delete_entity :
        (u v : String) (g : Graph)
        → (u == v) ≡ false
        → get_tags (delete_entity u g) v ≡ get_tags g v

  abbrev pub dataset_props : Graph → String → Properties
  dataset_props g urn = properties_in (get_aspect g dataset_properties urn)

  -- the loop that builds the plan
  unfoldable pub plan_from : String → List String → Graph → Result ResetPlan
  unfolding native_targets
  plan_from incident_id [] g = ok (record { datasets = []; skipped = []; targets = [] })
  plan_from incident_id (urn ∷ urns) g = do
    let props = dataset_props g urn
    targets ← (if owns incident_id props then native_targets props else ok [])
    rest ← plan_from incident_id urns g
    ok (
        if owns incident_id props
        then record rest {
          datasets = (urn, props) ∷ rest.datasets;
          targets = targets ++ rest.targets;
        }
        else record rest { skipped = urn ∷ rest.skipped })

  -- `_validate_incident_artifact_ownership`: the artifacts that are there
  abbrev foreign_type : Option (Option String) → Bool
  foreign_type none = false
  foreign_type (some none) = true
  foreign_type (some (some t)) = not (t == "SCIENTIFIC_DECISION_INTEGRITY")

  abbrev foreign_log : Option (Option String) → String → Bool
  foreign_log none incident_id = false
  foreign_log (some none) incident_id = true
  foreign_log (some (some s)) incident_id = not (s == incident_id)

  abbrev present : Bool → String → List String
  present true urn = urn ∷ []
  present false urn = []

  unfoldable pub owned_artifacts : Artifacts → String → Graph → Result (List String)
  owned_artifacts a incident_id g = do
    let incident = a.incident_urn incident_id
    raise_if (foreign_type (a.incident_type g incident))
        (lookup_error "refusing to delete a native Incident not owned by SciGuard")
    let log = a.decision_log_urn incident_id
    raise_if (foreign_log (a.log_incident g log) incident_id)
        (lookup_error "refusing to delete a native Decision Log not owned by this incident")
    ok (
        present (is_some (a.incident_type g incident)) incident
        ++ present (is_some (a.log_incident g log)) log)

  -- The writes, which raise nothing.
  unfoldable pub reset_targets : String → List (String × AspectType) → Graph → Done × Graph
  unfolding remove_aspect_custom_properties remove_tags
  reset_targets incident_id [] g = (record { urns = []; skipped = []; removed = 0 }, g)
  reset_targets incident_id ((urn, kind) ∷ targets) g =
      let props = properties_in (get_aspect g kind urn) in
      let cleaned =
        (remove_tags c urn status_tags
          (remove_aspect_custom_properties c urn kind (own_keys props) g).1).1 in
      let done = reset_targets incident_id targets cleaned in
      let skipped = reset_targets incident_id targets g in
      if owns incident_id props
      then (
        record (done.0) {
          urns = urn ∷ done.0.urns;
          removed = length (own_keys props) + done.0.removed;
        },
        done.1,
      )
      else (record (skipped.0) { skipped = urn ∷ skipped.0.skipped }, skipped.1)

  unfoldable pub delete_all : Artifacts → List String → Graph → Graph
  delete_all a [] g = g
  delete_all a (urn ∷ urns) g = delete_all a urns (a.delete_entity urn g)

  unfoldable pub reset_datasets : List (String × Properties) → Graph → Done × Graph
  unfolding remove_custom_properties remove_tags
  reset_datasets [] g = (record { urns = []; skipped = []; removed = 0 }, g)
  reset_datasets ((urn, props) ∷ datasets) g =
      let done =
        reset_datasets datasets
          (remove_tags c urn status_tags (remove_custom_properties c urn (own_keys props) g).1).1 in
      (
        record (done.0) {
          urns = urn ∷ done.0.urns;
          removed = length (own_keys props) + done.0.removed;
        },
        done.1,
      )

  abbrev pub carried_out :
      Artifacts → String → String → ResetPlan → List String → Graph → ResetReceipt × Graph
  carried_out a control_urn incident_id plan artifacts g =
      let native = reset_targets incident_id (distinct_targets plan.targets) g in
      let deleted = delete_all a artifacts native.1 in
      let datasets = reset_datasets (control_last control_urn plan.datasets) deleted in
      (
        record {
          incident_id = incident_id;
          reset_urns = datasets.0.urns;
          skipped_urns = plan.skipped;
          removed_property_count = native.0.removed + datasets.0.removed;
          reset_native_projection_urns = native.0.urns;
          skipped_native_projection_urns = native.0.skipped;
          deleted_incident_artifact_urns = artifacts;
        },
        datasets.1,
      )

  -- Everything before the first write.
  unfoldable pub reset_plan : Artifacts → String → String → Graph → Result (ResetPlan × List String)
  unfolding plan_from owned_artifacts
  reset_plan a control_urn incident_id g = do
    let control = dataset_props g control_urn
    raise_if (not (owns incident_id control))
        (lookup_error "control asset does not belong to incident")
    listed ← loads (value_at "sciguard:controlled_urns" (arr nil) control)
    urns ← listed_urns listed
    plan ← plan_from incident_id (dedupe (control_urn ∷ urns)) g
    artifacts ← owned_artifacts a incident_id g
    ok (plan, artifacts)

  abbrev pub after_plan :
      Artifacts
      → String
      → String
      → Graph
      → Result (ResetPlan × List String)
      → Result ResetReceipt × Graph
  after_plan a control_urn incident_id g (err e) = (err e, g)
  after_plan a control_urn incident_id g (ok (plan, artifacts)) =
      let (receipt, g') = carried_out a control_urn incident_id plan artifacts g in (ok receipt, g')

  unfoldable pub reset_incident_metadata :
      Artifacts → String → String → Graph → Result ResetReceipt × Graph
  unfolding reset_plan reset_targets delete_all reset_datasets
  reset_incident_metadata a control_urn incident_id g =
      after_plan a control_urn incident_id g (reset_plan a control_urn incident_id g)
