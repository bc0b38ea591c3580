-- ===== src/Pipeline/Restart.antt =====
-- A controller of core/pipeline_controller.py that is started from what core/enforcement.py wrote
-- holds the plan's decision.
use sciguard_autopilot.Base.{
  ℕ, ◌≡◌, refl, sym, ap, ap₂, subst, ◌∙◌, ◌⊎◌, inl, inr, String, true, false, Option, none, some,
  List, [], ◌∷◌, map, arith, All, NoDup, Option-cases, all, is_some, Result, ok,
}
use sciguard_autopilot.Base.Dict.{lookup, or_else}
use sciguard_autopilot.Base.Json.{Json, str_items, str_array, arr, nil}
use sciguard_autopilot.DataHub.{Value, text, dumped, Properties, dataset_properties, Aspect, Client}
use sciguard_autopilot.DataHub.Values.{
  text_of, text_at, value_at, loads, item_list, iterated_value, properties_in,
}
use sciguard_autopilot.Policy.{
  PolicyDecision, CatalogStatus, EnforcementAction, decision_value, status_value, action_value,
  decision_of, status_of, action_of, has_action, write_back, AssetPolicyDecision, PolicyPlan,
  made_decision,
}
use sciguard_autopilot.Enforcement.{EnforcementReceipt, World, controlled, control_updates, enforce}
use sciguard_autopilot.Enforcement.Controls.{dataset}
use sciguard_autopilot.Enforcement.Plan.{IsEnforced, enforce-IsEnforced}
use sciguard_autopilot.Pipeline.{
  PipelineController, new_pipeline, json_actions, text_items, persisted_context, persisted_decision,
  persisted_actions, persisted_evidence, with_evidence, required_keys, from_datahub,
}

decision_of-decision_value : (d : PolicyDecision) → decision_of (decision_value d) ≡ ok d
unfolding decision_of
decision_of-decision_value PolicyDecision.halt = refl
decision_of-decision_value _ = refl

status_of-status_value : (s : CatalogStatus) → status_of (status_value s) ≡ ok s
unfolding status_of
status_of-status_value CatalogStatus.healthy = refl
status_of-status_value _ = refl

action_of-action_value : (a : EnforcementAction) → action_of (action_value a) ≡ ok a
unfolding action_of
action_of-action_value EnforcementAction.quarantine = refl
action_of-action_value _ = refl

json_actions-str_items :
    (xs : List EnforcementAction)
    → json_actions (item_list (str_items (map action_value xs))) ≡ ok xs
unfolding json_actions
json_actions-str_items [] = refl
json_actions-str_items (x ∷ xs) =
    ground (arith, action_of-action_value x, json_actions-str_items xs)

text_items-str_items : (xs : List String) → text_items (str_items xs) ≡ ok xs
unfolding text_items
text_items-str_items [] = refl
text_items-str_items (x ∷ xs) = rw (text_items-str_items xs)

text_at_found :
    (key default t : String) (props : Properties)
    → lookup key props ≡ some (text t)
    → text_at key default props ≡ t
text_at_found key default t props e =
    ap (λ (o : Option Value). elim o [ none ↦ default | some v ↦ text_of v ]) e

value_at_found :
    (key : String) (default : Json) (v : Value) (props : Properties)
    → lookup key props ≡ some v
    → value_at key default props ≡ v
value_at_found key default v props e =
    ap (λ (o : Option Value). elim o [ none ↦ dumped default | some w ↦ w ]) e

-- What a dataset's properties hold once a decision was written to it.
abbrev pub Holds : String → AssetPolicyDecision → Properties → Type 0
Holds incident d props =
    (lookup "sciguard:incident_id" props ≡ some (text incident))
    × (lookup "sciguard:policy_decision" props ≡ some (text (decision_value d.decision)))
    × (lookup "sciguard:catalog_status" props ≡ some (text (status_value d.catalog_status)))
    × (lookup "sciguard:enforcement_actions" props
        ≡ some (dumped (str_array (map action_value d.actions))))
    × (lookup "sciguard:evidence_ids" props ≡ some (dumped (str_array d.evidence_ids)))
    × (lookup "sciguard:reason_code" props ≡ some (text d.reason_code))

enforced-Holds :
    (incident : String) (urns : List String) (d : AssetPolicyDecision) (old props : Properties)
    → ((key : String)
        → lookup key props
          ≡ or_else (lookup key (control_updates incident urns d old)) (lookup key old))
    → Holds incident d props
unfolding control_updates
enforced-Holds incident urns d old props h = (
  h "sciguard:incident_id",
  h "sciguard:policy_decision",
  h "sciguard:catalog_status",
  h "sciguard:enforcement_actions",
  h "sciguard:evidence_ids",
  h "sciguard:reason_code",
)

-- The decision that a fresh controller holds is the one that was enforced.
pub record IsSame (urn : String) (d p : AssetPolicyDecision) : Type 0 where
  pub urn_of : p.urn ≡ urn
  pub decision : p.decision ≡ d.decision
  pub catalog_status : p.catalog_status ≡ d.catalog_status
  pub actions : p.actions ≡ d.actions
  pub reason_code : p.reason_code ≡ d.reason_code
  pub evidence_ids : p.evidence_ids ≡ d.evidence_ids

persisted_decision-Holds :
    (incident urn : String) (name : Option String) (d : AssetPolicyDecision) (props : Properties)
    → Holds incident d props
    → persisted_decision urn name props
      ≡ ok (record d { context = persisted_context urn name props })
unfolding persisted_decision made_decision persisted_actions persisted_evidence
persisted_decision-Holds incident urn name d props (_, decided, status, acts, evidence, reason) =
    let made = made_decision (persisted_context urn name props) [] in
    let r =
      text_at_found "sciguard:reason_code" "PERSISTED_CONTROL_STATE" d.reason_code props reason in
    let e₁ =
      ap decision_of
        (text_at_found "sciguard:policy_decision" "" (decision_value d.decision) props decided)
      ∙ decision_of-decision_value d.decision in
    let e₂ =
      ap status_of
        (text_at_found "sciguard:catalog_status" "" (status_value d.catalog_status) props status)
      ∙ status_of-status_value d.catalog_status in
    let e₃ =
      ap (λ (v : Value). persisted_actions (iterated_value (loads v)))
        (value_at_found "sciguard:enforcement_actions" (arr nil) _ props acts)
      ∙ json_actions-str_items d.actions in
    let e₄ =
      ap (λ (v : Value). persisted_evidence (loads v))
        (value_at_found "sciguard:evidence_ids" (arr nil) _ props evidence)
      ∙ text_items-str_items d.evidence_ids in
    ap₂ with_evidence
      (ap₂ (λ x y. made r₀ x y actions₀) e₁ e₂
        ∙ ap₂ (λ x y. made x (ok d.decision) (ok d.catalog_status) y) r e₃)
      e₄
  where
    r₀ : String
    r₀ = text_at "sciguard:reason_code" "PERSISTED_CONTROL_STATE" props

    actions₀ : Result (List EnforcementAction)
    actions₀ =
        persisted_actions
          (iterated_value (loads (value_at "sciguard:enforcement_actions" (arr nil) props)))

required-Holds :
    (incident : String) (d : AssetPolicyDecision) (props : Properties)
    → Holds incident d props
    → all (λ k. is_some (lookup k props)) required_keys ≡ true
required-Holds incident d props (id, decided, status, acts, _, _) = rw (id, decided, status, acts)

-- The controller that holds one decision of an incident.
abbrev pub holding : String → AssetPolicyDecision → PipelineController
holding incident p = new_pipeline (record { incident_id = incident; decisions = p ∷ [] })

module _ (c : Client) where
  open c use {Graph, get_aspect}

  from_datahub-Holds :
      (incident : String) (d : AssetPolicyDecision) (g : Graph)
      → Holds incident d (properties_in (dataset c d.urn g))
      → (p : AssetPolicyDecision) × (from_datahub c g d.urn ≡ ok (holding incident p))
        × IsSame d.urn d p
  unfolding from_datahub
  from_datahub-Holds incident d g h = elim (Option-cases (get_aspect g dataset_properties d.urn)) [
    | inl missing ↦
        let found : none ≡ some (text incident) =
          sym (ap (λ (a : Option Aspect). lookup "sciguard:incident_id" (properties_in a)) missing)
          ∙ h.0 in
        absurd (ground arith)
    | inr (a, e) ↦
        let props = properties_in (some a) in
        let h' = subst (λ o. Holds incident d (properties_in o)) e h in
        let p = persisted_decision-Holds incident d.urn a.name d props h' in
        (
          record d { context = persisted_context d.urn a.name props },
          rw (e, from_datahub)
              (rw (required-Holds incident d props h', p)
                (ap
                  (λ i.
                    ok (holding i (record d { context = persisted_context d.urn a.name props })))
                  (text_at_found "sciguard:incident_id" "" incident props h'.0))),
          record {
            urn_of = refl;
            decision = refl;
            catalog_status = refl;
            actions = refl;
            reason_code = refl;
            evidence_ids = refl;
          },
        )
  ]

  -- A decision comes back from DataHub: it asks for no write, or a controller started from its dataset
  -- holds it, for the same incident.
  abbrev pub IsRestored : String → Graph → AssetPolicyDecision → Type 0
  IsRestored incident g d =
      (has_action write_back d.actions ≡ false)
      ⊎ ((p : AssetPolicyDecision) × (from_datahub c g d.urn ≡ ok (holding incident p))
          × IsSame d.urn d p)

  IsEnforced-IsRestored :
      (incident : String) (urns : List String) (w w' : World c) (ds : List AssetPolicyDecision)
      → All (IsEnforced c incident urns w w') ds
      → All (IsRestored incident w'.0) ds
  IsEnforced-IsRestored incident urns w w' [] h = tt
  IsEnforced-IsRestored incident urns w w' (d ∷ ds) (inl free, hs) =
      (inl free, IsEnforced-IsRestored incident urns w w' ds hs)
  IsEnforced-IsRestored incident urns w w' (d ∷ ds) (inr written, hs) = (
    inr (
        from_datahub-Holds incident d w'.0
          (enforced-Holds incident urns d (properties_in (dataset c d.urn w.0)) _ written)),
    IsEnforced-IsRestored incident urns w w' ds hs,
  )

  -- A plan survives a restart: when `enforce` has returned on a plan whose write-backs name distinct
  -- datasets, a controller that is started from any of those datasets holds the plan's incident ID
  -- and one decision, with the decision, status, actions, reason code and evidence of the plan.
  pub from_datahub-enforce :
      (clock : ℕ → ℕ) (plan : PolicyPlan) (w w' : World c) (out : List EnforcementReceipt)
      → NoDup (controlled plan.decisions)
      → enforce c clock plan w ≡ (ok out, w')
      → All (IsRestored plan.incident_id w'.0) plan.decisions
  from_datahub-enforce clock plan w w' out n h =
      IsEnforced-IsRestored plan.incident_id (controlled plan.decisions) w w' plan.decisions
        (enforce-IsEnforced c clock plan w w' out n h).0
