-- ===== src/Enforcement/Controls.antt =====
-- What the writes of core/enforcement.py on one asset leave in the graph: the tags and properties of
-- the asset, and those of every other dataset.
use sciguard_autopilot.DataHub.Values.{properties_in}
use sciguard_autopilot.DataHub.Values.{text_at}
use sciguard_autopilot.Base.{
  ◌≡◌, refl, ap, subst, ◌∙◌, String, false, Option, none, some, List, [], ◌∷◌, ◌++◌, inl, inr,
  arith, All, All-append, Result-cases, NoDup, Result, ok, err, ◌==◌,
}
use sciguard_autopilot.Base.Exec.{continue-keeps}
use sciguard_autopilot.Base.Dict.{lookup, keys, or_else}
use sciguard_autopilot.DataHub.{
  Properties, AspectType, same_aspect, Aspect, dataset_properties, Client,
}
use sciguard_autopilot.MetadataWriter.{
  add_tags, add_custom_properties, add_aspect_custom_properties,
}
use sciguard_autopilot.MetadataWriter.Tags.{get_aspect-add_tags, get_aspect-remove_tags}
use sciguard_autopilot.MetadataWriter.Props.{
  lookup-add_custom_properties, add_aspect_custom_properties_ne, add_custom_properties_ne,
}
use sciguard_autopilot.Policy.{AssetPolicyDecision}
use sciguard_autopilot.Enforcement.{
  status_tag_of, other_tags, native_aspect_type, projection_targets, deployment_targets,
  native_targets, control_updates, as_list, clear_tags, retag, mirror_targets,
  mirror_native_projection_state, control,
}

-- Targets whose aspect is not the one of a dataset.
abbrev pub IsNative : List (String × AspectType) → Type 0
IsNative = All (λ (t : String × AspectType). same_aspect t.1 dataset_properties ≡ false)

native_aspect_type-IsNative :
    (name : String) (k : AspectType)
    → native_aspect_type name ≡ ok k
    → same_aspect k dataset_properties ≡ false
native_aspect_type-IsNative name k h = ground arith

projection_targets-IsNative :
    (urn aspect : String) (ts : List (String × AspectType))
    → projection_targets urn aspect ≡ ok ts
    → IsNative ts
unfolding projection_targets
projection_targets-IsNative urn aspect ts h = ground (arith, native_aspect_type-IsNative aspect)

deployment_targets-IsNative : (urn : String) → IsNative (deployment_targets urn)
unfolding deployment_targets
deployment_targets-IsNative urn = ground arith

IsNative_ok :
    (x : Result (List (String × AspectType))) (more : List (String × AspectType))
    → ((ts : List (String × AspectType)) → x ≡ ok ts → IsNative ts)
    → IsNative more
    → (ts : List (String × AspectType))
    → ◌≡◌ {A = Result (List (String × AspectType))}
        (elim x [ ok us ↦ ok (us ++ more) | err e ↦ err e ])
        (ok ts)
    → IsNative ts
IsNative_ok (ok us) more h k ts e =
    subst IsNative (ground arith) (All-append _ us more (h us refl) k)
IsNative_ok (err x) more h k ts e = cc

-- No target is a dataset's own properties.
pub native_targets-IsNative :
    (props : Properties) (ts : List (String × AspectType))
    → native_targets props ≡ ok ts
    → IsNative ts
unfolding native_targets
native_targets-IsNative props ts h =
    let urn = text_at "sciguard:native_projection_urn" "" props in
    let aspect = text_at "sciguard:native_projection_aspect" "" props in
    let deployment = text_at "sciguard:native_deployment_urn" "" props in
    IsNative_ok (projection_targets urn aspect) (deployment_targets deployment)
      (projection_targets-IsNative urn aspect) (deployment_targets-IsNative deployment) ts h

module _ (c : Client) where
  open c use {Graph, get_aspect}

  abbrev pub dataset : String → Graph → Option Aspect
  dataset v g = get_aspect g dataset_properties v

  dataset-clear_tags :
      (u v : String) (tag : Option String) (g : Graph)
      → dataset v (clear_tags c u tag g) ≡ dataset v g
  unfolding clear_tags
  dataset-clear_tags u v none g = refl
  dataset-clear_tags u v (some t) g =
      get_aspect-remove_tags c dataset_properties u v (other_tags t) g

  dataset-retag :
      (u v : String) (tag : Option String) (g : Graph) → dataset v (retag c u tag g) ≡ dataset v g
  unfolding retag
  dataset-retag u v none g = refl
  dataset-retag u v (some t) g =
      get_aspect-add_tags c dataset_properties u v (t ∷ []) _ ∙ dataset-clear_tags u v (some t) g

  dataset-mirror_targets :
      (v : String) (updates : Properties) (tag : Option String) (ts : List (String × AspectType))
      (g : Graph)
      → IsNative ts
      → dataset v (mirror_targets c updates tag ts g).1 ≡ dataset v g
  unfolding mirror_targets
  dataset-mirror_targets v updates tag [] g h = refl
  dataset-mirror_targets v updates tag ((u, k) ∷ ts) g (native, h) =
      continue-keeps (λ g'. dataset v g' ≡ dataset v g)
        (add_aspect_custom_properties c u k updates (retag c u tag g)) _
        (add_aspect_custom_properties_ne c u v k dataset_properties updates (retag c u tag g)
            (rw native)
          ∙ dataset-retag u v tag g)
        (λ _ g₁ e.
          continue-keeps (λ g'. dataset v g' ≡ dataset v g) (mirror_targets c updates tag ts g₁) _
            (dataset-mirror_targets v updates tag ts g₁ h ∙ e) (λ _ g₂ e'. e'))

  -- Mirroring writes no dataset's own properties.
  pub dataset-mirror :
      (v : String) (existing updates : Properties) (tag : Option String) (g : Graph)
      → dataset v (mirror_native_projection_state c existing updates tag g).1 ≡ dataset v g
  unfolding mirror_native_projection_state
  dataset-mirror v existing updates tag g = elim (Result-cases (native_targets existing)) [
    | inl (ts, e) ↦
        rw e (dataset-mirror_targets v updates tag ts g (native_targets-IsNative existing ts e))
    | inr (x, e) ↦ rw e
  ]

  -- the properties that `control` writes, from those that it finds
  abbrev pub updates_on : String → List String → AssetPolicyDecision → Graph → Properties
  updates_on incident urns d g = control_updates incident urns d (properties_in (dataset d.urn g))

  -- the graph that `control` mirrors into
  abbrev pub controlled_graph : String → List String → AssetPolicyDecision → Graph → Graph
  controlled_graph incident urns d g =
      let tag = status_tag_of d.catalog_status in
      (add_custom_properties c d.urn (updates_on incident urns d g)
        (add_tags c d.urn (as_list tag) (clear_tags c d.urn tag g)).1).1

  -- What holds of that graph and is kept by mirroring holds after `control`, whether it raises or not.
  pub control-keeps :
      (P : Graph → Type 0) (incident : String) (urns : List String) (d : AssetPolicyDecision)
      (g : Graph)
      → (let x =
            mirror_native_projection_state c
              (properties_in (dataset d.urn g))
              (updates_on incident urns d g)
              (status_tag_of d.catalog_status)
              (controlled_graph incident urns d g) in
          P x.1)
      → P (control c incident urns d g).1
  unfolding control
  control-keeps P incident urns d g h = continue-keeps P _ _ h (λ _ g' k. k)

  -- `control` leaves the properties of every other dataset alone.
  pub dataset-control_ne :
      (incident v : String) (urns : List String) (d : AssetPolicyDecision) (g : Graph)
      → (d.urn == v) ≡ false
      → dataset v (control c incident urns d g).1 ≡ dataset v g
  dataset-control_ne incident v urns d g h =
      let tag = status_tag_of d.catalog_status in
      control-keeps (λ g'. dataset v g' ≡ dataset v g) incident urns d g
        (dataset-mirror v _ _ tag _
          ∙ add_custom_properties_ne c d.urn v _ _ h
          ∙ get_aspect-add_tags c dataset_properties d.urn v (as_list tag) _
          ∙ dataset-clear_tags d.urn v tag g)

  updates-NoDup :
      (incident : String) (urns : List String) (d : AssetPolicyDecision) (existing : Properties)
      → NoDup (keys (control_updates incident urns d existing))
  unfolding control_updates
  updates-NoDup incident urns d existing = ground arith

  -- It gives its dataset the new properties, and keeps the others.
  pub lookup-control :
      (incident key : String) (urns : List String) (d : AssetPolicyDecision) (g : Graph)
      → lookup key (properties_in (dataset d.urn (control c incident urns d g).1))
        ≡ or_else
            (lookup key (updates_on incident urns d g))
            (lookup key (properties_in (dataset d.urn g)))
  lookup-control incident key urns d g =
      let tag = status_tag_of d.catalog_status in
      let new = updates_on incident urns d g in
      control-keeps
        (λ g'.
          lookup key (properties_in (dataset d.urn g'))
          ≡ or_else (lookup key new) (lookup key (properties_in (dataset d.urn g))))
        incident urns d g
        (rw (dataset-mirror d.urn) (
          lookup-add_custom_properties c d.urn key new _ (updates-NoDup incident urns d _)
          ∙ ap (λ a. or_else (lookup key new) (lookup key (properties_in a)))
              (get_aspect-add_tags c dataset_properties d.urn d.urn (as_list tag) _
                ∙ dataset-clear_tags d.urn d.urn tag g)))
