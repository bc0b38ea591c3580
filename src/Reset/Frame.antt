-- ===== src/Reset/Frame.antt =====
-- Which entities the writes of core/reset.py leave alone.
use sciguard_autopilot.Base.{
  ◌≡◌, refl, ◌∙◌, inl, inr, String, false, List, [], ◌∷◌, arith, contains, Bool-cases, Option-cases,
  ◌==◌,
}
use sciguard_autopilot.DataHub.{Properties, AspectType, dataset_properties, Client}
use sciguard_autopilot.DataHub.Values.{properties_in}
use sciguard_autopilot.MetadataWriter.{
  remove_aspect_custom_properties, remove_custom_properties, remove_tags,
}
use sciguard_autopilot.MetadataWriter.Props.{write_other, write_tags}
use sciguard_autopilot.MetadataWriter.Tags.{get_aspect-remove_tags, get_tags-remove_tags_ne}
use sciguard_autopilot.Enforcement.{status_tags}
use sciguard_autopilot.Reset.{Artifacts, owns, own_keys, reset_targets, delete_all, reset_datasets}

module _ (c : Client) where
  open c use {Graph, get_tags, emit_tags, get_aspect, emit_aspect}

  -- Every aspect and the tags of an entity are as they were.
  pub record Untouched (v : String) (g g' : Graph) : Type 0 where
    pub aspects : (k : AspectType) → get_aspect g' k v ≡ get_aspect g k v
    pub tags : get_tags g' v ≡ get_tags g v

  pub Untouched-refl : (v : String) (g : Graph) → Untouched v g g
  Untouched-refl v g = record { aspects = λ k. refl; tags = refl }

  pub Untouched-trans :
      (v : String) (g h i : Graph) → Untouched v g h → Untouched v h i → Untouched v g i
  Untouched-trans v g h i p q = record {
    aspects = λ k. q.aspects k ∙ p.aspects k;
    tags = q.tags ∙ p.tags;
  }

  aspect-remove_ne :
      (u v : String) (j k : AspectType) (ks : List String) (g : Graph)
      → (u == v) ≡ false
      → get_aspect (remove_aspect_custom_properties c u j ks g).1 k v ≡ get_aspect g k v
  unfolding remove_aspect_custom_properties
  aspect-remove_ne u v j k ks g h = elim (Option-cases (get_aspect g j u)) [
    | inl missing ↦ rw (missing, remove_aspect_custom_properties) refl
    | inr (a, e) ↦
        rw (e, remove_aspect_custom_properties) (write_other c j k u v a _ g (ground (arith, h)))
  ]

  tags-remove :
      (u v : String) (j : AspectType) (ks : List String) (g : Graph)
      → get_tags (remove_aspect_custom_properties c u j ks g).1 v ≡ get_tags g v
  unfolding remove_aspect_custom_properties
  tags-remove u v j ks g = elim (Option-cases (get_aspect g j u)) [
    | inl missing ↦ rw (missing, remove_aspect_custom_properties) refl
    | inr (a, e) ↦ rw (e, remove_aspect_custom_properties) (write_tags c j u v a _ g)
  ]

  -- One entity is cleaned: its properties, then its tags.
  cleaned-Untouched :
      (u v : String) (j : AspectType) (ks : List String) (g : Graph)
      → (u == v) ≡ false
      → Untouched v g (remove_tags c u status_tags (remove_aspect_custom_properties c u j ks g).1).1
  cleaned-Untouched u v j ks g h = record {
    aspects = λ k. get_aspect-remove_tags c k u v status_tags _ ∙ aspect-remove_ne u v j k ks g h;
    tags = get_tags-remove_tags_ne c u v status_tags _ h ∙ tags-remove u v j ks g;
  }

  pub reset_targets-Untouched :
      (id v : String) (targets : List (String × AspectType)) (g : Graph)
      → contains v (reset_targets c id targets g).0.urns ≡ false
      → Untouched v g (reset_targets c id targets g).1
  unfolding reset_targets
  reset_targets-Untouched id v [] g h = Untouched-refl v g
  reset_targets-Untouched id v ((u, k) ∷ targets) g h =
      elim (Bool-cases (owns id (properties_in (get_aspect g k u)))) [
        | inl mine ↦
            let h' = rw mine at h in
            let g' =
              (remove_tags c u status_tags
                (remove_aspect_custom_properties c u k (own_keys (properties_in (get_aspect g k u)))
                  g).1).1 in
            rw mine (
              Untouched-trans v g g' _ (cleaned-Untouched u v k _ g (ground arith))
                (reset_targets-Untouched id v targets g' (ground arith)))
        | inr other ↦ rw other (reset_targets-Untouched id v targets g (rw other at h))
      ]

  pub delete_all-Untouched :
      (a : Artifacts c) (v : String) (urns : List String) (g : Graph)
      → contains v urns ≡ false
      → Untouched v g (delete_all c a urns g)
  unfolding delete_all
  delete_all-Untouched a v [] g h = Untouched-refl v g
  delete_all-Untouched a v (u ∷ urns) g h =
      Untouched-trans v g (a.delete_entity u g) _
        (record {
          aspects = λ k. a.aspect-delete_entity u v k g (ground arith);
          tags = a.tags-delete_entity u v g (ground arith);
        })
        (delete_all-Untouched a v urns (a.delete_entity u g) (ground arith))

  pub reset_datasets-Untouched :
      (v : String) (datasets : List (String × Properties)) (g : Graph)
      → contains v (reset_datasets c datasets g).0.urns ≡ false
      → Untouched v g (reset_datasets c datasets g).1
  unfolding reset_datasets remove_custom_properties
  reset_datasets-Untouched v [] g h = Untouched-refl v g
  reset_datasets-Untouched v ((u, props) ∷ datasets) g h =
      let g' =
        (remove_tags c u status_tags
          (remove_aspect_custom_properties c u dataset_properties (own_keys props) g).1).1 in
      Untouched-trans v g g' _ (cleaned-Untouched u v dataset_properties _ g (ground arith))
        (reset_datasets-Untouched v datasets g' (ground arith))
