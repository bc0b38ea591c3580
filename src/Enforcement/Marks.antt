-- ===== src/Enforcement/Marks.antt =====
-- The status tags that core/enforcement.py leaves on a controlled dataset.
use sciguard_autopilot.Base.{
  ◌≡◌, ap, ◌∙◌, inl, inr, String, Bool, true, false, not, ◌&&◌, ◌||◌, Option, none, some, List, [],
  ◌∷◌, arith, if◌then◌else◌, Bool-cases, Result-cases, contains, ◌==◌, eq_refl,
}
use sciguard_autopilot.Base.Exec.{continue-keeps}
use sciguard_autopilot.DataHub.{Properties, AspectType, Client}
use sciguard_autopilot.MetadataWriter.{current_tag_urns, add_aspect_custom_properties}
use sciguard_autopilot.MetadataWriter.Tags.{has_tag-add_tags, has_tag-remove_tags}
use sciguard_autopilot.MetadataWriter.Props.{
  tags-add_aspect_custom_properties, tags-add_custom_properties,
}
use sciguard_autopilot.Policy.{AssetPolicyDecision}
use sciguard_autopilot.Enforcement.{
  status_tag_of, other_tags, native_targets, as_list, clear_tags, retag, mirror_targets,
  mirror_native_projection_state, control,
}
use sciguard_autopilot.Enforcement.Controls.{control-keeps}

-- the status tags that a control takes away
abbrev pub cleared : Option String → List String
cleared none = []
cleared (some tag) = other_tags tag

-- A text among tags that were set is there; one among those that were cleared is not; any other is
-- there if it was before.
abbrev pub after_retag : Option String → String → Bool → Bool
after_retag tag t had = (had && not (contains t (cleared tag))) || contains t (as_list tag)

after_retag_idem :
    (tag : Option String) (t : String) (had : Bool)
    → after_retag tag t (after_retag tag t had) ≡ after_retag tag t had
after_retag_idem tag t had = go had (contains t (cleared tag)) (contains t (as_list tag))
  where
    go : (a b e : Bool) → ((((a && not b) || e) && not b) || e) ≡ ((a && not b) || e)
    go true b e = ground arith
    go false b e = ground arith

module _ (c : Client) where
  open c use {Graph, get_tags}

  abbrev pub has_tag : String → String → Graph → Bool
  has_tag v t g = contains t (current_tag_urns c g v)

  has_tag-clear_tags :
      (u v t : String) (tag : Option String) (g : Graph)
      → has_tag v t (clear_tags c u tag g)
        ≡ (has_tag v t g && not (u == v && contains t (cleared tag)))
  unfolding clear_tags
  has_tag-clear_tags u v t none g = ground arith
  has_tag-clear_tags u v t (some tag) g = has_tag-remove_tags c u v t (other_tags tag) g

  pub has_tag-retag :
      (u v t : String) (tag : Option String) (g : Graph)
      → has_tag v t (retag c u tag g)
        ≡ (if u == v then after_retag tag t (has_tag v t g) else has_tag v t g)
  unfolding retag
  has_tag-retag u v t none g = ground arith
  has_tag-retag u v t (some tag) g = ground (
    arith,
    has_tag-add_tags c u v t (tag ∷ []) (clear_tags c u (some tag) g),
    has_tag-clear_tags u v t (some tag) g,
  )

  pub has_tag_of_tags :
      (v t : String) (g g' : Graph) → get_tags g' v ≡ get_tags g v → has_tag v t g' ≡ has_tag v t g
  unfolding current_tag_urns
  has_tag_of_tags v t g g' e = rw e

  -- A tag of a dataset that was retagged stays as that left it, whatever else is mirrored.
  abbrev pub Settled : String → String → Option String → Bool → Graph → Type 0
  Settled v t tag had g = has_tag v t g ≡ after_retag tag t had

  pub retag-Settled :
      (u v t : String) (tag : Option String) (had : Bool) (g : Graph)
      → Settled v t tag had g
      → Settled v t tag had (retag c u tag g)
  retag-Settled u v t tag had g h = elim (Bool-cases (u == v)) [
    | inl e ↦
        has_tag-retag u v t tag g ∙ rw e (ap (after_retag tag t) h ∙ after_retag_idem tag t had)
    | inr e ↦ has_tag-retag u v t tag g ∙ rw e h
  ]

  mirror_targets-Settled :
      (v t : String) (updates : Properties) (tag : Option String) (had : Bool)
      (ts : List (String × AspectType)) (g : Graph)
      → Settled v t tag had g
      → Settled v t tag had (mirror_targets c updates tag ts g).1
  unfolding mirror_targets
  mirror_targets-Settled v t updates tag had [] g h = h
  mirror_targets-Settled v t updates tag had ((u, k) ∷ ts) g h =
      continue-keeps (Settled v t tag had)
        (add_aspect_custom_properties c u k updates (retag c u tag g)) _
        (has_tag_of_tags v t (retag c u tag g) _
            (tags-add_aspect_custom_properties c u v k updates _)
          ∙ retag-Settled u v t tag had g h)
        (λ _ g₁ h₁.
          continue-keeps (Settled v t tag had) (mirror_targets c updates tag ts g₁) _
            (mirror_targets-Settled v t updates tag had ts g₁ h₁) (λ _ g₂ h₂. h₂))

  pub mirror-Settled :
      (v t : String) (existing updates : Properties) (tag : Option String) (had : Bool) (g : Graph)
      → Settled v t tag had g
      → Settled v t tag had (mirror_native_projection_state c existing updates tag g).1
  unfolding mirror_native_projection_state
  mirror-Settled v t existing updates tag had g h = elim (Result-cases (native_targets existing)) [
    | inl (ts, e) ↦ rw e (mirror_targets-Settled v t updates tag had ts g h)
    | inr (x, e) ↦ rw e h
  ]

  -- After the control of one asset, whether it raised or not, the dataset has the tag of its new
  -- status, has none of the other status tags where there is a new one, and has any other tag if
  -- it had it before; also where the native entities that its properties name include itself.
  pub has_tag-control :
      (incident t : String) (urns : List String) (d : AssetPolicyDecision) (g : Graph)
      → has_tag d.urn t (control c incident urns d g).1
        ≡ after_retag (status_tag_of d.catalog_status) t (has_tag d.urn t g)
  has_tag-control incident t urns d g =
      let tag = status_tag_of d.catalog_status in
      let u = d.urn in
      control-keeps c (Settled u t tag (has_tag u t g)) incident urns d g (
        mirror-Settled u t _ _ tag (has_tag u t g) _ (
          has_tag_of_tags u t _ _ (tags-add_custom_properties c u u _ _)
          ∙ has_tag-add_tags c u u t (as_list tag) (clear_tags c u tag g)
          ∙ rw (has_tag-clear_tags u u t tag g, eq_refl u)))
