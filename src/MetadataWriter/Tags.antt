-- ===== src/MetadataWriter/Tags.antt =====
-- What `add_tags` and `remove_tags` of datahub_client/metadata_writer.py do to the tags of an
-- entity, to their attribution, and to everything else in the graph.
use mathlib.Core.List.{append-nil}
use sciguard_autopilot.Base.{
  ◌≡◌, refl, sym, ap, inl, inr, String, Bool, true, false, not, ◌&&◌, ◌||◌, some, List, [], ◌∷◌,
  ◌++◌, map, arith, nat_eq, nat_eq→eq, length, keep_if, contains, contains-append, ◌≤◌, ◌==◌,
  eq_iff, eq_refl, Bool-cases, Option-cases,
}
use sciguard_autopilot.DataHub.{AspectType, TagAssociation, Client}
use sciguard_autopilot.MetadataWriter.{
  tag_names, associations, attach, new_association, current_tag_urns, add_tags, remove_tags,
  drop_tags,
}

tag_names-append :
    (xs ys : List TagAssociation) → tag_names (xs ++ ys) ≡ tag_names xs ++ tag_names ys
tag_names-append [] ys = refl
tag_names-append (x ∷ xs) ys = ap (λ r. x.tag ∷ r) (tag_names-append xs ys)

tag_names-map : (ts : List String) → tag_names (map new_association ts) ≡ ts
tag_names-map [] = refl
tag_names-map (t ∷ ts) = ap (λ r. t ∷ r) (tag_names-map ts)

abbrev missing : List TagAssociation → List String → List String
missing have = keep_if (λ t. not (contains t (tag_names have)))

contains-missing :
    (t : String) (have : List TagAssociation) (ts : List String)
    → (contains t (tag_names have) || contains t (missing have ts))
      ≡ (contains t (tag_names have) || contains t ts)
contains-missing t have [] = refl
contains-missing t have (x ∷ ts) = ground (arith, contains-missing t have ts, eq_iff x t)

abbrev kept : List String → List TagAssociation → List TagAssociation
kept ts = keep_if (λ (a : TagAssociation). not (contains a.tag ts))

length-kept-le : (ts : List String) (xs : List TagAssociation) → length (kept ts xs) ≤ length xs
length-kept-le ts [] = omega arith
length-kept-le ts (x ∷ xs) = ground (arith, length-kept-le ts xs)

kept_full :
    (ts : List String) (xs : List TagAssociation)
    → length (kept ts xs) ≡ length xs
    → kept ts xs ≡ xs
kept_full ts [] h = refl
kept_full ts (x ∷ xs) h = ground (arith, kept_full ts xs, length-kept-le ts xs)

contains-kept :
    (t : String) (ts : List String) (xs : List TagAssociation)
    → contains t (tag_names (kept ts xs)) ≡ (contains t (tag_names xs) && not (contains t ts))
contains-kept t ts [] = refl
contains-kept t ts (x ∷ xs) = ground (arith, contains-kept t ts xs, eq_iff x.tag t)

or_false : (b : Bool) → (b || false) ≡ b
or_false b = ground arith

and_true : (b : Bool) → (b && true) ≡ b
and_true b = ground arith

module _ (c : Client) where
  open c use {Graph, get_tags, emit_tags, get_aspect, tags-emit_tags, aspect-emit_tags}

  get_tags-emit_tags_self :
      (u : String) (ts : List TagAssociation) (g : Graph) → get_tags (emit_tags u ts g) u ≡ some ts
  get_tags-emit_tags_self u ts g = rw (tags-emit_tags u u ts g, eq_refl u)

  get_tags-emit_tags_ne :
      (u v : String) (ts : List TagAssociation) (g : Graph)
      → (u == v) ≡ false
      → get_tags (emit_tags u ts g) v ≡ get_tags g v
  get_tags-emit_tags_ne u v ts g h = rw (tags-emit_tags u v ts g, h)

  associations-attach :
      (u : String) (to_add : List String) (g : Graph)
      → let have = associations (get_tags g u) in
        associations (get_tags (attach c u have to_add g).1 u) ≡ have ++ map new_association to_add
  associations-attach u [] g = sym (append-nil (associations (get_tags g u)))
  associations-attach u (t ∷ ts) g = rw (get_tags-emit_tags_self u)

  -- Old associations stay in front with their attribution; only the missing tags come behind.
  pub associations-add_tags :
      (u : String) (ts : List String) (g : Graph)
      → let have = associations (get_tags g u) in
        associations (get_tags (add_tags c u ts g).1 u)
        ≡ have ++ map new_association (missing have ts)
  unfolding add_tags
  associations-add_tags u ts g = associations-attach u (missing (associations (get_tags g u)) ts) g

  associations-drop_tags :
      (u : String) (ts : List String) (existing : List TagAssociation) (g : Graph)
      → get_tags g u ≡ some existing
      → associations (get_tags (drop_tags c u ts existing g).1 u) ≡ kept ts existing
  associations-drop_tags u ts existing g h =
      elim (Bool-cases (nat_eq (length (kept ts existing)) (length existing))) [
        | inl same ↦ rw (same, h) (sym (kept_full ts existing (nat_eq→eq _ _ same)))
        | inr fewer ↦ rw (fewer, get_tags-emit_tags_self u)
      ]

  -- Exactly the named tags go; the others keep their attribution.
  pub associations-remove_tags :
      (u : String) (ts : List String) (g : Graph)
      → associations (get_tags (remove_tags c u ts g).1 u) ≡ kept ts (associations (get_tags g u))
  unfolding remove_tags
  associations-remove_tags u ts g = elim (Option-cases (get_tags g u)) [
    | inl e ↦ rw (e, remove_tags) (rw e)
    | inr (existing, e) ↦ rw (e, remove_tags) (associations-drop_tags u ts existing g e)
  ]

  get_tags-attach_ne :
      (u v : String) (have : List TagAssociation) (to_add : List String) (g : Graph)
      → (u == v) ≡ false
      → get_tags (attach c u have to_add g).1 v ≡ get_tags g v
  get_tags-attach_ne u v have [] g h = refl
  get_tags-attach_ne u v have (t ∷ ts) g h = get_tags-emit_tags_ne u v _ g h

  get_tags-drop_tags_ne :
      (u v : String) (ts : List String) (existing : List TagAssociation) (g : Graph)
      → (u == v) ≡ false
      → get_tags (drop_tags c u ts existing g).1 v ≡ get_tags g v
  get_tags-drop_tags_ne u v ts existing g h =
      elim (Bool-cases (nat_eq (length (kept ts existing)) (length existing))) [
        | inl same ↦ rw same
        | inr fewer ↦ rw fewer (get_tags-emit_tags_ne u v _ g h)
      ]

  pub get_tags-remove_tags_ne :
      (u v : String) (ts : List String) (g : Graph)
      → (u == v) ≡ false
      → get_tags (remove_tags c u ts g).1 v ≡ get_tags g v
  unfolding remove_tags
  get_tags-remove_tags_ne u v ts g h = elim (Option-cases (get_tags g u)) [
    | inl e ↦ rw (e, remove_tags)
    | inr (existing, e) ↦ rw (e, remove_tags) (get_tags-drop_tags_ne u v ts existing g h)
  ]

  has_tag-add_tags_self :
      (u t : String) (ts : List String) (g : Graph)
      → contains t (current_tag_urns c (add_tags c u ts g).1 u)
        ≡ (contains t (current_tag_urns c g u) || contains t ts)
  unfolding current_tag_urns
  has_tag-add_tags_self u t ts g =
      rw
        (
          associations-add_tags u ts g,
          tag_names-append (associations (get_tags g u)),
          tag_names-map,
          contains-append t,
        )
        (contains-missing t (associations (get_tags g u)) ts)

  has_tag-remove_tags_self :
      (u t : String) (ts : List String) (g : Graph)
      → contains t (current_tag_urns c (remove_tags c u ts g).1 u)
        ≡ (contains t (current_tag_urns c g u) && not (contains t ts))
  unfolding current_tag_urns
  has_tag-remove_tags_self u t ts g =
      rw (associations-remove_tags u ts g) (contains-kept t ts (associations (get_tags g u)))

  -- `add_tags` on one entity gives it the tags that it had and those that were asked for, and
  -- gives no other entity a tag.
  pub has_tag-add_tags :
      (u v t : String) (ts : List String) (g : Graph)
      → contains t (current_tag_urns c (add_tags c u ts g).1 v)
        ≡ (contains t (current_tag_urns c g v) || (u == v && contains t ts))
  unfolding current_tag_urns add_tags
  has_tag-add_tags u v t ts g = elim (Bool-cases (u == v)) [
    | inl e ↦ let p = (eq_iff u v).0 e in rw (← p) (rw (eq_refl u) (has_tag-add_tags_self u t ts g))
    | inr e ↦ rw (get_tags-attach_ne u v _ _ g e) (rw e (sym (or_false _)))
  ]

  -- `remove_tags` on one entity takes exactly the named tags from it, and none from another.
  pub has_tag-remove_tags :
      (u v t : String) (ts : List String) (g : Graph)
      → contains t (current_tag_urns c (remove_tags c u ts g).1 v)
        ≡ (contains t (current_tag_urns c g v) && not (u == v && contains t ts))
  unfolding current_tag_urns
  has_tag-remove_tags u v t ts g = elim (Bool-cases (u == v)) [
    | inl e ↦
        let p = (eq_iff u v).0 e in rw (← p) (rw (eq_refl u) (has_tag-remove_tags_self u t ts g))
    | inr e ↦ rw (get_tags-remove_tags_ne u v ts g e) (rw e (sym (and_true _)))
  ]

  get_aspect-attach :
      (k : AspectType) (u v : String) (have : List TagAssociation) (to_add : List String)
      (g : Graph)
      → get_aspect (attach c u have to_add g).1 k v ≡ get_aspect g k v
  get_aspect-attach k u v have [] g = refl
  get_aspect-attach k u v have (t ∷ ts) g = aspect-emit_tags k u v _ g

  -- Tags are not part of any other aspect.
  pub get_aspect-add_tags :
      (k : AspectType) (u v : String) (ts : List String) (g : Graph)
      → get_aspect (add_tags c u ts g).1 k v ≡ get_aspect g k v
  unfolding add_tags
  get_aspect-add_tags k u v ts g = get_aspect-attach k u v _ _ g

  get_aspect-drop_tags :
      (k : AspectType) (u v : String) (ts : List String) (existing : List TagAssociation)
      (g : Graph)
      → get_aspect (drop_tags c u ts existing g).1 k v ≡ get_aspect g k v
  get_aspect-drop_tags k u v ts existing g =
      elim (Bool-cases (nat_eq (length (kept ts existing)) (length existing))) [
        | inl same ↦ rw same
        | inr fewer ↦ rw fewer (aspect-emit_tags k u v _ g)
      ]

  pub get_aspect-remove_tags :
      (k : AspectType) (u v : String) (ts : List String) (g : Graph)
      → get_aspect (remove_tags c u ts g).1 k v ≡ get_aspect g k v
  unfolding remove_tags
  get_aspect-remove_tags k u v ts g = elim (Option-cases (get_tags g u)) [
    | inl e ↦ rw (e, remove_tags)
    | inr (existing, e) ↦ rw (e, remove_tags) (get_aspect-drop_tags k u v ts existing g)
  ]
