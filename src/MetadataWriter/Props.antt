-- ===== src/MetadataWriter/Props.antt =====
-- What the writers of datahub_client/metadata_writer.py do to the custom properties of an aspect,
-- to its other fields, and to everything else in the graph.
use sciguard_autopilot.DataHub.Values.{properties_in}
use sciguard_autopilot.DataHub.Values.{properties_of}
use sciguard_autopilot.Base.{
  ◌≡◌, ◌≢◌, refl, sym, ap, ◌∙◌, ◌⊎◌, inl, inr, String, Bool, true, false, ◌&&◌, Option, none, some,
  List, [], ◌∷◌, arith, if◌then◌else◌, contains, NoDup, ◌==◌, eq_iff, eq_refl, Bool-cases,
  Option-cases,
}
use sciguard_autopilot.Base.Dict.{lookup, keys, or_else, lookup-merge, lookup-without}
use sciguard_autopilot.Base.Json.{Json, is_yes}
use sciguard_autopilot.DataHub.{
  Value, Value_discrete, Properties, AspectType, same_aspect, dataset_properties, Aspect, Client,
}
use sciguard_autopilot.MetadataWriter.{
  covers, dict_eq, write_properties, dataset_or_new, add_custom_properties,
  remove_aspect_custom_properties, add_aspect_custom_properties,
}

-- the test of one entry in `covers`
abbrev agrees : Option Value → Value → Bool
agrees none v = false
agrees (some w) v = is_yes (Value_discrete w v)

agrees_sound : (o : Option Value) (v : Value) → agrees o v ≡ true → o ≡ some v
agrees_sound none v h = cc
agrees_sound (some w) v h = go (Value_discrete w v) h
  where
    go : (d : Dec (w ≡ v)) → is_yes d ≡ true → some w ≡ some v
    go (yes p) e = ap some p
    go (no _) e = cc

covers_sound :
    (k : String) (d e : Properties) (v : Value)
    → covers d e ≡ true
    → lookup k d ≡ some v
    → lookup k e ≡ some v
unfolding covers
covers_sound k [] e v h p = cc
covers_sound k ((j, w) ∷ d) e v h p =
    ground (arith, eq_iff j k, agrees_sound (lookup j e) w, covers_sound k d e v)

-- Dicts that Python calls equal have the same value at every key.
dict_eq_sound : (k : String) (d e : Properties) → dict_eq d e ≡ true → lookup k d ≡ lookup k e
unfolding dict_eq
dict_eq_sound k d e h = elim (Option-cases (lookup k d)) [
  | inr (v, p) ↦ p ∙ sym (covers_sound k d e v (ground arith) p)
  | inl p ↦ elim (Option-cases (lookup k e)) [
    | inl q ↦ p ∙ sym q
    | inr (v, q) ↦ cc (covers_sound k e d v (ground arith) q)
  ]
]

-- All else that an aspect holds.
abbrev pub fields_in : Option Aspect → Option (Option String × Json)
fields_in none = none
fields_in (some a) = some (a.name, a.fields)

none_either : (b : Bool) → ◌≡◌ {A = Option Value} none (if b then none else none)
none_either true = refl
none_either false = refl

module _ (c : Client) where
  open c use {Graph, get_tags, get_aspect, emit_aspect, tags-emit_aspect, aspect-emit_aspect}

  same_aspect_refl : (k : AspectType) → same_aspect k k ≡ true
  same_aspect_refl dataset_properties = refl
  same_aspect_refl _ = refl

  get_aspect-emit_self :
      (k : AspectType) (u : String) (a : Aspect) (g : Graph)
      → get_aspect (emit_aspect k u a g) k u ≡ some a
  get_aspect-emit_self k u a g = rw (aspect-emit_aspect k k u u a g, same_aspect_refl k, eq_refl u)

  -- A write leaves every other aspect of every entity alone.
  pub write_other :
      (j k : AspectType) (u v : String) (a : Aspect) (props : Properties) (g : Graph)
      → (same_aspect j k && u == v) ≡ false
      → get_aspect (write_properties c j u a props g).1 k v ≡ get_aspect g k v
  write_other j k u v a props g h =
      elim (Bool-cases (dict_eq props (properties_of a.custom_properties))) [
        | inl same ↦ rw same
        | inr new ↦ rw (new, aspect-emit_aspect j k u v _ g, h)
      ]

  -- It leaves the properties with the entries of `props`, also where the emission is saved.
  pub write_lookup :
      (k : AspectType) (u key : String) (a : Aspect) (props : Properties) (g : Graph)
      → properties_in (get_aspect g k u) ≡ properties_of a.custom_properties
      → lookup key (properties_in (get_aspect (write_properties c k u a props g).1 k u))
        ≡ lookup key props
  write_lookup k u key a props g h =
      elim (Bool-cases (dict_eq props (properties_of a.custom_properties))) [
        | inl same ↦ rw (same, h) (sym (dict_eq_sound key props _ same))
        | inr new ↦ rw (new, get_aspect-emit_self k u _ g)
      ]

  -- It leaves the other fields of an aspect that is there.
  pub write_fields :
      (k : AspectType) (u : String) (a : Aspect) (props : Properties) (g : Graph)
      → get_aspect g k u ≡ some a
      → fields_in (get_aspect (write_properties c k u a props g).1 k u)
        ≡ fields_in (get_aspect g k u)
  write_fields k u a props g h =
      elim (Bool-cases (dict_eq props (properties_of a.custom_properties))) [
        | inl same ↦ rw same
        | inr new ↦ rw (new, get_aspect-emit_self k u _ g, h)
      ]

  pub write_tags :
      (k : AspectType) (u v : String) (a : Aspect) (props : Properties) (g : Graph)
      → get_tags (write_properties c k u a props g).1 v ≡ get_tags g v
  write_tags k u v a props g =
      elim (Bool-cases (dict_eq props (properties_of a.custom_properties))) [
        | inl same ↦ rw same
        | inr new ↦ rw (new, tags-emit_aspect k u v _ g)
      ]

  properties-dataset_or_new :
      (o : Option Aspect) → properties_in o ≡ properties_of (dataset_or_new o).custom_properties
  properties-dataset_or_new none = refl
  properties-dataset_or_new (some a) = refl

  elsewhere :
      (j k : AspectType) (u v : String) (a : Aspect) (props : Properties) (g : Graph)
      → ((same_aspect j k && u == v) ≡ true)
        ⊎ (get_aspect (write_properties c j u a props g).1 k v ≡ get_aspect g k v)
  elsewhere j k u v a props g = elim (Bool-cases (same_aspect j k && u == v)) [
    | inl here ↦ inl here
    | inr away ↦ inr (write_other j k u v a props g away)
  ]

  -- What a writer of properties on one entity owes: the entries `after` at every key of that
  -- aspect, and all else in the graph as it was.
  pub record Wrote (k : AspectType) (u : String) (g g' : Graph) (after : String → Option Value)
      : Type 0 where
    pub entries : (key : String) → lookup key (properties_in (get_aspect g' k u)) ≡ after key
    pub fields : fields_in (get_aspect g' k u) ≡ fields_in (get_aspect g k u)
    pub others :
        (j : AspectType) (v : String)
        → ((same_aspect k j && u == v) ≡ true) ⊎ (get_aspect g' j v ≡ get_aspect g j v)
    pub tags : (v : String) → get_tags g' v ≡ get_tags g v

  write_properties-Wrote :
      (k : AspectType) (u : String) (a : Aspect) (props : Properties) (g : Graph)
      (after : String → Option Value)
      → get_aspect g k u ≡ some a
      → ((key : String) → lookup key props ≡ after key)
      → Wrote k u g (write_properties c k u a props g).1 after
  write_properties-Wrote k u a props g after h same = record {
    entries = λ key. write_lookup k u key a props g (ap properties_in h) ∙ same key;
    fields = write_fields k u a props g h;
    others = λ j v. elsewhere k j u v a props g;
    tags = λ v. write_tags k u v a props g;
  }

  -- A key that was written has the new value and every other key the value that it had, also
  -- where the dataset had no properties aspect before.
  pub lookup-add_custom_properties :
      (u key : String) (new : Properties) (g : Graph)
      → NoDup (keys new)
      → lookup key
          (properties_in (get_aspect (add_custom_properties c u new g).1 dataset_properties u))
        ≡ or_else (lookup key new) (lookup key (properties_in (get_aspect g dataset_properties u)))
  unfolding add_custom_properties
  lookup-add_custom_properties u key new g d =
      let o = get_aspect g dataset_properties u in
      write_lookup dataset_properties u key (dataset_or_new o) _ g (properties-dataset_or_new o)
      ∙ lookup-merge key (properties_of (dataset_or_new o).custom_properties) new d
      ∙ ap (λ d'. or_else (lookup key new) (lookup key d')) (sym (properties-dataset_or_new o))

  dataset_or_new_present : (p : Option Aspect) → p ≢ none → p ≡ some (dataset_or_new p)
  dataset_or_new_present none h = absurd (h refl)
  dataset_or_new_present (some b) h = refl

  -- `add_custom_properties` on a dataset that has its properties aspect: a key that was written has
  -- the new value and every other key the value that it had; the aspect's other fields, the other
  -- aspects and entities, and all tags stay as they were.
  pub add_custom_properties-Wrote :
      (u : String) (new : Properties) (g : Graph)
      → NoDup (keys new)
      → get_aspect g dataset_properties u ≢ none
      → Wrote dataset_properties u g (add_custom_properties c u new g).1 (λ key.
        or_else (lookup key new) (lookup key (properties_in (get_aspect g dataset_properties u))))
  unfolding add_custom_properties
  add_custom_properties-Wrote u new g d present =
      let o = get_aspect g dataset_properties u in
      let e = dataset_or_new_present o present in
      write_properties-Wrote dataset_properties u (dataset_or_new o) _ g _ e (λ key.
        lookup-merge key (properties_of (dataset_or_new o).custom_properties) new d
        ∙ ap (λ d'. or_else (lookup key new) (lookup key d')) (sym (properties-dataset_or_new o)))

  -- `add_aspect_custom_properties` on an aspect that is there merges the new properties in and keeps
  -- the rest of the aspect and of the graph.
  pub add_aspect_custom_properties-Wrote :
      (u : String) (k : AspectType) (new : Properties) (g : Graph)
      → NoDup (keys new)
      → get_aspect g k u ≢ none
      → Wrote k u g
          (add_aspect_custom_properties c u k new g).1
          (λ key. or_else (lookup key new) (lookup key (properties_in (get_aspect g k u))))
  unfolding add_aspect_custom_properties
  add_aspect_custom_properties-Wrote u k new g d present = elim (Option-cases (get_aspect g k u)) [
    | inl missing ↦ absurd (present missing)
    | inr (a, e) ↦
        rw (e, add_aspect_custom_properties)
          (write_properties-Wrote k u a _ g _ e
            (λ key. lookup-merge key (properties_of a.custom_properties) new d))
  ]

  -- `remove_aspect_custom_properties` takes exactly the named keys from an aspect, and keeps the
  -- rest of the aspect and of the graph; where the aspect is missing it does nothing.
  pub remove_aspect_custom_properties-Wrote :
      (u : String) (k : AspectType) (ks : List String) (g : Graph)
      → Wrote k u g
          (remove_aspect_custom_properties c u k ks g).1
          (λ key. if contains key ks then none else lookup key (properties_in (get_aspect g k u)))
  unfolding remove_aspect_custom_properties
  remove_aspect_custom_properties-Wrote u k ks g = elim (Option-cases (get_aspect g k u)) [
    | inl missing ↦
        rw (missing, remove_aspect_custom_properties)
          (record {
            entries = λ key. rw missing (none_either (contains key ks));
            fields = refl;
            others = λ j v. inr refl;
            tags = λ v. refl;
          })
    | inr (a, e) ↦
        rw (e, remove_aspect_custom_properties)
          (write_properties-Wrote k u a _ g _ e
            (λ key. lookup-without key ks (properties_of a.custom_properties)))
  ]

  -- On an aspect that is missing as well as on one that is there, only that aspect is written.
  pub add_aspect_custom_properties_ne :
      (u v : String) (j k : AspectType) (new : Properties) (g : Graph)
      → (same_aspect j k && u == v) ≡ false
      → get_aspect (add_aspect_custom_properties c u j new g).1 k v ≡ get_aspect g k v
  unfolding add_aspect_custom_properties
  add_aspect_custom_properties_ne u v j k new g h = elim (Option-cases (get_aspect g j u)) [
    | inl missing ↦ rw (missing, add_aspect_custom_properties)
    | inr (a, e) ↦ rw (e, add_aspect_custom_properties) (write_other j k u v a _ g h)
  ]

  pub tags-add_aspect_custom_properties :
      (u v : String) (k : AspectType) (new : Properties) (g : Graph)
      → get_tags (add_aspect_custom_properties c u k new g).1 v ≡ get_tags g v
  unfolding add_aspect_custom_properties
  tags-add_aspect_custom_properties u v k new g = elim (Option-cases (get_aspect g k u)) [
    | inl missing ↦ rw (missing, add_aspect_custom_properties)
    | inr (a, e) ↦ rw (e, add_aspect_custom_properties) (write_tags k u v a _ g)
  ]

  pub add_custom_properties_ne :
      (u v : String) (new : Properties) (g : Graph)
      → (u == v) ≡ false
      → get_aspect (add_custom_properties c u new g).1 dataset_properties v
        ≡ get_aspect g dataset_properties v
  unfolding add_custom_properties
  add_custom_properties_ne u v new g h =
      write_other dataset_properties dataset_properties u v
        (dataset_or_new (get_aspect g dataset_properties u)) _ g h

  pub tags-add_custom_properties :
      (u v : String) (new : Properties) (g : Graph)
      → get_tags (add_custom_properties c u new g).1 v ≡ get_tags g v
  unfolding add_custom_properties
  tags-add_custom_properties u v new g =
      write_tags dataset_properties u v (dataset_or_new (get_aspect g dataset_properties u)) _ g
