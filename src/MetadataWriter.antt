-- ===== src/MetadataWriter.antt =====
-- datahub_client/metadata_writer.py: every write reads the whole aspect, changes what it means to,
-- and emits the aspect again; a write that would change nothing is not emitted.
pub mod Tags
pub mod Props
use sciguard_autopilot.DataHub.Values.{properties_of}
use sciguard_autopilot.Base.{
  ◌≡◌, String, Bool, true, false, not, ◌&&◌, ◌||◌, Option, none, some, List, [], ◌∷◌, ◌++◌, map,
  if◌then◌else◌, nat_eq, length, keep_if, contains, is_nil, Exception, lookup_error, Result, ok,
  err,
}
use sciguard_autopilot.Base.Exec.{Exec}
use sciguard_autopilot.Base.Dict.{lookup, merge, without}
use sciguard_autopilot.Base.Json.{null, is_yes}
use sciguard_autopilot.DataHub.{
  Value, Value_discrete, Properties, AspectType, dataset_properties, Aspect, TagAssociation, Client,
}

abbrev pub tag_names : List TagAssociation → List String
tag_names [] = []
tag_names (a ∷ ts) = a.tag ∷ tag_names ts

abbrev pub associations : Option (List TagAssociation) → List TagAssociation
associations none = []
associations (some ts) = ts

-- `TagAssociationClass(tag=t)`, with no attribution
abbrev pub new_association : String → TagAssociation
new_association t = record { tag = t; attribution = null }

-- Every entry of `d` is in `e`.
unfoldable pub covers : Properties → Properties → Bool
covers [] e = true
covers ((k, v) ∷ d) e =
    elim (lookup k e) [ none ↦ false | some w ↦ is_yes (Value_discrete w v) ] && covers d e

-- `d == e`, which does not look at the order
unfoldable pub dict_eq : Properties → Properties → Bool
unfolding covers
dict_eq d e = covers d e && covers e d

-- The aspect `a` with other custom properties.
abbrev pub with_properties : Aspect → Properties → Aspect
with_properties a props = record a { custom_properties = some props }

-- `DatasetPropertiesClass(customProperties={})` where there is none yet
abbrev pub dataset_or_new : Option Aspect → Aspect
dataset_or_new none = record { name = none; custom_properties = some []; fields = null }
dataset_or_new (some a) = a

module _ (c : Client) where
  open c use {Graph, get_tags, emit_tags, get_aspect, emit_aspect}

  unfoldable pub current_tag_urns : Graph → String → List String
  current_tag_urns g urn = tag_names (associations (get_tags g urn))

  -- `add_tags` from the existing associations and the tags that are missing among them
  abbrev pub attach : String → List TagAssociation → List String → Graph → List String × Graph
  attach urn existing to_add g =
      let all_tags = existing ++ map new_association to_add in
      if is_nil to_add
      then (tag_names existing, g)
      else (tag_names all_tags, emit_tags urn all_tags g)

  unfoldable pub add_tags : String → List String → Graph → List String × Graph
  add_tags urn tag_urns g =
      let existing = associations (get_tags g urn) in
      attach urn existing (keep_if (λ t. not (contains t (tag_names existing))) tag_urns) g

  abbrev pub drop_tags : String → List String → List TagAssociation → Graph → List String × Graph
  drop_tags urn tag_urns existing g =
      let remaining = keep_if (λ (a : TagAssociation). not (contains a.tag tag_urns)) existing in
      if nat_eq (length remaining) (length existing)
      then (tag_names existing, g)
      else (tag_names remaining, emit_tags urn remaining g)

  -- `if not existing` tests an aspect object, which is true whatever its tags.
  unfoldable pub remove_tags : String → List String → Graph → List String × Graph
  remove_tags urn tag_urns g = elim (get_tags g urn) [
    | none ↦ ([], g)
    | some existing ↦ drop_tags urn tag_urns existing g
  ]

  -- the rest of each writer, from the existing aspect on
  abbrev pub write_properties :
      AspectType → String → Aspect → Properties → Graph → Properties × Graph
  write_properties kind urn existing props g =
      if dict_eq props (properties_of existing.custom_properties)
      then (properties_of existing.custom_properties, g)
      else (props, emit_aspect kind urn (with_properties existing props) g)

  unfoldable pub add_custom_properties : String → Properties → Graph → Properties × Graph
  add_custom_properties urn new_props g =
      let existing = dataset_or_new (get_aspect g dataset_properties urn) in
      write_properties dataset_properties urn existing
        (merge (properties_of existing.custom_properties) new_props) g

  unfoldable pub remove_aspect_custom_properties :
      String → AspectType → List String → Graph → Properties × Graph
  remove_aspect_custom_properties urn kind keys g = elim (get_aspect g kind urn) [
    | none ↦ ([], g)
    | some existing ↦
        write_properties kind urn existing (without keys (properties_of existing.custom_properties))
          g
  ]

  unfoldable pub remove_custom_properties : String → List String → Graph → Properties × Graph
  unfolding remove_aspect_custom_properties
  remove_custom_properties urn keys g =
      remove_aspect_custom_properties urn dataset_properties keys g

  abbrev written : Properties × Graph → Result Properties × Graph
  written (props, g) = (ok props, g)

  -- The aspect must exist: a partial replacement would erase its other fields.
  unfoldable pub add_aspect_custom_properties :
      String → AspectType → Properties → Exec Graph Properties
  add_aspect_custom_properties urn kind new_props g = elim (get_aspect g kind urn) [
    | none ↦ (err (lookup_error "cannot write properties; aspect is missing"), g)
    | some existing ↦ written (
        write_properties kind urn existing
          (merge (properties_of existing.custom_properties) new_props) g)
  ]
