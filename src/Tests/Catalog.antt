-- ===== src/Tests/Catalog.antt =====
-- datahub_client/metadata_writer.py at concrete inputs.
use sciguard_autopilot.DataHub.Values.{properties_in}
use sciguard_autopilot.Base.{◌≡◌, refl, arith, ◌&&◌, ◌||◌, some, [], ◌∷◌, contains, ◌==◌}
use sciguard_autopilot.Base.Dict.{lookup, or_else}
use sciguard_autopilot.Base.Json.{null}
use sciguard_autopilot.DataHub.{text, Properties, dataset_properties, Aspect}
use sciguard_autopilot.DataHub.Store.{Memory, memory}
use sciguard_autopilot.MetadataWriter.{
  current_tag_urns, add_tags, add_custom_properties, new_association,
}
use sciguard_autopilot.MetadataWriter.Tags.{has_tag-add_tags}
use sciguard_autopilot.MetadataWriter.Props.{Wrote, add_custom_properties-Wrote}

abbrev described : Aspect
described = record {
  name = some "lab results";
  custom_properties = some (("owner", text "ana") ∷ ("state", text "old") ∷ []);
  fields = null;
}

-- Every entity has one tag and one set of properties.
abbrev catalog : Memory
catalog = record {
  tags = λ v. some (new_association "urn:tag:a" ∷ new_association "urn:tag:b" ∷ []);
  aspects = λ k v. some described;
}

abbrev new_state : Properties
new_state = ("state", text "new") ∷ ("incident", text "INC-1") ∷ []

has_tag-add_tags_example :
    contains "urn:tag:c"
      (current_tag_urns memory (add_tags memory "u" ("urn:tag:b" ∷ "urn:tag:c" ∷ []) catalog).1 "u")
    ≡ (contains "urn:tag:c" (current_tag_urns memory catalog "u")
        || ("u" == "u" && contains "urn:tag:c" ("urn:tag:b" ∷ "urn:tag:c" ∷ [])))
has_tag-add_tags_example =
    has_tag-add_tags memory "u" "u" "urn:tag:c" ("urn:tag:b" ∷ "urn:tag:c" ∷ []) catalog

add_custom_properties-Wrote_example :
    Wrote memory dataset_properties "u" catalog
      (add_custom_properties memory "u" new_state catalog).1
      (λ key. or_else (lookup key new_state) (lookup key (properties_in (some described))))
add_custom_properties-Wrote_example =
    add_custom_properties-Wrote memory "u" new_state catalog (refl, (refl, tt)) (ground arith)
