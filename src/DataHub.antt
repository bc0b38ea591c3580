-- ===== src/DataHub.antt =====
-- The DataHub graph client, which the repository does not implement: `get_aspect` and `emit` of
-- datahub.ingestion.graph.client. An aspect is replaced as a whole on write and read back as
-- written, and a write of one aspect of one entity leaves every other aspect and entity alone. A
-- request that fails on the network is not modelled.
pub mod Store
pub mod Values
use sciguard_autopilot.Base.{
  ◌≡◌, String, Bool, true, false, ◌&&◌, Option, none, some, List, if◌then◌else◌, ◌==◌,
}
use sciguard_autopilot.Base.Dict.{Dict}
use sciguard_autopilot.Base.Json.{Json, String_discrete, Json_discrete}

-- A custom property is a text. One that `json.dumps` wrote is kept as the value that it encodes,
-- so `text` stands for the texts that are no JSON.
pub data Value : Type 0 where
  text : String → Value
  dumped : Json → Value

unfoldable pub Value_discrete : Discrete Value
unfolding String_discrete Json_discrete
Value_discrete = hlevel (String_discrete, Json_discrete)

abbrev pub Properties : Type 0
Properties = Dict Value

-- DatasetPropertiesClass and the property aspects of the native ML entities
pub data AspectType : Type 0 where
  dataset_properties ml_feature_table ml_model ml_deployment : AspectType

abbrev pub same_aspect : AspectType → AspectType → Bool
same_aspect dataset_properties dataset_properties = true
same_aspect ml_feature_table ml_feature_table = true
same_aspect ml_model ml_model = true
same_aspect ml_deployment ml_deployment = true
same_aspect _ _ = false

-- `fields` stands for all else that the aspect holds: description, external URL, model version, …
pub record Aspect : Type 0 where
  pub name : Option String
  pub custom_properties : Option Properties
  pub fields : Json

-- TagAssociationClass, with the attribution that it carries
pub record TagAssociation : Type 0 where
  pub tag : String
  pub attribution : Json

pub record Client : Type 1 where
  pub Graph : Type 0
  pub get_tags : Graph → String → Option (List TagAssociation)
  pub emit_tags : String → List TagAssociation → Graph → Graph
  pub get_aspect : Graph → AspectType → String → Option Aspect
  pub emit_aspect : AspectType → String → Aspect → Graph → Graph
  pub tags-emit_tags :
      (u v : String) (ts : List TagAssociation) (g : Graph)
      → get_tags (emit_tags u ts g) v ≡ (if u == v then some ts else get_tags g v)
  pub tags-emit_aspect :
      (k : AspectType) (u v : String) (a : Aspect) (g : Graph)
      → get_tags (emit_aspect k u a g) v ≡ get_tags g v
  pub aspect-emit_tags :
      (k : AspectType) (u v : String) (ts : List TagAssociation) (g : Graph)
      → get_aspect (emit_tags u ts g) k v ≡ get_aspect g k v
  pub aspect-emit_aspect :
      (j k : AspectType) (u v : String) (a : Aspect) (g : Graph)
      → get_aspect (emit_aspect j u a g) k v
        ≡ (if same_aspect j k && u == v then some a else get_aspect g k v)
