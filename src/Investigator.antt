-- ===== src/Investigator.antt =====
-- core/investigator.py: the worker that reads the catalog upstream of a report. The reader of the
-- catalog is a record of its two calls, and the time that the worker took is an argument.
pub mod Traced
use Prim.Native.Nat.{◌-◌}
use Prim.Native.String.{◌++◌ as concat}
use sciguard_autopilot.Base.{
  ℕ, String, Bool, true, false, ◌||◌, Option, none, some, List, [], ◌∷◌, map, length, contains,
  keep_if, if◌then◌else◌, ◌==◌, Exception, value_error, lookup_error, key_error, type_error,
  attribute_error, runtime_error, os_error, Result, ok, err,
}
use sciguard_autopilot.Base.Raising.{◌>>=◌}
use sciguard_autopilot.Base.Exec.{Exec, ◌>>◌, pure}
use sciguard_autopilot.Base.Texts.{begins_with, within, decimal}
use sciguard_autopilot.Base.Dict.{Dict, lookup, insert}
use sciguard_autopilot.Base.Json.{Json, null, bool, num, str, arr, obj, Items, nil, cons, str_array}
use sciguard_autopilot.Events.{
  EventRecorder, Emission, scientific_investigator, evidence_observed, emit_if,
}
use sciguard_autopilot.Impact.{LineageHit}
use sciguard_autopilot.Publication.{str_or_null}
use sciguard_autopilot.Investigation.{
  Evidence, datahub_catalog, source_value, create_evidence, to_fields, AssetContext,
  InvestigationResult,
}

-- `get_all_upstream` and `get_asset_context` of the reader, and `AssetContext.model_validate`.
pub record Catalog : Type 0 where
  pub get_all_upstream : String → Result (List LineageHit)
  pub get_asset_context : String → Result (Dict Json)
  pub model_validate : Dict Json → Result AssetContext

-- `context["degree"] = degree` before the validation
unfoldable pub asset_at : Catalog → String → ℕ → Result AssetContext
asset_at catalog urn degree = do
  context ← catalog.get_asset_context urn
  catalog.model_validate (insert "degree" (num degree) context)

-- `type(exc).__name__` and `str(exc)`
abbrev pub class_name : Exception → String
class_name (value_error _) = "ValueError"
class_name (lookup_error _) = "LookupError"
class_name (key_error _) = "KeyError"
class_name (type_error _) = "TypeError"
class_name (attribute_error _) = "AttributeError"
class_name (runtime_error _) = "RuntimeError"
class_name (os_error _) = "OSError"

abbrev pub message_of : Exception → String
message_of (value_error s) = s
message_of (lookup_error s) = s
message_of (key_error s) = concat "'" (concat s "'")
message_of (type_error s) = s
message_of (attribute_error s) = s
message_of (runtime_error s) = s
message_of (os_error s) = s

abbrev pub ordered : String → List LineageHit → List (String × ℕ)
ordered report_urn hits = (report_urn, 0) ∷ map (λ (h : LineageHit). (h.urn, h.degree)) hits

-- the loop over what was reached, with the URNs that were seen
unfoldable pub read_assets : Catalog → List String → List (String × ℕ) → Result (List AssetContext)
unfolding asset_at
read_assets catalog seen [] = ok []
read_assets catalog seen ((urn, degree) ∷ more) = elim (contains urn seen) [
  | true ↦ read_assets catalog seen more
  | false ↦ do
    asset ← asset_at catalog urn degree
    assets ← read_assets catalog (urn ∷ seen) more
    ok (asset ∷ assets)
]

unfoldable pub read_catalog : Catalog → String → Result (List AssetContext)
unfolding read_assets
read_catalog catalog report_urn = do
  hits ← catalog.get_all_upstream report_urn
  read_assets catalog [] (ordered report_urn hits)

abbrev pub has_role : String → AssetContext → Bool
has_role role asset = elim (lookup "entity_role" asset.properties) [
  | none ↦ false
  | some r ↦ r == role
]

abbrev pub suspects_of : List AssetContext → List String
suspects_of assets =
    map (λ (a : AssetContext). a.name)
      (keep_if
        (λ (a : AssetContext). has_role "source_batch" a || begins_with "instrument_batch_" a.name)
        assets)

abbrev pub first_with : (AssetContext → Bool) → List AssetContext → Option AssetContext
first_with test [] = none
first_with test (a ∷ as') = let rest = first_with test as' in if test a then some a else rest

abbrev pub model_of : List AssetContext → Option AssetContext
model_of assets = elim (first_with (has_role "model") assets) [
  | none ↦ first_with (λ (a : AssetContext). within "model" a.name) assets
  | some a ↦ some a
]

abbrev property_of : String → Option AssetContext → Json
property_of key none = null
property_of key (some a) = str_or_null (lookup key a.properties)

abbrev urn_or_null : Option AssetContext → Json
urn_or_null none = null
urn_or_null (some a) = str a.urn

abbrev degrees_from : Dict Json → List AssetContext → Dict Json
degrees_from d [] = d
degrees_from d (a ∷ more) = degrees_from (insert a.name (num a.degree) d) more

abbrev runs : List (Dict Json) → Items
runs [] = nil
runs (d ∷ ds) = cons (obj (to_fields d)) (runs ds)

abbrev governance : List AssetContext → Items
governance [] = nil
governance (a ∷ more) =
    cons
      (obj (
        to_fields (
          ("name", str a.name)
          ∷ ("owners", str_array a.owners)
          ∷ ("tags", str_array a.tags)
          ∷ ("terms", str_array a.terms)
          ∷ ("assertion_history", arr (runs a.assertion_history))
          ∷ ("assertions_supported", bool a.assertions_supported)
          ∷ [])))
      (governance more)

abbrev evidence_items : List Evidence → Items
evidence_items [] = nil
evidence_items (e ∷ more) =
    cons
      (obj (
        to_fields (
          ("evidence_id", str e.evidence_id)
          ∷ ("source", str (source_value e.source))
          ∷ ("kind", str e.kind)
          ∷ ("summary", str e.summary)
          ∷ ("payload", obj (to_fields e.payload))
          ∷ [])))
      (evidence_items more)

-- the event of `_emit_observation`
abbrev pub observation : List Evidence → ℕ → String → Emission
observation evidence duration summary = record {
  actor = scientific_investigator;
  event_type = evidence_observed;
  summary = summary;
  evidence_ids = map (λ (e : Evidence). e.evidence_id) evidence;
  duration_ms = duration;
  payload = ("evidence", arr (evidence_items evidence)) ∷ [];
  timestamp = none;
}

module _ (stable_evidence_id : String → Json → String) where
  unfoldable pub catalog_evidence : String → List AssetContext → List Evidence
  unfolding create_evidence decimal
  catalog_evidence report_urn assets =
      create_evidence stable_evidence_id datahub_catalog "UPSTREAM_LINEAGE"
        (concat "Reverse lineage reached " (decimal (length assets - 1) " upstream assets"))
        (("start_urn", str report_urn)
          ∷ ("asset_names", str_array (map (λ (a : AssetContext). a.name) assets))
          ∷ ("degrees", obj (to_fields (degrees_from [] assets)))
          ∷ ("suspect_sources", str_array (suspects_of assets))
          ∷ [])
      ∷ create_evidence stable_evidence_id datahub_catalog "MODEL_RELEASE_CONTEXT"
          "Read current model and code release metadata from DataHub"
          (("model_urn", urn_or_null (model_of assets))
            ∷ ("model_version", property_of "model_version" (model_of assets))
            ∷ ("code_version", property_of "code_version" (model_of assets))
            ∷ [])
      ∷ create_evidence stable_evidence_id datahub_catalog "CATALOG_GOVERNANCE_CONTEXT"
          "Read owners, tags, terms, and assertion history for traced assets"
          (("assets", arr (governance assets)) ∷ [])
      ∷ []

  unfoldable pub unavailable_evidence : Exception → Evidence
  unfolding create_evidence
  unavailable_evidence e =
      create_evidence stable_evidence_id datahub_catalog "DATAHUB_UNAVAILABLE"
        "DataHub context could not be read"
        (("error_type", str (class_name e)) ∷ ("error", str (message_of e)) ∷ [])

  abbrev pub unavailable : String → Exception → InvestigationResult
  unavailable report_urn e = record {
    available = false;
    start_urn = report_urn;
    assets = [];
    suspect_sources = [];
    evidence = unavailable_evidence e ∷ [];
    degraded_reason = some (
        concat "DataHub context unavailable: "
          (concat (class_name e) (concat ": " (message_of e))));
  }

  abbrev pub traced : String → List AssetContext → InvestigationResult
  traced report_urn assets = record {
    available = true;
    start_urn = report_urn;
    assets = assets;
    suspect_sources = suspects_of assets;
    evidence = catalog_evidence report_urn assets;
    degraded_reason = none;
  }

  abbrev pub observed_result :
      (ℕ → ℕ)
      → ℕ
      → String
      → Result (List AssetContext)
      → Exec (Option EventRecorder) InvestigationResult
  observed_result clock duration report_urn (err e) =
      emit_if clock
        (observation (unavailable_evidence e ∷ []) duration "DataHub investigation degraded")
      >> pure (unavailable report_urn e)
  observed_result clock duration report_urn (ok assets) =
      emit_if clock (
        observation (catalog_evidence report_urn assets) duration "DataHub investigation completed")
      >> pure (traced report_urn assets)

  unfoldable pub investigate :
      Catalog → (ℕ → ℕ) → ℕ → String → Exec (Option EventRecorder) InvestigationResult
  unfolding read_catalog emit_if
  investigate catalog clock duration report_urn =
      observed_result clock duration report_urn (read_catalog catalog report_urn)
