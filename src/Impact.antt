-- ===== src/Impact.antt =====
-- core/impact.py: the review scope from dataset lineage, the fields that contamination reaches along
-- fine-grained lineage, and the assets that the policy engine decides on. The backend, which asks
-- DataHub, is a record of the calls; `schema_field_urn` is make_schema_field_urn of the DataHub SDK.
pub mod Taint
use sciguard_autopilot.Base.{
  ℕ, String, Bool, true, false, not, ◌&&◌, ◌||◌, Option, none, some, List, [], ◌∷◌, ◌++◌, map,
  if◌then◌else◌, leb, is_nil, keep_if, contains, dedupe, lookup_error, Result, ok, err, ◌==◌,
}
use Prim.Native.String.{[] as no_text, ◌∷◌ as put_before, compare}
use Prim.Native.Nat.{Ordering}
use sciguard_autopilot.Base.Texts.{is_empty, upper, lower, within}
use sciguard_autopilot.DataHub.{Properties}
use sciguard_autopilot.DataHub.Values.{text_at}
use sciguard_autopilot.Policy.{AssetPolicyContext}

pub record AffectedEntity : Type 0 where
  pub urn : String
  pub name : Option String
  pub role : String
  pub degree : ℕ
  pub owners : List String

pub record FieldImpact : Type 0 where
  pub source_urn : String
  pub source_fields : List String
  pub affected_urns : List String
  pub affected_names : List String
  pub unaffected_urns : List String
  pub unaffected_names : List String
  pub tainted_field_urns : List String

-- What a lineage query and a search return for one entity.
pub record LineageHit : Type 0 where
  pub urn : String
  pub name : Option String
  pub entity_type : Option String
  pub degree : ℕ

pub record SearchHit : Type 0 where
  pub name : Option String
  pub platform : Option String

pub record Backend : Type 0 where
  pub get_all_downstream : String → List LineageHit
  pub get_owners : String → List String
  pub get_fine_grained_lineage : String → List (String × String)
  pub search_datasets : String → ℕ → List SearchHit
  pub get_asset_context : String → String × Properties
  pub schema_field_urn : String → String → String

-- `value or ""`
abbrev pub or_blank : Option String → String
or_blank none = ""
or_blank (some s) = s

unfoldable pub infer_role : Option String → Option String → String
unfolding upper lower
infer_role entity_type name =
    let entity = upper (or_blank entity_type) in
    let normalized = lower (or_blank name) in
    if within "MLMODEL" entity || within "model" normalized
    then "model"
    else if within "candidate" normalized || within "ranking" normalized
    then "decision_report"
    else if (entity == "DASHBOARD" || entity == "CHART") || within "dashboard" normalized
    then "dashboard"
    else if within "report" normalized
    then "report"
    else "dataset"

abbrev pub is_dataset : LineageHit → Bool
is_dataset hit = upper (or_blank hit.entity_type) == "DATASET"

abbrev pub affected_entity : Backend → LineageHit → AffectedEntity
affected_entity backend hit = record {
  urn = hit.urn;
  name = hit.name;
  role = infer_role hit.entity_type hit.name;
  degree = hit.degree;
  owners = backend.get_owners hit.urn;
}

unfoldable pub trace_initial_scope : Backend → String → List AffectedEntity
trace_initial_scope backend changed_urn =
    map (affected_entity backend) (keep_if is_dataset (backend.get_all_downstream changed_urn))

-- `platform is None or hit.platform == platform`
abbrev on_platform : Option String → Option String → Bool
on_platform none _ = true
on_platform (some p) none = false
on_platform (some p) (some q) = q == p

abbrev named_other : String → Option String → Option String → Option String → List String
named_other changed wanted none platform = []
named_other changed wanted (some name) platform =
    if (not (is_empty name) && not (name == changed)) && on_platform wanted platform
    then name ∷ []
    else []

abbrev hit_names : String → Option String → List SearchHit → List String
hit_names changed platform [] = []
hit_names changed platform (h ∷ hs) =
    named_other changed platform h.name h.platform ++ hit_names changed platform hs

unfoldable pub impact_via_search : Backend → String → Option String → List String
impact_via_search backend changed_name platform =
    hit_names changed_name platform (backend.search_datasets changed_name 100)

-- `sorted`, which is stable
module _ {A : Type 0} (le : A → A → Bool) where
  abbrev pub insert_sorted : A → List A → List A
  insert_sorted x [] = x ∷ []
  insert_sorted x (y ∷ ys) =
      let rest = insert_sorted x ys in if le x y then x ∷ y ∷ ys else y ∷ rest

  abbrev pub sorted : List A → List A
  sorted [] = []
  sorted (x ∷ xs) = insert_sorted x (sorted xs)

abbrev pub text_le : String → String → Bool
text_le s t = elim (compare s t) [ Ordering.gt ↦ false | _ ↦ true ]

abbrev pub by_degree : LineageHit → LineageHit → Bool
by_degree a b = leb a.degree b.degree

-- `text.split(",")`, with the piece before the first comma apart
abbrev cut : String → String × List String → String × List String
cut c (piece, pieces) =
    if c == "," then ("", piece ∷ pieces) else (Prim.Native.String.◌++◌ c piece, pieces)

abbrev split_on_comma : String → String × List String
split_on_comma no_text = ("", [])
split_on_comma (put_before c s) = cut (put_before c no_text) (split_on_comma s)

abbrev second_last : String → List String → Result String
second_last piece [] = err (lookup_error "list index out of range")
second_last piece (p ∷ []) = ok piece
second_last piece (p ∷ q ∷ ps) = second_last p (q ∷ ps)

-- `source_urn.rsplit(",", 2)[-2]`
unfoldable pub source_name : String → Result String
source_name urn = let (piece, pieces) = split_on_comma urn in second_last piece pieces

-- The local variables of `trace_field_impact`'s loop; the affected and the unaffected entities.
pub record Scan : Type 0 where
  pub tainted : List String
  pub affected : List LineageHit
  pub unaffected : List LineageHit

-- `entity_type and entity_type != "DATASET"`
abbrev pub is_skipped : LineageHit → Bool
is_skipped hit =
    let entity = upper (or_blank hit.entity_type) in
    not (is_empty entity) && not (entity == "DATASET")

-- the downstream fields of the edges whose upstream field is tainted
abbrev pub propagated : List String → List (String × String) → List String
propagated tainted [] = []
propagated tainted ((u, d) ∷ edges) =
    if contains u tainted then d ∷ propagated tainted edges else propagated tainted edges

-- `if propagated: ... else: ...`
abbrev pub found : LineageHit → List String → Scan → Scan
found hit [] s = record s { unaffected = s.unaffected ++ hit ∷ [] }
found hit (d ∷ ds) s = record s { tainted = d ∷ ds ++ s.tainted; affected = s.affected ++ hit ∷ [] }

abbrev pub hit_urns : List LineageHit → List String
hit_urns [] = []
hit_urns (h ∷ hs) = h.urn ∷ hit_urns hs

-- `hit.name or hit.urn`
abbrev shown_name : Option String → String → String
shown_name none urn = urn
shown_name (some name) urn = if is_empty name then urn else name

abbrev pub shown_names : List LineageHit → List String
shown_names [] = []
shown_names (h ∷ hs) = shown_name h.name h.urn ∷ shown_names hs

abbrev pub field_impact : String → List String → String → Scan → FieldImpact
field_impact source_urn source_fields name s = record {
  source_urn = source_urn;
  source_fields = source_fields;
  affected_urns = source_urn ∷ hit_urns s.affected;
  affected_names = name ∷ shown_names s.affected;
  unaffected_urns = hit_urns s.unaffected;
  unaffected_names = shown_names s.unaffected;
  tainted_field_urns = sorted text_le (dedupe s.tainted);
}

abbrev pub with_name : Result String → (String → FieldImpact) → Result FieldImpact
with_name (ok name) f = ok (f name)
with_name (err e) f = err e

module _ (backend : Backend) where
  open backend use {
    get_all_downstream, get_fine_grained_lineage, get_asset_context, schema_field_urn,
  }

  -- the body of the loop
  unfoldable pub scan_hit : LineageHit → Scan → Scan
  scan_hit hit s =
      if is_skipped hit
      then s
      else found hit (propagated s.tainted (get_fine_grained_lineage hit.urn)) s

  unfoldable pub scan_all : List LineageHit → Scan → Scan
  scan_all [] s = s
  scan_all (hit ∷ hits) s = scan_all hits (scan_hit hit s)

  -- `{make_schema_field_urn(source_urn, field) for field in source_fields}`
  abbrev pub source_field_urns : String → List String → List String
  source_field_urns urn fields = map (schema_field_urn urn) fields

  abbrev pub first_scan : String → List String → Scan
  first_scan urn fields = record {
    tainted = source_field_urns urn fields;
    affected = [];
    unaffected = [];
  }

  unfoldable pub trace_field_impact : String → List String → Result FieldImpact
  trace_field_impact source_urn source_fields = with_name (source_name source_urn) (λ name.
      field_impact source_urn source_fields name (
        scan_all (sorted by_degree (get_all_downstream source_urn))
          (first_scan source_urn source_fields)))

  abbrev pub policy_context : List String → String → String × Properties → AssetPolicyContext
  policy_context affected urn (name, properties) = record {
    urn = urn;
    name = name;
    role = text_at "entity_role" "dataset" properties;
    criticality = text_at "sciguard:criticality" "UNKNOWN" properties;
    affected = contains urn affected;
  }

  abbrev pub policy_contexts : List String → List String → List AssetPolicyContext
  policy_contexts affected [] = []
  policy_contexts affected (urn ∷ urns) =
      policy_context affected urn (get_asset_context urn) ∷ policy_contexts affected urns

  -- `additional_affected_urns` is empty where the source's argument is None.
  unfoldable pub build_policy_contexts : FieldImpact → List String → List AssetPolicyContext
  build_policy_contexts impact additional =
      policy_contexts (impact.affected_urns ++ additional)
        (dedupe (impact.affected_urns ++ (impact.unaffected_urns ++ additional)))
