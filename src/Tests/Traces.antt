-- ===== src/Tests/Traces.antt =====
-- core/investigator.py at concrete inputs.
use sciguard_autopilot.Base.{
  ℕ, ◌≡◌, refl, ◌⊎◌, String, true, none, List, [], ◌∷◌, if◌then◌else◌, lookup_error, value_error,
  Option, some, Result, ok, err, ◌==◌,
}
use sciguard_autopilot.Base.Dict.{lookup}
use sciguard_autopilot.Base.Json.{Json, str, num}
use sciguard_autopilot.Impact.{LineageHit}
use sciguard_autopilot.Events.{emit_if}
use sciguard_autopilot.Investigation.{AssetContext}
use sciguard_autopilot.Investigator.{
  Catalog, asset_at, read_assets, read_catalog, suspects_of, traced, unavailable, investigate,
}
use sciguard_autopilot.Investigator.Traced.{IsTraced, IsDegraded, investigate-IsTraced}

abbrev hit : String → ℕ → LineageHit
hit urn degree = record { urn = urn; name = none; entity_type = none; degree = degree }

abbrev asset : String → ℕ → AssetContext
asset urn degree = record {
  urn = urn;
  name = urn;
  degree = degree;
  owners = [];
  tags = [];
  terms = [];
  properties = [];
  assertion_history = [];
  assertions_supported = true;
}

abbrev asset_of : Option Json → Option Json → Result AssetContext
asset_of (some (str urn)) (some (num degree)) = ok (asset urn degree)
asset_of _ _ = err (value_error "no asset")

-- The batch is reached on two ways; nothing is known of the lab.
abbrev catalog : Catalog
catalog = record {
  get_all_upstream = λ urn. ok (
      hit "model" 1
      ∷ hit "instrument_batch_7" 1
      ∷ hit "instrument_batch_7" 2
      ∷ hit "report" 3
      ∷ []);
  get_asset_context = λ urn.
      if urn == "lab"
      then err (lookup_error "no such dataset")
      else ok (("urn", str urn) ∷ ("degree", num 9) ∷ []);
  model_validate = λ context. asset_of (lookup "urn" context) (lookup "degree" context);
}

abbrev reached : List AssetContext
reached = asset "report" 0 ∷ asset "model" 1 ∷ asset "instrument_batch_7" 1 ∷ []

batch_is_suspect : suspects_of reached ≡ "instrument_batch_7" ∷ []
batch_is_suspect = refl

lab_is_unavailable :
    investigate (λ kind payload. kind) catalog (λ n. n) 4 "lab" none
    ≡ (ok (unavailable (λ kind payload. kind) "lab" (lookup_error "no such dataset")), none)
unfolding investigate read_catalog read_assets asset_at emit_if
lab_is_unavailable = refl

investigate-IsTraced_example :
    IsTraced catalog "report" (traced (λ kind payload. kind) "report" reached)
    ⊎ IsDegraded catalog "report" (traced (λ kind payload. kind) "report" reached)
investigate-IsTraced_example =
    investigate-IsTraced (λ kind payload. kind) catalog (λ n. n) 4 "report" none none
      (traced (λ kind payload. kind) "report" reached)
      (unfold investigate read_catalog read_assets asset_at emit_if in refl)
