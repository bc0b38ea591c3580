-- ===== src/Tests/Investigations.antt =====
-- core/coordinator.py at concrete inputs.
use sciguard_autopilot.Base.{
  ◌≡◌, refl, String, Bool, true, false, ◌&&◌, Option, none, some, List, [], ◌∷◌, ◌++◌, Result, ok,
  err, runtime_error, type_error, value_error,
}
use sciguard_autopilot.Base.Dict.{Dict}
use sciguard_autopilot.Base.Json.{Json, null, frac, str, num, bool, str_array, Json_discrete}
use sciguard_autopilot.Events.{EventRecorder}
use sciguard_autopilot.Investigation.{
  Evidence, InvestigationCase, InvestigationResult, RealityCheckResult, RootCause,
  InvestigationReport, datahub_catalog,
}
use sciguard_autopilot.Coordinator.{resolve}
use sciguard_autopilot.Coordinator.Values.{less_than, same_json}
use sciguard_autopilot.Coordinator.Report.{degraded_report, by_kind}
use sciguard_autopilot.Coordinator.Grounds.{Grounds, resolve-Judged}

abbrev found : String → Dict Json → Evidence
found kind payload = record {
  evidence_id = kind;
  source = datahub_catalog;
  kind = kind;
  summary = kind;
  payload = payload;
}

abbrev catalog : InvestigationResult
catalog = record {
  available = true;
  start_urn = "urn:report";
  assets = [];
  suspect_sources = "instrument_batch_B042" ∷ [];
  evidence =
      found "MODEL_RELEASE_CONTEXT" (("model_version", str "1") ∷ ("code_version", str "a") ∷ [])
      ∷ found "TRUSTED_RELEASE_BASELINE"
          (("model_version", str "1") ∷ ("code_version", str "a") ∷ [])
      ∷ found "UPSTREAM_LINEAGE"
          (("suspect_sources", str_array ("instrument_batch_B042" ∷ [])) ∷ [])
      ∷ [];
  degraded_reason = none;
}

abbrev measured : Json → List String → RealityCheckResult
measured gain batches = record {
  available = true;
  evidence =
      found "UNIT_FIRMWARE_CONTRACT" (
        ("contract_passed", bool false)
        ∷ ("affected_rows", num 4)
        ∷ ("affected_batches", str_array batches)
        ∷ ("trusted_firmware", str_array ("v4.1" ∷ []))
        ∷ ("current_firmware", str_array ("v4.2" ∷ []))
        ∷ ("expected_unit", str "degC")
        ∷ ("observed_units", str_array ("K" ∷ "degC" ∷ []))
        ∷ ("normalization_versions", str_array ("v1" ∷ []))
        ∷ [])
      ∷ found "RANK_BASELINE_COMPARISON" (
          ("rank_after", num 1) ∷ ("rank_before", num 18) ∷ ("pipeline_status", str "SUCCESS") ∷ [])
      ∷ found "EXPERIMENTAL_VALUE_CHECK" (
          ("all_converted_values_match_baseline", bool true)
          ∷ ("candidate_true_delta_degc", gain)
          ∷ [])
      ∷ [];
  degraded_reason = none;
}

-- The gain is the float 0.0.
abbrev reality : List String → RealityCheckResult
reality = measured (frac false 0 1)

abbrev case : InvestigationCase
case = record {
  incident_id = "INC-1";
  signal_id = none;
  signal_evidence_ids = [];
  symptom = "P-204 rose from rank 18 to rank 1";
  candidate_id = "P-204";
  rank_before = 18;
  rank_after = 1;
  pipeline_status = "SUCCESS";
  start_asset_name = "candidate_ranking_report";
  hypotheses =
      record {
        id = "H1";
        claim = "drift";
        assigned_actor = "SCIENTIFIC_INVESTIGATOR";
        investigation_contract = "compare";
        required_evidence_kinds = "MODEL_RELEASE_CONTEXT" ∷ [];
      }
      ∷ [];
}

-- No gain is a text here.
abbrev no_number : String → Result Bool
no_number s = err (value_error "could not convert string to float")

abbrev outcome : List String → Result InvestigationReport × Option EventRecorder
outcome batches = resolve no_number (λ n. n) case (some catalog) (some (reality batches)) none

abbrev reported : Result InvestigationReport → InvestigationReport
reported (ok report) = report
reported (err x) = degraded_report case catalog (reality [])

abbrev cause_batch : Option RootCause → Option String
cause_batch none = none
cause_batch (some c) = some c.batch_id

confirmed_report : (reported (outcome ("B042" ∷ [])).0).root_cause_confirmed ≡ true
unfolding resolve same_json Json_discrete
confirmed_report = refl

-- The batch that the report names is the first affected one, whatever the explanation says.
first_batch_named :
    cause_batch (reported (outcome ("B041" ∷ "B042" ∷ [])).0).root_cause ≡ some "B041"
unfolding resolve same_json Json_discrete
first_batch_named = refl

no_batch_not_confirmed : (reported (outcome ("B041" ∷ [])).0).root_cause_confirmed ≡ false
unfolding resolve same_json Json_discrete
no_batch_not_confirmed = refl

-- A gain of half a degree does not confirm the cause; where the reality checker had no
-- value, its null is no number.
real_gain_not_confirmed :
    (reported
      (resolve no_number
        (λ n. n)
        case
        (some catalog)
        (some (measured (frac false 5 1) ("B042" ∷ [])))
        none).0).root_cause_confirmed
    ≡ false
unfolding resolve same_json Json_discrete
real_gain_not_confirmed = refl

no_value_raises :
    (resolve no_number (λ n. n) case (some catalog) (some (measured null ("B042" ∷ []))) none).0
    ≡ err (type_error "float() argument must be a string or a real number")
unfolding resolve same_json Json_discrete
no_value_raises = refl

pending :
    (resolve no_number (λ n. n) case (some catalog) none none).0
    ≡ err (runtime_error "Coordinator requires both results before resolution")
unfolding resolve
pending = refl

ranks_of_texts :
    less_than (num 1) (str "2") ≡ err (type_error "'<' not supported between instances")
ranks_of_texts = refl

abbrev report : InvestigationReport
report = reported (outcome ("B042" ∷ [])).0

resolve-Judged_example :
    ((report.root_cause_confirmed ≡ true)
      → (catalog.available ≡ true)
        × ((reality ("B042" ∷ [])).available ≡ true)
        × Grounds no_number (by_kind (catalog.evidence ++ (reality ("B042" ∷ [])).evidence)) report)
    × ((report.root_cause_confirmed ≡ false) → report.root_cause ≡ none)
    × ((catalog.available && (reality ("B042" ∷ [])).available) ≡ false
        → report ≡ degraded_report case catalog (reality ("B042" ∷ [])))
resolve-Judged_example =
    resolve-Judged no_number (λ n. n) case catalog (reality ("B042" ∷ [])) none none report
      (unfold resolve same_json Json_discrete in refl)
