-- ===== src/Coordinator/Report.antt =====
-- The report of `Coordinator.resolve` in core/coordinator.py: what the evidence of both workers says of
-- the three hypotheses. Whether the size of a number that a text holds is below
-- 1e-9 is the argument `tiny_text`.
use sciguard_autopilot.Base.{
  String, Bool, true, false, not, ◌&&◌, Option, none, some, List, [], ◌∷◌, ◌++◌, is_nil, is_some,
  all, keep_if, or_default, if◌then◌else◌, Exception, key_error, runtime_error, Result, ok, err,
}
use Prim.Native.String.{◌++◌ as concat}
use sciguard_autopilot.Base.Raising.{◌>>=◌, ◌>>◌, raise_if, or_raise}
use sciguard_autopilot.Base.Texts.{is_empty}
use sciguard_autopilot.Base.Dict.{Dict, lookup, insert}
use sciguard_autopilot.Base.Json.{Json, str, num, bool, arr, nil}
use sciguard_autopilot.Investigation.{
  Evidence, Hypothesis, InvestigationCase, InvestigationResult, RealityCheckResult,
  HypothesisResolution, HypothesisStatus, confirmed, hypothesis_rejected, inconclusive, RootCause,
  InvestigationReport,
}
use sciguard_autopilot.Coordinator.Values.{
  same_json, contained, less_than, and_also, is_false, is_true, is_tiny,
}
use sciguard_autopilot.Coordinator.Cause.{root_cause_of}

abbrev evidence_into : Dict Evidence → List Evidence → Dict Evidence
evidence_into d [] = d
evidence_into d (e ∷ es) = evidence_into (insert e.kind e d) es

-- `_by_kind`
abbrev pub by_kind : List Evidence → Dict Evidence
by_kind = evidence_into []

abbrev pub evidence_ids_of : List Evidence → List String
evidence_ids_of [] = []
evidence_ids_of (e ∷ es) = e.evidence_id ∷ evidence_ids_of es

abbrev degraded_reason_of : Bool → Option String → List String
degraded_reason_of true reason = []
degraded_reason_of false none = []
degraded_reason_of false (some r) = if is_empty r then [] else r ∷ []

-- `"; ".join(reasons)`
abbrev joined_reasons : List String → String
joined_reasons [] = ""
joined_reasons (r ∷ []) = r
joined_reasons (r ∷ s ∷ rs) = concat r (concat "; " (joined_reasons (s ∷ rs)))

abbrev pub all_inconclusive : List String → List Hypothesis → List HypothesisResolution
all_inconclusive ids [] = []
all_inconclusive ids (h ∷ hs) =
    record {
      hypothesis_id = h.id;
      status = inconclusive;
      rationale = "Required independent evidence source is unavailable";
      evidence_ids = ids;
    }
    ∷ all_inconclusive ids hs

abbrev pub degraded_report :
    InvestigationCase → InvestigationResult → RealityCheckResult → InvestigationReport
degraded_report case catalog reality =
    let reasons =
      degraded_reason_of catalog.available catalog.degraded_reason
      ++ degraded_reason_of reality.available reality.degraded_reason in
    record {
      incident_id = case.incident_id;
      root_cause_confirmed = false;
      root_cause = none;
      resolutions =
          all_inconclusive (evidence_ids_of (catalog.evidence ++ reality.evidence)) case.hypotheses;
      degraded = true;
      degraded_reason =
          some (if is_nil reasons then "required evidence unavailable" else joined_reasons reasons);
    }

-- the kinds that a hypothesis requires and that have not returned
abbrev pub missing_kinds : Dict Evidence → List Hypothesis → List String
missing_kinds evidence [] = []
missing_kinds evidence (h ∷ hs) =
    keep_if (λ kind. not (is_some (lookup kind evidence))) h.required_evidence_kinds
    ++ missing_kinds evidence hs

-- `d.get(key, default)`
abbrev pub get_or : String → Json → Dict Json → Json
get_or key default d = or_default (lookup key d) default

abbrev pub same_option : Option Json → Option Json → Bool
same_option none none = true
same_option (some x) (some y) = same_json x y
same_option (some x) none = same_json x Json.null
same_option none (some y) = same_json Json.null y

-- H1: the release is the trusted one
abbrev pub release_matches : Evidence → Evidence → Bool
release_matches current trusted =
    all (λ key. same_option (lookup key current.payload) (lookup key trusted.payload))
      ("model_version" ∷ "code_version" ∷ [])

abbrev pub h1_of : Evidence → Evidence → HypothesisResolution
h1_of current trusted = record {
  hypothesis_id = "H1";
  status = if release_matches current trusted then hypothesis_rejected else confirmed;
  rationale =
      if release_matches current trusted
      then "Current model and code versions match the trusted release baseline"
      else "Current model or code version differs from the trusted release baseline";
  evidence_ids = current.evidence_id ∷ trusted.evidence_id ∷ [];
}

-- H2: lineage and rows both point to the batch
abbrev pub lineage_reaches_batch : Evidence → Result Bool
lineage_reaches_batch lineage =
    contained "instrument_batch_B042" (get_or "suspect_sources" (arr nil) lineage.payload)

abbrev pub unit_drift : Evidence → Result Bool
unit_drift unit = and_also (ok (is_false (lookup "contract_passed" unit.payload))) (
    and_also (less_than (num 0) (get_or "affected_rows" (num 0) unit.payload))
      (contained "B042" (get_or "affected_batches" (arr nil) unit.payload)))

abbrev pub h2_of : Evidence → Evidence → Bool → HypothesisResolution
h2_of lineage unit h2_confirmed = record {
  hypothesis_id = "H2";
  status = if h2_confirmed then confirmed else hypothesis_rejected;
  rationale =
      if h2_confirmed
      then "Reverse lineage reaches B042 and independent row checks prove its unit drift"
      else "Lineage and row-level contract evidence do not jointly support upstream drift";
  evidence_ids = lineage.evidence_id ∷ unit.evidence_id ∷ [];
}

-- H3: the improvement is not real
abbrev pub no_real_improvement : (String → Result Bool) → Evidence → Evidence → Result Bool
no_real_improvement tiny_text rank experiment =
    and_also
      (less_than (get_or "rank_after" (num 0) rank.payload)
        (get_or "rank_before" (num 0) rank.payload))
      (and_also (ok (is_true (some (get_or "symptom_matches_artifacts" (bool true) rank.payload))))
        (and_also (ok (same_option (lookup "pipeline_status" rank.payload) (some (str "SUCCESS"))))
          (and_also (ok (is_true (lookup "all_converted_values_match_baseline" experiment.payload)))
            (is_tiny tiny_text (get_or "candidate_true_delta_degc" (num 1) experiment.payload)))))

abbrev pub h3_of : Evidence → Evidence → Bool → HypothesisResolution
h3_of rank experiment unreal = record {
  hypothesis_id = "H3";
  status = if unreal then hypothesis_rejected else confirmed;
  rationale =
      if unreal
      then "The rank jump disappears after correct unit conversion; no true Tg gain remains"
      else "Corrected scientific values still support a real improvement";
  evidence_ids = rank.evidence_id ∷ experiment.evidence_id ∷ [];
}

abbrev pub is_confirmed : HypothesisStatus → Bool
is_confirmed confirmed = true
is_confirmed _ = false

abbrev pub is_rejected : HypothesisStatus → Bool
is_rejected hypothesis_rejected = true
is_rejected _ = false

abbrev pub cause_if : Bool → Evidence → Result (Option RootCause)
cause_if false unit = ok none
cause_if true unit = elim (root_cause_of unit) [ ok c ↦ ok (some c) | err e ↦ err e ]

abbrev pub kind_missing : Exception
kind_missing = key_error "evidence kind"

-- What resolves H1 and H2, and what resolves H3.
pub record CatalogFacts : Type 0 where
  pub current : Evidence
  pub trusted : Evidence
  pub lineage : Evidence
  pub unit : Evidence
  pub reaches : Bool
  pub drift : Bool

pub record RealityFacts : Type 0 where
  pub rank : Evidence
  pub experiment : Evidence
  pub unreal : Bool

abbrev pub required : String → Dict Evidence → Result Evidence
required kind evidence = or_raise (lookup kind evidence) kind_missing

unfoldable pub release_facts : Dict Evidence → Result (Evidence × Evidence)
release_facts evidence = do
  current ← required "MODEL_RELEASE_CONTEXT" evidence
  trusted ← required "TRUSTED_RELEASE_BASELINE" evidence
  ok (current, trusted)

unfoldable pub drift_facts : Evidence × Evidence → Dict Evidence → Result CatalogFacts
drift_facts (current, trusted) evidence = do
  lineage ← required "UPSTREAM_LINEAGE" evidence
  unit ← required "UNIT_FIRMWARE_CONTRACT" evidence
  reaches ← lineage_reaches_batch lineage
  drift ← unit_drift unit
  ok (record {
    current = current;
    trusted = trusted;
    lineage = lineage;
    unit = unit;
    reaches = reaches;
    drift = drift;
  })

unfoldable pub reality_facts : (String → Result Bool) → Dict Evidence → Result RealityFacts
reality_facts tiny_text evidence = do
  rank ← required "RANK_BASELINE_COMPARISON" evidence
  experiment ← required "EXPERIMENTAL_VALUE_CHECK" evidence
  unreal ← no_real_improvement tiny_text rank experiment
  ok (record { rank = rank; experiment = experiment; unreal = unreal })

abbrev pub resolutions_of : CatalogFacts → RealityFacts → List HypothesisResolution
resolutions_of c r =
    h1_of c.current c.trusted
    ∷ h2_of c.lineage c.unit (c.reaches && c.drift)
    ∷ h3_of r.rank r.experiment r.unreal
    ∷ []

-- `confirmed`
abbrev pub all_support : CatalogFacts → RealityFacts → Bool
all_support c r =
    is_rejected (h1_of c.current c.trusted).status
    && is_confirmed (h2_of c.lineage c.unit (c.reaches && c.drift)).status
    && is_rejected (h3_of r.rank r.experiment r.unreal).status

unfoldable pub concluded :
    InvestigationCase → CatalogFacts → RealityFacts → Result InvestigationReport
concluded case c r = do
  root_cause ← cause_if (all_support c r) c.unit
  ok (record {
    incident_id = case.incident_id;
    root_cause_confirmed = all_support c r;
    root_cause = root_cause;
    resolutions = resolutions_of c r;
    degraded = false;
    degraded_reason = none;
  })

-- The report on the evidence by its kinds.
unfoldable pub judged :
    (String → Result Bool) → InvestigationCase → Dict Evidence → Result InvestigationReport
unfolding release_facts drift_facts reality_facts concluded
judged tiny_text case evidence = do
  raise_if (not (is_nil (missing_kinds evidence case.hypotheses)))
      (runtime_error "required evidence has not returned")
  release ← release_facts evidence
  c ← drift_facts release evidence
  r ← reality_facts tiny_text evidence
  concluded case c r
