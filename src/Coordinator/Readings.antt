-- ===== src/Coordinator/Readings.antt =====
-- What the payloads of core/coordinator.py's evidence hold where its predicates are true, key by key.
use sciguard_autopilot.Base.{
  ◌≡◌, refl, subst, String, Bool, true, false, Option, none, some, [], ◌∷◌, arith, Result, ok, err,
}
use sciguard_autopilot.Base.Raising.{>>=-eq-ok, ok_inj}
use sciguard_autopilot.Base.Dict.{lookup}
use sciguard_autopilot.Base.Json.{Json, null, bool, num, frac, str, arr, nil, obj}
use sciguard_autopilot.Investigation.{
  Evidence, HypothesisResolution, HypothesisStatus, confirmed, hypothesis_rejected, RootCause,
}
use sciguard_autopilot.Coordinator.Values.{
  contained, less_than, and_also, is_false, is_true, is_tiny, first_text, text_field, texts_field,
  number_field,
}
use sciguard_autopilot.Coordinator.Cause.{root_cause_of}
use sciguard_autopilot.Coordinator.Report.{
  get_or, same_option, release_matches, lineage_reaches_batch, unit_drift, no_real_improvement,
  h1_of, h2_of, h3_of,
}

-- Both releases have the same model and code version.
pub record SameRelease (current trusted : Evidence) : Type 0 where
  pub model :
      same_option (lookup "model_version" current.payload) (lookup "model_version" trusted.payload)
      ≡ true
  pub code :
      same_option (lookup "code_version" current.payload) (lookup "code_version" trusted.payload)
      ≡ true

-- The suspect sources hold the batch's.
pub record Reaches (lineage : Evidence) : Type 0 where
  pub suspect :
      contained "instrument_batch_B042" (get_or "suspect_sources" (arr nil) lineage.payload)
      ≡ ok true

-- The contract failed, on at least one row, and the batch is among the affected ones.
pub record Drifts (unit : Evidence) : Type 0 where
  pub contract : lookup "contract_passed" unit.payload ≡ some (bool false)
  pub rows : less_than (num 0) (get_or "affected_rows" (num 0) unit.payload) ≡ ok true
  pub batch : contained "B042" (get_or "affected_batches" (arr nil) unit.payload) ≡ ok true

-- The rank rose in a run that succeeded and that the artifacts confirm, all converted values are the
-- trusted ones, and the candidate gained less than 1e-9.
pub record NoGain (tiny_text : String → Result Bool) (rank experiment : Evidence) : Type 0 where
  pub rose :
      less_than
        (get_or "rank_after" (num 0) rank.payload)
        (get_or "rank_before" (num 0) rank.payload)
      ≡ ok true
  pub artifacts : get_or "symptom_matches_artifacts" (bool true) rank.payload ≡ bool true
  pub succeeded : same_option (lookup "pipeline_status" rank.payload) (some (str "SUCCESS")) ≡ true
  pub converted : lookup "all_converted_values_match_baseline" experiment.payload ≡ some (bool true)
  pub gain :
      is_tiny tiny_text (get_or "candidate_true_delta_degc" (num 1) experiment.payload) ≡ ok true

-- The root cause is read off the unit evidence.
pub record ReadOff (unit : Evidence) (cause : RootCause) : Type 0 where
  pub batch : first_text "affected_batches" unit.payload ≡ ok cause.batch_id
  pub before : first_text "trusted_firmware" unit.payload ≡ ok cause.instrument_firmware_before
  pub after : first_text "current_firmware" unit.payload ≡ ok cause.instrument_firmware_after
  pub expected : text_field "expected_unit" unit.payload ≡ ok cause.expected_unit
  pub observed : texts_field "observed_units" unit.payload ≡ ok cause.observed_units
  pub version : first_text "normalization_versions" unit.payload ≡ ok cause.normalization_version
  pub rows : number_field "affected_rows" unit.payload ≡ ok cause.affected_rows

-- A resolution of this hypothesis, with this status, that cites these two pieces of evidence.
pub record Resolved (id : String) (status : HypothesisStatus) (first second : Evidence)
    (r : HypothesisResolution) : Type 0 where
  pub hypothesis : r.hypothesis_id ≡ id
  pub outcome : r.status ≡ status
  pub cited : r.evidence_ids ≡ first.evidence_id ∷ second.evidence_id ∷ []

and_also-eq-true : (a b : Result Bool) → and_also a b ≡ ok true → (a ≡ ok true) × (b ≡ ok true)
and_also-eq-true (err e) b h = cc
and_also-eq-true (ok false) b h = cc
and_also-eq-true (ok true) b h = (refl, h)

is_true→some : (o : Option Json) → is_true o ≡ true → o ≡ some (bool true)
is_true→some none h = cc
is_true→some (some (bool true)) h = refl
is_true→some (some (bool false)) h = cc
is_true→some (some null) h = cc
is_true→some (some (num n)) h = cc
is_true→some (some (frac b m k)) h = cc
is_true→some (some (str s)) h = cc
is_true→some (some (arr js)) h = cc
is_true→some (some (obj fs)) h = cc

is_false→some : (o : Option Json) → is_false o ≡ true → o ≡ some (bool false)
is_false→some none h = cc
is_false→some (some (bool true)) h = cc
is_false→some (some (bool false)) h = refl
is_false→some (some null) h = cc
is_false→some (some (num n)) h = cc
is_false→some (some (frac b m k)) h = cc
is_false→some (some (str s)) h = cc
is_false→some (some (arr js)) h = cc
is_false→some (some (obj fs)) h = cc

pub release_matches-SameRelease :
    (current trusted : Evidence)
    → release_matches current trusted ≡ true
    → SameRelease current trusted
release_matches-SameRelease current trusted h = record {
  model = ground (arith, h);
  code = ground (arith, h);
}

pub lineage_reaches_batch-Reaches :
    (lineage : Evidence) → lineage_reaches_batch lineage ≡ ok true → Reaches lineage
lineage_reaches_batch-Reaches lineage h = record { suspect = h }

pub unit_drift-Drifts : (unit : Evidence) → unit_drift unit ≡ ok true → Drifts unit
unit_drift-Drifts unit h =
    let (failed, more) =
      and_also-eq-true (ok (is_false (lookup "contract_passed" unit.payload))) _ h in
    let (rows, batch) =
      and_also-eq-true (less_than (num 0) (get_or "affected_rows" (num 0) unit.payload)) _ more in
    record { contract = is_false→some _ (ok_inj failed); rows = rows; batch = batch }

some_inj : {j k : Json} → some j ≡ some k → j ≡ k
some_inj h = cc

pub no_real_improvement-NoGain :
    (tiny_text : String → Result Bool) (rank experiment : Evidence)
    → no_real_improvement tiny_text rank experiment ≡ ok true
    → NoGain tiny_text rank experiment
no_real_improvement-NoGain tiny_text rank experiment h =
    let (rose, h1) =
      and_also-eq-true
        (less_than (get_or "rank_after" (num 0) rank.payload)
          (get_or "rank_before" (num 0) rank.payload))
        _ h in
    let (artifacts, h2) =
      and_also-eq-true
        (ok (is_true (some (get_or "symptom_matches_artifacts" (bool true) rank.payload)))) _ h1 in
    let (succeeded, h3) =
      and_also-eq-true
        (ok (same_option (lookup "pipeline_status" rank.payload) (some (str "SUCCESS")))) _ h2 in
    let (converted, gain) =
      and_also-eq-true
        (ok (is_true (lookup "all_converted_values_match_baseline" experiment.payload))) _ h3 in
    record {
      rose = rose;
      artifacts = some_inj (
          is_true→some (some (get_or "symptom_matches_artifacts" (bool true) rank.payload))
            (ok_inj artifacts));
      succeeded = ok_inj succeeded;
      converted = is_true→some _ (ok_inj converted);
      gain = gain;
    }

pub root_cause_of-ReadOff :
    (unit : Evidence) (cause : RootCause) → root_cause_of unit ≡ ok cause → ReadOff unit cause
root_cause_of-ReadOff unit cause h =
    let (batch, e1, h1) = >>=-eq-ok (first_text "affected_batches" unit.payload) _ h in
    let (before, e2, h2) = >>=-eq-ok (first_text "trusted_firmware" unit.payload) _ h1 in
    let (after, e3, h3) = >>=-eq-ok (first_text "current_firmware" unit.payload) _ h2 in
    let (expected, e4, h4) = >>=-eq-ok (text_field "expected_unit" unit.payload) _ h3 in
    let (observed, e5, h5) = >>=-eq-ok (texts_field "observed_units" unit.payload) _ h4 in
    let (version, e6, h6) = >>=-eq-ok (first_text "normalization_versions" unit.payload) _ h5 in
    let (rows, e7, h7) = >>=-eq-ok (number_field "affected_rows" unit.payload) _ h6 in
    subst (ReadOff unit) (ok_inj h7) (record {
      batch = e1;
      before = e2;
      after = e3;
      expected = e4;
      observed = e5;
      version = e6;
      rows = e7;
    })

pub h1_of-Resolved :
    (current trusted : Evidence)
    → release_matches current trusted ≡ true
    → Resolved "H1" hypothesis_rejected current trusted (h1_of current trusted)
h1_of-Resolved current trusted h = record { hypothesis = refl; outcome = rw h refl; cited = refl }

pub h2_of-Resolved :
    (lineage unit : Evidence) → Resolved "H2" confirmed lineage unit (h2_of lineage unit true)
h2_of-Resolved lineage unit = record { hypothesis = refl; outcome = refl; cited = refl }

pub h3_of-Resolved :
    (rank experiment : Evidence)
    → Resolved "H3" hypothesis_rejected rank experiment (h3_of rank experiment true)
h3_of-Resolved rank experiment = record { hypothesis = refl; outcome = refl; cited = refl }
