-- ===== src/Coordinator.antt =====
-- `Coordinator.resolve` of core/coordinator.py on an optional event recorder: the report, and one event
-- for each resolution.
pub mod Values
pub mod Cause
pub mod Report
pub mod Readings
pub mod Grounds
use sciguard_autopilot.Base.{
  ℕ, String, Bool, true, false, not, ◌&&◌, ◌||◌, Option, none, some, List, [], ◌∷◌, ◌++◌, is_nil,
  is_some, all, keep_if, or_default, if◌then◌else◌, Exception, value_error, key_error,
  runtime_error, Result, ok, err, ◌==◌,
}
use Prim.Native.String.{◌++◌ as concat}
use sciguard_autopilot.Base.Exec.{Exec, pure, raise, lift, raise_if, ◌>>=◌, ◌>>◌}
use sciguard_autopilot.Base.Raising.{or_raise}
use sciguard_autopilot.Base.Texts.{is_empty}
use sciguard_autopilot.Base.Dict.{Dict, lookup, insert}
use sciguard_autopilot.Base.Json.{Json, str, num, bool, arr, obj, nil, str_array}
use sciguard_autopilot.Events.{EventRecorder, Emission, coordinator, hypothesis_resolved, emit_if}
use sciguard_autopilot.Investigation.{
  Evidence, Hypothesis, InvestigationCase, InvestigationResult, RealityCheckResult,
  HypothesisResolution, HypothesisStatus, confirmed, hypothesis_rejected, inconclusive,
  hypothesis_status_value, RootCause, InvestigationReport,
}
use sciguard_autopilot.Coordinator.Values.{
  same_json, contained, less_than, and_also, is_false, is_true,
}
use sciguard_autopilot.Coordinator.Cause.{root_cause_of}
use sciguard_autopilot.Coordinator.Report.{by_kind, degraded_report, judged}

-- the event of one resolution
abbrev pub resolution_emission : HypothesisResolution → Emission
resolution_emission r = record {
  actor = coordinator;
  event_type = hypothesis_resolved;
  summary = concat r.hypothesis_id (concat " resolved as " (hypothesis_status_value r.status));
  evidence_ids = r.evidence_ids;
  duration_ms = 0;
  payload =
      ("hypothesis_id", str r.hypothesis_id)
      ∷ ("status", str (hypothesis_status_value r.status))
      ∷ ("rationale", str r.rationale)
      ∷ ("evidence_ids", str_array r.evidence_ids)
      ∷ [];
  timestamp = none;
}

-- `_emit_resolutions`
unfoldable pub emit_resolutions :
    (ℕ → ℕ) → List HypothesisResolution → Exec (Option EventRecorder) (Unit {0})
unfolding emit_if
emit_resolutions clock [] = pure tt
emit_resolutions clock (r ∷ rs) = do
  emit_if clock (resolution_emission r)
  emit_resolutions clock rs

-- The report where both workers are available: whatever raises does so before the events.
unfoldable pub resolve_evidence :
    (String → Result Bool)
    → (ℕ → ℕ)
    → InvestigationCase
    → Dict Evidence
    → Exec (Option EventRecorder) InvestigationReport
unfolding judged emit_resolutions
resolve_evidence tiny_text clock case evidence = do
  report ← lift (judged tiny_text case evidence)
  emit_resolutions clock report.resolutions
  pure report

-- The report where one of the workers is unavailable.
unfoldable pub resolve_degraded :
    (ℕ → ℕ)
    → InvestigationCase
    → InvestigationResult
    → RealityCheckResult
    → Exec (Option EventRecorder) InvestigationReport
unfolding emit_resolutions
resolve_degraded clock case catalog reality = do
  emit_resolutions clock (degraded_report case catalog reality).resolutions
  pure (degraded_report case catalog reality)

-- `Coordinator.resolve`, on an optional recorder
unfoldable pub resolve :
    (String → Result Bool)
    → (ℕ → ℕ)
    → InvestigationCase
    → Option InvestigationResult
    → Option RealityCheckResult
    → Exec (Option EventRecorder) InvestigationReport
unfolding resolve_evidence resolve_degraded
resolve tiny_text clock case (some catalog) (some reality) =
    if not catalog.available || not reality.available
    then resolve_degraded clock case catalog reality
    else resolve_evidence tiny_text clock case (by_kind (catalog.evidence ++ reality.evidence))
resolve tiny_text clock case none reality =
    raise (runtime_error "Coordinator requires both results before resolution")
resolve tiny_text clock case (some catalog) none =
    raise (runtime_error "Coordinator requires both results before resolution")
