-- ===== src/Tests/Signals.antt =====
-- core/sentinel.py at concrete inputs.
use sciguard_autopilot.Base.{
  ◌≡◌, refl, ◌↔◌, ◌⊎◌, String, true, none, some, List, [], ◌∷◌, All, any, ◌==◌,
}
use sciguard_autopilot.Base.Json.{Json}
use sciguard_autopilot.Base.Texts.{lower}
use sciguard_autopilot.Profiles.{Profile}
use sciguard_autopilot.Profiles.Tokens.{
  rule_matches, tokens, spaced, split, lowered, is_contiguous_sublist, without_change,
}
use sciguard_autopilot.Impact.{AffectedEntity}
use sciguard_autopilot.Sentinel.{
  severity_order, Snapshot, Change, changed, unit_change, RuleFinding, RiskAssessment,
  detect_changes, assess_from, assess,
}
use sciguard_autopilot.Sentinel.Escalation.{
  DetectionSignal, EscalationDecision, escalation, policy_of, build_signal, decide_escalation,
}
use sciguard_autopilot.Sentinel.Severity.{IsAtMost, has_path, decide_escalation_iff, assess-IsWorst}

abbrev evidence_id : String → Json → String
evidence_id kind payload = kind

abbrev as_given : List String → List String
as_given names = names

abbrev profile : Profile
profile = record {
  name = "polymer";
  rules =
      record {
        id = "tg-unit";
        field = "tg";
        change = "unit";
        severity = "critical";
        accepted_units = "K" ∷ [];
        remediation = [];
      }
      ∷ [];
  action_policy = none;
  recovery_policy = none;
  escalation_policy = none;
}

abbrev before : Snapshot
before = record { fields = ("DSC_Tg", "double") ∷ []; units = ("DSC_Tg", "K") ∷ [] }

abbrev after : Snapshot
after = record { fields = ("DSC_Tg", "double") ∷ []; units = ("DSC_Tg", "C") ∷ [] }

abbrev changes : List Change
changes = changed unit_change "DSC_Tg" (some "K") (some "C") ∷ []

unit_is_detected : detect_changes as_given before after ≡ changes
unfolding detect_changes
unit_is_detected = refl

abbrev scope : List AffectedEntity
scope =
    record {
      urn = "urn:model";
      name = some "tg model";
      role = "model";
      degree = 2;
      owners = "ana" ∷ [];
    }
    ∷ []

abbrev finding : RuleFinding
finding = record {
  change = changed unit_change "DSC_Tg" (some "K") (some "C");
  rule_id = "tg-unit";
  severity = "critical";
  accepted_units = "K" ∷ [];
  rationale =
      "unit of 'DSC_Tg' changed K -> C; matched rule 'tg-unit' (polymer profile) -> critical";
}

abbrev assessment : RiskAssessment
assessment = record {
  overall_severity = "critical";
  findings = finding ∷ [];
  affected = scope;
  responsible_owners = "ana" ∷ [];
}

assess-IsWorst_example :
    All (λ (f : RuleFinding). IsAtMost f.severity "critical") (finding ∷ [])
    × ((assessment.overall_severity ≡ "none")
        ⊎ (any (λ (f : RuleFinding). f.severity == "critical") (finding ∷ []) ≡ true))
assess-IsWorst_example = assess-IsWorst profile changes scope assessment (
    unfold assess assess_from severity_order rule_matches tokens spaced split lowered lower
      is_contiguous_sublist without_change in
    refl)

abbrev signal : DetectionSignal
signal = build_signal evidence_id "urn:source" assessment

abbrev decision : EscalationDecision
decision =
    escalation evidence_id (policy_of profile.escalation_policy) signal ("model" ∷ []) true true

decide_escalation_iff_example : (decision.escalate ≡ true) ↔ (
    IsAtMost (policy_of profile.escalation_policy).minimum_severity signal.severity
    × (has_path (policy_of profile.escalation_policy) signal.initial_scope ≡ true))
decide_escalation_iff_example =
    decide_escalation_iff evidence_id profile signal decision
      (unfold decide_escalation build_signal severity_order in refl)
