-- ===== src/Recovery/Checks.antt =====
-- The checks of a recovery run in core/recovery.py, and the verdict of `evaluate` on them.
use sciguard_autopilot.DataHub.Values.{text_at}
use sciguard_autopilot.Base.{
  ℕ, String, Bool, true, false, not, ◌&&◌, ◌||◌, Option, none, some, List, [], ◌∷◌, ◌++◌,
  if◌then◌else◌, leb, is_nil, is_some, keep_if, dedupe, value_error, Result, ok, err, ◌==◌,
}
use sciguard_autopilot.Base.Dict.{Dict, lookup, insert}
use sciguard_autopilot.Base.Json.{
  Json, null, bool, str, arr, obj, Items, nil, cons, end, field, str_array,
}
use sciguard_autopilot.DataHub.{Properties}
use sciguard_autopilot.Profiles.{RecoveryPolicy, Profile}
use sciguard_autopilot.Recovery.History.{consecutive_clean, reversed, persisted_history}

pub data CheckStatus : Type 0 where
  pass fail : CheckStatus

abbrev pub check_status_value : CheckStatus → String
check_status_value pass = "PASS"
check_status_value fail = "FAIL"

abbrev pub is_fail : CheckStatus → Bool
is_fail pass = false
is_fail fail = true

pub record RecoveryCheck : Type 0 where
  pub check_id : String
  pub status : CheckStatus
  pub evidence_ids : List String

-- `RecoveryCheck(...)`, with the validator `_evidence_required`
unfoldable pub make_recovery_check : RecoveryCheck → Result RecoveryCheck
make_recovery_check k =
    if is_nil k.evidence_ids then err (value_error "a recovery check requires evidence") else ok k

pub record HumanApprovalEvidence : Type 0 where
  pub receipt_id : String
  pub approver_urn : String
  pub identity_assurance : String
  pub production_authorized : Bool

pub record RecoveryResult : Type 0 where
  pub incident_id : String
  pub resume_allowed : Bool
  pub incident_state : String
  pub missing_checks : List String
  pub failed_checks : List String
  pub clean_run_count : ℕ
  pub human_approval_used : Bool
  pub approval_receipt_id : Option String
  pub approval_identity_assurance : Option String
  pub approval_production_authorized : Bool
  pub llm_instruction_ignored : Bool

pub record RecoveryController : Type 0 where
  pub control_urn : String
  pub policy : RecoveryPolicy

-- `RecoveryController.__init__`
unfoldable pub new_controller : String → Profile → Result RecoveryController
new_controller control_urn profile = elim profile.recovery_policy [
  | none ↦ err (value_error "profile has no recovery_policy")
  | some policy ↦ ok (record { control_urn = control_urn; policy = policy })
]

-- `{check.check_id: check for check in checks}`, with the status for the check
abbrev pub index_checks : List RecoveryCheck → Dict CheckStatus → Dict CheckStatus
index_checks [] d = d
index_checks (k ∷ ks) d = index_checks ks (insert k.check_id k.status d)

abbrev pub by_id : List RecoveryCheck → Dict CheckStatus
by_id checks = index_checks checks []

-- `check_id in by_id and by_id[check_id].status is CheckStatus.FAIL`
abbrev pub failed_in : Option CheckStatus → Bool
failed_in none = false
failed_in (some s) = is_fail s

abbrev approval_json : Option HumanApprovalEvidence → Json
approval_json none = null
approval_json (some a) = obj (
    field "receipt_id" (str a.receipt_id) (
      field "approver_urn" (str a.approver_urn) (
        field "identity_assurance" (str a.identity_assurance)
          (field "production_authorized" (bool a.production_authorized) end))))

abbrev check_json : RecoveryCheck → Json
check_json k = obj (
    field "check_id" (str k.check_id) (
      field "status" (str (check_status_value k.status))
        (field "evidence_ids" (str_array k.evidence_ids) end)))

abbrev checks_json : List RecoveryCheck → Items
checks_json [] = nil
checks_json (k ∷ ks) = cons (check_json k) (checks_json ks)

abbrev pub run_json : Bool → List RecoveryCheck → Option HumanApprovalEvidence → Json
run_json clean checks approval = obj (
    field "clean" (bool clean) (
      field "human_approval" (approval_json approval)
        (field "checks" (arr (checks_json checks)) end)))

abbrev pub check_evidence : List RecoveryCheck → List String
check_evidence [] = []
check_evidence (k ∷ ks) = k.evidence_ids ++ check_evidence ks

abbrev receipt_of : Option HumanApprovalEvidence → List String
receipt_of none = []
receipt_of (some a) = a.receipt_id ∷ []

abbrev pub authorized : Option HumanApprovalEvidence → Bool
authorized none = false
authorized (some a) = a.production_authorized

abbrev pub next_state : Bool → Bool → String → String
next_state resume clean previous =
    if resume
    then "RESOLVED"
    else if clean
    then "RECOVERY_PENDING"
    else if previous == "QUARANTINED"
    then "QUARANTINED"
    else "AT_RISK"

-- The local variables of `evaluate` once it has decided.
pub record Verdict : Type 0 where
  pub missing : List String
  pub failed : List String
  pub clean : Bool
  pub history : List Json
  pub consecutive : ℕ
  pub approved_by_human : Bool
  pub resume : Bool
  pub state : String
  pub evidence_ids : List String

abbrev pub missing_checks : RecoveryPolicy → List RecoveryCheck → List String
missing_checks policy checks =
    keep_if (λ id. not (is_some (lookup id (by_id checks)))) policy.required_checks

abbrev pub failed_checks : RecoveryPolicy → List RecoveryCheck → List String
failed_checks policy checks =
    keep_if (λ id. failed_in (lookup id (by_id checks))) policy.required_checks

abbrev pub is_clean : RecoveryPolicy → List RecoveryCheck → Bool
is_clean policy checks =
    is_nil (missing_checks policy checks) && is_nil (failed_checks policy checks)

abbrev pub verdict :
    RecoveryPolicy
    → Properties
    → List RecoveryCheck
    → Option HumanApprovalEvidence
    → List Json
    → ℕ
    → Verdict
verdict policy props checks approval history consecutive =
    let clean = is_clean policy checks in
    let approved_by_history = clean && leb policy.consecutive_clean_runs consecutive in
    let approved_by_human =
      clean && (authorized approval && policy.allow_one_clean_with_human_approval) in
    let resume = approved_by_history || approved_by_human in
    record {
      missing = missing_checks policy checks;
      failed = failed_checks policy checks;
      clean = clean;
      history = history;
      consecutive = consecutive;
      approved_by_human = approved_by_human;
      resume = resume;
      state = next_state resume clean (text_at "sciguard:incident_state" "AT_RISK" props);
      evidence_ids = dedupe (check_evidence checks ++ receipt_of approval);
    }

-- the part of `evaluate` between its reads and its writes
unfoldable pub judge :
    RecoveryPolicy → Properties → List RecoveryCheck → Option HumanApprovalEvidence → Result Verdict
judge policy props checks approval = elim (persisted_history props) [
  | ok prior ↦
      let history = prior ++ run_json (is_clean policy checks) checks approval ∷ [] in
      elim (consecutive_clean (reversed history)) [
        | ok n ↦ ok (verdict policy props checks approval history n)
        | err e ↦ err e
      ]
  | err e ↦ err e
]
