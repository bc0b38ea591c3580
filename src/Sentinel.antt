-- ===== src/Sentinel.antt =====
-- core/sentinel.py: the changes between two snapshots of a schema and their assessment by the rules of
-- a profile. `arranged` is the order in which Python happens to iterate over a set of texts.
pub mod Escalation
pub mod Severity
use sciguard_autopilot.Base.{
  ℕ, String, Bool, true, false, not, ◌&&◌, ◌||◌, Option, none, some, List, [], ◌∷◌, ◌++◌, map,
  if◌then◌else◌, leb, ltb, is_nil, is_some, contains, dedupe, keep_if, key_error, Result, ok, err,
  ◌==◌,
}
use Prim.Native.String.{◌++◌ as concat}
use sciguard_autopilot.Base.Texts.{is_empty}
use sciguard_autopilot.Base.Dict.{Dict, lookup, keys}
use sciguard_autopilot.Base.Json.{
  Json, Items, nil, cons, Fields, end, field, null, bool, num, str, arr, obj, str_array,
}
use sciguard_autopilot.Profiles.{Rule, EscalationPolicy, default_escalation, Profile}
use sciguard_autopilot.Profiles.Tokens.{rule_matches}
use sciguard_autopilot.Impact.{AffectedEntity, sorted, text_le}

-- `SEVERITY_ORDER[severity]`
unfoldable pub severity_order : String → Result ℕ
severity_order s =
    if s == "none"
    then ok 0
    else if s == "low"
    then ok 1
    else if s == "medium"
    then ok 2
    else if s == "high"
    then ok 3
    else if s == "critical"
    then ok 4
    else err (key_error "severity")

pub data ChangeKind : Type 0 where
  unit_change field_removed field_added type_changed : ChangeKind

abbrev pub kind_value : ChangeKind → String
kind_value unit_change = "unit_change"
kind_value field_removed = "field_removed"
kind_value field_added = "field_added"
kind_value type_changed = "type_changed"

pub record Snapshot : Type 0 where
  pub fields : Dict String
  pub units : Dict String

pub record Change : Type 0 where
  pub kind : ChangeKind
  pub field_name : String
  pub before : Option String
  pub after : Option String

-- a value in an f-string
abbrev shown : Option String → String
shown none = "None"
shown (some s) = s

abbrev from_to : String → Change → String
from_to what c = concat what (
    concat c.field_name
      (concat "' changed " (concat (shown c.before) (concat " -> " (shown c.after)))))

abbrev describe_as : ChangeKind → Change → String
describe_as unit_change c = from_to "unit of '" c
describe_as field_removed c = concat "field '" (concat c.field_name "' was removed")
describe_as field_added c = concat "field '" (concat c.field_name "' was added")
describe_as type_changed c = from_to "type of '" c

-- `Change.describe`
abbrev pub describe : Change → String
describe c = describe_as c.kind c

pub record RuleFinding : Type 0 where
  pub change : Change
  pub rule_id : String
  pub severity : String
  pub accepted_units : List String
  pub rationale : String

pub record RiskAssessment : Type 0 where
  pub overall_severity : String
  pub findings : List RuleFinding
  pub affected : List AffectedEntity
  pub responsible_owners : List String

abbrev pub at_least : Result ℕ → Result ℕ → Result Bool
at_least (ok m) (ok n) = ok (leb n m)
at_least (ok m) (err e) = err e
at_least (err e) _ = err e

-- `RiskAssessment.is_actionable`
unfoldable pub is_actionable : RiskAssessment → Result Bool
is_actionable r = at_least (severity_order r.overall_severity) (severity_order "medium")

abbrev pub changed : ChangeKind → String → Option String → Option String → Change
changed kind field_name before after = record {
  kind = kind;
  field_name = field_name;
  before = before;
  after = after;
}

-- the first loop's body: `before` is the field's type, `after` the type that it has afterwards
abbrev pub old_field : String → String → Option String → List Change
old_field name before none = changed field_removed name none none ∷ []
old_field name before (some after) =
    if before == after then [] else changed type_changed name (some before) (some after) ∷ []

abbrev pub old_fields : Dict String → Dict String → List Change
old_fields [] after = []
old_fields ((name, type) ∷ d) after = old_field name type (lookup name after) ++ old_fields d after

abbrev pub new_fields : List String → Dict String → List Change
new_fields [] before = []
new_fields (name ∷ names) before =
    let rest = new_fields names before in
    if is_some (lookup name before) then rest else changed field_added name none none ∷ rest

-- `units.get(field) or None`
abbrev pub unit_of : Option String → Option String
unit_of none = none
unit_of (some u) = if is_empty u then none else some u

abbrev same_unit : Option String → Option String → Bool
same_unit none none = true
same_unit none (some _) = false
same_unit (some _) none = false
same_unit (some u) (some v) = u == v

-- `unit or "(none)"`
abbrev unit_or : Option String → String
unit_or none = "(none)"
unit_or (some u) = u

abbrev pub unit_changes : List String → Dict String → Dict String → List Change
unit_changes [] before after = []
unit_changes (name ∷ names) before after =
    let rest = unit_changes names before after in
    let b = unit_of (lookup name before) in
    let a = unit_of (lookup name after) in
    if same_unit b a
    then rest
    else changed unit_change name (some (unit_or b)) (some (unit_or a)) ∷ rest

abbrev pub both_have : Snapshot → Snapshot → String → Bool
both_have before after name =
    is_some (lookup name before.fields) && is_some (lookup name after.fields)

unfoldable pub detect_changes : (List String → List String) → Snapshot → Snapshot → List Change
detect_changes arranged before after =
    old_fields before.fields after.fields
    ++ (new_fields (keys after.fields) before.fields
        ++ unit_changes
            (arranged
              (keep_if (both_have before after) (dedupe (keys before.units ++ keys after.units))))
            before.units after.units)

abbrev pub first_match : List Rule → Change → Option Rule
first_match [] c = none
first_match (r ∷ rs) c =
    let rest = first_match rs c in
    if rule_matches r (kind_value c.kind) c.field_name then some r else rest

-- `_match_rule`
abbrev pub match_rule : Profile → Change → Option Rule
match_rule profile c = first_match profile.rules c

abbrev pub rule_finding : Profile → Change → Rule → RuleFinding
rule_finding profile c rule = record {
  change = c;
  rule_id = rule.id;
  severity = rule.severity;
  accepted_units = rule.accepted_units;
  rationale = concat (describe c) (
      concat "; matched rule '" (
        concat rule.id
          (concat "' (" (concat profile.name (concat " profile) -> " rule.severity)))));
}

-- `if SEVERITY_ORDER[rule.severity] > SEVERITY_ORDER[worst]: worst = rule.severity`
abbrev worse_by : Result ℕ → Result ℕ → String → String → Result String
worse_by (ok m) (ok n) severity worst = ok (if ltb n m then severity else worst)
worse_by (ok m) (err e) severity worst = err e
worse_by (err e) _ severity worst = err e

abbrev pub worse : String → String → Result String
worse severity worst = worse_by (severity_order severity) (severity_order worst) severity worst

-- The loop of `assess`, with `worst` so far.
unfoldable pub assess_from : Profile → List Change → String → Result (List RuleFinding × String)
assess_from profile [] worst = ok ([], worst)
assess_from profile (c ∷ cs) worst = elim (match_rule profile c) [
  | none ↦ assess_from profile cs worst
  | some rule ↦ elim (worse rule.severity worst) [
    | err e ↦ err e
    | ok worst' ↦ elim (assess_from profile cs worst') [
      | ok (findings, last) ↦ ok (rule_finding profile c rule ∷ findings, last)
      | err e ↦ err e
    ]
  ]
]

abbrev owners_of : List AffectedEntity → List String
owners_of [] = []
owners_of (a ∷ rest) = a.owners ++ owners_of rest

unfoldable pub assess : Profile → List Change → List AffectedEntity → Result RiskAssessment
assess profile changes affected = elim (assess_from profile changes "none") [
  | err e ↦ err e
  | ok (findings, worst) ↦ ok (record {
    overall_severity = worst;
    findings = findings;
    affected = affected;
    responsible_owners = sorted text_le (dedupe (owners_of affected));
  })
]
