-- ===== src/Tests/Domains.antt =====
-- core/profiles.py at concrete inputs.
use sciguard_autopilot.Base.{
  ℕ, ◌+◌, ◌≡◌, refl, ◌↔◌, String, true, false, none, some, List, [], ◌∷◌, arith, if◌then◌else◌,
  is_nil, length, contains, Result, ok, err, lookup_error, ◌==◌, eq_iff,
}
use sciguard_autopilot.Profiles.{Rule, Profile, make_rule}
use sciguard_autopilot.Profiles.Tokens.{is_contiguous_sublist, IsInside, is_contiguous_sublist_iff}
use sciguard_autopilot.Profiles.Loading.{
  RawProfile, chain_from, add_rules, merge_file, merge_files, load_profile, load_profile-total,
}

abbrev needle : List String
needle = "tg" ∷ []

abbrev haystack : List String
haystack = "dsc" ∷ "tg" ∷ []

is_contiguous_sublist_iff_example :
    (is_contiguous_sublist needle haystack ≡ true)
    ↔ ((is_nil needle ≡ false) × IsInside needle haystack)
is_contiguous_sublist_iff_example = is_contiguous_sublist_iff needle haystack

abbrev unit_rule : String → Rule
unit_rule severity = record {
  id = "tg-unit";
  field = "tg";
  change = "unit";
  severity = severity;
  accepted_units = [];
  remediation = [];
}

abbrev raw : String → String → RawProfile
raw parent severity = record {
  extends = some parent;
  rules = unit_rule severity ∷ [];
  action_policy = none;
  recovery_policy = none;
  escalation_policy = none;
}

-- two profiles that extend each other
abbrev read : String → Result RawProfile
read name =
    if name == "polymer"
    then ok (raw "base" "critical")
    else if name == "base"
    then ok (raw "polymer" "low")
    else err (lookup_error "FileNotFoundError")

abbrev names : List String
names = "polymer" ∷ "base" ∷ []

listed : (name : String) (r : RawProfile) → read name ≡ ok r → contains name names ≡ true
listed name r h =
    ground
      (arith, eq_iff name "polymer", eq_iff name "base", eq_iff "polymer" name, eq_iff "base" name)

load_profile-total_example :
    (r : Result Profile) × ((extra : ℕ)
      → load_profile read (length names + 1 + extra) "polymer" ≡ some r)
load_profile-total_example = load_profile-total read names listed "polymer"

-- The child's rule overrides the parent's of the same ID.
child_overrides :
    load_profile read 3 "polymer"
    ≡ some (
        ok (record {
          name = "polymer";
          rules = unit_rule "critical" ∷ [];
          action_policy = none;
          recovery_policy = none;
          escalation_policy = none;
        }))
unfolding load_profile chain_from add_rules merge_file merge_files make_rule
child_overrides = refl
