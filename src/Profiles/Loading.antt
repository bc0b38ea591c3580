-- ===== src/Profiles/Loading.antt =====
-- load_profile of core/profiles.py. `read` stands for `yaml.safe_load` of a profile's file, with the
-- file's absence and a text that is no YAML as its exceptions; what it returns is a raw profile.
use sciguard_autopilot.Base.{
  ℕ, zero, suc, ◌+◌, ◌≡◌, refl, ap, inl, inr, String, true, false, Option, none, some, List, [],
  ◌∷◌, arith, ◌≤◌, ◌<◌, Option-cases, Exception, if◌then◌else◌, length, contains, Result-cases,
  Result, ok, err, eq_iff,
}
use sciguard_autopilot.Base.Raising.{◌>>=◌}
use sciguard_autopilot.Base.Texts.{is_empty}
use sciguard_autopilot.Base.Dict.{Dict, insert}
use sciguard_autopilot.Profiles.{
  Rule, make_rule, ActionPolicy, make_action_policy, RecoveryPolicy, EscalationPolicy,
  make_escalation_policy, Profile,
}

-- One profile file. Its sections are the models before their validators have run.
pub record RawProfile : Type 0 where
  pub extends : Option String
  pub rules : List Rule
  pub action_policy : Option ActionPolicy
  pub recovery_policy : Option RecoveryPolicy
  pub escalation_policy : Option EscalationPolicy

-- `while current and current not in seen_files`, the test
abbrev pub continues : Option String → List String → Option String
continues none seen = none
continues (some name) seen =
    if is_empty name then none else if contains name seen then none else some name

-- The loop with its files newest first, so that the result is `reversed(chain)`; `none` when the fuel
-- is spent.
unfoldable pub chain_from :
    (String → Result RawProfile)
    → ℕ
    → Option String
    → List String
    → List RawProfile
    → Option (Result (List RawProfile))
chain_from read zero current seen chain = none
chain_from read (suc fuel) current seen chain = elim (continues current seen) [
  | none ↦ some (ok chain)
  | some name ↦ elim (read name) [
    | err e ↦ some (err e)
    | ok raw ↦ chain_from read fuel raw.extends (name ∷ seen) (raw ∷ chain)
  ]
]

-- `by_id[rule.id] = rule` for the rules of one file
unfoldable pub add_rules : List Rule → Dict Rule → Result (Dict Rule)
add_rules [] rules = ok rules
add_rules (r ∷ rs) rules = elim (make_rule r) [
  | ok rule ↦ add_rules rs (insert rule.id rule rules)
  | err e ↦ err e
]

-- A section that the file has, through its validators, in place of the one so far.
abbrev pub section_or {ℓ} : {A : Type ℓ} → (A → Result A) → Option A → Option A → Result (Option A)
section_or make none so_far = ok so_far
section_or make (some raw) so_far = elim (make raw) [ ok x ↦ ok (some x) | err e ↦ err e ]

pub record Merged : Type 0 where
  pub by_id : Dict Rule
  pub action_policy : Option ActionPolicy
  pub recovery_policy : Option RecoveryPolicy
  pub escalation_policy : Option EscalationPolicy

-- the body of the loop over the chain, from the root ancestor on
unfoldable pub merge_file : RawProfile → Merged → Result Merged
merge_file raw m = do
  rules ← add_rules raw.rules m.by_id
  action ← section_or make_action_policy raw.action_policy m.action_policy
  recovery ← section_or (λ (p : RecoveryPolicy). ok p) raw.recovery_policy m.recovery_policy
  escalation ← section_or make_escalation_policy raw.escalation_policy m.escalation_policy
  ok (record {
    by_id = rules;
    action_policy = action;
    recovery_policy = recovery;
    escalation_policy = escalation;
  })

unfoldable pub merge_files : List RawProfile → Merged → Result Merged
merge_files [] m = ok m
merge_files (raw ∷ raws) m = elim (merge_file raw m) [ ok m' ↦ merge_files raws m' | err e ↦ err e ]

abbrev rule_values : Dict Rule → List Rule
rule_values [] = []
rule_values ((_, rule) ∷ d) = rule ∷ rule_values d

abbrev nothing_merged : Merged
nothing_merged = record {
  by_id = [];
  action_policy = none;
  recovery_policy = none;
  escalation_policy = none;
}

abbrev made_profile : String → Result Merged → Result Profile
made_profile name (ok m) = ok (record {
  name = name;
  rules = rule_values m.by_id;
  action_policy = m.action_policy;
  recovery_policy = m.recovery_policy;
  escalation_policy = m.escalation_policy;
})
made_profile name (err e) = err e

abbrev merged_chain : String → Result (List RawProfile) → Result Profile
merged_chain name (ok chain) = made_profile name (merge_files chain nothing_merged)
merged_chain name (err e) = err e

abbrev maybe_merged : String → Option (Result (List RawProfile)) → Option (Result Profile)
maybe_merged name none = none
maybe_merged name (some chain) = some (merged_chain name chain)

unfoldable pub load_profile : (String → Result RawProfile) → ℕ → String → Option (Result Profile)
load_profile read fuel name = maybe_merged name (chain_from read fuel (some name) [] [])

-- How many of the names were not seen yet.
abbrev unseen : List String → List String → ℕ
unseen [] seen = 0
unseen (n ∷ ns) seen = let rest = unseen ns seen in if contains n seen then rest else suc rest

unseen_le : (x : String) (ns seen : List String) → unseen ns (x ∷ seen) ≤ unseen ns seen
unseen_le x [] seen = omega arith
unseen_le x (n ∷ ns) seen = ground (arith, unseen_le x ns seen)

unseen_lt :
    (x : String) (ns seen : List String)
    → contains x ns ≡ true
    → contains x seen ≡ false
    → unseen ns (x ∷ seen) < unseen ns seen
unseen_lt x [] seen h k = absurd (ground arith)
unseen_lt x (n ∷ ns) seen h k =
    ground (arith, eq_iff n x, eq_iff x n, unseen_le x ns seen, unseen_lt x ns seen)

unseen_none : (ns : List String) → unseen ns [] ≡ length ns
unseen_none [] = refl
unseen_none (n ∷ ns) = ap suc (unseen_none ns)

continues-unseen :
    (current : Option String) (seen : List String) (name : String)
    → continues current seen ≡ some name
    → contains name seen ≡ false
continues-unseen none seen name h = cc
continues-unseen (some n) seen name h = ground arith

module _ (read : String → Result RawProfile) (names : List String)
    (listed : (name : String) (raw : RawProfile)
      → read name ≡ ok raw
      → contains name names ≡ true) where
  -- More fuel than there are names left to see always gives the same answer.
  chain_from-total :
      (fuel : ℕ) (current : Option String) (seen : List String) (chain : List RawProfile)
      → unseen names seen < fuel
      → (r : Result (List RawProfile)) × ((more : ℕ)
          → fuel ≤ more
          → chain_from read more current seen chain ≡ some r)
  unfolding chain_from
  chain_from-total zero current seen chain h = absurd (omega arith)
  chain_from-total (suc fuel) current seen chain h = elim (Option-cases (continues current seen)) [
    | inl done ↦ (ok chain, λ more le. stop more le done)
    | inr (name, next) ↦ elim (Result-cases (read name)) [
      | inr (e, failed) ↦ (err e, λ more le. refuse more le name e next failed)
      | inl (raw, found) ↦
          let smaller =
            unseen_lt name names seen (listed name raw found)
              (continues-unseen current seen name next) in
          let (r, same) =
            chain_from-total fuel raw.extends (name ∷ seen) (raw ∷ chain) (omega arith) in
          (r, λ more le. go_on more le name raw next found r same)
    ]
  ]
    where
      stop :
          (more : ℕ)
          → suc fuel ≤ more
          → continues current seen ≡ none
          → chain_from read more current seen chain ≡ some (ok chain)
      stop zero le done = absurd (omega arith)
      stop (suc more) le done = rw (done, chain_from)

      refuse :
          (more : ℕ)
          → suc fuel ≤ more
          → (name : String) (e : Exception) → continues current seen ≡ some name
          → read name ≡ err e
          → chain_from read more current seen chain ≡ some (err e)
      refuse zero le name e next failed = absurd (omega arith)
      refuse (suc more) le name e next failed = rw (next, chain_from) (rw failed)

      go_on :
          (more : ℕ)
          → suc fuel ≤ more
          → (name : String) (raw : RawProfile) → continues current seen ≡ some name
          → read name ≡ ok raw
          → (r : Result (List RawProfile))
          → ((m : ℕ)
              → fuel ≤ m
              → chain_from read m raw.extends (name ∷ seen) (raw ∷ chain) ≡ some r)
          → chain_from read more current seen chain ≡ some r
      go_on zero le name raw next found r same = absurd (omega arith)
      go_on (suc more) le name raw next found r same =
          rw (next, chain_from) (rw found (same more (omega arith)))

  -- `load_profile` ends on every graph of `extends`, cycles included, when the profile directory holds
  -- finitely many files: one unit of fuel more than the number of names gives a result, a profile or an
  -- exception, and any further fuel gives the same.
  pub load_profile-total :
      (name : String)
      → (r : Result Profile) × ((extra : ℕ)
          → load_profile read (length names + 1 + extra) name ≡ some r)
  unfolding load_profile
  load_profile-total name =
      let (r, same) =
        chain_from-total (length names + 1) (some name) [] [] (omega (arith, unseen_none names)) in
      (
        merged_chain name r,
        λ extra. ap (maybe_merged name) (same (length names + 1 + extra) (omega arith)),
      )
