-- ===== src/Policy/Total.antt =====
-- A profile that passed its validators makes `decide` of core/policy_engine.py raise only for an
-- affected role that the profile does not list.
use sciguard_autopilot.Base.{
  ℕ, ◌≡◌, refl, subst, ◌⊎◌, inl, inr, String, true, false, Option, none, some, List, [], ◌∷◌, arith,
  All, all, contains, eq_comm, is_some, is_ok, ok, Bool-cases, Option-cases, ◌==◌,
}
use Prim.Native.String.{◌++◌ as concat}
use sciguard_autopilot.Base.Texts.{upper}
use sciguard_autopilot.Base.Raising.{>>=-eq-ok, ok_inj, is_ok→ok}
use sciguard_autopilot.Base.Dict.{Dict, lookup}
use sciguard_autopilot.Base.Texts.{starts_dark_colon, starts_dark-append, strip-append_dark}
use sciguard_autopilot.Events.{EventRecorder, unique_evidence_ids, emit_if}
use sciguard_autopilot.Events.Accepted.{IsAcceptable, IsReady, emit_if_accepted}
use sciguard_autopilot.Profiles.{
  ActionPolicyRule, ActionPolicy, Profile, allowed_decisions, allowed_catalog_statuses,
  allowed_actions, make_action_policy_rule, make_affected_roles, make_action_policy,
}
use sciguard_autopilot.Policy.{
  decision_of, status_of, action_of, actions_of, AssetPolicyContext, AssetPolicyDecision, rule_for,
  made_decision, decide_asset, decided, decide_all, decide,
}

-- What the three validators of a rule have tested.
record IsValidRule (r : ActionPolicyRule) : Type 0 where
  decision : contains r.decision allowed_decisions ≡ true
  catalog_status : contains r.catalog_status allowed_catalog_statuses ≡ true
  actions : all (λ a. contains a allowed_actions) r.actions ≡ true

make_rule-IsValidRule :
    (r r' : ActionPolicyRule) → make_action_policy_rule r ≡ ok r' → (r ≡ r') × IsValidRule r
unfolding make_action_policy_rule
make_rule-IsValidRule r r' h = ground arith

decision_of_allowed :
    (v : String) → contains v allowed_decisions ≡ true → is_ok (decision_of v) ≡ true
unfolding decision_of
decision_of_allowed v h = ground (arith, eq_comm v "HALT", eq_comm v "WARN", eq_comm v "ALLOW")

status_of_allowed :
    (v : String) → contains v allowed_catalog_statuses ≡ true → is_ok (status_of v) ≡ true
unfolding status_of
status_of_allowed v h =
    ground (
      arith,
      eq_comm v "HEALTHY",
      eq_comm v "AT_RISK",
      eq_comm v "QUARANTINED",
      eq_comm v "RESOLVED",
    )

action_of_allowed : (v : String) → contains v allowed_actions ≡ true → is_ok (action_of v) ≡ true
unfolding action_of
action_of_allowed v h = ground (
  arith,
  eq_comm v "QUARANTINE",
  eq_comm v "BLOCK_EXECUTION",
  eq_comm v "BLOCK_PUBLISH",
  eq_comm v "WRITE_BACK",
  eq_comm v "NOTIFY",
  eq_comm v "RESUME",
)

actions_of_allowed :
    (vs : List String)
    → all (λ a. contains a allowed_actions) vs ≡ true
    → is_ok (actions_of vs) ≡ true
unfolding actions_of
actions_of_allowed [] h = refl
actions_of_allowed (v ∷ vs) h = ground (arith, action_of_allowed v, actions_of_allowed vs)

abbrev ValidRoles : Dict ActionPolicyRule → Type 0
ValidRoles = All (λ (e : String × ActionPolicyRule). IsValidRule e.1)

make_affected_roles-ValidRoles :
    (d d' : Dict ActionPolicyRule) → make_affected_roles d ≡ ok d' → ValidRoles d'
unfolding make_affected_roles
make_affected_roles-ValidRoles [] d' h = let e : [] ≡ d' = ok_inj h in subst ValidRoles e tt
make_affected_roles-ValidRoles ((k, r) ∷ d) d' h =
    let (r', made, h₁) = >>=-eq-ok (make_action_policy_rule r) _ h in
    let (rest, others, h₂) = >>=-eq-ok (make_affected_roles d) _ h₁ in
    let (same, valid) = make_rule-IsValidRule r r' made in
    subst ValidRoles (ok_inj h₂)
      (subst IsValidRule same valid, make_affected_roles-ValidRoles d rest others)

lookup-ValidRoles :
    (role : String) (d : Dict ActionPolicyRule) (r : ActionPolicyRule)
    → ValidRoles d
    → lookup role d ≡ some r
    → IsValidRule r
lookup-ValidRoles role [] r v h = cc
lookup-ValidRoles role ((k, r') ∷ d) r v h = elim (Bool-cases (k == role)) [
  | inl e ↦ subst IsValidRule (ground arith) v.0
  | inr e ↦ lookup-ValidRoles role d r v.1 (ground arith)
]

record IsValidPolicy (p : ActionPolicy) : Type 0 where
  roles : ValidRoles p.affected_roles
  unaffected : IsValidRule p.unaffected

make_action_policy-IsValidPolicy :
    (p p' : ActionPolicy) → make_action_policy p ≡ ok p' → IsValidPolicy p'
unfolding make_action_policy
make_action_policy-IsValidPolicy p p' h =
    let (roles, made, h₁) = >>=-eq-ok (make_affected_roles p.affected_roles) _ h in
    let (rule, made', h₂) = >>=-eq-ok (make_action_policy_rule p.unaffected) _ h₁ in
    let (same, valid) = make_rule-IsValidRule p.unaffected rule made' in
    subst IsValidPolicy (ok_inj h₂) (record {
      roles = make_affected_roles-ValidRoles p.affected_roles roles made;
      unaffected = subst IsValidRule same valid;
    })

-- The asset is unaffected, or the policy lists its role.
abbrev pub IsCovered : ActionPolicy → AssetPolicyContext → Type 0
IsCovered policy asset =
    (asset.affected ≡ false) ⊎ (is_some (lookup asset.role policy.affected_roles) ≡ true)

made_decision_total :
    (asset : AssetPolicyContext) (evidence : List String) (reason : String) (r : ActionPolicyRule)
    → IsValidRule r
    → is_ok (
        made_decision asset evidence reason
          (decision_of r.decision)
          (status_of r.catalog_status)
          (actions_of r.actions))
      ≡ true
unfolding made_decision
made_decision_total asset evidence reason r v = ground (
  arith,
  decision_of_allowed r.decision,
  status_of_allowed r.catalog_status,
  actions_of_allowed r.actions,
)

rule_for_free :
    (policy : ActionPolicy) (asset : AssetPolicyContext)
    → asset.affected ≡ false
    → rule_for policy asset ≡ ok (policy.unaffected, "UNAFFECTED_BRANCH")
unfolding rule_for
rule_for_free policy asset h = rw h

rule_for_affected :
    (policy : ActionPolicy) (asset : AssetPolicyContext) (r : ActionPolicyRule)
    → asset.affected ≡ true
    → lookup asset.role policy.affected_roles ≡ some r
    → rule_for policy asset ≡ ok (r, concat "AFFECTED_" (upper asset.role))
unfolding rule_for
rule_for_affected policy asset r h e = rw (h, e)

decide_asset_total :
    (policy : ActionPolicy) (evidence : List String) (asset : AssetPolicyContext)
    → IsValidPolicy policy
    → IsCovered policy asset
    → is_ok (decide_asset policy evidence asset) ≡ true
unfolding decide_asset
decide_asset_total policy evidence asset v (inl free) =
    rw (rule_for_free policy asset free, decide_asset)
      (made_decision_total asset evidence _ policy.unaffected v.unaffected)
decide_asset_total policy evidence asset v (inr listed) =
    elim (Option-cases (lookup asset.role policy.affected_roles)) [
      | inl gone ↦ absurd (ground arith)
      | inr (r, e) ↦ elim (Bool-cases asset.affected) [
        | inl affected ↦
            rw (rule_for_affected policy asset r affected e, decide_asset)
              (made_decision_total asset evidence _ r
                (lookup-ValidRoles asset.role policy.affected_roles r v.roles e))
        | inr free ↦
            rw (rule_for_free policy asset free, decide_asset)
              (made_decision_total asset evidence _ policy.unaffected v.unaffected)
      ]
    ]

-- The summary of a decision is not blank, whatever the asset's name.
decided-IsAcceptable :
    (evidence : List String) (d : AssetPolicyDecision)
    → unique_evidence_ids evidence ≡ ok evidence
    → IsAcceptable (decided evidence d)
decided-IsAcceptable evidence d unique = record {
  summary = strip-append_dark d.name _ (starts_dark-append ": " _ starts_dark_colon);
  timestamp = refl;
  evidence = unique;
}

decide_all_step :
    (clock : ℕ → ℕ) (policy : ActionPolicy) (evidence : List String) (asset : AssetPolicyContext)
    (assets : List AssetPolicyContext) (d : AssetPolicyDecision) (ds : List AssetPolicyDecision)
    (w w1 w2 : Option EventRecorder)
    → decide_asset policy evidence asset ≡ ok d
    → emit_if clock (decided evidence d) w ≡ (ok tt, w1)
    → decide_all clock policy evidence assets w1 ≡ (ok ds, w2)
    → decide_all clock policy evidence (asset ∷ assets) w ≡ (ok (d ∷ ds), w2)
unfolding decide_all
decide_all_step clock policy evidence asset assets d ds w w1 w2 made emitted e =
    rw (made, emitted, e) refl

-- With no recorder, nothing is asked of the evidence's IDs.
abbrev pub IsRecordable : List String → Option EventRecorder → Type 0
IsRecordable evidence w = (w ≡ none) ⊎ (unique_evidence_ids evidence ≡ ok evidence)

decided-IsReady :
    (clock : ℕ → ℕ) (evidence : List String) (d : AssetPolicyDecision) (w : Option EventRecorder)
    → IsRecordable evidence w
    → IsReady w
    → (w' : Option EventRecorder) × (emit_if clock (decided evidence d) w ≡ (ok tt, w'))
      × IsReady w'
      × IsRecordable evidence w'
unfolding emit_if
decided-IsReady clock evidence d none recordable ready = (none, refl, tt, inl refl)
decided-IsReady clock evidence d (some r) (inl gone) ready = cc
decided-IsReady clock evidence d (some r) (inr unique) ready =
    let (w', emitted, ready') =
      emit_if_accepted clock (decided evidence d) (some r) ready
        (decided-IsAcceptable evidence d unique) in
    (w', emitted, ready', inr unique)

decide_all_total :
    (clock : ℕ → ℕ) (policy : ActionPolicy) (evidence : List String)
    (assets : List AssetPolicyContext) (w : Option EventRecorder)
    → IsValidPolicy policy
    → IsRecordable evidence w
    → All (IsCovered policy) assets
    → IsReady w
    → (ds : List AssetPolicyDecision) × (w' : Option EventRecorder) × (decide_all clock policy
          evidence assets w
        ≡ (ok ds, w'))
      × IsReady w'
unfolding decide_all
decide_all_total clock policy evidence [] w v recordable c ready = ([], w, refl, ready)
decide_all_total clock policy evidence (asset ∷ assets) w v recordable (covered, rest) ready =
    let (d, made) =
      is_ok→ok (decide_asset policy evidence asset)
        (decide_asset_total policy evidence asset v covered) in
    let (w1, emitted, ready1, recordable1) = decided-IsReady clock evidence d w recordable ready in
    let (ds, w2, e, ready2) =
      decide_all_total clock policy evidence assets w1 v recordable1 rest ready1 in
    (
      d ∷ ds,
      w2,
      decide_all_step clock policy evidence asset assets d ds w w1 w2 made emitted e,
      ready2,
    )

-- With an action policy that passed its validators, and either no recorder, or evidence IDs that are
-- neither blank nor repeated and a recorder that is well formed, as every recorder is that was made
-- empty and then used: `decide` returns a plan of the incident when each asset is unaffected or has
-- a role that the policy lists, and leaves the recorder well formed.
pub decide_total :
    (clock : ℕ → ℕ) (profile : Profile) (raw policy : ActionPolicy) (incident : String)
    (assets : List AssetPolicyContext) (evidence : List String) (w : Option EventRecorder)
    → make_action_policy raw ≡ ok policy
    → profile.action_policy ≡ some policy
    → All (IsCovered policy) assets
    → (w ≡ none) ⊎ (unique_evidence_ids evidence ≡ ok evidence)
    → IsReady w
    → (ds : List AssetPolicyDecision) × (w' : Option EventRecorder) × (decide clock profile incident
          assets evidence w
        ≡ (ok (record { incident_id = incident; decisions = ds }), w'))
      × IsReady w'
unfolding decide
decide_total clock profile raw policy incident assets evidence w valid given covered recordable
      ready =
    let (ds, w', e, ready') =
      decide_all_total clock policy evidence assets w
        (make_action_policy-IsValidPolicy raw policy valid) recordable covered ready in
    (ds, w', rw (given, e) refl, ready')
