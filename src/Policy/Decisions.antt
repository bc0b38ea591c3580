-- ===== src/Policy/Decisions.antt =====
-- What `decide` of core/policy_engine.py owes to the action policy, to the assets and to the
-- recorder.
use sciguard_autopilot.Base.{
  ℕ, ◌≡◌, refl, ap, ap₂, subst, ◌∙◌, ◌⊎◌, String, true, Option, none, some, List, [], ◌∷◌, arith,
  All, Result, ok,
}
use sciguard_autopilot.Base.Exec.{continue-eq-ok, or_raise, or_raise-eq-ok}
use sciguard_autopilot.Events.{EventRecorder, emit_if}
use sciguard_autopilot.Profiles.{ActionPolicy, Profile}
use sciguard_autopilot.Policy.{
  decision_of, status_of, actions_of, AssetPolicyContext, AssetPolicyDecision, PolicyPlan,
  decide_asset, decided, decide_all, decide,
}

abbrev pub contexts : List AssetPolicyDecision → List AssetPolicyContext
contexts [] = []
contexts (d ∷ ds) = d.context ∷ contexts ds

-- A decision on an asset that is not affected comes from the `unaffected` rule alone.
abbrev pub IsSelective : ActionPolicy → AssetPolicyDecision → Type 0
IsSelective policy d =
    (d.affected ≡ true)
    ⊎ ((decision_of policy.unaffected.decision ≡ ok d.decision)
        × (status_of policy.unaffected.catalog_status ≡ ok d.catalog_status)
        × (actions_of policy.unaffected.actions ≡ ok d.actions))

decide_asset-context :
    (policy : ActionPolicy) (evidence : List String) (asset : AssetPolicyContext)
    (d : AssetPolicyDecision)
    → decide_asset policy evidence asset ≡ ok d
    → (d.context ≡ asset) × (d.evidence_ids ≡ evidence)
unfolding decide_asset
decide_asset-context policy evidence asset d h = ground arith

decide_asset-IsSelective :
    (policy : ActionPolicy) (evidence : List String) (asset : AssetPolicyContext)
    (d : AssetPolicyDecision)
    → decide_asset policy evidence asset ≡ ok d
    → IsSelective policy d
unfolding decide_asset
decide_asset-IsSelective policy evidence asset d h = ground arith

-- What a successful step of `decide_all` is made of.
abbrev Decided :
    (ℕ → ℕ)
    → ActionPolicy
    → List String
    → AssetPolicyContext
    → List AssetPolicyContext
    → Option EventRecorder
    → List AssetPolicyDecision
    → Type 0
Decided clock policy evidence asset assets s' out =
    (d : AssetPolicyDecision) × (ds : List AssetPolicyDecision) × (s : Option EventRecorder)
    × (decide_asset policy evidence asset ≡ ok d)
    × (decide_all clock policy evidence assets s ≡ (ok ds, s'))
    × (d ∷ ds ≡ out)

decide_all-cons :
    (clock : ℕ → ℕ) (policy : ActionPolicy) (evidence : List String) (asset : AssetPolicyContext)
    (assets : List AssetPolicyContext) (s s' : Option EventRecorder)
    (out : List AssetPolicyDecision)
    → decide_all clock policy evidence (asset ∷ assets) s ≡ (ok out, s')
    → Decided clock policy evidence asset assets s' out
unfolding decide_all
decide_all-cons clock policy evidence asset assets s s' out h =
    let (d, s₁, made, h₁) = continue-eq-ok (decide_asset policy evidence asset, s) _ out s' h in
    let (_, s₂, emitted, h₂) = continue-eq-ok (emit_if clock (decided evidence d) s₁) _ out s' h₁ in
    let (ds, s₃, rest, h₃) =
      continue-eq-ok (decide_all clock policy evidence assets s₂) _ out s' h₂ in
    let ended : s₃ ≡ s' =
      ap (λ (p : Result (List AssetPolicyDecision) × Option EventRecorder). p.1) h₃ in
    (d, ds, s₂, ground arith, rest ∙ ap (λ s. (ok ds, s)) ended, ground arith)

-- What the decisions `out` on the assets owe, each to its rule and all together to the order of
-- the assets; they are those made without a recorder.
pub record Lawful (clock : ℕ → ℕ) (policy : ActionPolicy) (evidence : List String)
    (assets : List AssetPolicyContext) (out : List AssetPolicyDecision) : Type 0 where
  pub in_order : contexts out ≡ assets
  pub cited : All (λ (d : AssetPolicyDecision). d.evidence_ids ≡ evidence) out
  pub selective : All (IsSelective policy) out
  pub unrecorded : decide_all clock policy evidence assets none ≡ (ok out, none)

decide_all-none :
    (clock : ℕ → ℕ) (policy : ActionPolicy) (evidence : List String) (asset : AssetPolicyContext)
    (assets : List AssetPolicyContext) (d : AssetPolicyDecision) (ds : List AssetPolicyDecision)
    → decide_asset policy evidence asset ≡ ok d
    → decide_all clock policy evidence assets none ≡ (ok ds, none)
    → decide_all clock policy evidence (asset ∷ assets) none ≡ (ok (d ∷ ds), none)
unfolding decide_all emit_if
decide_all-none clock policy evidence asset assets d ds p q = rw (p, q)

decide_all-Lawful :
    (clock : ℕ → ℕ) (policy : ActionPolicy) (evidence : List String)
    (assets : List AssetPolicyContext) (s s' : Option EventRecorder)
    (out : List AssetPolicyDecision)
    → decide_all clock policy evidence assets s ≡ (ok out, s')
    → Lawful clock policy evidence assets out
decide_all-Lawful clock policy evidence [] s s' out h =
    let e : [] ≡ out = unfold decide_all in ground arith in
    subst (Lawful clock policy evidence []) e (record {
      in_order = refl;
      cited = tt;
      selective = tt;
      unrecorded = unfold decide_all in refl;
    })
decide_all-Lawful clock policy evidence (asset ∷ assets) s s' out h =
    let (d, ds, s₁, made, rest, e) =
      decide_all-cons clock policy evidence asset assets s s' out h in
    let ih = decide_all-Lawful clock policy evidence assets s₁ s' ds rest in
    let (same, cited) = decide_asset-context policy evidence asset d made in
    subst (Lawful clock policy evidence (asset ∷ assets)) e (record {
      in_order = ap₂ (λ x xs. x ∷ xs) same ih.in_order;
      cited = (cited, ih.cited);
      selective = (decide_asset-IsSelective policy evidence asset d made, ih.selective);
      unrecorded = decide_all-none clock policy evidence asset assets d ds made ih.unrecorded;
    })

-- A plan that `decide` returns, with or without a recorder, has one decision for each asset, in the
-- order of the assets and on the asset as given; each cites the root cause's evidence; an asset that
-- is not affected gets exactly the decision, status and actions of the `unaffected` rule; and the
-- decisions are those that are made without a recorder.
pub decide-Lawful :
    (clock : ℕ → ℕ) (profile : Profile) (incident : String) (assets : List AssetPolicyContext)
    (evidence : List String) (s s' : Option EventRecorder) (plan : PolicyPlan)
    → decide clock profile incident assets evidence s ≡ (ok plan, s')
    → (policy : ActionPolicy) × (profile.action_policy ≡ some policy)
      × (plan.incident_id ≡ incident)
      × Lawful clock policy evidence assets plan.decisions
unfolding decide
decide-Lawful clock profile incident assets evidence s s' plan h =
    let (policy, s₁, found, h₁) = continue-eq-ok (or_raise profile.action_policy _ s) _ plan s' h in
    let (ds, s₂, made, h₂) =
      continue-eq-ok (decide_all clock policy evidence assets s₁) _ plan s' h₁ in
    (
      policy,
      or_raise-eq-ok profile.action_policy _ s found,
      ground arith,
      subst (Lawful clock policy evidence assets) (same_decisions h₂)
          (decide_all-Lawful clock policy evidence assets s₁ s₂ ds made),
    )
  where
    same_decisions :
        {ds : List AssetPolicyDecision} {t : Option EventRecorder}
        → ◌≡◌ {A = Result PolicyPlan × Option EventRecorder}
            (ok (record { incident_id = incident; decisions = ds }), t)
            (ok plan, s')
        → ds ≡ plan.decisions
    same_decisions e = ground arith
