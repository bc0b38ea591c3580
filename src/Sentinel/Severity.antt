-- ===== src/Sentinel/Severity.antt =====
-- When core/sentinel.py escalates, and how severe its assessment is.
use sciguard_autopilot.Base.{
  ℕ, ◌≡◌, refl, sym, ap, subst, ◌∙◌, ◌↔◌, ◌⊎◌, inl, inr, String, Bool, true, false, not, ◌&&◌, ◌||◌,
  List, [], ◌∷◌, arith, ◌≤◌, All, any, ltb, is_nil, contains, dedupe, Bool-cases, Option-cases,
  Result-cases, Result, ok, err, ◌==◌, eq_iff,
}
use sciguard_autopilot.Base.Raising.{ok_inj}
use sciguard_autopilot.Base.Json.{Json}
use sciguard_autopilot.Profiles.{Rule, EscalationPolicy, Profile}
use sciguard_autopilot.Impact.{AffectedEntity, insert_sorted, sorted, text_le}
use sciguard_autopilot.Sentinel.{
  severity_order, at_least, Change, RuleFinding, RiskAssessment, match_rule, rule_finding, worse,
  assess_from, assess,
}
use sciguard_autopilot.Sentinel.Escalation.{
  DetectionSignal, EscalationDecision, roles_among, policy_of, escalation, decide_escalation,
}

-- The first severity is at most the second.
abbrev pub IsAtMost : String → String → Type 0
IsAtMost low high =
    (m : ℕ) × (n : ℕ) × (severity_order low ≡ ok m) × (severity_order high ≡ ok n) × (m ≤ n)

is_nil-sorted : (xs : List String) → is_nil (sorted text_le xs) ≡ is_nil xs
is_nil-sorted [] = refl
is_nil-sorted (x ∷ xs) = go (sorted text_le xs)
  where
    go : (ys : List String) → is_nil (insert_sorted text_le x ys) ≡ false
    go [] = refl
    go (y ∷ ys) = elim (Bool-cases (text_le x y)) [ inl e ↦ rw e | inr e ↦ rw e ]

is_nil-roles_among :
    (roles : List String) (scope : List AffectedEntity)
    → is_nil (dedupe (roles_among roles scope))
      ≡ not (any (λ (a : AffectedEntity). contains a.role roles) scope)
is_nil-roles_among roles [] = refl
is_nil-roles_among roles (a ∷ rest) = elim (Bool-cases (contains a.role roles)) [
  | inl e ↦ rw e
  | inr e ↦ rw e (is_nil-roles_among roles rest)
]

-- A path to a decision: the scope reaches a role that the policy names, or none is asked for.
abbrev pub has_path : EscalationPolicy → List AffectedEntity → Bool
has_path policy scope =
    any (λ (a : AffectedEntity). contains a.role policy.decision_roles) scope
    || not policy.require_decision_path

not-not : (b : Bool) → not (not b) ≡ b
not-not true = refl
not-not false = refl

path_lem :
    (policy : EscalationPolicy) (scope : List AffectedEntity)
    → (not (is_nil (sorted text_le (dedupe (roles_among policy.decision_roles scope))))
        || not policy.require_decision_path)
      ≡ has_path policy scope
path_lem policy scope =
    ap (λ b. not b || not policy.require_decision_path)
      (is_nil-sorted _ ∙ is_nil-roles_among policy.decision_roles scope)
    ∙ ap (λ b. b || not policy.require_decision_path) (not-not _)

at_least-IsAtMost :
    (s t : String) (b : Bool)
    → at_least (severity_order s) (severity_order t) ≡ ok b
    → (b ≡ true) ↔ IsAtMost t s
at_least-IsAtMost s t b h = elim (Result-cases (severity_order s)) [
  | inr (e, p) ↦ absurd (ground arith)
  | inl (m, p) ↦ elim (Result-cases (severity_order t)) [
    | inr (e, q) ↦ absurd (ground arith)
    | inl (n, q) ↦ (λ k. (n, m, q, p, ground arith), λ (n', m', q', p', le). ground arith)
  ]
]

-- A decision of `decide_escalation` escalates exactly when the signal is at least as severe as the
-- policy asks for, and the scope reaches one of the policy's decision roles or the policy asks for no
-- such path.
pub decide_escalation_iff :
    (evidence_id : String → Json → String) (profile : Profile) (signal : DetectionSignal)
    (d : EscalationDecision)
    → decide_escalation evidence_id profile signal ≡ ok d
    → (d.escalate ≡ true) ↔ (
        IsAtMost (policy_of profile.escalation_policy).minimum_severity signal.severity
        × (has_path (policy_of profile.escalation_policy) signal.initial_scope ≡ true))
unfolding decide_escalation
decide_escalation_iff evidence_id profile signal d h =
    let policy = policy_of profile.escalation_policy in
    elim (Result-cases
      (at_least (severity_order signal.severity) (severity_order policy.minimum_severity))) [
        | inr (x, p) ↦ absurd (ground arith)
        | inl (b, p) ↦
            let roles =
              sorted text_le (dedupe (roles_among policy.decision_roles signal.initial_scope)) in
            let path = not (is_nil roles) || not policy.require_decision_path in
            let made : ok (escalation evidence_id policy signal roles b path) ≡ ok d =
              sym (ap (decided policy roles path) p) ∙ h in
            let e : (b && has_path policy signal.initial_scope) ≡ d.escalate =
              ap (λ q. b && q) (sym (path_lem policy signal.initial_scope))
              ∙ ap (λ (x : EscalationDecision). x.escalate) (ok_inj made) in
            let severe = at_least-IsAtMost signal.severity policy.minimum_severity b p in
            (
              λ k. (severe.0 (and_true (e ∙ k)).0, (and_true (e ∙ k)).1),
              λ (k, l). sym e ∙ both (severe.1 k) l,
            )
      ]
  where
    decided : EscalationPolicy → List String → Bool → Result Bool → Result EscalationDecision
    decided policy roles path (ok b) = ok (escalation evidence_id policy signal roles b path)
    decided policy roles path (err x) = err x

    and_true : {a b : Bool} → (a && b) ≡ true → (a ≡ true) × (b ≡ true)
    and_true k = ground arith

    both : {a b : Bool} → a ≡ true → b ≡ true → (a && b) ≡ true
    both k l = ground arith

-- What a run of the loop of `assess` owes: the last severity is at least the first and every finding's,
-- and it is the first or a finding's.
abbrev IsWorst : String → List RuleFinding → String → Type 0
IsWorst worst findings last =
    IsAtMost worst last
    × All (λ (f : RuleFinding). IsAtMost f.severity last) findings
    × ((last ≡ worst) ⊎ (any (λ (f : RuleFinding). f.severity == last) findings ≡ true))

IsAtMost-trans : (r s t : String) → IsAtMost r s → IsAtMost s t → IsAtMost r t
IsAtMost-trans r s t (k, m, p, q, le) (m', n, q', u, le') = (k, n, p, u, ground arith)

worse-IsAtMost :
    (severity worst w : String)
    → worse severity worst ≡ ok w
    → IsAtMost severity w × IsAtMost worst w × ((w ≡ worst) ⊎ (w ≡ severity))
worse-IsAtMost severity worst w h = elim (Result-cases (severity_order severity)) [
  | inr (e, p) ↦ absurd (ground arith)
  | inl (m, p) ↦ elim (Result-cases (severity_order worst)) [
    | inr (e, q) ↦ absurd (ground arith)
    | inl (n, q) ↦ elim (Bool-cases (ltb n m)) [
      | inl more ↦
          let e : severity ≡ w = ground arith in
          subst (λ x. IsAtMost severity x × IsAtMost worst x × ((x ≡ worst) ⊎ (x ≡ severity))) e
            ((m, m, p, p, ground arith), (n, m, q, p, ground arith), inr refl)
      | inr less ↦
          let e : worst ≡ w = ground arith in
          subst (λ x. IsAtMost severity x × IsAtMost worst x × ((x ≡ worst) ⊎ (x ≡ severity))) e
            ((m, n, p, q, ground arith), (n, n, q, q, ground arith), inl refl)
    ]
  ]
]

assess_from-cons :
    (profile : Profile) (c : Change) (cs : List Change) (worst last : String)
    (findings : List RuleFinding)
    → assess_from profile (c ∷ cs) worst ≡ ok (findings, last)
    → (assess_from profile cs worst ≡ ok (findings, last))
      ⊎ ((rule : Rule) × (w : String) × (fs : List RuleFinding) × (worse rule.severity worst ≡ ok w)
          × (assess_from profile cs w ≡ ok (fs, last))
          × (rule_finding profile c rule ∷ fs ≡ findings))
unfolding assess_from
assess_from-cons profile c cs worst last findings h = elim (Option-cases (match_rule profile c)) [
  | inl unmatched ↦ inl (ground arith)
  | inr (rule, matched) ↦ elim (Result-cases (worse rule.severity worst)) [
    | inr (e, p) ↦ absurd (ground arith)
    | inl (w, p) ↦ elim (Result-cases (assess_from profile cs w)) [
      | inr (e, q) ↦ absurd (ground arith)
      | inl ((fs, l), q) ↦ inr (rule, w, fs, p, ground arith, ground arith)
    ]
  ]
]

assess_from-IsWorst :
    (profile : Profile) (cs : List Change) (worst last : String) (findings : List RuleFinding)
    → IsAtMost worst worst
    → assess_from profile cs worst ≡ ok (findings, last)
    → IsWorst worst findings last
assess_from-IsWorst profile [] worst last findings known h =
    let e : [] ≡ findings = unfold assess_from in ground arith in
    let e' : worst ≡ last = unfold assess_from in ground arith in
    (
      subst (IsAtMost worst) e' known,
      subst (All (λ (f : RuleFinding). IsAtMost f.severity last)) e tt,
      inl (sym e'),
    )
assess_from-IsWorst profile (c ∷ cs) worst last findings known h =
    elim (assess_from-cons profile c cs worst last findings h) [
      | inl skipped ↦ assess_from-IsWorst profile cs worst last findings known skipped
      | inr (rule, w, fs, p, q, e) ↦
          let (severe, before, which) = worse-IsAtMost rule.severity worst w p in
          let (k, n, _, at, _) = before in
          let (up, found, final) =
            assess_from-IsWorst profile cs w last fs (n, n, at, at, omega arith) q in
          subst (λ xs. IsWorst worst xs last) e
            (
              IsAtMost-trans worst w last before up,
              (IsAtMost-trans rule.severity w last severe up, found),
              attained rule w fs which final,
            )
    ]
  where
    attained :
        (rule : Rule) (w : String) (fs : List RuleFinding)
        → ((w ≡ worst) ⊎ (w ≡ rule.severity))
        → ((last ≡ w) ⊎ (any (λ (f : RuleFinding). f.severity == last) fs ≡ true))
        → (last ≡ worst)
          ⊎ (any (λ (f : RuleFinding). f.severity == last) (rule_finding profile c rule ∷ fs)
              ≡ true)
    attained rule w fs (inl old) (inl same) = inl (same ∙ old)
    attained rule w fs (inr new) (inl same) =
        inr (ground (arith, eq_iff rule.severity last, sym (same ∙ new)))
    attained rule w fs _ (inr later) = inr (ground arith)

-- The overall severity of an assessment is at least that of each of its findings, and it is one of
-- theirs, or "none".
pub assess-IsWorst :
    (profile : Profile) (changes : List Change) (affected : List AffectedEntity)
    (r : RiskAssessment)
    → assess profile changes affected ≡ ok r
    → All (λ (f : RuleFinding). IsAtMost f.severity r.overall_severity) r.findings
      × ((r.overall_severity ≡ "none")
          ⊎ (any (λ (f : RuleFinding). f.severity == r.overall_severity) r.findings ≡ true))
unfolding assess
assess-IsWorst profile changes affected r h =
    elim (Result-cases (assess_from profile changes "none")) [
      | inr (e, p) ↦ absurd (ground arith)
      | inl ((findings, last), p) ↦
          let known : IsAtMost "none" "none" =
            unfold severity_order in (0, 0, refl, refl, omega arith) in
          let (_, all_below, attained) =
            assess_from-IsWorst profile changes "none" last findings known p in
          let e : findings ≡ r.findings = ground arith in
          let e' : last ≡ r.overall_severity = ground arith in
          (
            subst (λ s. All (λ (f : RuleFinding). IsAtMost f.severity s) r.findings) e'
                (subst (All (λ (f : RuleFinding). IsAtMost f.severity last)) e all_below),
            subst
                (λ s. (s ≡ "none") ⊎ (any (λ (f : RuleFinding). f.severity == s) r.findings ≡ true))
                e'
                (subst
                  (λ fs.
                    (last ≡ "none") ⊎ (any (λ (f : RuleFinding). f.severity == last) fs ≡ true))
                  e attained),
          )
    ]
