-- ===== src/Recovery/Gate.antt =====
-- When `evaluate` of core/recovery.py lets an incident resume.
use sciguard_autopilot.Base.{
  ℕ, ◌≡◌, refl, sym, ap, subst, ◌∙◌, inl, inr, String, Bool, false, not, ◌&&◌, ◌||◌, Option, none,
  some, List, [], ◌∷◌, ◌++◌, arith, if◌then◌else◌, leb, is_nil, is_some, keep_if, all, Result-cases,
  Result, ok, ◌==◌,
}
use sciguard_autopilot.Base.Exec.{continue-eq-ok}
use sciguard_autopilot.Base.Dict.{Dict, lookup, insert, lookup-insert, or_else}
use sciguard_autopilot.Base.Json.{Json}
use sciguard_autopilot.DataHub.{Properties, dataset_properties, Client}
use sciguard_autopilot.Events.{emit_if}
use sciguard_autopilot.Profiles.{RecoveryPolicy}
use sciguard_autopilot.Enforcement.{World, on_graph, on_recorder}
use sciguard_autopilot.Enforcement.Plan.{beside-eq-ok, before-graph}
use sciguard_autopilot.Recovery.History.{consecutive_clean, reversed, persisted_history}
use sciguard_autopilot.Recovery.Checks.{
  CheckStatus, is_fail, RecoveryCheck, HumanApprovalEvidence, RecoveryResult, RecoveryController,
  index_checks, by_id, failed_in, run_json, authorized, Verdict, is_clean, verdict, judge,
}
use sciguard_autopilot.Recovery.Evaluate.{
  opening, recovery_result, recovery_emission, persist, evaluate,
}

-- The last report on a check in the order in which the checks came, if there is one.
abbrev pub last_status : String → List RecoveryCheck → Option CheckStatus
last_status id [] = none
last_status id (k ∷ ks) =
    or_else (last_status id ks) (if k.check_id == id then some k.status else none)

abbrev pub is_pass : Option CheckStatus → Bool
is_pass none = false
is_pass (some s) = not (is_fail s)

-- Every required check was reported, and its last report is a PASS.
abbrev pub all_passed : RecoveryPolicy → List RecoveryCheck → Bool
all_passed policy checks = all (λ id. is_pass (last_status id checks)) policy.required_checks

lookup-index_checks :
    (id : String) (ks : List RecoveryCheck) (d : Dict CheckStatus)
    → lookup id (index_checks ks d) ≡ or_else (last_status id ks) (lookup id d)
lookup-index_checks id [] d = refl
lookup-index_checks id (k ∷ ks) d = ground (
  arith,
  lookup-index_checks id ks (insert k.check_id k.status d),
  lookup-insert k.check_id id k.status d,
)

lookup-by_id : (id : String) (ks : List RecoveryCheck) → lookup id (by_id ks) ≡ last_status id ks
lookup-by_id id ks = ground (arith, lookup-index_checks id ks [])

clean_iff_passed :
    (checks : List RecoveryCheck) (ids : List String)
    → (is_nil (keep_if (λ id. not (is_some (lookup id (by_id checks)))) ids)
        && is_nil (keep_if (λ id. failed_in (lookup id (by_id checks))) ids))
      ≡ all (λ id. is_pass (last_status id checks)) ids
clean_iff_passed checks [] = refl
clean_iff_passed checks (id ∷ ids) =
    rw (lookup-by_id id checks) (ground (arith, clean_iff_passed checks ids))

pub is_clean_lem :
    (policy : RecoveryPolicy) (checks : List RecoveryCheck)
    → is_clean policy checks ≡ all_passed policy checks
is_clean_lem policy checks = clean_iff_passed checks policy.required_checks

-- What decides on resuming when the last `n` runs were clean.
abbrev pub may_resume :
    RecoveryPolicy → List RecoveryCheck → Option HumanApprovalEvidence → ℕ → Bool
may_resume policy checks approval n =
    all_passed policy checks
    && (leb policy.consecutive_clean_runs n
        || (authorized approval && policy.allow_one_clean_with_human_approval))

pub judge-verdict :
    (policy : RecoveryPolicy) (props : Properties) (checks : List RecoveryCheck)
    (approval : Option HumanApprovalEvidence) (v : Verdict)
    → judge policy props checks approval ≡ ok v
    → (prior : List Json) × (n : ℕ) × (let history =
          prior ++ run_json (is_clean policy checks) checks approval ∷ [] in
        (persisted_history props ≡ ok prior)
        × (consecutive_clean (reversed history) ≡ ok n)
        × (verdict policy props checks approval history n ≡ v))
unfolding judge
judge-verdict policy props checks approval v h = elim (Result-cases (persisted_history props)) [
  | inr (x, p) ↦ absurd (ground arith)
  | inl (prior, p) ↦
      elim (Result-cases (
        consecutive_clean
          (reversed (prior ++ run_json (is_clean policy checks) checks approval ∷ [])))) [
            | inr (x, q) ↦ absurd (ground arith)
            | inl (n, q) ↦ (prior, n, (p, q, ground arith))
          ]
]

judge-may_resume :
    (policy : RecoveryPolicy) (props : Properties) (checks : List RecoveryCheck)
    (approval : Option HumanApprovalEvidence) (v : Verdict)
    → judge policy props checks approval ≡ ok v
    → v.resume ≡ may_resume policy checks approval v.consecutive
judge-may_resume policy props checks approval v h =
    let (prior, n, (_, _, e)) = judge-verdict policy props checks approval v h in
    subst (λ (u : Verdict). u.resume ≡ may_resume policy checks approval u.consecutive) e
      (rw (is_clean_lem policy checks) (ground arith))

module _ (c : Client) where
  open c use {Graph, get_aspect}

  -- What a run of `evaluate` that returned is made of.
  pub record Evaluated (self : RecoveryController) (checks : List RecoveryCheck)
      (approval : Option HumanApprovalEvidence) (instruction expected : Option String)
      (w w' : World c) (r : RecoveryResult) : Type 0 where
    pub props : Properties
    pub incident : String
    pub decided : Verdict
    pub opened :
        opening (get_aspect w.0 dataset_properties self.control_urn) expected ≡ ok (props, incident)
    pub judged : judge self.policy props checks approval ≡ ok decided
    pub persisted : persist c self.control_urn props decided w.0 ≡ (ok tt, w'.0)
    pub returned : recovery_result incident decided approval instruction ≡ r

  pub evaluate-Evaluated :
      (clock : ℕ → ℕ) (self : RecoveryController) (checks : List RecoveryCheck)
      (approval : Option HumanApprovalEvidence) (instruction expected : Option String)
      (w w' : World c) (r : RecoveryResult)
      → evaluate c clock self checks approval instruction expected w ≡ (ok r, w')
      → Evaluated self checks approval instruction expected w w' r
  unfolding evaluate
  evaluate-Evaluated clock self checks approval instruction expected w w' r h =
      let o = opening (get_aspect w.0 dataset_properties self.control_urn) expected in
      let ((props, incident), w₀, p, h₁) =
        continue-eq-ok {A = Properties × String} (o, w) _ r w' h in
      let (v, w₁, q, h₂) = continue-eq-ok (judge self.policy props checks approval, w₀) _ r w' h₁ in
      let (_, w₂, s, h₃) =
        continue-eq-ok (on_graph c (persist c self.control_urn props v) w₁) _ r w' h₂ in
      let result = recovery_result incident v approval instruction in
      let (_, w₃, t, h₄) =
        continue-eq-ok (on_recorder c (emit_if clock (recovery_emission result v.evidence_ids)) w₂)
          _ r w' h₃ in
      let start₀ : w ≡ w₀ = ap (λ (z : Result (Properties × String) × World c). z.1) p in
      let start₁ : w₀ ≡ w₁ = ap (λ (z : Result Verdict × World c). z.1) q in
      let end : w₃ ≡ w' = ap (λ (z : Result RecoveryResult × World c). z.1) h₄ in
      let saved = beside-eq-ok c w₁.1 (persist c self.control_urn props v w₁.0) tt w₂ s in
      record {
        props = props;
        incident = incident;
        decided = v;
        opened = ap (λ (z : Result (Properties × String) × World c). z.0) p;
        judged = ap (λ (z : Result Verdict × World c). z.0) q;
        persisted =
            ap (λ z. persist c self.control_urn props v z.0) (start₀ ∙ start₁)
            ∙ saved
            ∙ ap (λ g. (ok tt, g))
                (sym (
                    before-graph c w₂.0
                      (emit_if clock (recovery_emission result v.evidence_ids) w₂.1) _ t)
                  ∙ ap (λ z. z.0) end);
        returned = ground arith;
      }

  -- A run of `evaluate` that returned resumes the incident exactly when every required check was
  -- reported and its last report is a PASS, and either as many runs in a row were clean as the policy
  -- asks for, or a human with production authority approved and the policy lets one clean run do then;
  -- whatever the instruction of a language model.
  pub resume_allowed-evaluate :
      (clock : ℕ → ℕ) (self : RecoveryController) (checks : List RecoveryCheck)
      (approval : Option HumanApprovalEvidence) (instruction expected : Option String)
      (w w' : World c) (r : RecoveryResult)
      → evaluate c clock self checks approval instruction expected w ≡ (ok r, w')
      → r.resume_allowed ≡ may_resume self.policy checks approval r.clean_run_count
  resume_allowed-evaluate clock self checks approval instruction expected w w' r h =
      let x = evaluate-Evaluated clock self checks approval instruction expected w w' r h in
      subst
        (λ (u : RecoveryResult).
          u.resume_allowed ≡ may_resume self.policy checks approval u.clean_run_count)
        x.returned
        (unfold recovery_result in
          judge-may_resume self.policy x.props checks approval x.decided x.judged)
