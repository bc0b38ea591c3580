-- ===== src/Coordinator/Grounds.antt =====
-- What a confirmed root cause of `Coordinator.resolve` in core/coordinator.py rests on.
use sciguard_autopilot.Base.{
  ℕ, String, ◌≡◌, refl, sym, ap, subst, ◌∙◌, inl, inr, Bool, true, false, not, ◌&&◌, ◌||◌, Option,
  none, some, [], ◌∷◌, ◌++◌, arith, is_nil, Result, ok, err, Bool-cases, Exception,
}
use sciguard_autopilot.Base.Exec.{continue-eq-ok}
use sciguard_autopilot.Base.Raising.{or_raise, raise_if, >>=-eq-ok, ok_inj}
use sciguard_autopilot.Base.Dict.{Dict, lookup}
use sciguard_autopilot.Events.{EventRecorder}
use sciguard_autopilot.Investigation.{
  Evidence, InvestigationCase, InvestigationResult, RealityCheckResult, RootCause,
  InvestigationReport, HypothesisResolution, confirmed, hypothesis_rejected,
}
use sciguard_autopilot.Coordinator.Cause.{root_cause_of}
use sciguard_autopilot.Coordinator.{emit_resolutions, resolve_evidence, resolve_degraded, resolve}
use sciguard_autopilot.Coordinator.Readings.{
  SameRelease, Reaches, Drifts, NoGain, ReadOff, Resolved, release_matches-SameRelease,
  lineage_reaches_batch-Reaches, unit_drift-Drifts, no_real_improvement-NoGain,
  root_cause_of-ReadOff, h1_of-Resolved, h2_of-Resolved, h3_of-Resolved,
}
use sciguard_autopilot.Coordinator.Report.{
  CatalogFacts, RealityFacts, required, release_facts, drift_facts, reality_facts, resolutions_of,
  all_support, concluded, judged, degraded_report, by_kind, missing_kinds, release_matches,
  lineage_reaches_batch, unit_drift, no_real_improvement, h1_of, h2_of, h3_of, cause_if,
}

module _ (tiny_text : String → Result Bool) where
  -- The evidence that confirms the root cause of a report.
  pub record Grounds (evidence : Dict Evidence) (report : InvestigationReport) : Type 0 where
    pub current : Evidence
    pub trusted : Evidence
    pub lineage : Evidence
    pub unit : Evidence
    pub rank : Evidence
    pub experiment : Evidence
    pub cause : RootCause
    pub release_found : lookup "MODEL_RELEASE_CONTEXT" evidence ≡ some current
    pub baseline_found : lookup "TRUSTED_RELEASE_BASELINE" evidence ≡ some trusted
    pub lineage_found : lookup "UPSTREAM_LINEAGE" evidence ≡ some lineage
    pub unit_found : lookup "UNIT_FIRMWARE_CONTRACT" evidence ≡ some unit
    pub rank_found : lookup "RANK_BASELINE_COMPARISON" evidence ≡ some rank
    pub experiment_found : lookup "EXPERIMENTAL_VALUE_CHECK" evidence ≡ some experiment
    pub same_release : SameRelease current trusted
    pub reaches : Reaches lineage
    pub drifts : Drifts unit
    pub unreal : NoGain tiny_text rank experiment
    pub named : ReadOff unit cause
    pub reported : report.root_cause ≡ some cause
    pub release_resolution : HypothesisResolution
    pub drift_resolution : HypothesisResolution
    pub rank_resolution : HypothesisResolution
    pub listed : report.resolutions ≡ release_resolution ∷ drift_resolution ∷ rank_resolution ∷ []
    pub h1 : Resolved "H1" hypothesis_rejected current trusted release_resolution
    pub h2 : Resolved "H2" confirmed lineage unit drift_resolution
    pub h3 : Resolved "H3" hypothesis_rejected rank experiment rank_resolution

  or_raise_found :
      {A : Type 0} (o : Option A) (x : Exception) (a : A) → or_raise o x ≡ ok a → o ≡ some a
  or_raise_found none x a h = cc
  or_raise_found (some b) x a h = cc

  -- A report either has no confirmed root cause and names none, or it has grounds.
  abbrev pub Judged : Dict Evidence → InvestigationReport → Type 0
  Judged evidence report =
      ((report.root_cause_confirmed ≡ true) → Grounds evidence report)
      × ((report.root_cause_confirmed ≡ false) → report.root_cause ≡ none)

  cause_if_named :
      (unit : Evidence) (c : Option RootCause)
      → cause_if true unit ≡ ok c
      → (cause : RootCause) × (root_cause_of unit ≡ ok cause) × (c ≡ some cause)
  cause_if_named unit c h = go (root_cause_of unit) refl
    where
      go :
          (r : Result RootCause)
          → root_cause_of unit ≡ r
          → (cause : RootCause) × (root_cause_of unit ≡ ok cause) × (c ≡ some cause)
      go (ok cause) e = (cause, e, ground (arith, e))
      go (err x) e = absurd (ground (arith, e))

  release_facts_lem :
      (evidence : Dict Evidence) (current trusted : Evidence)
      → release_facts evidence ≡ ok (current, trusted)
      → (lookup "MODEL_RELEASE_CONTEXT" evidence ≡ some current)
        × (lookup "TRUSTED_RELEASE_BASELINE" evidence ≡ some trusted)
  unfolding release_facts
  release_facts_lem evidence current trusted h =
      let (a, e1, h1) = >>=-eq-ok (required "MODEL_RELEASE_CONTEXT" evidence) _ h in
      let (b, e2, h2) = >>=-eq-ok (required "TRUSTED_RELEASE_BASELINE" evidence) _ h1 in
      let same = ok_inj h2 in
      (
        or_raise_found _ _ _ e1 ∙ ap (λ (p : Evidence × Evidence). some p.0) same,
        or_raise_found _ _ _ e2 ∙ ap (λ (p : Evidence × Evidence). some p.1) same,
      )

  drift_facts_lem :
      (current trusted : Evidence) (evidence : Dict Evidence) (c : CatalogFacts)
      → drift_facts (current, trusted) evidence ≡ ok c
      → (c.current ≡ current)
        × (c.trusted ≡ trusted)
        × (lookup "UPSTREAM_LINEAGE" evidence ≡ some c.lineage)
        × (lookup "UNIT_FIRMWARE_CONTRACT" evidence ≡ some c.unit)
        × (lineage_reaches_batch c.lineage ≡ ok c.reaches)
        × (unit_drift c.unit ≡ ok c.drift)
  unfolding drift_facts
  drift_facts_lem current trusted evidence c h =
      let (lineage, e1, h1) = >>=-eq-ok (required "UPSTREAM_LINEAGE" evidence) _ h in
      let (unit, e2, h2) = >>=-eq-ok (required "UNIT_FIRMWARE_CONTRACT" evidence) _ h1 in
      let (reaches, e3, h3) = >>=-eq-ok (lineage_reaches_batch lineage) _ h2 in
      let (drift, e4, h4) = >>=-eq-ok (unit_drift unit) _ h3 in
      subst
        (λ (x : CatalogFacts).
          (x.current ≡ current)
          × (x.trusted ≡ trusted)
          × (lookup "UPSTREAM_LINEAGE" evidence ≡ some x.lineage)
          × (lookup "UNIT_FIRMWARE_CONTRACT" evidence ≡ some x.unit)
          × (lineage_reaches_batch x.lineage ≡ ok x.reaches)
          × (unit_drift x.unit ≡ ok x.drift))
        (ok_inj h4) (refl, refl, or_raise_found _ _ _ e1, or_raise_found _ _ _ e2, e3, e4)

  reality_facts_lem :
      (evidence : Dict Evidence) (r : RealityFacts)
      → reality_facts tiny_text evidence ≡ ok r
      → (lookup "RANK_BASELINE_COMPARISON" evidence ≡ some r.rank)
        × (lookup "EXPERIMENTAL_VALUE_CHECK" evidence ≡ some r.experiment)
        × (no_real_improvement tiny_text r.rank r.experiment ≡ ok r.unreal)
  unfolding reality_facts
  reality_facts_lem evidence r h =
      let (rank, e1, h1) = >>=-eq-ok (required "RANK_BASELINE_COMPARISON" evidence) _ h in
      let (experiment, e2, h2) = >>=-eq-ok (required "EXPERIMENTAL_VALUE_CHECK" evidence) _ h1 in
      let (unreal, e3, h3) = >>=-eq-ok (no_real_improvement tiny_text rank experiment) _ h2 in
      subst
        (λ (x : RealityFacts).
          (lookup "RANK_BASELINE_COMPARISON" evidence ≡ some x.rank)
          × (lookup "EXPERIMENTAL_VALUE_CHECK" evidence ≡ some x.experiment)
          × (no_real_improvement tiny_text x.rank x.experiment ≡ ok x.unreal))
        (ok_inj h3) (or_raise_found _ _ _ e1, or_raise_found _ _ _ e2, e3)

  -- The three tests that confirm the root cause.
  all_support_parts :
      (c : CatalogFacts) (r : RealityFacts)
      → all_support c r ≡ true
      → (release_matches c.current c.trusted ≡ true)
        × (c.reaches ≡ true)
        × (c.drift ≡ true)
        × (r.unreal ≡ true)
  all_support_parts c r h = elim (Bool-cases (release_matches c.current c.trusted)) [
    | inl m ↦ (m, ground (arith, m), ground (arith, m), ground (arith, m))
    | inr m ↦ absurd (ground (arith, m))
  ]

  -- The report as it follows from the facts.
  concluded_lem :
      (case : InvestigationCase) (c : CatalogFacts) (r : RealityFacts)
      (report : InvestigationReport)
      → concluded case c r ≡ ok report
      → (report.root_cause_confirmed ≡ all_support c r)
        × (report.resolutions ≡ resolutions_of c r)
        × (cause_if (all_support c r) c.unit ≡ ok report.root_cause)
  unfolding concluded
  concluded_lem case c r report h =
      let (cause, e, h1) = >>=-eq-ok (cause_if (all_support c r) c.unit) _ h in
      subst
        (λ (x : InvestigationReport).
          (x.root_cause_confirmed ≡ all_support c r)
          × (x.resolutions ≡ resolutions_of c r)
          × (cause_if (all_support c r) c.unit ≡ ok x.root_cause))
        (ok_inj h1) (refl, refl, e)

  facts-Judged :
      (evidence : Dict Evidence) (case : InvestigationCase) (c : CatalogFacts) (r : RealityFacts)
      (report : InvestigationReport)
      → (lookup "MODEL_RELEASE_CONTEXT" evidence ≡ some c.current)
        × (lookup "TRUSTED_RELEASE_BASELINE" evidence ≡ some c.trusted)
      → (lookup "UPSTREAM_LINEAGE" evidence ≡ some c.lineage)
        × (lookup "UNIT_FIRMWARE_CONTRACT" evidence ≡ some c.unit)
        × (lineage_reaches_batch c.lineage ≡ ok c.reaches)
        × (unit_drift c.unit ≡ ok c.drift)
      → (lookup "RANK_BASELINE_COMPARISON" evidence ≡ some r.rank)
        × (lookup "EXPERIMENTAL_VALUE_CHECK" evidence ≡ some r.experiment)
        × (no_real_improvement tiny_text r.rank r.experiment ≡ ok r.unreal)
      → concluded case c r ≡ ok report
      → Judged evidence report
  facts-Judged evidence case c r report (current, trusted) (lineage, unit, reaches, drift)
        (rank, experiment, unreal) h =
      let (flag, listed, cause) = concluded_lem case c r report h in
      (
        (λ yes.
            let support = sym flag ∙ yes in
            let (matches, reached, drifted, gone) = all_support_parts c r support in
            let (named_cause, named, reported) =
              cause_if_named c.unit report.root_cause (rw support at cause) in
            record {
              current = c.current;
              trusted = c.trusted;
              lineage = c.lineage;
              unit = c.unit;
              rank = r.rank;
              experiment = r.experiment;
              cause = named_cause;
              release_found = current;
              baseline_found = trusted;
              lineage_found = lineage;
              unit_found = unit;
              rank_found = rank;
              experiment_found = experiment;
              same_release = release_matches-SameRelease c.current c.trusted matches;
              reaches = lineage_reaches_batch-Reaches c.lineage (reaches ∙ ap ok reached);
              drifts = unit_drift-Drifts c.unit (drift ∙ ap ok drifted);
              unreal =
                  no_real_improvement-NoGain tiny_text r.rank r.experiment (unreal ∙ ap ok gone);
              named = root_cause_of-ReadOff c.unit named_cause named;
              reported = reported;
              release_resolution = h1_of c.current c.trusted;
              drift_resolution = h2_of c.lineage c.unit true;
              rank_resolution = h3_of r.rank r.experiment true;
              listed = listed ∙ rw (reached, drifted, gone) refl;
              h1 = h1_of-Resolved c.current c.trusted matches;
              h2 = h2_of-Resolved c.lineage c.unit;
              h3 = h3_of-Resolved r.rank r.experiment;
            }),
        (λ no. let c' = rw (sym flag ∙ no) at cause in sym (ok_inj c')),
      )

  judged-Judged :
      (case : InvestigationCase) (evidence : Dict Evidence) (report : InvestigationReport)
      → judged tiny_text case evidence ≡ ok report
      → Judged evidence report
  unfolding judged
  judged-Judged case evidence report h =
      let (u, present, h0) =
        >>=-eq-ok (raise_if (not (is_nil (missing_kinds evidence case.hypotheses))) _) _ h in
      let (release, e1, h1) = >>=-eq-ok (release_facts evidence) _ h0 in
      let (c, e2, h2) = >>=-eq-ok (drift_facts release evidence) _ h1 in
      let (r, e3, h3) = >>=-eq-ok (reality_facts tiny_text evidence) _ h2 in
      let (current, trusted) = release_facts_lem evidence release.0 release.1 e1 in
      let (same_current, same_trusted, lineage, unit, reaches, drift) =
        drift_facts_lem release.0 release.1 evidence c e2 in
      facts-Judged evidence case c r report
        (current ∙ ap some (sym same_current), trusted ∙ ap some (sym same_trusted))
        (lineage, unit, reaches, drift) (reality_facts_lem evidence r e3) h3

  resolve_evidence-judged :
      (clock : ℕ → ℕ) (case : InvestigationCase) (evidence : Dict Evidence)
      (w w' : Option EventRecorder) (report : InvestigationReport)
      → resolve_evidence tiny_text clock case evidence w ≡ (ok report, w')
      → judged tiny_text case evidence ≡ ok report
  unfolding resolve_evidence
  resolve_evidence-judged clock case evidence w w' report h =
      let (r, w1, e1, h1) = continue-eq-ok (judged tiny_text case evidence, w) _ report w' h in
      let (u, w2, e2, h2) =
        continue-eq-ok (emit_resolutions clock r.resolutions w1) _ report w' h1 in
      let same : r ≡ report = ground arith in
      ap (λ (p : Result InvestigationReport × Option EventRecorder). p.0) e1 ∙ ap ok same

  resolve_degraded-report :
      (clock : ℕ → ℕ) (case : InvestigationCase) (catalog : InvestigationResult)
      (reality : RealityCheckResult) (w w' : Option EventRecorder) (report : InvestigationReport)
      → resolve_degraded clock case catalog reality w ≡ (ok report, w')
      → report ≡ degraded_report case catalog reality
  unfolding resolve_degraded
  resolve_degraded-report clock case catalog reality w w' report h =
      let (u, w2, e2, h2) =
        continue-eq-ok (emit_resolutions clock (degraded_report case catalog reality).resolutions w)
          _ report w' h in
      ground arith

  -- When `resolve` returns a report on the results of both workers. If it confirms a root cause, both
  -- workers are available, and the evidence of each kind holds: the same model and code version as the
  -- trusted baseline; the batch's source among the suspects of the lineage; a unit contract that is
  -- False, with more than 0 affected rows, and B042 among the affected batches; a rank that rose in a
  -- run with status SUCCESS, whose symptom the artifacts do not deny, with all converted values equal
  -- to the baseline and a gain below 1e-9, where a missing gain counts as 1. Its resolutions are H1
  -- rejected, H2 confirmed and H3 rejected, each citing the two pieces of evidence that it rests on, and
  -- its root cause holds what the unit evidence has under the keys for the batch, the firmwares, the
  -- units, the version and the rows. A report that does not confirm one names none, and a worker that
  -- is unavailable makes the report a degraded one with every hypothesis inconclusive.
  pub resolve-Judged :
      (clock : ℕ → ℕ) (case : InvestigationCase) (catalog : InvestigationResult)
      (reality : RealityCheckResult) (w w' : Option EventRecorder) (report : InvestigationReport)
      → resolve tiny_text clock case (some catalog) (some reality) w ≡ (ok report, w')
      → ((report.root_cause_confirmed ≡ true)
          → (catalog.available ≡ true)
            × (reality.available ≡ true)
            × Grounds (by_kind (catalog.evidence ++ reality.evidence)) report)
        × ((report.root_cause_confirmed ≡ false) → report.root_cause ≡ none)
        × ((catalog.available && reality.available) ≡ false
            → report ≡ degraded_report case catalog reality)
  unfolding resolve
  resolve-Judged clock case catalog reality w w' report h =
      elim (Bool-cases (not catalog.available || not reality.available)) [
        | inl gone ↦
            let same =
              resolve_degraded-report clock case catalog reality w w' report (rw gone at h) in
            (
              (λ yes.
                  absurd (
                    cc
                      (sym (ap (λ (r : InvestigationReport). r.root_cause_confirmed) same) ∙ yes))),
              (λ no. ap (λ (r : InvestigationReport). r.root_cause) same),
              (λ missing. same),
            )
        | inr both ↦
            let evidence = by_kind (catalog.evidence ++ reality.evidence) in
            let (confirms, denies) =
              judged-Judged case evidence report
                (resolve_evidence-judged clock case evidence w w' report (rw both at h)) in
            (
              (λ yes. (ground (arith, both), ground (arith, both), confirms yes)),
              denies,
              (λ missing. absurd (ground (arith, both))),
            )
      ]
