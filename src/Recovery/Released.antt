-- ===== src/Recovery/Released.antt =====
-- What a resumed incident leaves on the controlled datasets: core/recovery.py.
use sciguard_autopilot.DataHub.Values.{properties_in}
use sciguard_autopilot.DataHub.Values.{iterated_value}
use sciguard_autopilot.DataHub.Values.{item_list, loads}
use sciguard_autopilot.Base.{
  ℕ, ◌≡◌, refl, sym, ap, subst, ◌∙◌, inl, inr, String, Bool, true, false, Option, none, some, List,
  [], ◌∷◌, map, if◌then◌else◌, if◌then◌else◌, All, Bool-cases, Result, ok, ◌==◌, eq_refl,
}
use sciguard_autopilot.Base.Exec.{Exec, continue, continue-keeps, continue-eq-ok}
use sciguard_autopilot.Base.Dict.{lookup}
use sciguard_autopilot.Base.Json.{Json, str, str_items, str_array}
use sciguard_autopilot.DataHub.{Value, dumped, Properties, Client}
use sciguard_autopilot.MetadataWriter.{add_custom_properties}
use sciguard_autopilot.MetadataWriter.Props.{tags-add_custom_properties}
use sciguard_autopilot.Enforcement.{
  at_risk_tag, quarantined_tag, resolved_tag, World, clear_tags, retag,
  mirror_native_projection_state,
}
use sciguard_autopilot.Enforcement.Controls.{dataset}
use sciguard_autopilot.Enforcement.Marks.{
  has_tag, after_retag, Settled, retag-Settled, has_tag-retag, has_tag_of_tags, mirror-Settled,
}
use sciguard_autopilot.Recovery.Checks.{
  RecoveryCheck, HumanApprovalEvidence, RecoveryResult, RecoveryController, Verdict,
}
use sciguard_autopilot.Recovery.Release.{
  resolved_updates, resolve_properties, resolve_tags, release, release_all, controlled_urns,
}
use sciguard_autopilot.Recovery.Evaluate.{
  recovery_updates, recovery_result, resume_incident, persist, evaluate,
}
use sciguard_autopilot.Recovery.Gate.{evaluate-Evaluated}
use sciguard_autopilot.Recovery.Streak.{opening-reads}

item_list-str_items : (urns : List String) → item_list (str_items urns) ≡ map str urns
item_list-str_items [] = refl
item_list-str_items (u ∷ urns) = ap (λ x. str u ∷ x) (item_list-str_items urns)

controlled_urns_lem :
    (control : String) (props : Properties) (urns : List String)
    → lookup "sciguard:controlled_urns" props ≡ some (dumped (str_array urns))
    → controlled_urns control props ≡ ok (map str urns)
unfolding controlled_urns
controlled_urns_lem control props urns h =
    ap
      (λ (o : Option Value).
        iterated_value (loads (elim o [ none ↦ dumped (str_array (control ∷ [])) | some j ↦ j ])))
      h
    ∙ ap ok (item_list-str_items urns)

module _ (c : Client) where
  open c use {Graph}

  -- The tags that RESOLVED leaves on a dataset.
  abbrev Cleared : String → Graph → Type 0
  Cleared u g = (t : String) → (had : Bool) × Settled c u t (some resolved_tag) had g

  retag-Cleared : (u : String) (g : Graph) → Cleared u (retag c u (some resolved_tag) g)
  retag-Cleared u g t =
      (has_tag c u t g, has_tag-retag c u u t (some resolved_tag) g ∙ rw (eq_refl u))

  Cleared-kept_by_retag :
      (u v : String) (g : Graph) → Cleared v g → Cleared v (retag c u (some resolved_tag) g)
  Cleared-kept_by_retag u v g h t =
      ((h t).0, retag-Settled c u v t (some resolved_tag) (h t).0 g (h t).1)

  resolve_tags_lem : (u : String) (g : Graph) → resolve_tags c u g ≡ retag c u (some resolved_tag) g
  unfolding retag clear_tags
  resolve_tags_lem u g = refl

  Cleared-mirror :
      (v : String) (existing updates : Properties) (g : Graph)
      → Cleared v g
      → Cleared v (mirror_native_projection_state c existing updates (some resolved_tag) g).1
  Cleared-mirror v existing updates g h t =
      ((h t).0, mirror-Settled c v t existing updates (some resolved_tag) (h t).0 g (h t).1)

  Cleared-resolve_properties :
      (control u v : String) (evidence : List String) (g : Graph)
      → Cleared v g
      → Cleared v (resolve_properties c control evidence u g)
  Cleared-resolve_properties control u v evidence g h t = elim (Bool-cases (u == control)) [
    | inl e ↦ rw e (h t)
    | inr e ↦ rw e (
      (h t).0,
      has_tag_of_tags c v t g _ (tags-add_custom_properties c u v (resolved_updates evidence) g)
          ∙ (h t).1,
    )
  ]

  release-Cleared :
      (control u : String) (evidence : List String) (g : Graph)
      → Cleared u (release c control evidence u g).1
  unfolding release
  release-Cleared control u evidence g =
      Cleared-mirror u _ (resolved_updates evidence) _
        (subst (Cleared u) (sym (resolve_tags_lem u _)) (retag-Cleared u _))

  Cleared-release :
      (control u v : String) (evidence : List String) (g : Graph)
      → Cleared v g
      → Cleared v (release c control evidence u g).1
  unfolding release
  Cleared-release control u v evidence g h = Cleared-mirror v _ (resolved_updates evidence) _ (
      subst (Cleared v) (sym (resolve_tags_lem u _))
        (Cleared-kept_by_retag u v _ (Cleared-resolve_properties control u v evidence g h)))

  Cleared-release_all :
      (control v : String) (evidence : List String) (urns : List Json) (g : Graph)
      → Cleared v g
      → Cleared v (release_all c control evidence urns g).1
  unfolding release_all
  Cleared-release_all control v evidence [] g h = h
  Cleared-release_all control v evidence (str u ∷ urns) g h =
      continue-keeps (Cleared v) (release c control evidence u g) _
        (Cleared-release control u v evidence g h)
        (λ _ g₁ h₁. Cleared-release_all control v evidence urns g₁ h₁)
  Cleared-release_all control v evidence (_ ∷ urns) g h = h

  release_all-Cleared :
      (control : String) (evidence : List String) (urns : List String) (g g' : Graph)
      → release_all c control evidence (map str urns) g ≡ (ok tt, g')
      → All (λ u. Cleared u g') urns
  unfolding release_all
  release_all-Cleared control evidence [] g g' h = tt
  release_all-Cleared control evidence (u ∷ urns) g g' h =
      let (_, g₁, p, rest) = continue-eq-ok (release c control evidence u g) _ tt g' h in
      (
        subst (Cleared u) (ap (λ (z : Result (Unit {0}) × Graph). z.1) rest) (
            Cleared-release_all control u evidence (map str urns) g₁ (
              subst (Cleared u) (ap (λ (z : Result (List String) × Graph). z.1) p)
                (release-Cleared control u evidence g))),
        release_all-Cleared control evidence urns g₁ g' rest,
      )

  -- RESOLVED is the only status tag on the dataset.
  abbrev pub IsReleased : Graph → String → Type 0
  IsReleased g u =
      (has_tag c u resolved_tag g ≡ true)
      × (has_tag c u at_risk_tag g ≡ false)
      × (has_tag c u quarantined_tag g ≡ false)

  after_resolved :
      (had : Bool)
      → (after_retag (some resolved_tag) resolved_tag had ≡ true)
        × (after_retag (some resolved_tag) at_risk_tag had ≡ false)
        × (after_retag (some resolved_tag) quarantined_tag had ≡ false)
  after_resolved true = (refl, refl, refl)
  after_resolved false = (refl, refl, refl)

  Cleared-IsReleased :
      (g : Graph) (urns : List String) → All (λ u. Cleared u g) urns → All (IsReleased g) urns
  Cleared-IsReleased g [] h = tt
  Cleared-IsReleased g (u ∷ urns) (h, hs) = (
    (
      (h resolved_tag).1 ∙ (after_resolved (h resolved_tag).0).0,
      (h at_risk_tag).1 ∙ (after_resolved (h at_risk_tag).0).1,
      (h quarantined_tag).1 ∙ (after_resolved (h quarantined_tag).0).2,
    ),
    Cleared-IsReleased g urns hs,
  )

  persist-Cleared :
      (control : String) (props : Properties) (v : Verdict) (urns : List String) (g g' : Graph)
      → lookup "sciguard:controlled_urns" props ≡ some (dumped (str_array urns))
      → v.resume ≡ true
      → persist c control props v g ≡ (ok tt, g')
      → All (λ u. Cleared u g') urns
  unfolding persist resume_incident
  persist-Cleared control props v urns g g' h on p =
      let g₁ = (add_custom_properties c control (recovery_updates v) g).1 in
      release_all-Cleared control v.evidence_ids urns g₁ g' (
        sym (
          ap (released g₁) on
          ∙ ap (λ x. continue (x, g₁) (λ us. release_all c control v.evidence_ids us))
              (controlled_urns_lem control props urns h))
        ∙ p)
    where
      released : Graph → Bool → Result (Unit {0}) × Graph
      released g₁ b =
          if◌then◌else◌ {A = Exec Graph (Unit {0})} b
            (λ g₂.
              continue (controlled_urns control props, g₂)
                (λ us. release_all c control v.evidence_ids us))
            (λ g₂. (ok tt, g₂)) g₁

  -- When a run of `evaluate` returned and resumed the incident, and the control dataset listed the
  -- controlled datasets before it, each of them has RESOLVED as its only status tag afterwards; also
  -- where one is listed twice, or the native entities of one are among the others.
  pub evaluate-IsReleased :
      (clock : ℕ → ℕ) (self : RecoveryController) (checks : List RecoveryCheck)
      (approval : Option HumanApprovalEvidence) (instruction expected : Option String)
      (w w' : World c) (r : RecoveryResult) (urns : List String)
      → lookup "sciguard:controlled_urns" (properties_in (dataset c self.control_urn w.0))
        ≡ some (dumped (str_array urns))
      → evaluate c clock self checks approval instruction expected w ≡ (ok r, w')
      → r.resume_allowed ≡ true
      → All (IsReleased w'.0) urns
  unfolding recovery_result
  evaluate-IsReleased clock self checks approval instruction expected w w' r urns listed h on =
      let x = evaluate-Evaluated c clock self checks approval instruction expected w w' r h in
      let (read, _) =
        opening-reads c (dataset c self.control_urn w.0) expected x.props x.incident x.opened in
      Cleared-IsReleased w'.0 urns (
        persist-Cleared self.control_urn x.props x.decided urns w.0 w'.0
          (ap (lookup "sciguard:controlled_urns") (sym read) ∙ listed)
          (ap (λ (u : RecoveryResult). u.resume_allowed) x.returned ∙ on) x.persisted)
