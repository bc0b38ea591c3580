-- ===== src/Recovery/Streak.antt =====
-- The history that `evaluate` of core/recovery.py persists from run to run.
use sciguard_autopilot.DataHub.Values.{properties_in}
use sciguard_autopilot.DataHub.Values.{item_list, items, loads}
use sciguard_autopilot.DataHub.Values.{text_of, text_at}
use sciguard_autopilot.Base.{
  ℕ, suc, ◌≡◌, refl, sym, ap, subst, ◌∙◌, inl, inr, String, Bool, true, false, Option, none, some,
  List, [], ◌∷◌, ◌++◌, arith, if◌then◌else◌, Bool-cases, Result-cases, NoDup, Result, ok, err, ◌==◌,
}
use sciguard_autopilot.Base.Exec.{continue-keeps}
use sciguard_autopilot.Base.Dict.{lookup, keys, or_else}
use sciguard_autopilot.Base.Json.{Json, str, arr, nil}
use sciguard_autopilot.DataHub.{Value, text, dumped, Properties, dataset_properties, Aspect, Client}
use sciguard_autopilot.MetadataWriter.Tags.{get_aspect-add_tags, get_aspect-remove_tags}
use sciguard_autopilot.MetadataWriter.Props.{lookup-add_custom_properties, add_custom_properties_ne}
use sciguard_autopilot.Enforcement.{at_risk_tag, quarantined_tag, resolved_tag, World}
use sciguard_autopilot.Enforcement.Controls.{dataset, dataset-mirror}
use sciguard_autopilot.Recovery.History.{
  consecutive_clean, reversed_onto, reversed, as_history, persisted_history,
}
use sciguard_autopilot.Recovery.Checks.{
  RecoveryCheck, HumanApprovalEvidence, RecoveryResult, RecoveryController, Verdict, run_json,
  is_clean,
}
use sciguard_autopilot.Recovery.Release.{
  resolved_updates, resolve_properties, resolve_tags, release, release_all, controlled_urns,
}
use sciguard_autopilot.Recovery.Evaluate.{
  opening, recovery_updates, recovery_result, resume_incident, persist, evaluate,
}
use sciguard_autopilot.Recovery.Gate.{all_passed, is_clean_lem, judge-verdict, evaluate-Evaluated}

abbrev streak_in : Result (List Json) → Result ℕ
streak_in (ok js) = consecutive_clean (reversed js)
streak_in (err e) = err e

-- How many runs at the end of the persisted history were clean.
unfoldable pub streak : Properties → Result ℕ
streak props = streak_in (persisted_history props)

item_list-items : (js : List Json) → item_list (items js) ≡ js
item_list-items [] = refl
item_list-items (j ∷ js) = ap (λ x. j ∷ x) (item_list-items js)

reversed_onto-append :
    (js acc : List Json) (j : Json) → reversed_onto (js ++ j ∷ []) acc ≡ j ∷ reversed_onto js acc
reversed_onto-append [] acc j = refl
reversed_onto-append (i ∷ js) acc j = reversed_onto-append js (i ∷ acc) j

-- The count after one more run: one more if it was clean, and none if it was not.
consecutive_clean-append :
    (js : List Json) (clean : Bool) (checks : List RecoveryCheck)
    (approval : Option HumanApprovalEvidence) (n m : ℕ)
    → consecutive_clean (reversed (js ++ run_json clean checks approval ∷ [])) ≡ ok m
    → consecutive_clean (reversed js) ≡ ok n
    → m ≡ (if clean then suc n else 0)
unfolding consecutive_clean
consecutive_clean-append js clean checks approval n m h k =
    go clean
      (ap consecutive_clean (sym (reversed_onto-append js [] (run_json clean checks approval))) ∙ h)
  where
    go :
        (b : Bool)
        → consecutive_clean (run_json b checks approval ∷ reversed js) ≡ ok m
        → m ≡ (if b then suc n else 0)
    go true e = ground arith
    go false e = ground arith

history-recovery_updates :
    (v : Verdict)
    → lookup "sciguard:recovery_history" (recovery_updates v)
      ≡ some (dumped (arr (items v.history)))
unfolding recovery_updates
history-recovery_updates v = elim (Bool-cases v.resume) [ inl e ↦ rw e | inr e ↦ rw e ]

state-recovery_updates :
    (v : Verdict) → lookup "sciguard:incident_state" (recovery_updates v) ≡ some (text v.state)
unfolding recovery_updates
state-recovery_updates v = elim (Bool-cases v.resume) [ inl e ↦ rw e | inr e ↦ rw e ]

incident-recovery_updates :
    (v : Verdict) → lookup "sciguard:incident_id" (recovery_updates v) ≡ none
unfolding recovery_updates
incident-recovery_updates v = elim (Bool-cases v.resume) [ inl e ↦ rw e | inr e ↦ rw e ]

recovery_updates-NoDup : (v : Verdict) → NoDup (keys (recovery_updates v))
unfolding recovery_updates
recovery_updates-NoDup v = elim (Bool-cases v.resume) [
  | inl e ↦ rw e (ground arith)
  | inr e ↦ rw e (ground arith)
]

text_found :
    (key t : String) (props : Properties)
    → lookup key props ≡ some (text t)
    → text_at key "" props ≡ t
text_found key t props e = ap (λ (o : Option Value). elim o [ none ↦ "" | some v ↦ text_of v ]) e

text_same :
    (key : String) (p q : Properties)
    → lookup key p ≡ lookup key q
    → text_at key "" p ≡ text_at key "" q
text_same key p q e = ap (λ (o : Option Value). elim o [ none ↦ "" | some v ↦ text_of v ]) e

module _ (c : Client) where
  open c use {Graph, get_aspect}

  dataset-resolve_properties :
      (control urn : String) (evidence : List String) (g : Graph)
      → dataset c control (resolve_properties c control evidence urn g) ≡ dataset c control g
  dataset-resolve_properties control urn evidence g = elim (Bool-cases (urn == control)) [
    | inl e ↦ rw e
    | inr e ↦ rw e (add_custom_properties_ne c urn control (resolved_updates evidence) g e)
  ]

  dataset-resolve_tags :
      (control urn : String) (g : Graph)
      → dataset c control (resolve_tags c urn g) ≡ dataset c control g
  dataset-resolve_tags control urn g =
      get_aspect-add_tags c dataset_properties urn control (resolved_tag ∷ []) _
      ∙ get_aspect-remove_tags c dataset_properties urn control (at_risk_tag ∷ quarantined_tag ∷ [])
          g

  dataset-release :
      (control urn : String) (evidence : List String) (g : Graph)
      → dataset c control (release c control evidence urn g).1 ≡ dataset c control g
  unfolding release
  dataset-release control urn evidence g =
      dataset-mirror c control _ (resolved_updates evidence) (some resolved_tag) _
      ∙ dataset-resolve_tags control urn _
      ∙ dataset-resolve_properties control urn evidence g

  -- Releasing the controlled datasets leaves the properties of the control dataset alone.
  dataset-release_all :
      (control : String) (evidence : List String) (urns : List Json) (g : Graph)
      → dataset c control (release_all c control evidence urns g).1 ≡ dataset c control g
  unfolding release_all
  dataset-release_all control evidence [] g = refl
  dataset-release_all control evidence (str urn ∷ urns) g =
      continue-keeps (λ g'. dataset c control g' ≡ dataset c control g)
        (release c control evidence urn g) _ (dataset-release control urn evidence g)
        (λ _ g₁ e. dataset-release_all control evidence urns g₁ ∙ e)
  dataset-release_all control evidence (_ ∷ urns) g = refl

  dataset-resume_incident :
      (control : String) (props : Properties) (v : Verdict) (g : Graph)
      → dataset c control (resume_incident c control props v g).1 ≡ dataset c control g
  unfolding resume_incident
  dataset-resume_incident control props v g = elim (Bool-cases v.resume) [
    | inr e ↦ rw e
    | inl e ↦ rw e (elim (Result-cases (controlled_urns control props)) [
      | inl (urns, k) ↦ rw k (dataset-release_all control v.evidence_ids urns g)
      | inr (x, k) ↦ rw k
    ])
  ]

  -- What `evaluate` leaves on the control dataset.
  lookup-persist :
      (control key : String) (props : Properties) (v : Verdict) (g g' : Graph)
      → persist c control props v g ≡ (ok tt, g')
      → lookup key (properties_in (dataset c control g'))
        ≡ or_else
            (lookup key (recovery_updates v))
            (lookup key (properties_in (dataset c control g)))
  unfolding persist
  lookup-persist control key props v g g' h =
      ap (λ a. lookup key (properties_in a))
        (ap (λ (z : Result (Unit {0}) × Graph). dataset c control z.1) (sym h)
          ∙ dataset-resume_incident control props v _)
      ∙ lookup-add_custom_properties c control key (recovery_updates v) g (recovery_updates-NoDup v)

  pub opening-reads :
      (o : Option Aspect) (expected : Option String) (props : Properties) (incident : String)
      → opening o expected ≡ ok (props, incident)
      → (properties_in o ≡ props) × (text_at "sciguard:incident_id" "" props ≡ incident)
  unfolding opening
  opening-reads none expected props incident h = cc
  opening-reads (some a) expected props incident h = ground arith

  history_persisted :
      (old new : Properties) (v : Verdict)
      → lookup "sciguard:recovery_history" new
        ≡ or_else
            (lookup "sciguard:recovery_history" (recovery_updates v))
            (lookup "sciguard:recovery_history" old)
      → persisted_history new ≡ ok v.history
  history_persisted old new v e =
      ap
        (λ (o : Option Value). as_history (loads (elim o [ none ↦ dumped (arr nil) | some j ↦ j ])))
        (e
          ∙ ap (λ o. or_else o (lookup "sciguard:recovery_history" old))
              (history-recovery_updates v))
      ∙ ap ok (item_list-items v.history)

  -- A run of `evaluate` that returned counts on from the streak of clean runs that DataHub held: a
  -- run that passed every required check makes it one longer, and any other run resets it to zero.
  pub clean_run_count-evaluate :
      (clock : ℕ → ℕ) (self : RecoveryController) (checks : List RecoveryCheck)
      (approval : Option HumanApprovalEvidence) (instruction expected : Option String)
      (w w' : World c) (r : RecoveryResult) (n : ℕ)
      → evaluate c clock self checks approval instruction expected w ≡ (ok r, w')
      → streak (properties_in (dataset c self.control_urn w.0)) ≡ ok n
      → r.clean_run_count ≡ (if all_passed self.policy checks then suc n else 0)
  unfolding streak recovery_result
  clean_run_count-evaluate clock self checks approval instruction expected w w' r n h k =
      let x = evaluate-Evaluated c clock self checks approval instruction expected w w' r h in
      let (prior, m, (p, q, e)) =
        judge-verdict self.policy x.props checks approval x.decided x.judged in
      let (read, _) =
        opening-reads (dataset c self.control_urn w.0) expected x.props x.incident x.opened in
      let before : consecutive_clean (reversed prior) ≡ ok n =
        ap streak_in (sym p) ∙ ap (λ d. streak_in (persisted_history d)) (sym read) ∙ k in
      ap (λ (u : RecoveryResult). u.clean_run_count) (sym x.returned)
      ∙ ap (λ (u : Verdict). u.consecutive) (sym e)
      ∙ consecutive_clean-append prior (is_clean self.policy checks) checks approval n m q before
      ∙ rw (is_clean_lem self.policy checks)

  -- What a run of `evaluate` that returned reports is what DataHub then holds on the control dataset:
  -- the streak of clean runs, the incident state and the incident ID, the last one unchanged.
  pub evaluate-persists :
      (clock : ℕ → ℕ) (self : RecoveryController) (checks : List RecoveryCheck)
      (approval : Option HumanApprovalEvidence) (instruction expected : Option String)
      (w w' : World c) (r : RecoveryResult)
      → evaluate c clock self checks approval instruction expected w ≡ (ok r, w')
      → (let after = properties_in (dataset c self.control_urn w'.0) in
          (streak after ≡ ok r.clean_run_count)
          × (text_at "sciguard:incident_state" "" after ≡ r.incident_state)
          × (text_at "sciguard:incident_id" "" after ≡ r.incident_id))
  unfolding streak recovery_result
  evaluate-persists clock self checks approval instruction expected w w' r h =
      let x = evaluate-Evaluated c clock self checks approval instruction expected w w' r h in
      let (prior, m, (p, q, e)) =
        judge-verdict self.policy x.props checks approval x.decided x.judged in
      let (read, of) =
        opening-reads (dataset c self.control_urn w.0) expected x.props x.incident x.opened in
      let old = properties_in (dataset c self.control_urn w.0) in
      let new = properties_in (dataset c self.control_urn w'.0) in
      let found = λ (key : String).
        lookup-persist self.control_urn key x.props x.decided w.0 w'.0 x.persisted in
      subst
        (λ (u : RecoveryResult).
          (streak_in (persisted_history new) ≡ ok u.clean_run_count)
          × (text_at "sciguard:incident_state" "" new ≡ u.incident_state)
          × (text_at "sciguard:incident_id" "" new ≡ u.incident_id))
        x.returned
        (
          ap streak_in (history_persisted old new x.decided (found "sciguard:recovery_history"))
              ∙ subst (λ (u : Verdict). consecutive_clean (reversed u.history) ≡ ok u.consecutive) e
                  q,
          text_found "sciguard:incident_state" x.decided.state new (
              found "sciguard:incident_state"
              ∙ ap (λ o. or_else o (lookup "sciguard:incident_state" old))
                  (state-recovery_updates x.decided)),
          text_same "sciguard:incident_id" new old (
                found "sciguard:incident_id"
                ∙ ap (λ o. or_else o (lookup "sciguard:incident_id" old))
                    (incident-recovery_updates x.decided))
              ∙ ap (text_at "sciguard:incident_id" "") read
              ∙ of,
        )
