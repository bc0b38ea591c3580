-- ===== src/Enforcement/Plan.antt =====
-- What `enforce` of core/enforcement.py does to the datasets of a whole plan.
use sciguard_autopilot.DataHub.Values.{properties_in}
use sciguard_autopilot.Base.{
  ℕ, ◌≡◌, refl, sym, ap, ap₂, subst, ◌∙◌, ◌⊎◌, inl, inr, String, true, false, Option, List, [], ◌∷◌,
  arith, if◌then◌else◌, All, Bool-cases, contains, NoDup, eq_comm, Result, ok, err, ◌==◌,
}
use sciguard_autopilot.Base.Exec.{continue-keeps, continue-eq-ok}
use sciguard_autopilot.Base.Dict.{lookup, or_else}
use sciguard_autopilot.DataHub.{Client}
use sciguard_autopilot.Events.{EventRecorder, emit_if}
use sciguard_autopilot.Policy.{write_back, has_action, AssetPolicyDecision, PolicyPlan}
use sciguard_autopilot.Enforcement.{
  EnforcementReceipt, World, beside, before, hold, on_graph, on_recorder, applied, controlled,
  control_updates, control, mirror_native_projection_state, enforce_all, enforce,
}
use sciguard_autopilot.Enforcement.Controls.{
  dataset, updates_on, dataset-control_ne, lookup-control,
}

abbrev pub receipt_urns : List EnforcementReceipt → List String
receipt_urns [] = []
receipt_urns (r ∷ rs) = r.urn ∷ receipt_urns rs

module _ (c : Client) where
  open c use {Graph}

  abbrev Saved : String → World c → World c → Type 0
  Saved v w w' = dataset c v w'.0 ≡ dataset c v w.0

  -- The datasets that are not controlled keep their properties, also where the plan is given up.
  enforce_all-others :
      (clock : ℕ → ℕ) (incident v : String) (urns : List String) (ds : List AssetPolicyDecision)
      (w : World c)
      → contains v (controlled ds) ≡ false
      → Saved v w (enforce_all c clock incident urns ds w).1
  unfolding enforce_all
  enforce_all-others clock incident v urns [] w h = refl
  enforce_all-others clock incident v urns (d ∷ ds) w h =
      elim (Bool-cases (has_action write_back d.actions)) [
        | inr free ↦ rw free (enforce_all-others clock incident v urns ds w (ground arith))
        | inl held ↦ rw held (
            continue-keeps (Saved v w) (on_graph c (control c incident urns d) w) _
              (dataset-control_ne c incident v urns d w.0 (ground arith))
              (λ receipt w₁ e₁.
                continue-keeps (Saved v w) (on_recorder c (emit_if clock (applied d receipt)) w₁) _
                  e₁
                  (λ _ w₂ e₂.
                    continue-keeps (Saved v w) (enforce_all c clock incident urns ds w₂) _
                      (enforce_all-others clock incident v urns ds w₂ (ground arith) ∙ e₂)
                      (λ _ w₃ e₃. e₃))))
      ]

  -- A decision's control is in place after the plan was enforced on `w`: either it asks for no
  -- write, or its dataset has the new properties, and each other property that it had before.
  abbrev pub IsEnforced : String → List String → World c → World c → AssetPolicyDecision → Type 0
  IsEnforced incident urns w w' d =
      (has_action write_back d.actions ≡ false)
      ⊎ ((key : String)
          → lookup key (properties_in (dataset c d.urn w'.0))
            ≡ or_else (lookup key (updates_on c incident urns d w.0))
                (lookup key (properties_in (dataset c d.urn w.0))))

  pub beside-eq-ok :
      {A : Type 0} (r : Option EventRecorder) (x : Result A × Graph) (a : A) (w : World c)
      → beside c r x ≡ (ok a, w)
      → x ≡ (ok a, w.0)
  beside-eq-ok r (ok b, g) a w h = ground arith
  beside-eq-ok r (err e, g) a w h = cc

  pub before-graph :
      {A : Type 0} (g : Graph) (x : Result A × Option EventRecorder) (y : Result A × World c)
      → before c g x ≡ y
      → y.1.0 ≡ g
  before-graph {A = A} g x y h = sym (ap (λ (z : Result A × World c). z.1.0) h)

  -- What a write-back that returned is made of.
  abbrev pub Held :
      (ℕ → ℕ)
      → String
      → List String
      → AssetPolicyDecision
      → List AssetPolicyDecision
      → World c
      → World c
      → List EnforcementReceipt
      → Type 0
  Held clock incident urns d ds w w' out =
      (r : EnforcementReceipt) × (rs : List EnforcementReceipt) × (w₁ : World c) × (control c
          incident urns d w.0
        ≡ (ok r, w₁.0))
      × (enforce_all c clock incident urns ds w₁ ≡ (ok rs, w'))
      × (r ∷ rs ≡ out)

  hold-Held :
      (clock : ℕ → ℕ) (incident : String) (urns : List String) (d : AssetPolicyDecision)
      (ds : List AssetPolicyDecision) (w w' : World c) (out : List EnforcementReceipt)
      → hold c clock incident urns d (enforce_all c clock incident urns ds) w ≡ (ok out, w')
      → Held clock incident urns d ds w w' out
  hold-Held clock incident urns d ds w w' out h =
      let (r, wa, p, h₁) = continue-eq-ok (on_graph c (control c incident urns d) w) _ out w' h in
      let (_, wb, q, h₂) =
        continue-eq-ok (on_recorder c (emit_if clock (applied d r)) wa) _ out w' h₁ in
      let (rs, wc, s, h₃) = continue-eq-ok (enforce_all c clock incident urns ds wb) _ out w' h₂ in
      let end : wc ≡ w' = ap (λ (z : Result (List EnforcementReceipt) × World c). z.1) h₃ in
      (
        r,
        rs,
        wb,
        beside-eq-ok w.1 (control c incident urns d w.0) r wa p
            ∙ ap (λ g. (ok r, g)) (sym (before-graph wa.0 (emit_if clock (applied d r) wa.1) _ q)),
        s ∙ ap (λ z. (ok rs, z)) end,
        ground arith,
      )

  enforce_all-Held :
      (clock : ℕ → ℕ) (incident : String) (urns : List String) (d : AssetPolicyDecision)
      (ds : List AssetPolicyDecision) (w w' : World c) (out : List EnforcementReceipt)
      → has_action write_back d.actions ≡ true
      → enforce_all c clock incident urns (d ∷ ds) w ≡ (ok out, w')
      → Held clock incident urns d ds w w' out
  unfolding enforce_all
  enforce_all-Held clock incident urns d ds w w' out held h =
      let rest = enforce_all c clock incident urns ds in
      hold-Held clock incident urns d ds w w' out (
        subst (λ b. (if b then hold c clock incident urns d rest else rest) w ≡ (ok out, w')) held
          h)

  control-urn :
      (incident : String) (urns : List String) (d : AssetPolicyDecision) (g g' : Graph)
      (r : EnforcementReceipt)
      → control c incident urns d g ≡ (ok r, g')
      → r.urn ≡ d.urn
  unfolding control
  control-urn incident urns d g g' r h =
      let (native, g₁, p, h₁) =
        continue-eq-ok (mirror_native_projection_state c _ _ _ _) _ r g' h in
      ground arith

  -- Controls judged against another first state, on which their own datasets are the same.
  IsEnforced-from :
      (incident u : String) (urns : List String) (w w₁ w' : World c) (ds : List AssetPolicyDecision)
      → ((v : String) → (u == v) ≡ false → dataset c v w₁.0 ≡ dataset c v w.0)
      → contains u (controlled ds) ≡ false
      → All (IsEnforced incident urns w₁ w') ds
      → All (IsEnforced incident urns w w') ds
  IsEnforced-from incident u urns w w₁ w' [] same h k = tt
  IsEnforced-from incident u urns w w₁ w' (d ∷ ds) same h k =
      elim (Bool-cases (has_action write_back d.actions)) [
        | inr free ↦ (inl free, IsEnforced-from incident u urns w w₁ w' ds same (ground arith) k.1)
        | inl held ↦
            let away : (u == d.urn) ≡ false = ground (arith, eq_comm u d.urn) in
            (
              subst
                  (λ a.
                    (has_action write_back d.actions ≡ false)
                    ⊎ ((key : String)
                        → lookup key (properties_in (dataset c d.urn w'.0))
                          ≡ or_else (lookup key (control_updates incident urns d (properties_in a)))
                              (lookup key (properties_in a))))
                  (same d.urn away) k.0,
              IsEnforced-from incident u urns w w₁ w' ds same (ground arith) k.1,
            )
      ]

  enforce_all-free :
      (clock : ℕ → ℕ) (incident : String) (urns : List String) (d : AssetPolicyDecision)
      (ds : List AssetPolicyDecision) (w : World c)
      → has_action write_back d.actions ≡ false
      → enforce_all c clock incident urns ds w ≡ enforce_all c clock incident urns (d ∷ ds) w
  unfolding enforce_all
  enforce_all-free clock incident urns d ds w free = rw free

  enforce_all-IsEnforced :
      (clock : ℕ → ℕ) (incident : String) (urns : List String) (ds : List AssetPolicyDecision)
      (w w' : World c) (out : List EnforcementReceipt)
      → NoDup (controlled ds)
      → enforce_all c clock incident urns ds w ≡ (ok out, w')
      → All (IsEnforced incident urns w w') ds × (receipt_urns out ≡ controlled ds)
  enforce_all-IsEnforced clock incident urns [] w w' out n h =
      (tt, unfold enforce_all in ground arith)
  enforce_all-IsEnforced clock incident urns (d ∷ ds) w w' out n h =
      elim (Bool-cases (has_action write_back d.actions)) [
        | inr free ↦
            let (done, urns_of) =
              enforce_all-IsEnforced clock incident urns ds w w' out (passed free n)
                (enforce_all-free clock incident urns d ds w free ∙ h) in
            ((inl free, done), rw free urns_of)
        | inl held ↦
            let (r, rs, w₁, made, rest, e) =
              enforce_all-Held clock incident urns d ds w w' out held h in
            let (new, old) = distinct held n in
            let (done, urns_of) = enforce_all-IsEnforced clock incident urns ds w₁ w' rs old rest in
            let g₁ : (control c incident urns d w.0).1 ≡ w₁.0 =
              ap (λ (z : Result EnforcementReceipt × Graph). z.1) made in
            let end : (enforce_all c clock incident urns ds w₁).1 ≡ w' =
              ap (λ (z : Result (List EnforcementReceipt) × World c). z.1) rest in
            (
              (
                inr (λ key.
                    ap (λ a. lookup key (properties_in a))
                      (sym (ap (λ z. dataset c d.urn z.0) end)
                        ∙ enforce_all-others clock incident d.urn urns ds w₁ new
                        ∙ sym (ap (dataset c d.urn) g₁))
                    ∙ lookup-control c incident key urns d w.0),
                IsEnforced-from incident d.urn urns w w₁ w' ds
                    (λ v away.
                      sym (ap (dataset c v) g₁) ∙ dataset-control_ne c incident v urns d w.0 away)
                    new done,
              ),
              sym (ap receipt_urns e)
                  ∙ rw held
                      (ap₂ (λ x xs. x ∷ xs) (control-urn incident urns d w.0 w₁.0 r made) urns_of),
            )
      ]
    where
      passed :
          has_action write_back d.actions ≡ false
          → NoDup (controlled (d ∷ ds))
          → NoDup (controlled ds)
      passed free n = ground arith

      distinct :
          has_action write_back d.actions ≡ true
          → NoDup (controlled (d ∷ ds))
          → (contains d.urn (controlled ds) ≡ false) × NoDup (controlled ds)
      distinct held n = ground arith

  -- A dataset that a plan does not write back to keeps its properties, whatever the plan does to
  -- the others and to native entities, also when `enforce` raises in the middle.
  pub enforce-others :
      (clock : ℕ → ℕ) (plan : PolicyPlan) (v : String) (w : World c)
      → contains v (controlled plan.decisions) ≡ false
      → dataset c v (enforce c clock plan w).1.0 ≡ dataset c v w.0
  unfolding enforce
  enforce-others clock plan v w h =
      enforce_all-others clock plan.incident_id v (controlled plan.decisions) plan.decisions w h

  -- When `enforce` returns on a plan whose write-backs name distinct datasets, there is one receipt
  -- for each write-back, in the plan's order, and each of those datasets has at every key the
  -- property that its decision calls for, or where it calls for none the property that it had.
  pub enforce-IsEnforced :
      (clock : ℕ → ℕ) (plan : PolicyPlan) (w w' : World c) (out : List EnforcementReceipt)
      → NoDup (controlled plan.decisions)
      → enforce c clock plan w ≡ (ok out, w')
      → All (IsEnforced plan.incident_id (controlled plan.decisions) w w') plan.decisions
        × (receipt_urns out ≡ controlled plan.decisions)
  unfolding enforce
  enforce-IsEnforced clock plan w w' out n h =
      enforce_all-IsEnforced clock plan.incident_id (controlled plan.decisions) plan.decisions w w'
        out n h
