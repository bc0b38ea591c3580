-- ===== src/Reset/Owned.antt =====
-- What a reset of core/reset.py may touch: only what its receipt names, and among the datasets only
-- those that carry the incident's ID.
use sciguard_autopilot.Base.{
  ◌≡◌, sym, ap, inl, inr, String, Bool, true, false, not, List, [], ◌∷◌, ◌++◌, All, All-append,
  arith, contains, contains-append, keep_if, dedupe, Bool-cases, Result, ok, err, ◌==◌,
}
use sciguard_autopilot.Base.Raising.{raise_if, >>=-eq-ok, ok_inj, Result-cases}
use sciguard_autopilot.DataHub.{Properties, Client}
use sciguard_autopilot.DataHub.Values.{value_at, loads}
use sciguard_autopilot.Base.Json.{nil, arr}
use sciguard_autopilot.Enforcement.{native_targets}
use sciguard_autopilot.Reset.{
  Artifacts, ResetPlan, ResetReceipt, dataset_props, owns, plan_from, control_last,
  distinct_targets, listed_urns, owned_artifacts, reset_targets, delete_all, reset_datasets,
  carried_out, reset_plan, reset_incident_metadata,
}
use sciguard_autopilot.Reset.Frame.{
  Untouched, Untouched-refl, Untouched-trans, reset_targets-Untouched, delete_all-Untouched,
  reset_datasets-Untouched,
}

-- What the receipt says was changed.
abbrev pub touched : Result ResetReceipt → List String
touched (err e) = []
touched (ok r) =
    r.reset_urns ++ (r.reset_native_projection_urns ++ r.deleted_incident_artifact_urns)

abbrev pub reset_of : Result ResetReceipt → List String
reset_of (err e) = []
reset_of (ok r) = r.reset_urns

module _ (c : Client) where
  open c use {Graph}

  plan_from-owned :
      (id : String) (urns : List String) (g : Graph) (plan : ResetPlan)
      → plan_from c id urns g ≡ ok plan
      → All (λ d. owns id (dataset_props c g d.0) ≡ true) plan.datasets
  unfolding plan_from
  plan_from-owned id [] g plan h = rw (sym (ap (λ (p : ResetPlan). p.datasets) (ok_inj h))) tt
  plan_from-owned id (urn ∷ urns) g plan h = elim (Bool-cases (owns id (dataset_props c g urn))) [
    | inl mine ↦
        let (targets, e1, h1) =
          >>=-eq-ok (native_targets (dataset_props c g urn)) _ (rw mine at h) in
        let (rest, e2, h2) = >>=-eq-ok (plan_from c id urns g) _ h1 in
        rw (sym (ap (λ (p : ResetPlan). p.datasets) (ok_inj h2)))
          (mine, plan_from-owned id urns g rest e2)
    | inr other ↦
        let (rest, e2, h2) = >>=-eq-ok (plan_from c id urns g) _ (rw other at h) in
        rw (sym (ap (λ (p : ResetPlan). p.datasets) (ok_inj h2)))
          (plan_from-owned id urns g rest e2)
  ]

  All-keep_if :
      (P : String × Properties → Type 0) (test : String × Properties → Bool)
      (ds : List (String × Properties))
      → All P ds
      → All P (keep_if test ds)
  All-keep_if P test [] h = tt
  All-keep_if P test (d ∷ ds) (h, hs) = elim (Bool-cases (test d)) [
    | inl holds ↦ rw holds (h, All-keep_if P test ds hs)
    | inr fails ↦ rw fails (All-keep_if P test ds hs)
  ]

  reset_datasets-owned :
      (id : String) (start : Graph) (datasets : List (String × Properties)) (g : Graph)
      → All (λ (d : String × Properties). owns id (dataset_props c start d.0) ≡ true) datasets
      → All
          (λ (u : String). owns id (dataset_props c start u) ≡ true)
          (reset_datasets c datasets g).0.urns
  unfolding reset_datasets
  reset_datasets-owned id start [] g h = tt
  reset_datasets-owned id start ((u, props) ∷ datasets) g (h, hs) =
      (h, reset_datasets-owned id start datasets _ hs)

  -- What the writes change.
  carried_out-others :
      (a : Artifacts c) (control id v : String) (plan : ResetPlan) (artifacts : List String)
      (g : Graph)
      → contains v (touched (ok (carried_out c a control id plan artifacts g).0)) ≡ false
      → Untouched c v g (carried_out c a control id plan artifacts g).1
  carried_out-others a control id v plan artifacts g h =
      let native = reset_targets c id (distinct_targets plan.targets) g in
      let deleted = delete_all c a artifacts native.1 in
      let datasets = reset_datasets c (control_last control plan.datasets) deleted in
      let split1 = contains-append v datasets.0.urns (native.0.urns ++ artifacts) in
      let split2 = contains-append v native.0.urns artifacts in
      Untouched-trans c v g native.1 _
        (reset_targets-Untouched c id v (distinct_targets plan.targets) g (ground arith))
        (Untouched-trans c v native.1 deleted _
          (delete_all-Untouched c a v artifacts native.1 (ground arith))
          (reset_datasets-Untouched c v (control_last control plan.datasets) deleted
            (ground arith)))

  carried_out-owned :
      (a : Artifacts c) (control id : String) (plan : ResetPlan) (artifacts : List String)
      (g : Graph)
      → All (λ (d : String × Properties). owns id (dataset_props c g d.0) ≡ true) plan.datasets
      → All
          (λ (u : String). owns id (dataset_props c g u) ≡ true)
          (carried_out c a control id plan artifacts g).0.reset_urns
  carried_out-owned a control id plan artifacts g h =
      reset_datasets-owned id g (control_last control plan.datasets) _ (
        All-append _ (keep_if (λ (d : String × Properties). not (d.0 == control)) plan.datasets) _
          (All-keep_if _ _ plan.datasets h) (All-keep_if _ _ plan.datasets h))

  reset_plan-owned :
      (a : Artifacts c) (control id : String) (g : Graph) (plan : ResetPlan)
      (artifacts : List String)
      → reset_plan c a control id g ≡ ok (plan, artifacts)
      → All (λ (d : String × Properties). owns id (dataset_props c g d.0) ≡ true) plan.datasets
  unfolding reset_plan
  reset_plan-owned a control id g plan artifacts h =
      let (u, e1, h1) = >>=-eq-ok (raise_if (not (owns id (dataset_props c g control))) _) _ h in
      let (listed, e2, h2) =
        >>=-eq-ok
          (loads (value_at "sciguard:controlled_urns" (arr nil) (dataset_props c g control))) _
          h1 in
      let (urns, e3, h3) = >>=-eq-ok (listed_urns listed) _ h2 in
      let (p, e4, h4) = >>=-eq-ok (plan_from c id (dedupe (control ∷ urns)) g) _ h3 in
      let (owned, e5, h5) = >>=-eq-ok (owned_artifacts c a id g) _ h4 in
      rw (sym (ap (λ (q : ResetPlan × List String). q.0.datasets) (ok_inj h5)))
        (plan_from-owned id (dedupe (control ∷ urns)) g p e4)

  -- A reset leaves every aspect and the tags of an entity that its receipt does not name as they
  -- were: all of the graph when it raises. Every dataset that it resets carried the incident's ID
  -- when it began.
  pub reset_incident_metadata-others :
      (a : Artifacts c) (control id v : String) (g : Graph)
      → contains v (touched (reset_incident_metadata c a control id g).0) ≡ false
      → Untouched c v g (reset_incident_metadata c a control id g).1
        × All
            (λ (u : String). owns id (dataset_props c g u) ≡ true)
            (reset_of (reset_incident_metadata c a control id g).0)
  unfolding reset_incident_metadata
  reset_incident_metadata-others a control id v g h =
      elim (Result-cases (reset_plan c a control id g)) [
        | inl ((plan, artifacts), e) ↦ rw e (
          carried_out-others a control id v plan artifacts g (rw e at h),
          carried_out-owned a control id plan artifacts g
              (reset_plan-owned a control id g plan artifacts e),
        )
        | inr (raised, e) ↦ rw e (Untouched-refl c v g, tt)
      ]
