-- ===== src/Investigator/Traced.antt =====
-- What an investigation of core/investigator.py has read when it returns.
use sciguard_autopilot.Base.{
  ℕ, ◌≡◌, refl, ap, inl, inr, ◌⊎◌, subst, String, true, false, Option, some, List, [], ◌∷◌, map,
  All, arith, contains, dedupe_from, eq_iff, Bool-cases, Exception, Result, ok, err, Result-cases,
}
use sciguard_autopilot.Base.Raising.{>>=-eq-ok, ok_inj}
use sciguard_autopilot.Base.Exec.{continue-eq-ok}
use sciguard_autopilot.Base.Dict.{lookup}
use sciguard_autopilot.Base.Json.{Json}
use sciguard_autopilot.Events.{EventRecorder, emit_if}
use sciguard_autopilot.Impact.{LineageHit}
use sciguard_autopilot.Investigation.{AssetContext, InvestigationResult}
use sciguard_autopilot.Investigator.{
  Catalog, asset_at, ordered, read_assets, read_catalog, investigate,
}

-- Each context is the answer to one call.
abbrev pub Reads : Catalog → List (String × ℕ) → List AssetContext → Type 0
Reads catalog [] [] = Unit
Reads catalog ((urn, degree) ∷ calls) (asset ∷ assets) =
    (asset_at catalog urn degree ≡ ok asset) × Reads catalog calls assets
Reads catalog _ _ = ⊥

All-map :
    (P Q : String × ℕ → Type 0) (xs : List (String × ℕ))
    → ((x : String × ℕ) → P x → Q x)
    → All P xs
    → All Q xs
All-map P Q [] f h = tt
All-map P Q (x ∷ xs) f (h, hs) = (f x h, All-map P Q xs f hs)

-- The calls that the loop made from `seen` on.
pub record IsRead (catalog : Catalog) (seen : List String) (todo : List (String × ℕ))
    (assets : List AssetContext) : Type 0 where
  pub calls : List (String × ℕ)
  pub distinct :
      map (λ (c : String × ℕ). c.0) calls ≡ dedupe_from seen (map (λ (c : String × ℕ). c.0) todo)
  pub degrees :
      All (λ (c : String × ℕ). (contains c.0 seen ≡ false) × (lookup c.0 todo ≡ some c.1)) calls
  pub contexts : Reads catalog calls assets

seen_before :
    (catalog : Catalog) (seen : List String) (urn : String) (degree : ℕ) (todo : List (String × ℕ))
    (assets : List AssetContext)
    → contains urn seen ≡ true
    → IsRead catalog seen todo assets
    → IsRead catalog seen ((urn, degree) ∷ todo) assets
seen_before catalog seen urn degree todo assets old r = record {
  calls = r.calls;
  distinct = rw (old, dedupe_from) r.distinct;
  degrees =
      All-map _ _ r.calls
        (λ (c : String × ℕ) (h : (contains c.0 seen ≡ false) × (lookup c.0 todo ≡ some c.1)).
          (h.0, ground (arith, old, h.0, h.1, eq_iff urn c.0)))
        r.degrees;
  contexts = r.contexts;
}

newly_read :
    (catalog : Catalog) (seen : List String) (urn : String) (degree : ℕ) (todo : List (String × ℕ))
    (asset : AssetContext) (assets : List AssetContext)
    → contains urn seen ≡ false
    → asset_at catalog urn degree ≡ ok asset
    → IsRead catalog (urn ∷ seen) todo assets
    → IsRead catalog seen ((urn, degree) ∷ todo) (asset ∷ assets)
newly_read catalog seen urn degree todo asset assets new e r = record {
  calls = (urn, degree) ∷ r.calls;
  distinct = rw (new, dedupe_from) (ap (λ us. urn ∷ us) r.distinct);
  degrees = (
    (new, ground (arith, eq_iff urn urn)),
    All-map _ _ r.calls
        (λ (c : String × ℕ)
            (h : (contains c.0 (urn ∷ seen) ≡ false) × (lookup c.0 todo ≡ some c.1)).
          (ground (arith, h.0), ground (arith, h.0, h.1)))
        r.degrees,
  );
  contexts = (e, r.contexts);
}

-- A call that raised.
pub data Failed (catalog : Catalog) (report_urn : String) : Exception → Type 0 where
  no_lineage :
      {e : Exception} → catalog.get_all_upstream report_urn ≡ err e → Failed catalog report_urn e
  no_context :
      {e : Exception} (urn : String) (degree : ℕ)
      → asset_at catalog urn degree ≡ err e
      → Failed catalog report_urn e

read_assets-IsRead :
    (catalog : Catalog) (seen : List String) (todo : List (String × ℕ)) (assets : List AssetContext)
    → read_assets catalog seen todo ≡ ok assets
    → IsRead catalog seen todo assets
unfolding read_assets
read_assets-IsRead catalog seen [] assets h =
    subst (IsRead catalog seen []) (ok_inj h)
      (record { calls = []; distinct = refl; degrees = tt; contexts = tt })
read_assets-IsRead catalog seen ((urn, degree) ∷ todo) assets h =
    elim (Bool-cases (contains urn seen)) [
      | inl old ↦
          seen_before catalog seen urn degree todo assets old
            (read_assets-IsRead catalog seen todo assets (rw (old, read_assets) at h))
      | inr new ↦
          let (asset, e1, h1) =
            >>=-eq-ok (asset_at catalog urn degree) _ (rw (new, read_assets) at h) in
          let (rest, e2, h2) = >>=-eq-ok (read_assets catalog (urn ∷ seen) todo) _ h1 in
          subst (IsRead catalog seen ((urn, degree) ∷ todo)) (ok_inj h2) (
            newly_read catalog seen urn degree todo asset rest new e1
              (read_assets-IsRead catalog (urn ∷ seen) todo rest e2))
    ]

read_assets-Failed :
    (catalog : Catalog) (report_urn : String) (seen : List String) (todo : List (String × ℕ))
    (e : Exception)
    → read_assets catalog seen todo ≡ err e
    → Failed catalog report_urn e
unfolding read_assets
read_assets-Failed catalog report_urn seen [] e h = cc
read_assets-Failed catalog report_urn seen ((urn, degree) ∷ todo) e h =
    elim (Bool-cases (contains urn seen)) [
      | inl old ↦ read_assets-Failed catalog report_urn seen todo e (rw (old, read_assets) at h)
      | inr new ↦ elim (Result-cases (asset_at catalog urn degree)) [
        | inr (x, e1) ↦ no_context urn degree (ground (arith, new, e1, h))
        | inl (asset, e1) ↦ elim (Result-cases (read_assets catalog (urn ∷ seen) todo)) [
          | inr (x, e2) ↦
              read_assets-Failed catalog report_urn (urn ∷ seen) todo e
                (ground (arith, new, e1, e2, h))
          | inl (rest, e2) ↦ absurd (ground (arith, new, e1, e2, h))
        ]
      ]
    ]

-- The catalog was read: the report and each dataset upstream of it once, at the first degree that the
-- lineage gives it, and the assets are the answers.
pub record IsTraced (catalog : Catalog) (report_urn : String) (result : InvestigationResult)
    : Type 0 where
  pub hits : List LineageHit
  pub upstream : catalog.get_all_upstream report_urn ≡ ok hits
  pub reached : IsRead catalog [] (ordered report_urn hits) result.assets
  pub available : result.available ≡ true

-- A call raised, and nothing of the catalog is reported.
pub record IsDegraded (catalog : Catalog) (report_urn : String) (result : InvestigationResult)
    : Type 0 where
  pub raised : Exception
  pub failed : Failed catalog report_urn raised
  pub unavailable : result.available ≡ false
  pub empty : result.assets ≡ []

read_catalog-IsRead :
    (catalog : Catalog) (report_urn : String) (assets : List AssetContext)
    → read_catalog catalog report_urn ≡ ok assets
    → (hits : List LineageHit) × (catalog.get_all_upstream report_urn ≡ ok hits)
      × IsRead catalog [] (ordered report_urn hits) assets
unfolding read_catalog
read_catalog-IsRead catalog report_urn assets h =
    let (hits, e1, h1) = >>=-eq-ok (catalog.get_all_upstream report_urn) _ h in
    (hits, e1, read_assets-IsRead catalog [] (ordered report_urn hits) assets h1)

read_catalog-Failed :
    (catalog : Catalog) (report_urn : String) (e : Exception)
    → read_catalog catalog report_urn ≡ err e
    → Failed catalog report_urn e
unfolding read_catalog
read_catalog-Failed catalog report_urn e h =
    elim (Result-cases (catalog.get_all_upstream report_urn)) [
      | inl (hits, e1) ↦
          read_assets-Failed catalog report_urn [] (ordered report_urn hits) e
            (ground (arith, e1, h))
      | inr (x, e1) ↦ no_lineage (ground (arith, e1, h))
    ]

-- When `investigate` returns, either it has read the report and every dataset upstream of it, each
-- once and at its first degree, and reports the answers in that order; or a call to the catalog
-- raised, and it reports no asset and that the catalog is unavailable.
pub investigate-IsTraced :
    (stable_evidence_id : String → Json → String) (catalog : Catalog) (clock : ℕ → ℕ) (duration : ℕ)
    (report_urn : String) (w w' : Option EventRecorder) (result : InvestigationResult)
    → investigate stable_evidence_id catalog clock duration report_urn w ≡ (ok result, w')
    → IsTraced catalog report_urn result ⊎ IsDegraded catalog report_urn result
unfolding investigate
investigate-IsTraced stable_evidence_id catalog clock duration report_urn w w' result h =
    elim (Result-cases (read_catalog catalog report_urn)) [
      | inl (assets, e) ↦
          let (u, w1, e1, h1) = continue-eq-ok (emit_if clock _ w) _ result w' (rw e at h) in
          let (hits, upstream, reached) = read_catalog-IsRead catalog report_urn assets e in
          inl (
            subst (IsTraced catalog report_urn)
              (ok_inj (ap (λ (p : Result InvestigationResult × Option EventRecorder). p.0) h1))
              (record { hits = hits; upstream = upstream; reached = reached; available = refl }))
      | inr (raised, e) ↦
          let (u, w1, e1, h1) = continue-eq-ok (emit_if clock _ w) _ result w' (rw e at h) in
          inr (
            subst (IsDegraded catalog report_urn)
              (ok_inj (ap (λ (p : Result InvestigationResult × Option EventRecorder). p.0) h1))
              (record {
                raised = raised;
                failed = read_catalog-Failed catalog report_urn raised e;
                unavailable = refl;
                empty = refl;
              }))
    ]
