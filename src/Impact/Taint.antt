-- ===== src/Impact/Taint.antt =====
-- What trace_field_impact of core/impact.py finds: the fields that contamination reaches.
use sciguard_autopilot.Base.{
  ◌≡◌, refl, sym, ap, ◌∙◌, ◌⊎◌, inl, inr, String, Bool, true, false, ◌&&◌, ◌||◌, List, [], ◌∷◌,
  arith, if◌then◌else◌, any, contains, contains-append, dedupe, dedupe_from, Bool-cases,
  Result-cases, ok, ◌==◌, eq_iff, eq_refl,
}
use sciguard_autopilot.Impact.{
  LineageHit, Backend, Scan, FieldImpact, insert_sorted, sorted, text_le, by_degree, is_skipped,
  propagated, scan_hit, scan_all, found, source_field_urns, first_scan, source_name,
  trace_field_impact,
}

contains-insert_sorted :
    (x y : String) (ys : List String)
    → contains x (insert_sorted text_le y ys) ≡ (y == x || contains x ys)
contains-insert_sorted x y [] = refl
contains-insert_sorted x y (z ∷ zs) = ground (arith, contains-insert_sorted x y zs)

contains-sorted : (x : String) (ys : List String) → contains x (sorted text_le ys) ≡ contains x ys
contains-sorted x [] = refl
contains-sorted x (y ∷ ys) =
    contains-insert_sorted x y (sorted text_le ys) ∙ ap (λ b. y == x || b) (contains-sorted x ys)

contains-dedupe_from :
    (x : String) (seen ys : List String)
    → (contains x seen || contains x (dedupe_from seen ys)) ≡ (contains x seen || contains x ys)
contains-dedupe_from x seen [] = refl
contains-dedupe_from x seen (y ∷ ys) =
    ground (arith, eq_iff y x, contains-dedupe_from x seen ys, contains-dedupe_from x (y ∷ seen) ys)

-- An edge of fine-grained lineage is among those of an entity that the scan looks at.
abbrev pub has_edge : String → String → List (String × String) → Bool
has_edge u d = any (λ (e : String × String). e.0 == u && e.1 == d)

propagated_sound :
    (d : String) (tainted : List String) (edges : List (String × String))
    → contains d (propagated tainted edges) ≡ true
    → (u : String) × (has_edge u d edges ≡ true) × (contains u tainted ≡ true)
propagated_sound d tainted [] h = absurd (ground arith)
propagated_sound d tainted ((u, e) ∷ edges) h = elim (Bool-cases (contains u tainted && e == d)) [
  | inl here ↦ (u, ground (arith, eq_refl u), ground arith)
  | inr away ↦
      let (v, p, q) = propagated_sound d tainted edges (ground arith) in (v, ground arith, q)
]

propagated_complete :
    (u d : String) (tainted : List String) (edges : List (String × String))
    → has_edge u d edges ≡ true
    → contains u tainted ≡ true
    → contains d (propagated tainted edges) ≡ true
propagated_complete u d tainted [] h k = absurd (ground arith)
propagated_complete u d tainted ((v, e) ∷ edges) h k =
    ground (arith, eq_iff v u, propagated_complete u d tainted edges)

module _ (backend : Backend) where
  open backend use {get_all_downstream, get_fine_grained_lineage}

  abbrev pub edge_of : String → String → LineageHit → Bool
  edge_of u d hit =
      if is_skipped hit then false else has_edge u d (get_fine_grained_lineage hit.urn)

  -- The fields that contamination of the sources reaches along the edges of the hits.
  pub data IsTainted (sources : List String) (hits : List LineageHit) : String → Type 0 where
    source : {f : String} → contains f sources ≡ true → IsTainted sources hits f
    flows :
        {u d : String}
        → any (edge_of u d) hits ≡ true
        → IsTainted sources hits u
        → IsTainted sources hits d

  -- what one hit adds
  abbrev fresh : LineageHit → Scan → List String
  fresh hit s =
      if is_skipped hit then [] else propagated s.tainted (get_fine_grained_lineage hit.urn)

  contains-scan_hit :
      (f : String) (hit : LineageHit) (s : Scan)
      → contains f (scan_hit backend hit s).tainted
        ≡ (contains f (fresh hit s) || contains f s.tainted)
  unfolding scan_hit
  contains-scan_hit f hit s = elim (Bool-cases (is_skipped hit)) [
    | inl skipped ↦ rw skipped
    | inr kept ↦ rw kept (go (propagated s.tainted (get_fine_grained_lineage hit.urn)))
  ]
    where
      go :
          (new : List String)
          → contains f (found hit new s).tainted ≡ (contains f new || contains f s.tainted)
      go [] = refl
      go (n ∷ ns) = contains-append f (n ∷ ns) s.tainted

  -- A hit adds only fields that its edges lead to from tainted ones.
  fresh_sound :
      (d : String) (hit : LineageHit) (s : Scan)
      → contains d (fresh hit s) ≡ true
      → (u : String) × (edge_of u d hit ≡ true) × (contains u s.tainted ≡ true)
  fresh_sound d hit s h = elim (Bool-cases (is_skipped hit)) [
    | inl skipped ↦ absurd (ground arith)
    | inr kept ↦
        let (u, p, q) =
          propagated_sound d s.tainted (get_fine_grained_lineage hit.urn) (ground arith) in
        (u, ground arith, q)
  ]

  fresh_complete :
      (u d : String) (hit : LineageHit) (s : Scan)
      → edge_of u d hit ≡ true
      → contains u s.tainted ≡ true
      → contains d (fresh hit s) ≡ true
  fresh_complete u d hit s h k = elim (Bool-cases (is_skipped hit)) [
    | inl skipped ↦ absurd (ground arith)
    | inr kept ↦
        rw kept
          (propagated_complete u d s.tainted (get_fine_grained_lineage hit.urn) (ground arith) k)
  ]

  -- All that a scan finds is tainted, whichever hits it looks at.
  scan_all_sound :
      (sources : List String) (hits rest : List LineageHit) (s : Scan)
      → ((u d : String) → any (edge_of u d) rest ≡ true → any (edge_of u d) hits ≡ true)
      → ((f : String) → contains f s.tainted ≡ true → IsTainted sources hits f)
      → (f : String) → contains f (scan_all backend rest s).tainted ≡ true
      → IsTainted sources hits f
  unfolding scan_all
  scan_all_sound sources hits [] s within known f h = known f h
  scan_all_sound sources hits (hit ∷ rest) s within known f h =
      scan_all_sound sources hits rest (scan_hit backend hit s) (λ u d k. within u d (ground arith))
        (λ g k. elim (Bool-cases (contains g s.tainted)) [
          | inl old ↦ known g old
          | inr new ↦
              let (u, p, q) = fresh_sound g hit s (ground (arith, contains-scan_hit g hit s)) in
              flows (within u g (ground arith)) (known u q)
        ])
        f h

  -- A scan forgets no field.
  scan_all-keeps :
      (f : String) (hits : List LineageHit) (s : Scan)
      → contains f s.tainted ≡ true
      → contains f (scan_all backend hits s).tainted ≡ true
  unfolding scan_all
  scan_all-keeps f [] s h = h
  scan_all-keeps f (hit ∷ hits) s h =
      scan_all-keeps f hits (scan_hit backend hit s) (ground (arith, contains-scan_hit f hit s))

  -- What a scan finds was there, or some edge leads to it.
  scan_all-new :
      (f : String) (hits : List LineageHit) (s : Scan)
      → contains f (scan_all backend hits s).tainted ≡ true
      → (contains f s.tainted ≡ true) ⊎ ((u : String) × (any (edge_of u f) hits ≡ true))
  unfolding scan_all
  scan_all-new f [] s h = inl h
  scan_all-new f (hit ∷ hits) s h = elim (scan_all-new f hits (scan_hit backend hit s) h) [
    | inr (u, later) ↦ inr (u, ground arith)
    | inl now ↦ elim (Bool-cases (contains f s.tainted)) [
      | inl old ↦ inl old
      | inr new ↦
          let (u, p, _) = fresh_sound f hit s (ground (arith, contains-scan_hit f hit s)) in
          inr (u, ground arith)
    ]
  ]

  -- Each hit comes after the hits that its edges start from: no edge of a hit starts at a field that
  -- an edge of this or of a later hit leads to.
  abbrev pub IsOrdered : List LineageHit → Type 0
  IsOrdered [] = Unit
  IsOrdered (hit ∷ hits) =
      ((u d w : String) → edge_of u d hit ≡ true → any (edge_of w u) (hit ∷ hits) ≡ false)
      × IsOrdered hits

  scan_all-closed :
      (u d : String) (hits : List LineageHit) (s : Scan)
      → IsOrdered hits
      → any (edge_of u d) hits ≡ true
      → contains u (scan_all backend hits s).tainted ≡ true
      → contains d (scan_all backend hits s).tainted ≡ true
  unfolding scan_all
  scan_all-closed u d [] s o h k = absurd (ground arith)
  scan_all-closed u d (hit ∷ hits) s (first, o) h k = elim (Bool-cases (edge_of u d hit)) [
    | inr later ↦ scan_all-closed u d hits (scan_hit backend hit s) o (ground arith) k
    | inl here ↦ elim (scan_all-new u (hit ∷ hits) s k) [
      | inr (w, produced) ↦ absurd (clash (first u d w here) produced)
      | inl old ↦
          scan_all-keeps d hits (scan_hit backend hit s)
            (ground (arith, contains-scan_hit d hit s, fresh_complete u d hit s here old))
    ]
  ]
    where
      clash : {b : Bool} → b ≡ false → b ≡ true → ⊥
      clash p q = cc

  scan_all_complete :
      (sources : List String) (hits : List LineageHit) (s : Scan)
      → IsOrdered hits
      → ((f : String) → contains f sources ≡ true → contains f s.tainted ≡ true)
      → (f : String) → IsTainted sources hits f
      → contains f (scan_all backend hits s).tainted ≡ true
  scan_all_complete sources hits s o known f (source h) = scan_all-keeps f hits s (known f h)
  scan_all_complete sources hits s o known f (flows {u = u} h t) =
      scan_all-closed u f hits s o h (scan_all_complete sources hits s o known u t)

  -- The entities that `trace_field_impact` looks at, in its order.
  abbrev pub visited_hits : String → List LineageHit
  visited_hits urn = sorted by_degree (get_all_downstream urn)

  traced-tainted :
      (urn f : String) (fields : List String) (impact : FieldImpact)
      → trace_field_impact backend urn fields ≡ ok impact
      → contains f impact.tainted_field_urns
        ≡ contains f (scan_all backend (visited_hits urn) (first_scan backend urn fields)).tainted
  unfolding trace_field_impact
  traced-tainted urn f fields impact h = elim (Result-cases (source_name urn)) [
    | inr (e, p) ↦ absurd (ground arith)
    | inl (name, p) ↦
        let s = scan_all backend (visited_hits urn) (first_scan backend urn fields) in
        let e : sorted text_le (dedupe s.tainted) ≡ impact.tainted_field_urns = ground arith in
        ap (contains f) (sym e)
        ∙ contains-sorted f (dedupe s.tainted)
        ∙ contains-dedupe_from f [] s.tainted
  ]

  -- Every field that `trace_field_impact` reports as tainted is a source field or is fed by one along
  -- fine-grained edges of the downstream datasets.
  pub trace_field_impact_sound :
      (urn : String) (fields : List String) (impact : FieldImpact) (f : String)
      → trace_field_impact backend urn fields ≡ ok impact
      → contains f impact.tainted_field_urns ≡ true
      → IsTainted (source_field_urns backend urn fields) (visited_hits urn) f
  trace_field_impact_sound urn fields impact f h k =
      scan_all_sound (source_field_urns backend urn fields) (visited_hits urn) (visited_hits urn)
        (first_scan backend urn fields) (λ u d e. e) (λ g e. source e) f
        (sym (traced-tainted urn f fields impact h) ∙ k)

  -- When the order of degrees puts each dataset after those that its fields are fed from,
  -- `trace_field_impact` reports every field that contamination of the source fields reaches along
  -- the fine-grained edges of the downstream datasets.
  pub trace_field_impact_complete :
      (urn : String) (fields : List String) (impact : FieldImpact) (f : String)
      → IsOrdered (visited_hits urn)
      → trace_field_impact backend urn fields ≡ ok impact
      → IsTainted (source_field_urns backend urn fields) (visited_hits urn) f
      → contains f impact.tainted_field_urns ≡ true
  trace_field_impact_complete urn fields impact f o h t =
      traced-tainted urn f fields impact h
      ∙ scan_all_complete (source_field_urns backend urn fields) (visited_hits urn)
          (first_scan backend urn fields) o (λ g e. e) f t
