-- ===== src/Tests/Impacts.antt =====
-- core/impact.py at concrete inputs.
use sciguard_autopilot.Base.{
  ℕ, ◌≡◌, refl, String, true, false, none, some, List, [], ◌∷◌, arith, if◌then◌else◌, any, subst,
  contains, ok, ◌==◌, eq_iff,
}
use sciguard_autopilot.Base.Texts.{upper}
use Prim.Native.String.{◌++◌ as concat}
use sciguard_autopilot.Impact.{
  LineageHit, Backend, FieldImpact, source_name, source_field_urns, scan_hit, scan_all,
  trace_field_impact,
}
use sciguard_autopilot.Impact.Taint.{
  edge_of, IsTainted, visited_hits, trace_field_impact_sound, trace_field_impact_complete,
}

abbrev lab : String
lab = "urn:li:dataset:(urn:li:dataPlatform:file,lab,PROD)"

abbrev hit : String → ℕ → LineageHit
hit urn degree = record { urn = urn; name = none; entity_type = some "DATASET"; degree = degree }

-- the fine-grained edges of three datasets, each fed by the one before
abbrev edges : String → List (String × String)
edges urn =
    if urn == "B"
    then (concat lab ".tg", "B.tg") ∷ []
    else if urn == "D"
    then ("B.tg", "D.tg") ∷ []
    else if urn == "C"
    then ("D.tg", "C.tg") ∷ []
    else []

abbrev backend_of : List LineageHit → Backend
backend_of hits = record {
  get_all_downstream = λ urn. hits;
  get_owners = λ urn. [];
  get_fine_grained_lineage = edges;
  search_datasets = λ query count. [];
  get_asset_context = λ urn. (urn, []);
  schema_field_urn = λ urn field. concat urn (concat "." field);
}

abbrev backend : Backend
backend = backend_of (hit "B" 1 ∷ [])

abbrev traced : FieldImpact
traced = record {
  source_urn = lab;
  source_fields = "tg" ∷ [];
  affected_urns = lab ∷ "B" ∷ [];
  affected_names = "lab" ∷ "B" ∷ [];
  unaffected_urns = [];
  unaffected_names = [];
  tainted_field_urns = "B.tg" ∷ concat lab ".tg" ∷ [];
}

trace_returns : trace_field_impact backend lab ("tg" ∷ []) ≡ ok traced
unfolding trace_field_impact source_name scan_all scan_hit upper
trace_returns = refl

trace_field_impact_sound_example :
    IsTainted backend (source_field_urns backend lab ("tg" ∷ [])) (visited_hits backend lab) "B.tg"
trace_field_impact_sound_example =
    trace_field_impact_sound backend lab ("tg" ∷ []) traced "B.tg" trace_returns refl

no_loop :
    (u d w : String)
    → edge_of backend u d (hit "B" 1) ≡ true
    → any (edge_of backend w u) (hit "B" 1 ∷ []) ≡ false
unfolding upper
no_loop u d w h =
    let start : concat lab ".tg" ≡ u = (eq_iff (concat lab ".tg") u).0 (ground arith) in
    subst (λ x. any (edge_of backend w x) (hit "B" 1 ∷ []) ≡ false) start (ground arith)

trace_field_impact_complete_example : contains "B.tg" traced.tainted_field_urns ≡ true
trace_field_impact_complete_example =
    trace_field_impact_complete backend lab ("tg" ∷ []) traced "B.tg" (no_loop, tt) trace_returns
      trace_field_impact_sound_example

-- `C` is one step away by an edge that carries no tainted field, and three steps away by the one
-- that does, so it is visited before `D`, which feeds it: it counts as unaffected.
abbrev shortcut : Backend
shortcut = backend_of (hit "B" 1 ∷ hit "C" 1 ∷ hit "D" 2 ∷ [])

abbrev missed : FieldImpact
missed = record {
  source_urn = lab;
  source_fields = "tg" ∷ [];
  affected_urns = lab ∷ "B" ∷ "D" ∷ [];
  affected_names = "lab" ∷ "B" ∷ "D" ∷ [];
  unaffected_urns = "C" ∷ [];
  unaffected_names = "C" ∷ [];
  tainted_field_urns = "B.tg" ∷ "D.tg" ∷ concat lab ".tg" ∷ [];
}

shortcut_is_missed : trace_field_impact shortcut lab ("tg" ∷ []) ≡ ok missed
unfolding trace_field_impact source_name scan_all scan_hit upper
shortcut_is_missed = refl

shortcut-IsTainted :
    IsTainted shortcut
      (source_field_urns shortcut lab ("tg" ∷ []))
      (visited_hits shortcut lab)
      "C.tg"
unfolding upper
shortcut-IsTainted = IsTainted.flows {u = "D.tg"} refl (
    IsTainted.flows {u = "B.tg"} refl
      (IsTainted.flows {u = concat lab ".tg"} refl (IsTainted.source refl)))
