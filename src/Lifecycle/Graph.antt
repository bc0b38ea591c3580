-- ===== src/Lifecycle/Graph.antt =====
-- The transition table of core/incident_state.py as a graph, and what every run of the state
-- machine owes to it.
use sciguard_autopilot.Base.{
  ℕ, ◌≡◌, ◌≢◌, refl, sym, subst, ◌⊎◌, inl, inr, String, Bool, true, false, not, ◌||◌, Option, List,
  [], ◌∷◌, arith, any, Bool-cases, Result, ok, err,
}
use sciguard_autopilot.Base.Dict.{Dict}
use sciguard_autopilot.Base.Json.{Json}
use sciguard_autopilot.Events.{Event, EventRecorder, emit}
use sciguard_autopilot.Lifecycle.{
  IncidentState, healthy, detected, investigating, at_risk, quarantined, recovery_pending, resolved,
  IncidentRun, Request, allowed, transition, finish_transition, creation, has_creation, same_state,
  transition_emission, first_request, finish_start, start, already_started,
}
use sciguard_autopilot.Lifecycle.Replay.{Call, begin, move, record_event, step, run_calls}

-- One edge of the table.
infix 40 ◌⟶◌ ◌⟶*◌
pub data ◌⟶◌ : IncidentState → IncidentState → Type 0 where
  edge : {s t : IncidentState} → allowed s t ≡ true → s ⟶ t

pub data ◌⟶*◌ (s : IncidentState) : IncidentState → Type 0 where
  here : s ⟶* s
  then : {t u : IncidentState} → s ⟶* t → t ⟶ u → s ⟶* u

-- A call moves a run along one edge at most.
abbrev Moves : IncidentState → IncidentState → Type 0
Moves s t = (t ≡ s) ⊎ (allowed s t ≡ true)

transition-Moves :
    (target : IncidentState) (q : Request) (m : IncidentRun)
    → Moves m.state (transition target q m).1.state
unfolding transition
transition-Moves target q m = elim (Bool-cases (allowed m.state target)) [
  | inr no_edge ↦ rw no_edge (inl refl)
  | inl legal ↦ rw legal (go legal (emit q.now (transition_emission m.state target q) m.recorder))
]
  where
    go :
        allowed m.state target ≡ true
        → (x : Result Event × EventRecorder) → Moves m.state (finish_transition target m x).1.state
    go legal (ok e, r) = inr legal
    go legal (err e, r) = inl refl

finish_start-Moves :
    (later : ℕ) (m : IncidentRun) (x : Result Event × EventRecorder)
    → Moves m.state (finish_start later m x).1.state
finish_start-Moves later m (ok e, r) =
    transition-Moves detected (first_request later) (record m { recorder = r })
finish_start-Moves later m (err e, r) = inl refl

start-Moves :
    (now later : ℕ) (symptom : String) (payload : Option (Dict Json)) (m : IncidentRun)
    → Moves m.state (start now later symptom payload m).1.state
unfolding start
start-Moves now later symptom payload m =
    elim (Bool-cases (not (same_state m.state healthy) || has_creation m.recorder.events)) [
      | inl again ↦ rw again (inl refl)
      | inr first ↦
          rw first (finish_start-Moves later m (emit now (creation symptom payload) m.recorder))
    ]

step-Moves : (c : Call) (m : IncidentRun) → Moves m.state (step c m).state
unfolding step
step-Moves (begin now later symptom payload) m = start-Moves now later symptom payload m
step-Moves (move target q) m = transition-Moves target q m
step-Moves (record_event now a) m = inl refl

-- What holds of a state and of every state that an edge leads to holds after any calls.
run_calls_inv {ℓ} :
    (P : IncidentState → Type ℓ)
    → ((s t : IncidentState) → allowed s t ≡ true → P s → P t)
    → (cs : List Call) (m : IncidentRun) → P m.state
    → P (run_calls cs m).state
unfolding run_calls
run_calls_inv P keep [] m h = h
run_calls_inv P keep (c ∷ cs) m h = run_calls_inv P keep cs (step c m) (elim (step-Moves c m) [
  | inl same ↦ subst P (sym same) h
  | inr legal ↦ keep m.state (step c m).state legal h
])

resolved_edge : (s t : IncidentState) → allowed s t ≡ true → s ≡ resolved → t ≡ resolved
unfolding allowed
resolved_edge s t legal h = ground arith

-- RESOLVED is final: no calls, whatever their targets and payloads, move a resolved run.
pub resolved_final :
    (cs : List Call) (m : IncidentRun) → m.state ≡ resolved → (run_calls cs m).state ≡ resolved
resolved_final = run_calls_inv (λ s. s ≡ resolved) resolved_edge

healthy_edge : (s t : IncidentState) → allowed s t ≡ true → s ≢ healthy → t ≢ healthy
unfolding allowed
healthy_edge s t legal h = ground arith

start_moves_on :
    (now later : ℕ) (symptom : String) (payload : Option (Dict Json)) (m m' : IncidentRun)
    (e : Event)
    → start now later symptom payload m ≡ (ok e, m')
    → m'.state ≡ detected
unfolding start transition
start_moves_on now later symptom payload m m' e h = ground arith

not_healthy : (s : IncidentState) → s ≢ healthy → same_state s healthy ≡ false
not_healthy healthy h = absurd (h refl)
not_healthy _ h = refl

start_refused :
    (now later : ℕ) (symptom : String) (payload : Option (Dict Json)) (m : IncidentRun)
    → m.state ≢ healthy
    → start now later symptom payload m ≡ (err already_started, m)
unfolding start
start_refused now later symptom payload m h = rw (not_healthy m.state h)

-- A run is started once: after a `start` that succeeded, and any calls since, every further `start`
-- raises and leaves the run as it is.
pub start_once :
    (now later now' later' : ℕ) (symptom symptom' : String) (payload payload' : Option (Dict Json))
    (m m' : IncidentRun) (e : Event) (cs : List Call)
    → start now later symptom payload m ≡ (ok e, m')
    → start now' later' symptom' payload' (run_calls cs m') ≡ (err already_started, run_calls cs m')
start_once now later now' later' symptom symptom' payload payload' m m' e cs h =
    start_refused now' later' symptom' payload' (run_calls cs m') (
      run_calls_inv (λ s. s ≢ healthy) healthy_edge cs m'
        (rw (start_moves_on now later symptom payload m m' e h) (λ p. cc)))

-- The states that a run is in after each call.
unfoldable pub visited : List Call → IncidentRun → List IncidentState
visited [] m = []
visited (c ∷ cs) m = (step c m).state ∷ visited cs (step c m)

abbrev pub is_pending : IncidentState → Bool
is_pending recovery_pending = true
is_pending _ = false

-- The states in which controls are in force.
abbrev pub is_contained : IncidentState → Bool
is_contained at_risk = true
is_contained quarantined = true
is_contained _ = false

contained_edge :
    (s t : IncidentState)
    → allowed s t ≡ true
    → is_contained s ≡ true
    → (is_contained t ≡ true) ⊎ (is_pending t ≡ true)
unfolding allowed
contained_edge s t legal h = ground arith

-- An incident that is AT_RISK or QUARANTINED is resolved only through RECOVERY_PENDING: whatever
-- the calls, if they end in RESOLVED then one of the states on the way was RECOVERY_PENDING.
pub resolved_needs_recovery :
    (cs : List Call) (m : IncidentRun)
    → is_contained m.state ≡ true
    → (run_calls cs m).state ≡ resolved
    → any is_pending (visited cs m) ≡ true
unfolding run_calls visited
resolved_needs_recovery [] m h r = absurd (ground arith)
resolved_needs_recovery (c ∷ cs) m h r = elim (step-Moves c m) [
  | inl same ↦ ground (arith, resolved_needs_recovery cs (step c m))
  | inr legal ↦ elim (contained_edge m.state (step c m).state legal h) [
    | inl still ↦ ground (arith, resolved_needs_recovery cs (step c m) still r)
    | inr pending ↦ rw pending
  ]
]

-- From every state the table has a way to RESOLVED.
pub resolvable : (s : IncidentState) → s ⟶* resolved
unfolding allowed
resolvable healthy = then (then here (edge {t = detected} refl)) (edge refl)
resolvable detected = then here (edge refl)
resolvable investigating = then here (edge refl)
resolvable at_risk = then (then here (edge {t = recovery_pending} refl)) (edge refl)
resolvable quarantined = then (then here (edge {t = recovery_pending} refl)) (edge refl)
resolvable recovery_pending = then here (edge refl)
resolvable resolved = here
