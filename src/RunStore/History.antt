-- ===== src/RunStore/History.antt =====
-- Any calls of the operations of api/run_store.py, raised errors included, on a store that was
-- opened on an empty root.
use Prim.Native.String.{count}
use sciguard_autopilot.Base.{
  ℕ, ◌≤◌, ◌≡◌, refl, subst, inl, inr, String, Bool, List, [], ◌∷◌, Result, ok, err, Exception,
}
use sciguard_autopilot.Base.Exec.{Exec, pure, ◌>>=◌}
use sciguard_autopilot.Events.{Event}
use sciguard_autopilot.Events.Storage.{Line}
use sciguard_autopilot.RunStore.{RunManifest, RunStore, open_store, get_manifest}
use sciguard_autopilot.RunStore.Identity.{IsDirectChild, validate_id_bounds}
use sciguard_autopilot.RunStore.Operations.{
  start_run, append_event, finish_run, fail_run, update_state, delete_run,
}
use sciguard_autopilot.RunStore.Invariant.{IsShort, IsStore, get_manifest-Found}
use sciguard_autopilot.RunStore.Rewriting.{
  Outcome, update_state-Outcome, fail_run-Outcome, finish_run-Outcome,
}
use sciguard_autopilot.RunStore.Starting.{start_run-Outcome, delete_run-Outcome}
use sciguard_autopilot.RunStore.Appending.{append_event-Outcome}

-- A call of one of the store's operations with its arguments; the last number is the clock.
pub data Operation : Type 0 where
  start : String → String → ℕ → Operation
  append : Event → ℕ → Operation
  finish : String → String → String → ℕ → Operation
  fail : String → String → ℕ → Operation
  update : String → String → ℕ → Operation
  delete : String → Operation

module _ (digest : List Line → String) where
  unfoldable pub perform : Operation → Exec RunStore (Unit {0})
  unfolding start_run append_event finish_run fail_run update_state delete_run
  perform (start id backend now) = do _ ← start_run digest id backend now; pure tt
  perform (append event now) = append_event digest event now
  perform (finish id state backend now) = do _ ← finish_run digest id state backend now; pure tt
  perform (fail id error now) = do _ ← fail_run id error now; pure tt
  perform (update id state now) = do _ ← update_state id state now; pure tt
  perform (delete id) = delete_run id

  unfoldable pub perform_all : List Operation → RunStore → RunStore
  unfolding perform
  perform_all [] s = s
  perform_all (o ∷ os) s = perform_all os (perform o s).1

  -- Dropping the result of an operation keeps its outcome.
  forget-Outcome :
      {A : Type 0} (s : RunStore) (r : Result A × RunStore) (m : Exec RunStore A)
      → m s ≡ r
      → Outcome digest s r
      → Outcome digest s ((m >>= λ _. pure tt) s)
  forget-Outcome s r m e (inl (x, h)) = inl (x, rw (e, h) refl)
  forget-Outcome s r m e (inr (a, s', h, i)) = inr (tt, s', rw (e, h) refl, i)

  perform-Outcome :
      (o : Operation) (s : RunStore)
      → IsStore digest s.root s.active_incident
      → Outcome digest s (perform o s)
  unfolding perform
  perform-Outcome (start id backend now) s i =
      forget-Outcome s _ (start_run digest id backend now) refl
        (start_run-Outcome digest id backend now s i)
  perform-Outcome (append event now) s i = append_event-Outcome digest event now s i
  perform-Outcome (finish id state backend now) s i =
      forget-Outcome s _ (finish_run digest id state backend now) refl
        (finish_run-Outcome digest id state backend now s i)
  perform-Outcome (fail id error now) s i =
      forget-Outcome s _ (fail_run id error now) refl (fail_run-Outcome digest id error now s i)
  perform-Outcome (update id state now) s i =
      forget-Outcome s _ (update_state id state now) refl
        (update_state-Outcome digest id state now s i)
  perform-Outcome (delete id) s i = delete_run-Outcome digest id s i

  Outcome-IsStore :
      {A : Type 0} (s : RunStore) (r : Result A × RunStore)
      → IsStore digest s.root s.active_incident
      → Outcome digest s r
      → IsStore digest r.1.root r.1.active_incident
  Outcome-IsStore s r i (inl (x, e)) = rw e i
  Outcome-IsStore s r i (inr (a, s', e, h)) = rw e h

  kept_by_all :
      (os : List Operation) (s : RunStore)
      → IsStore digest s.root s.active_incident
      → IsStore digest (perform_all os s).root (perform_all os s).active_incident
  unfolding perform_all
  kept_by_all [] s i = i
  kept_by_all (o ∷ os) s i =
      kept_by_all os (perform o s).1 (Outcome-IsStore s (perform o s) i (perform-Outcome o s i))

  open_store-IsStore :
      (commit : String) (dirty : Bool)
      → IsStore digest
          (open_store [] commit dirty).root
          (open_store [] commit dirty).active_incident
  unfolding open_store
  open_store-IsStore commit dirty = record {
    runs = λ id d e. absurd (cc e);
    live = λ id e. absurd (cc e);
  }

  -- After any calls of the operations, whether they return or raise, on a store that was opened on
  -- an empty root, every directory is named by a valid incident ID and holds nothing but the two
  -- files; its manifest has that ID, and states the number and the digest of the events in the file
  -- beside it, which belong to the incident, are numbered from zero and have no event ID twice; its
  -- error text is cut at 2,000 characters; and the run is live and running exactly if it is the
  -- store's active incident, which is always one of the directories.
  pub perform_all-IsStore :
      (os : List Operation) (commit : String) (dirty : Bool)
      → IsStore digest
          (perform_all os (open_store [] commit dirty)).root
          (perform_all os (open_store [] commit dirty)).active_incident
  perform_all-IsStore os commit dirty =
      kept_by_all os (open_store [] commit dirty) (open_store-IsStore commit dirty)

  Outcome-refused :
      {A : Type 0} (s s' : RunStore) (r : Result A × RunStore) (x : Exception)
      → Outcome digest s r
      → r ≡ (err x, s')
      → s' ≡ s
  Outcome-refused s s' r x (inl (y, e)) h = cc
  Outcome-refused s s' r x (inr (a, t, e, i)) h = cc

  -- On a store that was opened on an empty root and then used in any way, an operation that raises
  -- leaves every directory and the active incident as they were.
  pub perform_refused :
      (os : List Operation) (o : Operation) (commit : String) (dirty : Bool) (x : Exception)
      (s' : RunStore)
      → perform o (perform_all os (open_store [] commit dirty)) ≡ (err x, s')
      → s' ≡ perform_all os (open_store [] commit dirty)
  perform_refused os o commit dirty x s' h =
      let s = perform_all os (open_store [] commit dirty) in
      Outcome-refused s s' (perform o s) x
        (perform-Outcome o s (perform_all-IsStore os commit dirty)) h

  -- Every run that `get_manifest` finds, after any calls of the operations on a store that was
  -- opened on an empty root, has an ID of 1 to 64 characters that has no slash and is neither "."
  -- nor "..", so that its directory lies directly under the root, and an error text of at most 2,000
  -- characters, if any.
  pub get_manifest_bounds :
      (os : List Operation) (commit : String) (dirty : Bool) (id : String) (m : RunManifest)
      (s' : RunStore)
      → get_manifest id (perform_all os (open_store [] commit dirty)) ≡ (ok m, s')
      → (1 ≤ count id) × (count id ≤ 64) × IsDirectChild id × IsShort m.error
  get_manifest_bounds os commit dirty id m s' h =
      let found =
        get_manifest-Found digest (perform_all os (open_store [] commit dirty)) s' id m
          (perform_all-IsStore os commit dirty) h in
      let (low, high, flat) = validate_id_bounds id found.run.safe in
      (low, high, flat, subst (λ (r : RunManifest). IsShort r.error) found.same found.run.short)
