-- ===== src/Orchestrator/Loop/Shutdown.antt =====
-- `run` of orchestrator.ts when the signal fires while an event is taken.
use native.Mathlib.Nat.{zero-add}
use grants_stack_indexer_v.Prelude.{ℕ, suc, ◌≡◌, sym, ◌∙◌, ap, true, some}
use grants_stack_indexer_v.Changesets.{Entities}
use grants_stack_indexer_v.Retry.{operation_aborted}
use grants_stack_indexer_v.Retry.Exits.{not_yet, execute_aborted}
use grants_stack_indexer_v.Events.{AnyEvent}
use grants_stack_indexer_v.Orchestrator.{Dependencies, State}
use grants_stack_indexer_v.Orchestrator.Handling.{operation}
use grants_stack_indexer_v.Orchestrator.Loop.{
  strategy_beside, surroundings_beside, after_execute, after_pop, handle_error,
}

module _ {ℓ} {E : Entities} {P S Tx : Type ℓ} (d : Dependencies E P S Tx) where
  -- If the signal has fired when an event is taken, which is so when it fires during the fetch, then the
  -- event goes to the catch block, which records it as processed, without an attempt to handle it.
  pub after_pop_aborted :
      (fuel : ℕ) (st : State P S) (taken : AnyEvent P)
      → d.surroundings.aborted st.world ≡ true
      → after_pop d (suc fuel) st (some taken)
        ≡ some (handle_error d operation_aborted (some taken) st)
  unfolding after_pop after_execute
  after_pop_aborted fuel st taken fired =
      ap (λ n. after_pop d n st (some taken)) (sym (zero-add (suc fuel)))
      ∙ ap (after_execute d st) (
          execute_aborted (strategy_beside d) (surroundings_beside d) (operation d) not_yet fuel
            fired)
