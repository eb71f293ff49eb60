-- ===== src/Registries/Events/Pointer.antt =====
-- The last processed event, saved by the loader through `DatabaseEventRegistry`: the registry passes no
-- connection on, so the save is not part of the loader's transaction.
use grants_stack_indexer_v.Prelude.{ℕ, ◌≡◌, none, List, [], ◌∷◌, ◌++◌}
use grants_stack_indexer_v.Effects.{Error, ok, err}
use grants_stack_indexer_v.Changesets.{
  Entities, Changeset, NewProcessedEvent, insert_processed_event,
}
use grants_stack_indexer_v.Repositories.{Repositories, EventRegistryRepository, TransactionManager}
use grants_stack_indexer_v.DataLoader.{
  apply, apply_in_order, run_or_refuse, invalid_types, apply_changes, handler,
}
use grants_stack_indexer_v.DataLoader.Order.{Applied, apply_in_order-Applied, invalid_types-Applied}
use grants_stack_indexer_v.DataLoader.Atomic.{IsTransactional}
use grants_stack_indexer_v.Registries.Events.{database_event_registry}

module _ {ℓ} {E : Entities} {S Tx : Type ℓ} (r : Repositories E S Tx)
    (repository : EventRegistryRepository E S Tx) where
  -- the repositories that processing.service.ts hands to the orchestrator, and that to the loader
  abbrev pub with_database_registry : Repositories E S Tx
  with_database_registry = record r { event_registry = database_event_registry repository }

  module _ {D : Type ℓ} (stored : S → D) (manager : TransactionManager S Tx)
      (laws : IsTransactional stored manager) where
    -- The changesets of an event succeed, its save too, and then the commit fails: `applyChanges` throws
    -- and the changes are rolled back, but the save, which was made outside of the transaction, stays.
    pub processed_event-outlives_rollback :
        (cs : List (Changeset E)) (k : ℕ) (event : NewProcessedEvent E) (e : Error) (tx : Tx)
        (s t u v w : S)
        → laws.begin s ≡ (ok tx, t)
        → Applied with_database_registry tx cs t u
        → repository.save_last_processed_event k event none u ≡ (ok tt, v)
        → laws.commit tx v ≡ (err e, w)
        → apply_changes with_database_registry manager
            (cs ++ (insert_processed_event k event ∷ []))
            s
          ≡ (err e, w)
    unfolding apply_changes run_or_refuse apply_in_order apply handler invalid_types
        database_event_registry
    processed_event-outlives_rollback cs k event e tx s t u v w began applied saved failed =
        rw
          (
            invalid_types-Applied with_database_registry (insert_processed_event k event ∷ [])
                applied,
            laws.runs,
            began,
            apply_in_order-Applied with_database_registry (insert_processed_event k event ∷ [])
                applied,
            saved,
          )
          failed
