-- ===== src/Registries/Events.antt =====
-- registries/event: `DatabaseEventRegistry` and `InMemoryCachedEventRegistry`. The loader and the
-- orchestrator take either as an `IEventRegistryRepository`.
pub mod Coherent
pub mod Pointer
mod Tests
use grants_stack_indexer_v.Prelude.{
  ℕ, ◌≡◌, refl, Bool, true, false, Option, none, some, List, [], ◌∷◌, ◌==◌, if◌then◌else◌,
}
use grants_stack_indexer_v.Prelude.Maps.{number_keys, map_get, map_set}
use grants_stack_indexer_v.Effects.{Error, Outcome, ok, err, Action}
use grants_stack_indexer_v.Changesets.{Entities, NewProcessedEvent}
use grants_stack_indexer_v.Repositories.{ProcessedEvent, EventRegistryRepository}

-- the map of the registry in memory
abbrev pub EventCache : Entities → Type 0
EventCache E = List (ℕ × ProcessedEvent E)

module _ {E : Entities} where
  -- one settled promise of `initialize`: a failure and a missing event leave the map alone
  pub keep_settled : Outcome (Option (ProcessedEvent E)) → EventCache E → EventCache E
  keep_settled (ok (some event)) cache = map_set event.chain_id event cache
  keep_settled (ok none) cache = cache
  keep_settled (err e) cache = cache

module _ {ℓ} {E : Entities} {S : Type ℓ} where
  -- `if (event) this.cache.set(chainId, event)`, and the event returned
  pub keep_found :
      ℕ
      → EventCache E
      → Outcome (Option (ProcessedEvent E)) × S
      → Outcome (Option (ProcessedEvent E)) × (EventCache E × S)
  keep_found chain_id cache (err e, s) = (err e, (cache, s))
  keep_found chain_id cache (ok none, s) = (ok none, (cache, s))
  keep_found chain_id cache (ok (some event), s) =
      (ok (some event), (map_set chain_id event cache, s))

  -- what follows the save in the registry behind: the copy is kept unless that threw
  pub keep_saved :
      ℕ
      → NewProcessedEvent E
      → EventCache E
      → Outcome (Unit {0}) × S
      → Outcome (Unit {0}) × (EventCache E × S)
  keep_saved chain_id event cache (err e, s) = (err e, (cache, s))
  keep_saved chain_id event cache (ok _, s) =
      (ok tt, (map_set chain_id (record { chain_id = chain_id; event = event }) cache, s))

module _ {ℓ} {E : Entities} {S Tx : Type ℓ} where
  -- `DatabaseEventRegistry`: it has no parameter for a connection and passes none on
  pub database_event_registry : EventRegistryRepository E S Tx → EventRegistryRepository E S Tx
  database_event_registry repository = record {
    get_last_processed_event = λ chain_id. repository.get_last_processed_event chain_id;
    save_last_processed_event =
        λ chain_id event tx. repository.save_last_processed_event chain_id event none;
  }

  module _ (registry : EventRegistryRepository E S Tx) where
    pub cached_get_last : ℕ → Action (EventCache E × S) (Option (ProcessedEvent E))
    cached_get_last chain_id (cache, s) = elim (map_get chain_id cache) [
      | some event ↦ (ok (some event), (cache, s))
      | none ↦ keep_found chain_id cache (registry.get_last_processed_event chain_id s)
    ]

    pub cached_save_last : ℕ → NewProcessedEvent E → Action (EventCache E × S) (Unit {0})
    cached_save_last chain_id event (cache, s) =
        keep_saved chain_id event cache (registry.save_last_processed_event chain_id event none s)

    -- `InMemoryCachedEventRegistry`
    pub cached_event_registry : EventRegistryRepository E (EventCache E × S) Tx
    cached_event_registry = record {
      get_last_processed_event = cached_get_last;
      save_last_processed_event = λ chain_id event tx. cached_save_last chain_id event;
    }

  -- `initialize`, with the reads one after the other in place of at the same time
  pub load_events : EventRegistryRepository E S Tx → List ℕ → EventCache E × S → EventCache E × S
  load_events registry [] (cache, s) = (cache, s)
  load_events registry (chain_id ∷ chain_ids) (cache, s) =
      let (event, s') = registry.get_last_processed_event chain_id s in
      load_events registry chain_ids (keep_settled event cache, s')
