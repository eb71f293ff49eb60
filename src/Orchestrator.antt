-- ===== src/Orchestrator.antt =====
-- packages/data-flow/src/orchestrator.ts: one chain's loop over its events. The state is the queue, the
-- events of the last batch by block, and the world. The counts of events, which are only logged, and the
-- logs are left out.
pub mod Handling
pub mod Ignored
pub mod Loop
mod Tests
use grants_stack_indexer_v.Prelude.{
  ℕ, zero, suc, String, Bool, true, false, ◌&&◌, ◌||◌, Option, none, some, List, [], ◌∷◌, ◌++◌, ltb,
  if◌then◌else◌,
}
use grants_stack_indexer_v.Prelude.Maps.{number_keys, map_get, map_set}
use grants_stack_indexer_v.Effects.{
  Error, retriable, unsupported_strategy, invalid_event, unsupported_event, round_not_found,
  round_not_found_for_id, other_value, Outcome, ok, err, Action, pure, continue_with, ◌>>=◌, ◌>>◌,
}
use grants_stack_indexer_v.Queue.{Queue}
use grants_stack_indexer_v.Retry.{RetryStrategy, Surroundings}
use grants_stack_indexer_v.Changesets.{
  Entities, Changeset, NewProcessedEvent, insert_processed_event,
}
use grants_stack_indexer_v.Repositories.{
  EventRegistryRepository, ProcessedEvent, Repositories, TransactionManager,
}
use grants_stack_indexer_v.DataLoader.{apply_changes}
use grants_stack_indexer_v.Registries.Strategies.{Strategy, StrategyRegistry}
use grants_stack_indexer_v.Events.{AnyEvent, allo, strategy, is_contract, is_event_of, equals}
use grants_stack_indexer_v.Processors.{
  Handlers, process_event, exists_handler, is_defined, text_or_empty,
}

-- the constructor's arguments, and what the orchestrator calls
pub record Dependencies {ℓ} (E : Entities) (P S Tx : Type ℓ) : Type ℓ where
  pub chain_id : ℕ
  pub fetch_limit : ℕ
  pub fetch_delay_in_ms : ℕ
  pub strategy_registry : StrategyRegistry S
  -- those of the data loader; its registry of events is also the orchestrator's
  pub repositories : Repositories E S Tx
  pub transaction_manager : TransactionManager S Tx
  pub handlers : Handlers E P S
  pub retry_strategy : RetryStrategy S
  -- the signal, and waiting
  pub surroundings : Surroundings S
  -- `evmProvider.readContract(address, iStrategyAbi, "getStrategyId")`
  pub read_strategy_id : (address : String) → Action S String
  -- `indexerClient.getEventsAfterBlockNumberAndLogIndex`
  pub get_events_after :
      (chain_id block_number log_index limit : ℕ) (allow_partial_last_block : Bool)
      → Action S (List (AnyEvent P))
  -- the optional `clearCache` of the two providers, and the two bulk fetches, whose results are dropped
  -- and whose failures are settled
  pub clear_metadata_cache : Option (Action S (Unit {0}))
  pub clear_pricing_cache : Option (Action S (Unit {0}))
  pub fetch_settled : List (AnyEvent P) → S → S
  -- `notifier.send`, which is not awaited
  pub notify : Error → Option (AnyEvent P) → S → S
  -- `event.params.strategy` of `PoolCreated`, and an event as a stored value
  pub pool_strategy : P → String
  pub raw_event : AnyEvent P → E.RawEvent

-- `Map<number, AnyIndexerFetchedEvent[]>`
abbrev pub Context {ℓ} : Type ℓ → Type ℓ
Context P = List (ℕ × List (AnyEvent P))

pub record State {ℓ} (P S : Type ℓ) : Type ℓ where
  pub events_queue : Queue (AnyEvent P)
  pub events_by_block_context : Context P
  pub world : S

abbrev pub can_ignore_error_class : Error → Bool
can_ignore_error_class round_not_found = true
can_ignore_error_class round_not_found_for_id = true
can_ignore_error_class _ = false

abbrev pub can_ignore_event_name : String → Bool
can_ignore_event_name name =
    equals "TimestampsUpdated" name || equals "TimestampsUpdatedWithRegistrationAndAllocation" name

module _ {ℓ} {P : Type ℓ} where
  -- `isPoolCreated`, `requiresStrategyId`
  abbrev pub is_pool_created : AnyEvent P → Bool
  is_pool_created event = is_event_of allo event && equals "PoolCreated" event.event_name

  abbrev pub requires_strategy_id : AnyEvent P → Bool
  requires_strategy_id event = is_pool_created event || is_event_of strategy event

  -- the list of a block, which is made if there is none, with the event pushed
  abbrev pub append_to : AnyEvent P → Option (List (AnyEvent P)) → List (AnyEvent P)
  append_to event none = event ∷ []
  append_to event (some events) = events ++ (event ∷ [])

  -- the loop of `enqueueEvents`
  unfoldable pub add_to_context : Context P → List (AnyEvent P) → Context P
  add_to_context context [] = context
  add_to_context context (event ∷ events) =
      add_to_context
        (map_set event.block_number (append_to event (map_get event.block_number context)) context)
        events

  -- `.filter((e) => e.logIndex > event.logIndex).some((e) => e.eventName === "PoolCreated")`
  unfoldable pub pool_created_later : ℕ → List (AnyEvent P) → Bool
  pool_created_later log_index [] = false
  pool_created_later log_index (e ∷ events) =
      (ltb log_index e.log_index && equals "PoolCreated" e.event_name)
      || pool_created_later log_index events

  abbrev pub later_in : ℕ → Option (List (AnyEvent P)) → Bool
  later_in log_index none = false
  later_in log_index (some events) = pool_created_later log_index events

  -- `shouldIgnoreTimestampsUpdatedError`; without an event there is no name
  unfoldable pub should_ignore_timestamps_updated_error :
      Context P → Error → Option (AnyEvent P) → Bool
  should_ignore_timestamps_updated_error context error none = false
  should_ignore_timestamps_updated_error context error (some event) =
      can_ignore_error_class error
      && can_ignore_event_name event.event_name
      && later_in event.log_index (map_get event.block_number context)

-- `lastProcessedEvent?.blockNumber ?? 0`, and the same for the log index
abbrev pub number_or_zero :
    {E : Entities} → (NewProcessedEvent E → ℕ) → Option (ProcessedEvent E) → ℕ
number_or_zero field none = 0
number_or_zero field (some processed) = field processed.event
