-- ===== src/Orchestrator/Handling.antt =====
-- `handleEvent` of orchestrator.ts, and the operation that is retried for an event. The event is an object
-- that `enhanceStrategyId` changes in place, also for the attempts after: it is part of the world here.
pub mod Taken
pub mod Skips
use grants_stack_indexer_v.Prelude.{
  ℕ, String, Bool, true, false, ◌&&◌, ◌||◌, Option, none, some, List, [], ◌∷◌, ◌++◌, if◌then◌else◌,
}
use grants_stack_indexer_v.Effects.{
  Error, Outcome, ok, err, Action, pure, continue_with, ◌>>=◌, ◌>>◌,
}
use grants_stack_indexer_v.Changesets.{
  Entities, Changeset, NewProcessedEvent, insert_processed_event,
}
use grants_stack_indexer_v.DataLoader.{apply_changes}
use grants_stack_indexer_v.Registries.Strategies.{Strategy}
use grants_stack_indexer_v.Events.{AnyEvent, strategy, is_contract}
use grants_stack_indexer_v.Processors.{process_event, exists_handler, is_defined, text_or_empty}
use grants_stack_indexer_v.Orchestrator.{Dependencies, is_pool_created, requires_strategy_id}

-- the event at hand, and the rest of the world
abbrev pub Current {ℓ} : Type ℓ → Type ℓ → Type ℓ
Current P S = AnyEvent P × S

module _ {ℓ} {P S : Type ℓ} where
  -- an action that does not touch the event
  abbrev pub beside {κ} : {A : Type κ} → AnyEvent P → Outcome A × S → Outcome A × Current P S
  beside event (o, s) = (o, (event, s))

  -- `event.strategyId = strategyId`
  unfoldable pub set_strategy_id :
      AnyEvent P → Outcome String × S → Outcome (Unit {0}) × Current P S
  set_strategy_id event (ok id, s) = (ok tt, (record event { strategy_id = some id }, s))
  set_strategy_id event (err e, s) = (err e, (event, s))

module _ {ℓ} {E : Entities} {P S Tx : Type ℓ} (d : Dependencies E P S Tx) where
  unfoldable pub get_strategy_address : AnyEvent P → String
  get_strategy_address event =
      if is_pool_created event then d.pool_strategy event.params else event.src_address

  unfoldable pub id_or_read : String → Option Strategy → Action S String
  id_or_read address (some cached) = pure cached.id
  id_or_read address none = d.read_strategy_id address

  unfoldable pub get_or_fetch_strategy_id : String → Action S String
  get_or_fetch_strategy_id address =
      d.strategy_registry.get_strategy_id d.chain_id address >>= λ cached. id_or_read address cached

  unfoldable pub enhance_strategy_id : Action (Current P S) (Unit {0})
  enhance_strategy_id (event, s) =
      if requires_strategy_id event
      then set_strategy_id event (get_or_fetch_strategy_id (get_strategy_address event) s)
      else (ok tt, (event, s))

  -- `return this.eventsProcessor.processEvent(event)`
  unfoldable pub process : Action (Current P S) (Option (List (Changeset E)))
  process (event, s) =
      beside event ((process_event d.handlers event >>= λ changesets. pure (some changesets)) s)

  unfoldable pub save_strategy : Action (Current P S) (Unit {0})
  save_strategy (event, s) =
      let id = text_or_empty event.strategy_id in
      beside event (
        d.strategy_registry.save_strategy_id d.chain_id (d.pool_strategy event.params) id
          (exists_handler id) s)

  -- `handleEvent` after the first line; `none` is `undefined`, for an event that is skipped
  unfoldable pub handle_enhanced : Action (Current P S) (Option (List (Changeset E)))
  handle_enhanced (event, s) =
      if is_pool_created event
      then (save_strategy >> process) (event, s)
      else if is_contract event.contract_name strategy && is_defined event.strategy_id
      then (if exists_handler (text_or_empty event.strategy_id)
          then process (event, s)
          else (ok none, (event, s)))
      else process (event, s)

  unfoldable pub handle_event : Action (Current P S) (Option (List (Changeset E)))
  handle_event = enhance_strategy_id >> handle_enhanced

  -- `{ ...event, rawEvent: event }`
  unfoldable pub new_processed_event : AnyEvent P → NewProcessedEvent E
  new_processed_event event = record {
    block_number = event.block_number;
    block_timestamp = event.block_timestamp;
    log_index = event.log_index;
    raw_event = some (d.raw_event event);
  }

  -- the changesets that are applied: the event's, if it was not skipped, and the mark that it was processed
  unfoldable pub with_processed : AnyEvent P → Option (List (Changeset E)) → List (Changeset E)
  with_processed event none = insert_processed_event d.chain_id (new_processed_event event) ∷ []
  with_processed event (some changesets) =
      changesets ++ (insert_processed_event d.chain_id (new_processed_event event) ∷ [])

  unfoldable pub load : Option (List (Changeset E)) → Action (Current P S) (Unit {0})
  load changesets (event, s) =
      beside event
        (apply_changes d.repositories d.transaction_manager (with_processed event changesets) s)

  -- the argument of `retryHandler.execute`
  unfoldable pub operation : Action (Current P S) (Unit {0})
  operation = handle_event >>= load
