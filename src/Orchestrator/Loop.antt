-- ===== src/Orchestrator/Loop.antt =====
-- `run` of orchestrator.ts: one round of the loop, the catch block, and the loop.
pub mod Records
pub mod Order
pub mod Shutdown
use grants_stack_indexer_v.Prelude.{
  ℕ, zero, suc, String, Bool, true, false, Option, none, some, List, [], ◌∷◌, if◌then◌else◌,
}
use grants_stack_indexer_v.Effects.{
  Error, retriable, unsupported_strategy, invalid_event, unsupported_event, other_value, Outcome,
  ok, err, Action, pure, continue_with, ◌>>=◌, ◌>>◌,
}
use grants_stack_indexer_v.Queue.{Queue, push, pop, is_empty}
use grants_stack_indexer_v.Retry.{RetryStrategy, Surroundings, execute}
use grants_stack_indexer_v.Changesets.{Entities, NewProcessedEvent}
use grants_stack_indexer_v.Events.{AnyEvent}
use grants_stack_indexer_v.Orchestrator.{
  Dependencies, State, add_to_context, should_ignore_timestamps_updated_error, number_or_zero,
}
use grants_stack_indexer_v.Orchestrator.Handling.{Current, operation, new_processed_event}

module _ {ℓ} {E : Entities} {P S Tx : Type ℓ} (d : Dependencies E P S Tx) where
  -- `retryHandler` and the signal, beside the event at hand
  abbrev pub strategy_beside : RetryStrategy (Current P S)
  strategy_beside = record {
    should_retry = d.retry_strategy.should_retry;
    get_delay = λ n r (event, s).
        let (delay, s') = d.retry_strategy.get_delay n r s in (delay, (event, s'));
  }

  abbrev pub surroundings_beside : Surroundings (Current P S)
  surroundings_beside = record {
    aborted = λ (event, s). d.surroundings.aborted s;
    sleep = λ delay (event, s). (event, d.surroundings.sleep delay s);
  }

  unfoldable pub get_next_events_batch : Action S (List (AnyEvent P))
  get_next_events_batch =
      d.repositories.event_registry.get_last_processed_event d.chain_id >>= λ last.
      d.get_events_after d.chain_id (number_or_zero (λ e. e.block_number) last)
        (number_or_zero (λ e. e.log_index) last) d.fetch_limit true

  abbrev pub call_if_defined : Option (Action S (Unit {0})) → Action S (Unit {0})
  call_if_defined none = pure tt
  call_if_defined (some clear) = clear

  unfoldable pub bulk_fetch_metadata_and_prices : List (AnyEvent P) → Action S (Unit {0})
  bulk_fetch_metadata_and_prices [] = pure tt
  bulk_fetch_metadata_and_prices (event ∷ events) =
      call_if_defined d.clear_metadata_cache >> call_if_defined d.clear_pricing_cache >> λ s.
      (ok tt, d.fetch_settled (event ∷ events) s)

  unfoldable pub enqueue_events : List (AnyEvent P) → State P S → State P S
  enqueue_events events st = record {
    events_queue = push st.events_queue events;
    events_by_block_context = add_to_context [] events;
    world = st.world;
  }

  -- a batch that was fetched goes to the queue; an error leaves it alone
  unfoldable pub after_fetch :
      State P S → Outcome (List (AnyEvent P)) × S → Outcome (Unit {0}) × State P S
  after_fetch st (ok events, s) = (ok tt, enqueue_events events (record st { world = s }))
  after_fetch st (err e, s) = (err e, record st { world = s })

  unfoldable pub refill : Action (State P S) (Unit {0})
  refill st =
      if is_empty st.events_queue
      then after_fetch st (
          (get_next_events_batch >>= λ events. bulk_fetch_metadata_and_prices events >> pure events)
            st.world)
      else (ok tt, st)

  unfoldable pub notify_in : Error → Option (AnyEvent P) → State P S → State P S
  notify_in error event st = record st { world = d.notify error event st.world }

  -- the notifications of the catch block, by the class of the error
  unfoldable pub report : Error → Option (AnyEvent P) → State P S → State P S
  report unsupported_strategy event st = st
  report invalid_event event st = st
  report unsupported_event event st = st
  report (retriable r) event st = notify_in (retriable r) event st
  report other_value event st = notify_in other_value event st
  report error event st =
      if should_ignore_timestamps_updated_error st.events_by_block_context error event
      then st
      else notify_in error event st

  unfoldable pub save_event : Option (AnyEvent P) → Action S (Unit {0})
  save_event none = pure tt
  save_event (some event) =
      d.repositories.event_registry.save_last_processed_event d.chain_id
        (new_processed_event d event) none

  -- a failure of the save leaves `run`
  unfoldable pub after_save :
      Error
      → Option (AnyEvent P)
      → State P S
      → Outcome (Unit {0}) × S
      → Outcome (Unit {0}) × State P S
  after_save error event st (ok _, s) = (ok tt, report error event (record st { world = s }))
  after_save error event st (err e, s) = (err e, record st { world = s })

  -- the catch block
  unfoldable pub handle_error : Error → Option (AnyEvent P) → Action (State P S) (Unit {0})
  handle_error error event st = after_save error event st (save_event event st.world)

  unfoldable pub after_execute :
      State P S
      → Option (Outcome (Option (Unit {0})) × Current P S)
      → Option (Outcome (Unit {0}) × State P S)
  after_execute st none = none
  after_execute st (some (ok result, (event, s))) = some (ok tt, record st { world = s })
  after_execute st (some (err e, (event, s))) =
      some (handle_error e (some event) (record st { world = s }))

  -- from the event that was taken on; `fuel` is for the attempts
  unfoldable pub after_pop :
      ℕ → State P S → Option (AnyEvent P) → Option (Outcome (Unit {0}) × State P S)
  after_pop fuel st none =
      some (ok tt, record st { world = d.surroundings.sleep d.fetch_delay_in_ms st.world })
  after_pop fuel st (some event) =
      after_execute st
        (execute strategy_beside surroundings_beside (operation d) fuel (event, st.world))

  unfoldable pub after_refill :
      ℕ → Outcome (Unit {0}) × State P S → Option (Outcome (Unit {0}) × State P S)
  after_refill fuel (err e, st) = some (handle_error e none st)
  after_refill fuel (ok _, st) =
      after_pop fuel (record st { events_queue = (pop st.events_queue).1 }) (pop st.events_queue).0

  -- one round of `while (!signal.aborted)`
  unfoldable pub iteration : ℕ → State P S → Option (Outcome (Unit {0}) × State P S)
  iteration fuel st = after_refill fuel (refill st)

  -- at most `rounds` rounds; `none` if the loop is not over by then
  unfoldable pub run : ℕ → ℕ → State P S → Option (Outcome (Unit {0}) × State P S)
  run zero fuel st = none
  run (suc rounds) fuel st = elim (d.surroundings.aborted st.world) [
    | true ↦ some (ok tt, st)
    | false ↦ elim (iteration fuel st) [
      | none ↦ none
      | some (err e, st') ↦ some (err e, st')
      | some (ok _, st') ↦ run rounds fuel st'
    ]
  ]
