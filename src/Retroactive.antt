-- ===== src/Retroactive.antt =====
-- packages/data-flow/src/retroactiveProcessor.ts: the events of strategies that have become handleable,
-- with a checkpoint for each strategy: which strategies these are, and what is done for one of them. How the
-- strategies run at the same time is left out.
pub mod Handleable
pub mod Rounds
pub mod Ends
pub mod Marked
mod Tests
use grants_stack_indexer_v.Prelude.{
  ℕ, zero, suc, String, Bool, true, false, ◌&&◌, ◌||◌, Option, none, some, List, [], ◌∷◌, ◌++◌, ltb,
  leb, ◌==◌, if◌then◌else◌,
}
use grants_stack_indexer_v.Prelude.Maps.{text_keys, map_get, map_set}
use grants_stack_indexer_v.Effects.{
  Error, Outcome, ok, err, Action, pure, throw, continue_with, ◌>>=◌, ◌>>◌,
}
use grants_stack_indexer_v.Queue.{Queue, new_queue, push, pop, is_empty}
use grants_stack_indexer_v.Retry.{RetryStrategy, Surroundings, execute}
use grants_stack_indexer_v.Changesets.{Entities, Changeset}
use grants_stack_indexer_v.Repositories.{Repositories, TransactionManager}
use grants_stack_indexer_v.DataLoader.{apply_changes}
use grants_stack_indexer_v.Registries.Strategies.{Strategy, StrategyRegistry, Filters}
use grants_stack_indexer_v.Events.{AnyEvent, equals}
use grants_stack_indexer_v.Processors.{Handlers, process_event, exists_handler}

pub record EventPointer : Type 0 where
  pub block_number : ℕ
  pub log_index : ℕ

-- `hasReachedLastEvent`
unfoldable pub has_reached_last_event : EventPointer → EventPointer → Bool
has_reached_last_event current last =
    ltb last.block_number current.block_number
    || ((current.block_number == last.block_number) && leb last.log_index current.log_index)

-- `IStrategyProcessingCheckpointRepository`
pub record CheckpointRepository {ℓ} (S : Type ℓ) : Type ℓ where
  pub get_checkpoint : (chain_id : ℕ) (strategy_id : String) → Action S (Option EventPointer)
  pub upsert_checkpoint : (chain_id : ℕ) (strategy_id : String) → EventPointer → Action S (Unit {0})
  pub delete_checkpoint : (chain_id : ℕ) (strategy_id : String) → Action S (Unit {0})

-- the constructor's arguments, and what the processor calls
pub record RetroactiveDependencies {ℓ} (E : Entities) (P S Tx : Type ℓ) : Type ℓ where
  pub chain_id : ℕ
  pub fetch_limit : ℕ
  pub strategy_registry : StrategyRegistry S
  pub checkpoint_repository : CheckpointRepository S
  pub repositories : Repositories E S Tx
  pub transaction_manager : TransactionManager S Tx
  pub handlers : Handlers E P S
  pub retry_strategy : RetryStrategy S
  pub sleep : ℕ → S → S
  -- `eventsFetcher.fetchEvents`
  pub fetch_events :
      (chain_id : ℕ) (src_addresses : List String) (from to : EventPointer) (limit : ℕ)
      → Action S (List (AnyEvent P))

-- `Set<Address>`, in the order of insertion
unfoldable pub set_has : String → List String → Bool
set_has a [] = false
set_has a (b ∷ set) = equals b a || set_has a set

unfoldable pub set_add : String → List String → List String
set_add a set = if set_has a set then set else set ++ (a ∷ [])

abbrev pub or_empty_set : Option (List String) → List String
or_empty_set none = []
or_empty_set (some set) = set

-- the loop of `findNewHandleableStrategies`, over `Map<Hex, Set<Address>>`
unfoldable pub add_handleable :
    List (String × List String) → List Strategy → List (String × List String)
add_handleable found [] = found
add_handleable found (s ∷ strategies) =
    add_handleable
      (if exists_handler s.id
        then map_set s.id (set_add s.address (or_empty_set (map_get s.id found))) found
        else found)
      strategies

-- the local variables of `processRetroactiveStrategy`, and the world
pub record StrategyProgress {ℓ} (P S : Type ℓ) : Type ℓ where
  pub events : Queue (AnyEvent P)
  pub current_pointer : EventPointer
  pub world : S

-- how the `try` block is left
pub data Exit : Type 0 where
  broke went_on : Exit

abbrev pub pointer_of {ℓ} : {P : Type ℓ} → AnyEvent P → EventPointer
pointer_of event = record { block_number = event.block_number; log_index = event.log_index }

abbrev pub start_pointer : Option EventPointer → EventPointer
start_pointer none = record { block_number = 0; log_index = 0 }
start_pointer (some checkpoint) = checkpoint

module _ {ℓ} {E : Entities} {P S Tx : Type ℓ} (d : RetroactiveDependencies E P S Tx) where
  unfoldable pub find_new_handleable_strategies : Action S (List (String × List String))
  find_new_handleable_strategies =
      d.strategy_registry.get_strategies
        (record { handled = some false; chain_id = some d.chain_id })
      >>= λ unhandled. pure (add_handleable [] unhandled)

  -- the argument of `retryHandler.execute`; there is no signal
  unfoldable pub handle_and_load : AnyEvent P → Action S (Unit {0})
  handle_and_load event = process_event d.handlers event >>= λ changesets.
      apply_changes d.repositories d.transaction_manager changesets

  abbrev pub no_signal : Surroundings S
  no_signal = record { aborted = λ s. false; sleep = d.sleep }

  -- the end of the `try` block: an error is only logged
  abbrev pub after_retries :
      StrategyProgress P S
      → Option (Outcome (Option (Unit {0})) × S)
      → Option (Exit × StrategyProgress P S)
  after_retries st none = none
  after_retries st (some (outcome, s)) = some (went_on, record st { world = s })

  module _ (strategy_id : String) (addresses : List String) (last : EventPointer) where
    unfoldable pub after_events_fetch :
        StrategyProgress P S
        → Outcome (List (AnyEvent P)) × S
        → Outcome (Unit {0}) × StrategyProgress P S
    after_events_fetch st (ok [], s) = (ok tt, record st { world = s })
    after_events_fetch st (ok (event ∷ events), s) =
        (ok tt, record st { events = push st.events (event ∷ events); world = s })
    after_events_fetch st (err e, s) = (err e, record st { world = s })

    unfoldable pub enqueue_events_if_empty : Action (StrategyProgress P S) (Unit {0})
    enqueue_events_if_empty st =
        if is_empty st.events
        then after_events_fetch st
            (d.fetch_events d.chain_id addresses st.current_pointer last d.fetch_limit st.world)
        else (ok tt, st)

    unfoldable pub process_if_before :
        ℕ → StrategyProgress P S → AnyEvent P → Option (Exit × StrategyProgress P S)
    process_if_before fuel st event =
        if has_reached_last_event (pointer_of event) last
        then some (broke, st)
        else after_retries st (
            execute d.retry_strategy no_signal
              (handle_and_load (record event { strategy_id = some strategy_id })) fuel st.world)

    unfoldable pub take_event :
        ℕ → StrategyProgress P S → Option (AnyEvent P) → Option (Exit × StrategyProgress P S)
    take_event fuel st none = some (broke, st)
    take_event fuel st (some event) =
        process_if_before fuel (record st { current_pointer = pointer_of event }) event

    unfoldable pub after_enqueue :
        ℕ → Outcome (Unit {0}) × StrategyProgress P S → Option (Exit × StrategyProgress P S)
    after_enqueue fuel (err e, st) = some (went_on, st)
    after_enqueue fuel (ok _, st) =
        take_event fuel (record st { events = (pop st.events).1 }) (pop st.events).0

    unfoldable pub try_block : ℕ → StrategyProgress P S → Option (Exit × StrategyProgress P S)
    try_block fuel st = after_enqueue fuel (enqueue_events_if_empty st)

    unfoldable pub update_checkpoint : Action (StrategyProgress P S) (Unit {0})
    update_checkpoint st =
        let (o, s) =
          d.checkpoint_repository.upsert_checkpoint d.chain_id strategy_id st.current_pointer
            st.world in
        (o, record st { world = s })

    -- `while (true)`, at most `rounds` rounds
    unfoldable pub event_loop :
        ℕ → ℕ → StrategyProgress P S → Option (Outcome (Unit {0}) × StrategyProgress P S)
    event_loop zero fuel st = none
    event_loop (suc rounds) fuel st = elim (try_block fuel st) [
      | none ↦ none
      | some (broke, st') ↦ some (ok tt, st')
      | some (went_on, st') ↦
          let (saved, st'') = update_checkpoint st' in
          elim saved [ err e ↦ some (err e, st'') | ok _ ↦ event_loop rounds fuel st'' ]
    ]

  -- `markStrategyAsHandled`: all the addresses are saved, and the first failure is thrown
  unfoldable pub mark_strategy_as_handled : String → List String → Action S (Unit {0})
  mark_strategy_as_handled strategy_id [] s = (ok tt, s)
  mark_strategy_as_handled strategy_id (address ∷ addresses) s =
      let (saved, t) = d.strategy_registry.save_strategy_id d.chain_id address strategy_id true s in
      let (others, u) = mark_strategy_as_handled strategy_id addresses t in
      elim saved [ ok _ ↦ (others, u) | err e ↦ (err e, u) ]

  -- what follows the loop
  unfoldable pub finish_strategy : String → List String → Action S (Unit {0})
  finish_strategy strategy_id addresses =
      mark_strategy_as_handled strategy_id addresses
      >> d.checkpoint_repository.delete_checkpoint d.chain_id strategy_id

  unfoldable pub after_event_loop :
      String
      → List String
      → Option (Outcome (Unit {0}) × StrategyProgress P S)
      → Option (Outcome (Unit {0}) × S)
  after_event_loop strategy_id addresses none = none
  after_event_loop strategy_id addresses (some (err e, st)) = some (err e, st.world)
  after_event_loop strategy_id addresses (some (ok _, st)) =
      some (finish_strategy strategy_id addresses st.world)

  unfoldable pub process_from :
      String
      → List String
      → EventPointer
      → ℕ
      → ℕ
      → Outcome (Option EventPointer) × S
      → Option (Outcome (Unit {0}) × S)
  process_from strategy_id addresses last rounds fuel (err e, s) = some (err e, s)
  process_from strategy_id addresses last rounds fuel (ok checkpoint, s) =
      after_event_loop strategy_id addresses (
        event_loop strategy_id addresses last rounds fuel (record {
          events = new_queue 5000;
          current_pointer = start_pointer checkpoint;
          world = s;
        }))

  unfoldable pub process_retroactive_strategy :
      String → List String → EventPointer → ℕ → ℕ → S → Option (Outcome (Unit {0}) × S)
  process_retroactive_strategy strategy_id addresses last rounds fuel s =
      process_from strategy_id addresses last rounds fuel
        (d.checkpoint_repository.get_checkpoint d.chain_id strategy_id s)
