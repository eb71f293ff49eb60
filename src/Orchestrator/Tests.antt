-- ===== src/Orchestrator/Tests.antt =====
-- The orchestrator on a small database, and each theorem at an input.
use grants_stack_indexer_v.Prelude.{
  ℕ, zero, suc, ◌≡◌, refl, sym, ap, ◌∙◌, String, Bool, true, false, ◌↔◌, Option, none, some, List,
  [], ◌∷◌, ltb,
}
use grants_stack_indexer_v.Prelude.Maps.{number_keys, text_keys, map_get}
use grants_stack_indexer_v.Effects.{round_not_found, Outcome, ok}
use grants_stack_indexer_v.Queue.{new_queue, push, pop}
use grants_stack_indexer_v.Queue.Represents.{Represents, new_queue-Represents}
use grants_stack_indexer_v.Queue.Refine.{push-Represents}
use grants_stack_indexer_v.Retry.{operation_aborted, execute, retry_loop, after_attempt, after_loop}
use grants_stack_indexer_v.Changesets.{
  NewProcessedEvent, insert_processed_event, project_changeset, insert_project,
}
use grants_stack_indexer_v.Repositories.{ProcessedEvent}
use grants_stack_indexer_v.DataLoader.{
  apply_changes, run_or_refuse, invalid_types, handler, apply_in_order, apply,
}
use grants_stack_indexer_v.DataLoader.Sample.{
  entities, World, start, tables, manager, laws, commit_rows,
}
use grants_stack_indexer_v.Events.{
  AnyEvent, ContractName, allo, strategy, includes, strategy_events, to_lower_case,
}
use grants_stack_indexer_v.Processors.{Handler, exists_handler}
use grants_stack_indexer_v.Orchestrator.{
  Dependencies, State, add_to_context, can_ignore_error_class, can_ignore_event_name,
  should_ignore_timestamps_updated_error,
}
use grants_stack_indexer_v.Orchestrator.Handling.{
  beside, get_or_fetch_strategy_id, id_or_read, new_processed_event, operation, handle_event,
  enhance_strategy_id, handle_enhanced, set_strategy_id, get_strategy_address, load, with_processed,
}
use grants_stack_indexer_v.Orchestrator.Handling.Taken.{with_id}
use grants_stack_indexer_v.Orchestrator.Handling.Skips.{operation_skips}
use grants_stack_indexer_v.Orchestrator.Ignored.{PoolCreatedAfter, should_ignore_iff}
use grants_stack_indexer_v.Orchestrator.Loop.{iteration, after_pop, handle_error, after_execute}
use grants_stack_indexer_v.Orchestrator.Loop.Records.{IsRecording, Recorded}
use grants_stack_indexer_v.Orchestrator.Loop.Order.{no_fetch, iteration-Recorded}
use grants_stack_indexer_v.Orchestrator.Loop.Shutdown.{after_pop_aborted}

-- every handler asks for a project to be stored
abbrev storing : Handler entities (Unit {0}) World
storing event s = (ok (project_changeset (insert_project 7) ∷ []), s)

abbrev deps : Bool → Dependencies entities (Unit {0}) World (Unit {0})
deps fired = record {
  chain_id = 10;
  fetch_limit = 100;
  fetch_delay_in_ms = 1000;
  strategy_registry = record {
    get_strategy_id = λ c a s. (ok none, s);
    save_strategy_id = λ c a i h s. (ok tt, s);
    get_strategies = λ f s. (ok [], s);
  };
  repositories = tables;
  transaction_manager = manager;
  handlers = record {
    allo = record {
      pool_created = storing;
      pool_funded = storing;
      role_granted = storing;
      pool_metadata_updated = storing;
      role_revoked = storing;
    };
    registry = record {
      profile_created = storing;
      profile_metadata_updated = storing;
      profile_name_updated = storing;
      profile_owner_updated = storing;
      role_granted = storing;
      role_revoked = storing;
    };
    strategy = λ c. storing;
    on_attested = storing;
    profile_migrated = storing;
  };
  retry_strategy = record { should_retry = λ n. ltb n 3; get_delay = λ n r s. (200, s) };
  surroundings = record { aborted = λ s. fired; sleep = λ d s. s };
  read_strategy_id = λ a s. (ok "0xdead", s);
  get_events_after = λ c b l n p s. (ok [], s);
  clear_metadata_cache = none;
  clear_pricing_cache = none;
  fetch_settled = λ es s. s;
  notify = λ e ev s. s;
  pool_strategy = λ p. "0x5";
  raw_event = λ e. e.log_index;
}

abbrev event_at : ContractName → String → ℕ → ℕ → AnyEvent (Unit {0})
event_at contract name block log_index = record {
  block_number = block;
  block_timestamp = 2;
  chain_id = 10;
  contract_name = contract;
  event_name = name;
  log_index = log_index;
  params = tt;
  src_address = "0x1";
  transaction_fields = record { hash = "0x2"; transaction_index = 0; from_address = none };
  strategy_id = none;
}

abbrev direct_allocated : AnyEvent (Unit {0})
direct_allocated = event_at strategy "DirectAllocated" 5 1

name_known : includes strategy_events "DirectAllocated" ≡ true
unfolding includes
name_known = refl

id_read : get_or_fetch_strategy_id (deps false) "0x1" start ≡ (ok "0xdead", start)
unfolding get_or_fetch_strategy_id id_or_read
id_read = refl

id_unhandled : exists_handler "0xdead" ≡ false
unfolding exists_handler to_lower_case map_get
id_unhandled = refl

operation_skips_example :
    operation (deps false) (direct_allocated, start)
    ≡ beside (with_id (some "0xdead") direct_allocated) (
        apply_changes tables manager
          (insert_processed_event 10
              (new_processed_event (deps false) (with_id (some "0xdead") direct_allocated))
            ∷ [])
          start)
operation_skips_example =
    operation_skips (deps false) direct_allocated "0xdead" start start refl name_known id_read
      id_unhandled

abbrev created : AnyEvent (Unit {0})
created = event_at allo "PoolCreated" 5 4

abbrev timestamps : AnyEvent (Unit {0})
timestamps = event_at strategy "TimestampsUpdated" 5 2

should_ignore_iff_example :
    (should_ignore_timestamps_updated_error
        (add_to_context [] (timestamps ∷ created ∷ []))
        round_not_found
        (some timestamps)
      ≡ true)
    ↔ ((can_ignore_error_class round_not_found ≡ true)
        × (can_ignore_event_name "TimestampsUpdated" ≡ true)
        × PoolCreatedAfter timestamps (timestamps ∷ created ∷ []))
should_ignore_iff_example = should_ignore_iff (timestamps ∷ created ∷ []) round_not_found timestamps

abbrev pointer_event : Option (ProcessedEvent entities) → Option (NewProcessedEvent entities)
pointer_event none = none
pointer_event (some p) = some p.event

abbrev last : World → Option (NewProcessedEvent entities)
last s = pointer_event s.pointer

stored_rows : World → List ℕ
stored_rows s = s.stored

commit_rows-last : (rows : List ℕ) (s t : World) → commit_rows rows s ≡ (ok tt, t) → last t ≡ last s
commit_rows-last [] s t h = sym (ap (λ (o : Outcome (Unit {0}) × World). last o.1) h)
commit_rows-last (zero ∷ rows) s t h = sym (ap (λ (o : Outcome (Unit {0}) × World). last o.1) h)
commit_rows-last (suc zero ∷ rows) s t h = cc (h)
commit_rows-last (suc (suc n) ∷ rows) s t h =
    sym (ap (λ (o : Outcome (Unit {0}) × World). last o.1) h)

abbrev recording : IsRecording (deps false) (λ (s : World). s.stored) last
recording = record {
  transactions = laws;
  saves = λ event tx s h. refl;
  commits = λ tx s t h. commit_rows-last s.pending s t h;
  notifies = λ e ev s. refl;
}

abbrev two_events : List (AnyEvent (Unit {0}))
two_events = timestamps ∷ created ∷ []

abbrev loaded : State (Unit {0}) World
loaded = record {
  events_queue = push (new_queue 2) two_events;
  events_by_block_context = add_to_context [] two_events;
  world = start;
}

loaded-Represents : Represents (push (new_queue 2) two_events) two_events
loaded-Represents = push-Represents (new_queue 2) [] two_events (new_queue-Represents 2)

after_pop_aborted_example :
    after_pop (deps true) (suc 3) loaded (some timestamps)
    ≡ some (handle_error (deps true) operation_aborted (some timestamps) loaded)
after_pop_aborted_example = after_pop_aborted (deps true) 3 loaded timestamps refl

-- the first round skips the event of the strategy that has no handler, and records it
abbrev after_first : State (Unit {0}) World
after_first = record {
  events_queue = (pop (push (new_queue 2) two_events)).1;
  events_by_block_context = add_to_context [] two_events;
  world = record {
    stored = [];
    pending = [];
    pointer = some (record {
      chain_id = 10;
      event = new_processed_event (deps false) (with_id (some "0xdead") timestamps);
    });
  };
}

first_round : iteration (deps false) 4 loaded ≡ some (ok tt, after_first)
unfolding after_pop after_execute execute retry_loop after_attempt after_loop operation handle_event
    enhance_strategy_id handle_enhanced set_strategy_id get_strategy_address
    get_or_fetch_strategy_id id_or_read load with_processed includes exists_handler to_lower_case
    map_get apply_changes run_or_refuse invalid_types handler apply_in_order apply
first_round = no_fetch (deps false) 4 loaded timestamps (created ∷ []) loaded-Represents ∙ refl

iteration-Recorded_example :
    Recorded (deps false) (λ (s : World). s.stored) last recording timestamps after_first.world
    × Represents (pop (push (new_queue 2) two_events)).1 (created ∷ [])
iteration-Recorded_example =
    iteration-Recorded (deps false) (λ (s : World). s.stored) last recording 4 loaded after_first
      timestamps (created ∷ []) loaded-Represents first_round
