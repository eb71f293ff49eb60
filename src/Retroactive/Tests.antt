-- ===== src/Retroactive/Tests.antt =====
-- The retroactive processor on a small database, and each theorem at an input.
use grants_stack_indexer_v.Prelude.{
  ℕ, zero, suc, ◌-◌, ◌<◌, arith, ◌≡◌, refl, ap, String, false, if◌then◌else◌, ◌↔◌, none, some, List,
  [], ◌∷◌, ltb,
}
use grants_stack_indexer_v.Effects.{native_error, Outcome, ok, err}
use grants_stack_indexer_v.Queue.{Queue, new_queue, pop}
use grants_stack_indexer_v.Queue.Represents.{Represents, new_queue-Represents}
use grants_stack_indexer_v.Queue.Refine.{pop-Represents, is_empty_lem}
use grants_stack_indexer_v.DataLoader.Sample.{entities, World, start, tables, manager}
use grants_stack_indexer_v.Registries.Strategies.{Strategy}
use grants_stack_indexer_v.Events.{AnyEvent, strategy, equals}
use grants_stack_indexer_v.Processors.{Handler}
use grants_stack_indexer_v.Retroactive.{
  EventPointer, RetroactiveDependencies, StrategyProgress, find_new_handleable_strategies,
  mark_strategy_as_handled, finish_strategy, after_event_loop, process_from,
  process_retroactive_strategy, event_loop, try_block, after_enqueue, enqueue_events_if_empty,
  take_event, after_events_fetch,
}
use grants_stack_indexer_v.Retroactive.Handleable.{Listed, Found, find_new_handleable_iff}
use grants_stack_indexer_v.Retroactive.Ends.{Descends, no_event, further, event_loop-Ends}
use grants_stack_indexer_v.Prelude.Listed.{Listed as NumberListed, here as stands, there as later}
use grants_stack_indexer_v.Retroactive.Marked.{
  RegistryHandles, Done, process_retroactive_strategy-Done,
}
use grants_stack_indexer_v.Retroactive.Rounds.{
  Finished, waiting, event_loop-Finished, event_loop_stuck,
}

abbrev no_changes : Handler entities (Unit {0}) World
no_changes event s = (ok [], s)

abbrev unhandled : List Strategy
unhandled =
    record {
      address = "0x1";
      id = "0x103732A8e473467a510d4128ee11065262bdd978f0d9dad89ba68f2c56127e27";
      chain_id = 10;
      handled = false;
    }
    ∷ record { address = "0x2"; id = "0xdead"; chain_id = 10; handled = false }
    ∷ []

abbrev deps :
    Outcome (List (AnyEvent (Unit {0})))
    → RetroactiveDependencies entities (Unit {0}) World (Unit {0})
deps fetched = record {
  chain_id = 10;
  fetch_limit = 100;
  strategy_registry = record {
    get_strategy_id = λ c a s. (ok none, s);
    save_strategy_id = λ c a i h s. (ok tt, s);
    get_strategies = λ f s. (ok unhandled, s);
  };
  checkpoint_repository = record {
    get_checkpoint = λ c i s. (ok none, s);
    upsert_checkpoint = λ c i p s. (ok tt, s);
    delete_checkpoint = λ c i s. (ok tt, s);
  };
  repositories = tables;
  transaction_manager = manager;
  handlers = record {
    allo = record {
      pool_created = no_changes;
      pool_funded = no_changes;
      role_granted = no_changes;
      pool_metadata_updated = no_changes;
      role_revoked = no_changes;
    };
    registry = record {
      profile_created = no_changes;
      profile_metadata_updated = no_changes;
      profile_name_updated = no_changes;
      profile_owner_updated = no_changes;
      role_granted = no_changes;
      role_revoked = no_changes;
    };
    strategy = λ c. no_changes;
    on_attested = no_changes;
    profile_migrated = no_changes;
  };
  retry_strategy = record { should_retry = λ n. ltb n 3; get_delay = λ n r s. (200, s) };
  sleep = λ d s. s;
  fetch_events = λ c a f t l s. (fetched, s);
}

find_new_handleable_iff_example :
    (found : List (String × List String)) × (find_new_handleable_strategies (deps (ok [])) start
      ≡ (ok found, start))
    × ((id address : String) → Found id address found ↔ Listed id address unhandled)
find_new_handleable_iff_example = find_new_handleable_iff (deps (ok [])) unhandled start start refl

abbrev pointer : ℕ → ℕ → EventPointer
pointer b l = record { block_number = b; log_index = l }

event_loop_stuck_example :
    event_loop (deps (err (native_error "down"))) "0xa" ("0x1" ∷ []) (pointer 9 9) 50 4 (
      waiting
        (deps (err (native_error "down")))
        "0xa"
        ("0x1" ∷ [])
        (pointer 9 9)
        (new_queue 5)
        (pointer 0 0)
        start)
    ≡ none
event_loop_stuck_example =
    event_loop_stuck (deps (err (native_error "down"))) "0xa" ("0x1" ∷ []) (pointer 9 9)
      (pointer 0 0) (new_queue 5) (λ s. (native_error "down", refl)) (λ s. refl)
      (new_queue-Represents 5) 50 4 start

-- nothing is left to fetch, so the loop is over in the first round
abbrev nothing_left : StrategyProgress (Unit {0}) World
nothing_left = record { events = new_queue 5; current_pointer = pointer 4 2; world = start }

abbrev over : StrategyProgress (Unit {0}) World
over = record {
  events = (pop {A = AnyEvent (Unit {0})} (new_queue 5)).1;
  current_pointer = pointer 4 2;
  world = start;
}

loop_over :
    event_loop (deps (ok [])) "0xa" ("0x1" ∷ []) (pointer 9 9) 3 4 nothing_left ≡ some (ok tt, over)
unfolding event_loop try_block enqueue_events_if_empty after_events_fetch after_enqueue take_event
loop_over =
    rw
      (
        event_loop,
        is_empty_lem {A = AnyEvent (Unit {0})} (new_queue 5) [] (new_queue-Represents 5),
        (pop-Represents {A = AnyEvent (Unit {0})} (new_queue 5) [] (new_queue-Represents 5)).0,
      )
      refl

event_loop-Finished_example : Finished (deps (ok [])) "0xa" ("0x1" ∷ []) (pointer 9 9) (pointer 4 2)
event_loop-Finished_example =
    event_loop-Finished (deps (ok [])) "0xa" ("0x1" ∷ []) (pointer 9 9) 3 4 nothing_left over []
      (new_queue-Represents 5) loop_over

abbrev allocated_at : ℕ → AnyEvent (Unit {0})
allocated_at block = record {
  block_number = block;
  block_timestamp = 2;
  chain_id = 10;
  contract_name = strategy;
  event_name = "AllocatedWithToken";
  log_index = 1;
  params = tt;
  src_address = "0x1";
  transaction_fields = record { hash = "0x2"; transaction_index = 0; from_address = none };
  strategy_id = none;
}

-- an indexer with events in the blocks 1 and 2
unfoldable events_after : ℕ → List (AnyEvent (Unit {0}))
events_after zero = allocated_at 1 ∷ allocated_at 2 ∷ []
events_after (suc zero) = allocated_at 2 ∷ []
events_after (suc (suc n)) = []

unfoldable left_after : EventPointer → ℕ
left_after p = 2 - p.block_number

abbrev two_events : RetroactiveDependencies entities (Unit {0}) World (Unit {0})
two_events = record (deps (ok [])) {
  fetch_events = λ c a f t l s. (ok (events_after f.block_number), s);
}

events_after-Descends :
    (block log_index : ℕ) → Descends left_after (pointer block log_index) (events_after block)
unfolding events_after left_after
events_after-Descends zero l = further (omega arith) (further (omega arith) no_event)
events_after-Descends (suc zero) l = further (omega arith) no_event
events_after-Descends (suc (suc n)) l = no_event

room : left_after (pointer 0 0) < 4
unfolding left_after
room = omega arith

event_loop-Ends_example :
    (st : StrategyProgress (Unit {0}) World) × (event_loop two_events "0xa"
        ("0x1" ∷ [])
        (pointer 9 9)
        4
        4
        (record { events = new_queue 5; current_pointer = pointer 0 0; world = start })
      ≡ some (ok tt, st))
event_loop-Ends_example =
    event_loop-Ends two_events "0xa" ("0x1" ∷ []) (pointer 9 9) left_after 3 (λ n h. ground arith)
      (λ p s. refl)
      (λ p s. (events_after p.block_number, refl, events_after-Descends p.block_number p.log_index))
      4 _ [] (new_queue-Represents 5) no_event room

-- the database of handled strategies: a number for each address
abbrev number_of : String → ℕ
number_of address = if equals "0x1" address then 1 else 2

abbrev marking : RetroactiveDependencies entities (Unit {0}) World (Unit {0})
marking = record (deps (ok [])) {
  strategy_registry = record {
    get_strategy_id = λ c a s. (ok none, s);
    save_strategy_id = λ c a i h s. (ok tt, record s { stored = number_of a ∷ s.stored });
    get_strategies = λ f s. (ok unhandled, s);
  };
}

abbrev IsStored : String → World → Type 0
IsStored address s = NumberListed (number_of address) s.stored

marking-RegistryHandles : RegistryHandles marking "0xa" IsStored
marking-RegistryHandles = record {
  handles = λ address s e. stands;
  save_keeps = λ address other s h. later h;
  delete_keeps = λ other s h. h;
}

marking_over :
    (q : Queue (AnyEvent (Unit {0})))
    → Represents q []
    → event_loop marking "0xa"
        ("0x1" ∷ [])
        (pointer 9 9)
        3
        4
        (waiting marking "0xa" ("0x1" ∷ []) (pointer 9 9) q (pointer 0 0) start)
      ≡ some (ok tt, waiting marking "0xa" ("0x1" ∷ []) (pointer 9 9) (pop q).1 (pointer 0 0) start)
unfolding event_loop try_block enqueue_events_if_empty after_events_fetch after_enqueue take_event
marking_over q empty = rw (event_loop, is_empty_lem q [] empty, (pop-Represents q [] empty).0) refl

abbrev one_marked : World
one_marked = record start { stored = 1 ∷ [] }

marked_at_once :
    process_retroactive_strategy marking "0xa" ("0x1" ∷ []) (pointer 9 9) 3 4 start
    ≡ some (ok tt, one_marked)
unfolding process_retroactive_strategy process_from after_event_loop finish_strategy
    mark_strategy_as_handled
marked_at_once =
    ap (after_event_loop marking "0xa" ("0x1" ∷ []))
      (marking_over (new_queue 5000) (new_queue-Represents 5000))

process_retroactive_strategy-Done_example :
    Done marking "0xa" IsStored marking-RegistryHandles
      ("0x1" ∷ [])
      (pointer 9 9)
      3
      4
      start
      one_marked
process_retroactive_strategy-Done_example =
    process_retroactive_strategy-Done marking "0xa" IsStored marking-RegistryHandles ("0x1" ∷ [])
      (pointer 9 9) 3 4 start one_marked marked_at_once
