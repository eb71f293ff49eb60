-- ===== src/IndexerClient/Tests.antt =====
-- The client on four events in three blocks, and each theorem at an input.
use grants_stack_indexer_v.Prelude.{ℕ, ◌*◌, ◌≡◌, refl, arith, false, none, some, List, [], ◌∷◌}
use grants_stack_indexer_v.Effects.{ok}
use grants_stack_indexer_v.Events.{AnyEvent, allo}
use grants_stack_indexer_v.IndexerClient.{
  Place, Condition, of_chain, of_addresses, after, up_to, GraphQlClient, conditions_of,
  count_of_block, in_milliseconds, get_events_after, get_total_events_in_block,
  without_partial_block, before_block, handled,
}
use grants_stack_indexer_v.IndexerClient.Blocks.{take, events_after}
use grants_stack_indexer_v.IndexerClient.WholeBlocks.{
  Whole, get_events_after-Whole, get_events_after_stuck,
}

abbrev event_at : ℕ → ℕ → AnyEvent (Unit {0})
event_at block log_index = record {
  block_number = block;
  block_timestamp = 60 * block;
  chain_id = 10;
  contract_name = allo;
  event_name = "PoolFunded";
  log_index = log_index;
  params = tt;
  src_address = "0xallo";
  transaction_fields = record { hash = "0xhash"; transaction_index = 0; from_address = none };
  strategy_id = none;
}

abbrev four_events : List (AnyEvent (Unit {0}))
four_events = event_at 4 1 ∷ event_at 5 1 ∷ event_at 5 2 ∷ event_at 6 1 ∷ []

abbrev place_of : List Condition → Place
place_of (c ∷ after place ∷ cs) = place
place_of _ = record { block_number = 0; log_index = 0 }

-- with the four events, or the first three
abbrev client_with : List (AnyEvent (Unit {0})) → GraphQlClient (Unit {0}) (Unit {0})
client_with stored = record {
  raw_events = λ query s.
      (ok (some (take query.limit (events_after (place_of query.conditions) stored))), s);
  count_in_block = λ chain_id block s. (ok (count_of_block block stored), s);
  block_range = λ chain_id s. (ok (some 240, some 360), s);
}

abbrev place : ℕ → ℕ → Place
place block log_index = record { block_number = block; log_index = log_index }

-- the second event of block 5 is beyond the limit, so the first is left out too
cut_block :
    get_events_after (client_with four_events) 10 (place 0 0) (some 2) false tt
    ≡ (ok (in_milliseconds (event_at 4 1) ∷ []), tt)
unfolding get_events_after handled get_total_events_in_block without_partial_block count_of_block
    before_block take events_after
cut_block = refl

both_ends :
    conditions_of (record {
      chain_id = 10;
      src_addresses = "0x1" ∷ [];
      from = some (place 1 0);
      to = some (place 9 3);
      event_name = none;
      limit = none;
    })
    ≡ of_chain 10 ∷ of_addresses ("0x1" ∷ []) ∷ after (place 1 0) ∷ up_to (place 9 3) ∷ []
unfolding conditions_of
both_ends = refl

get_events_after-Whole_example :
    Whole
      (place 0 0)
      four_events
      tt
      (get_events_after (client_with four_events) 10 (place 0 0) (some 2) false)
get_events_after-Whole_example =
    get_events_after-Whole (client_with four_events) 10 (place 0 0) (some 2) four_events tt
      (λ n. refl) (omega arith, (omega arith, (omega arith, (omega arith, tt)))) refl

abbrev three_events : List (AnyEvent (Unit {0}))
three_events = event_at 4 1 ∷ event_at 5 1 ∷ event_at 5 2 ∷ []

get_events_after_stuck_example :
    get_events_after (client_with three_events) 10 (place 5 1) none false tt ≡ (ok [], tt)
unfolding events_after count_of_block
get_events_after_stuck_example =
    get_events_after_stuck (client_with three_events) 10 (place 5 1) none three_events tt 5
      (λ n. refl) (omega arith, tt) (omega arith, tt) (omega arith) refl
