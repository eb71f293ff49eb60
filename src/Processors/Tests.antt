-- ===== src/Processors/Tests.antt =====
-- Runs of the dispatch, and each theorem at an input.
use grants_stack_indexer_v.Prelude.{
  ℕ, ◌+◌, ◌≡◌, refl, String, true, false, ◌⊎◌, Option, none, some, [],
}
use grants_stack_indexer_v.Prelude.Maps.{text_keys, map_get}
use grants_stack_indexer_v.Effects.{ok, throw, unsupported_strategy}
use grants_stack_indexer_v.DataLoader.Sample.{entities}
use grants_stack_indexer_v.Events.{AnyEvent, ContractName, allo, strategy, includes, to_lower_case}
use grants_stack_indexer_v.Processors.{
  Handler, Handlers, exists_handler, process_event, process_strategy, StrategyHandlerClass,
}
use grants_stack_indexer_v.Processors.Dispatch.{HandledAs, handlers_of, process_event-HandledAs}
use grants_stack_indexer_v.Processors.Strategies.{process_strategy-exists_handler}

-- each handler adds a number of its own to the world
abbrev adding : ℕ → Handler entities (Unit {0}) ℕ
adding n event s = (ok [], s + n)

abbrev handlers : Handlers entities (Unit {0}) ℕ
handlers = record {
  allo = record {
    pool_created = adding 1;
    pool_funded = adding 2;
    role_granted = adding 3;
    pool_metadata_updated = adding 4;
    role_revoked = adding 5;
  };
  registry = record {
    profile_created = adding 6;
    profile_metadata_updated = adding 7;
    profile_name_updated = adding 8;
    profile_owner_updated = adding 9;
    role_granted = adding 10;
    role_revoked = adding 11;
  };
  strategy = λ c. adding 20;
  on_attested = adding 12;
  profile_migrated = adding 13;
}

abbrev event_named : ContractName → String → Option String → AnyEvent (Unit {0})
event_named contract name strategy_id = record {
  block_number = 1;
  block_timestamp = 2;
  chain_id = 10;
  contract_name = contract;
  event_name = name;
  log_index = 3;
  params = tt;
  src_address = "0x1";
  transaction_fields = record { hash = "0x2"; transaction_index = 0; from_address = none };
  strategy_id = strategy_id;
}

process_event-HandledAs_example :
    HandledAs
      (event_named allo "RoleGranted" none)
      (process_event handlers (event_named allo "RoleGranted" none))
      (handlers_of handlers allo)
unfolding includes
process_event-HandledAs_example =
    process_event-HandledAs handlers (event_named allo "RoleGranted" none) refl

abbrev capital_id : String
capital_id = "0x263CB916541B6FC1FB5543A244829CCDBA75264B097726E6ECC3C3CFCE824BF5"

capitals_found : exists_handler capital_id ≡ true
unfolding exists_handler to_lower_case map_get
capitals_found = refl

process_strategy-exists_handler_example :
    let event = event_named strategy "DirectAllocated" (some capital_id) in
    ((c : StrategyHandlerClass) × (exists_handler capital_id ≡ true)
      × (process_strategy handlers.strategy event ≡ handlers.strategy c event))
    ⊎ ((exists_handler capital_id ≡ false)
        × (process_strategy handlers.strategy event ≡ throw unsupported_strategy))
process_strategy-exists_handler_example =
    process_strategy-exists_handler handlers.strategy
      (event_named strategy "DirectAllocated" (some capital_id)) capital_id refl
