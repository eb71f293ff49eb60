-- ===== src/Handlers/Strategies/Dispatch.antt =====
-- `handle` of each strategy in packages/processors/src/processors/strategy, and all handlers together:
-- with them the dispatch of Processors has no parameter left but the services.
pub mod Supported
use grants_stack_indexer_v.Prelude.{ℕ, String, Bool, true, false, List, [], ◌∷◌, if◌then◌else◌}
use grants_stack_indexer_v.Effects.{unsupported_event, Outcome, Action, throw}
use grants_stack_indexer_v.Events.{AnyEvent, equals}
use grants_stack_indexer_v.Processors.{
  Handler, Handlers, AlloHandlers, RegistryHandlers, StrategyHandlerClass, dvmd_direct_transfer,
  direct_allocation, dg_simple, direct_grants_lite, easy_retro_funding, process_event,
}
use grants_stack_indexer_v.Handlers.Rows.{rows}
use grants_stack_indexer_v.Handlers.Params.{Params}
use grants_stack_indexer_v.Handlers.Services.{Services}
use grants_stack_indexer_v.Handlers.Allo.{
  pool_funded, pool_metadata_updated, role_granted, role_revoked,
}
use grants_stack_indexer_v.Handlers.Allo.PoolCreated.{pool_created}
use grants_stack_indexer_v.Handlers.Registry.{
  profile_created, profile_metadata_updated, profile_name_updated, profile_owner_updated,
  member_granted, member_revoked,
}
use grants_stack_indexer_v.Handlers.Attestations.{on_attested, profile_migrated}
use grants_stack_indexer_v.Handlers.Strategies.Common.{
  distributed, distribution_updated, simple_distribution_updated, funds_distributed,
  recipient_status_updated,
}
use grants_stack_indexer_v.Handlers.Strategies.Registrations.{
  registered, direct_grants_registered, updated_registration, timestamps_updated,
  application_timestamps_updated, easy_retro_registered, lite_registered,
  easy_retro_updated_registration, lite_updated_registration, easy_retro_timestamps_updated,
  lite_timestamps_updated,
}
use grants_stack_indexer_v.Handlers.Strategies.Allocations.{
  allocated, allocated_with_token, direct_allocated,
}

module _ {ℓ} {Json : Type 0} {S P B : Type ℓ} (services : Services Json S P B) where
  -- `DVMDDirectTransferStrategyHandler`
  unfoldable pub handle_dvmd : Handler (rows Json) Params S
  handle_dvmd event =
      if equals "RegisteredWithSender" event.event_name
      then registered services event
      else if equals "DistributedWithRecipientAddress" event.event_name
      then distributed services event
      else if equals "AllocatedWithOrigin" event.event_name
      then allocated services event
      else if equals "TimestampsUpdatedWithRegistrationAndAllocation" event.event_name
      then timestamps_updated services event
      else if equals "DistributionUpdatedWithMerkleRoot" event.event_name
      then distribution_updated services event
      else if equals "FundsDistributed" event.event_name
      then funds_distributed services event
      else if equals "UpdatedRegistrationWithStatus" event.event_name
      then updated_registration services event
      else if equals "RecipientStatusUpdatedWithFullRow" event.event_name
      then recipient_status_updated services event
      else throw unsupported_event

  -- `DirectAllocationStrategyHandler`
  unfoldable pub handle_direct_allocation : Handler (rows Json) Params S
  handle_direct_allocation event =
      if equals "DirectAllocated" event.event_name
      then direct_allocated services event
      else throw unsupported_event

  -- `DGSimpleStrategyHandler`
  unfoldable pub handle_dg_simple : Handler (rows Json) Params S
  handle_dg_simple event =
      if equals "TimestampsUpdated" event.event_name
      then application_timestamps_updated services event
      else if equals "RegisteredWithSender" event.event_name
      then direct_grants_registered services event
      else if equals "DistributedWithRecipientAddress" event.event_name
      then distributed services event
      else throw unsupported_event

  -- `DirectGrantsLiteStrategyHandler`
  unfoldable pub handle_direct_grants_lite : Handler (rows Json) Params S
  handle_direct_grants_lite event =
      if equals "RecipientStatusUpdatedWithFullRow" event.event_name
      then recipient_status_updated services event
      else if equals "RegisteredWithSender" event.event_name
      then lite_registered services event
      else if equals "UpdatedRegistrationWithStatus" event.event_name
      then lite_updated_registration services event
      else if equals "TimestampsUpdated" event.event_name
      then lite_timestamps_updated services event
      else if equals "AllocatedWithToken" event.event_name
      then allocated_with_token services event
      else throw unsupported_event

  -- `EasyRetroFundingStrategyHandler`
  unfoldable pub handle_easy_retro_funding : Handler (rows Json) Params S
  handle_easy_retro_funding event =
      if equals "RegisteredWithSender" event.event_name
      then easy_retro_registered services event
      else if equals "UpdatedRegistrationWithStatus" event.event_name
      then easy_retro_updated_registration services event
      else if equals "RecipientStatusUpdatedWithFullRow" event.event_name
      then recipient_status_updated services event
      else if equals "TimestampsUpdatedWithRegistrationAndAllocation" event.event_name
      then easy_retro_timestamps_updated services event
      else if equals "DistributionUpdated" event.event_name
      then simple_distribution_updated services event
      else if equals "FundsDistributed" event.event_name
      then funds_distributed services event
      else throw unsupported_event

  unfoldable pub handle_strategy : StrategyHandlerClass → Handler (rows Json) Params S
  handle_strategy dvmd_direct_transfer = handle_dvmd
  handle_strategy direct_allocation = handle_direct_allocation
  handle_strategy dg_simple = handle_dg_simple
  handle_strategy direct_grants_lite = handle_direct_grants_lite
  handle_strategy easy_retro_funding = handle_easy_retro_funding

  -- what `AlloProcessor`, `RegistryProcessor` and the others make for an event
  unfoldable pub handlers : Handlers (rows Json) Params S
  handlers = record {
    allo = record {
      pool_created = pool_created services;
      pool_funded = pool_funded services;
      role_granted = role_granted services;
      pool_metadata_updated = pool_metadata_updated services;
      role_revoked = role_revoked services;
    };
    registry = record {
      profile_created = profile_created services;
      profile_metadata_updated = profile_metadata_updated services;
      profile_name_updated = profile_name_updated services;
      profile_owner_updated = profile_owner_updated services;
      role_granted = member_granted services;
      role_revoked = member_revoked services;
    };
    strategy = handle_strategy;
    on_attested = on_attested services;
    profile_migrated = profile_migrated services;
  }
