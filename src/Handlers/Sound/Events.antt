-- ===== src/Handlers/Sound/Events.antt =====
-- `processEvent` with the handlers of every event.
use grants_stack_indexer_v.Prelude.{Option, none, some}
use grants_stack_indexer_v.Effects.{unsupported_strategy, throw}
use grants_stack_indexer_v.Effects.Triples.{Sound, throw-Sound, if-Sound}
use grants_stack_indexer_v.Events.{
  AnyEvent, allo, registry, strategy, profile_migration, attestation_network, is_event_of, equals,
}
use grants_stack_indexer_v.Processors.{
  StrategyHandlerClass, dvmd_direct_transfer, direct_allocation, dg_simple, direct_grants_lite,
  easy_retro_funding, create_handler, text_or_empty, process_allo, process_registry,
  process_strategy, process_attestation, process_migration, process_event,
}
use grants_stack_indexer_v.Handlers.Params.{Params}
use grants_stack_indexer_v.Handlers.Services.{Services}
use grants_stack_indexer_v.Handlers.Strategies.Dispatch.{
  handle_dvmd, handle_direct_allocation, handle_dg_simple, handle_direct_grants_lite,
  handle_easy_retro_funding, handle_strategy, handlers,
}
use grants_stack_indexer_v.Handlers.Sound.{ServicesKeep, AllOnChain, SoundHandler}
use grants_stack_indexer_v.Handlers.Sound.Pools.{
  pool_funded-Sound, pool_metadata_updated-Sound, role_granted-Sound, role_revoked-Sound,
  pool_created-Sound,
}
use grants_stack_indexer_v.Handlers.Sound.Profiles.{
  profile_created-Sound, profile_metadata_updated-Sound, profile_name_updated-Sound,
  profile_owner_updated-Sound, member_granted-Sound, member_revoked-Sound, on_attested-Sound,
  profile_migrated-Sound,
}
use grants_stack_indexer_v.Handlers.Sound.Strategies.{
  distributed-Sound, distribution_updated-Sound, simple_distribution_updated-Sound,
  funds_distributed-Sound, recipient_status_updated-Sound, registered-Sound,
  direct_grants_registered-Sound, updated_registration-Sound, timestamps_updated-Sound,
  application_timestamps_updated-Sound, allocated-Sound, allocated_with_token-Sound,
  direct_allocated-Sound,
}

module _ {ℓ μ} {Json : Type 0} {S P B : Type ℓ} {I : S → Type μ} {services : Services Json S P B}
    (keep : ServicesKeep I services) where
  handle_dvmd-Sound : SoundHandler keep (handle_dvmd services)
  unfolding handle_dvmd
  handle_dvmd-Sound event =
      if-Sound (equals "RegisteredWithSender" event.event_name) (registered-Sound keep event) (
        if-Sound (equals "DistributedWithRecipientAddress" event.event_name)
          (distributed-Sound keep event)
          (if-Sound (equals "AllocatedWithOrigin" event.event_name) (allocated-Sound keep event) (
            if-Sound (equals "TimestampsUpdatedWithRegistrationAndAllocation" event.event_name)
              (timestamps_updated-Sound keep event)
              (if-Sound (equals "DistributionUpdatedWithMerkleRoot" event.event_name)
                (distribution_updated-Sound keep event)
                (if-Sound (equals "FundsDistributed" event.event_name)
                  (funds_distributed-Sound keep event)
                  (if-Sound (equals "UpdatedRegistrationWithStatus" event.event_name)
                    (updated_registration-Sound keep event)
                    (if-Sound (equals "RecipientStatusUpdatedWithFullRow" event.event_name)
                      (recipient_status_updated-Sound keep event) throw-Sound)))))))

  handle_direct_allocation-Sound : SoundHandler keep (handle_direct_allocation services)
  unfolding handle_direct_allocation
  handle_direct_allocation-Sound event =
      if-Sound (equals "DirectAllocated" event.event_name) (direct_allocated-Sound keep event)
        throw-Sound

  handle_dg_simple-Sound : SoundHandler keep (handle_dg_simple services)
  unfolding handle_dg_simple
  handle_dg_simple-Sound event =
      if-Sound (equals "TimestampsUpdated" event.event_name)
        (application_timestamps_updated-Sound keep event)
        (if-Sound (equals "RegisteredWithSender" event.event_name)
          (direct_grants_registered-Sound keep event)
          (if-Sound (equals "DistributedWithRecipientAddress" event.event_name)
            (distributed-Sound keep event) throw-Sound))

  handle_direct_grants_lite-Sound : SoundHandler keep (handle_direct_grants_lite services)
  unfolding handle_direct_grants_lite
  handle_direct_grants_lite-Sound event =
      if-Sound (equals "RecipientStatusUpdatedWithFullRow" event.event_name)
        (recipient_status_updated-Sound keep event)
        (if-Sound (equals "RegisteredWithSender" event.event_name) (registered-Sound keep event) (
          if-Sound (equals "UpdatedRegistrationWithStatus" event.event_name)
            (updated_registration-Sound keep event)
            (if-Sound (equals "TimestampsUpdated" event.event_name)
              (application_timestamps_updated-Sound keep event)
              (if-Sound (equals "AllocatedWithToken" event.event_name)
                (allocated_with_token-Sound keep event) throw-Sound))))

  handle_easy_retro_funding-Sound : SoundHandler keep (handle_easy_retro_funding services)
  unfolding handle_easy_retro_funding
  handle_easy_retro_funding-Sound event =
      if-Sound (equals "RegisteredWithSender" event.event_name) (registered-Sound keep event) (
        if-Sound (equals "UpdatedRegistrationWithStatus" event.event_name)
          (updated_registration-Sound keep event)
          (if-Sound (equals "RecipientStatusUpdatedWithFullRow" event.event_name)
            (recipient_status_updated-Sound keep event)
            (if-Sound (equals "TimestampsUpdatedWithRegistrationAndAllocation" event.event_name)
              (timestamps_updated-Sound keep event)
              (if-Sound (equals "DistributionUpdated" event.event_name)
                (simple_distribution_updated-Sound keep event)
                (if-Sound (equals "FundsDistributed" event.event_name)
                  (funds_distributed-Sound keep event) throw-Sound)))))

  handle_strategy-Sound :
      (class : StrategyHandlerClass) → SoundHandler keep (handle_strategy services class)
  unfolding handle_strategy
  handle_strategy-Sound dvmd_direct_transfer = handle_dvmd-Sound
  handle_strategy-Sound direct_allocation = handle_direct_allocation-Sound
  handle_strategy-Sound dg_simple = handle_dg_simple-Sound
  handle_strategy-Sound direct_grants_lite = handle_direct_grants_lite-Sound
  handle_strategy-Sound easy_retro_funding = handle_easy_retro_funding-Sound

  allo-Sound : SoundHandler keep (process_allo (handlers services).allo)
  unfolding process_allo handlers
  allo-Sound event =
      if-Sound (equals "PoolCreated" event.event_name) (pool_created-Sound keep event) (
        if-Sound (equals "PoolFunded" event.event_name) (pool_funded-Sound keep event) (
          if-Sound (equals "RoleGranted" event.event_name) (role_granted-Sound keep event) (
            if-Sound (equals "PoolMetadataUpdated" event.event_name)
              (pool_metadata_updated-Sound keep event)
              (if-Sound (equals "RoleRevoked" event.event_name) (role_revoked-Sound keep event)
                throw-Sound))))

  registry-Sound : SoundHandler keep (process_registry (handlers services).registry)
  unfolding process_registry handlers
  registry-Sound event =
      if-Sound (equals "ProfileCreated" event.event_name) (profile_created-Sound keep event) (
        if-Sound (equals "ProfileMetadataUpdated" event.event_name)
          (profile_metadata_updated-Sound keep event)
          (if-Sound (equals "ProfileNameUpdated" event.event_name)
            (profile_name_updated-Sound keep event)
            (if-Sound (equals "ProfileOwnerUpdated" event.event_name)
              (profile_owner_updated-Sound keep event)
              (if-Sound (equals "RoleGranted" event.event_name) (member_granted-Sound keep event) (
                if-Sound (equals "RoleRevoked" event.event_name) (member_revoked-Sound keep event)
                  throw-Sound)))))

  by_class :
      (class : Option StrategyHandlerClass) (event : AnyEvent Params)
      → Sound I (AllOnChain {Json = Json} services.chain_id) (elim class [
        | none ↦ throw unsupported_strategy
        | some c ↦ (handlers services).strategy c event
      ])
  unfolding handlers
  by_class none event = throw-Sound
  by_class (some class) event = handle_strategy-Sound class event

  strategy-Sound : SoundHandler keep (process_strategy (handlers services).strategy)
  unfolding process_strategy
  strategy-Sound event = by_class (create_handler (text_or_empty event.strategy_id)) event

  -- If the services keep what some `I` says of the world and an application that is asked for on a chain is
  -- of that chain, then processEvent keeps `I` too, on every event, and what it returns is about the chain of
  -- the processor: that is the chain of every key, of every row inserted, and of the whole row of an
  -- application that is written back. Two fields with a chain of their own are not spoken of: the chain of an
  -- attestation's transaction, and the one on which a legacy project stood.
  pub process_event-Sound : SoundHandler keep (process_event (handlers services))
  unfolding process_event process_attestation process_migration handlers
  process_event-Sound event = if-Sound (is_event_of allo event) (allo-Sound event) (
      if-Sound (is_event_of registry event) (registry-Sound event) (
        if-Sound (is_event_of strategy event) (strategy-Sound event) (
          if-Sound (is_event_of attestation_network event)
            (if-Sound (equals "OnAttested" event.event_name) (on_attested-Sound keep event)
              throw-Sound)
            (if-Sound (is_event_of profile_migration event)
              (if-Sound (equals "ProfileMigrated" event.event_name)
                (profile_migrated-Sound keep event) throw-Sound)
              throw-Sound))))
