-- ===== src/Handlers/Sound/Strategies.antt =====
-- The handlers of the events of strategies keep what the services keep, on their own chain.
use grants_stack_indexer_v.Prelude.{ℕ, zero, suc, ◌+◌, refl, String, Option, none, some, ltb}
use grants_stack_indexer_v.Effects.{Outcome}
use grants_stack_indexer_v.Effects.Triples.{
  Keeps, pure-Sound, if-Sound, lift-Keeps, bind-Sound, then-Sound,
}
use grants_stack_indexer_v.Events.{AnyEvent, equals}
use grants_stack_indexer_v.Handlers.Rows.{Round}
use grants_stack_indexer_v.Handlers.Params.{Params}
use grants_stack_indexer_v.Handlers.Services.{Services, Token}
use grants_stack_indexer_v.Handlers.Sound.{
  ServicesKeep, AllOnChain, empty, both, map-AllOnChain, SoundHandler, price-Keeps, found_price,
}
use grants_stack_indexer_v.Handlers.Helpers.{
  is_valid_application_status, get_token_or_throw, get_usd_in_token_amount,
  calculate_amount_in_token, decode_dvmd_application_data,
}
use grants_stack_indexer_v.Handlers.Strategies.Common.{
  distributed_in, distributed, metadata_or_throw, parsed_or_throw, distribution_updated_by,
  distribution_updated, simple_distribution_updated, funds_distributed, application_at,
  applications_from, get_applications_to_update, recipient_status_updated, items_per_row,
}
use grants_stack_indexer_v.Handlers.Strategies.Registrations.{
  registered_by, registered, direct_grants_registered, decode_with_counter, decode_direct_grants,
  update_registration, updated_registration, timestamps_updated, application_timestamps_updated,
}
use grants_stack_indexer_v.Handlers.Strategies.Allocations.{
  usd_in_match_token, amount_in_match_token, amounts_of, allocated, payout_amounts,
  allocated_with_token, direct_allocated,
}

module _ {ℓ μ} {Json : Type 0} {S P B : Type ℓ} {I : S → Type μ} {services : Services Json S P B}
    (keep : ServicesKeep I services) where
  open services use {viem}

  distributed-AllOnChain :
      (amount : ℕ) (round : Option (Round Json))
      → AllOnChain services.chain_id (distributed_in services amount round)
  distributed-AllOnChain amount none = empty
  distributed-AllOnChain amount (some round) = both refl empty

  pub distributed-Sound : SoundHandler keep (distributed services)
  unfolding distributed
  distributed-Sound event = then-Sound (lift-Keeps (viem.get_address event.src_address)) (λ address.
      then-Sound (keep.round_by_strategy _ _)
        (λ round. pure-Sound (distributed-AllOnChain event.params.amount round)))

  distribution_updated_by-Sound :
      (schema : Json → Option Json) → SoundHandler keep (distribution_updated_by services schema)
  unfolding distribution_updated_by
  distribution_updated_by-Sound schema event =
      then-Sound (lift-Keeps (viem.get_address event.src_address)) (λ address.
        then-Sound (keep.metadata _) (λ found.
          then-Sound (lift-Keeps (metadata_or_throw services found)) (λ raw.
            then-Sound (lift-Keeps (parsed_or_throw services (schema raw)))
              (λ parsed. pure-Sound (both refl empty)))))

  pub distribution_updated-Sound : SoundHandler keep (distribution_updated services)
  unfolding distribution_updated
  distribution_updated-Sound = distribution_updated_by-Sound services.schemas.matching_distribution

  pub simple_distribution_updated-Sound : SoundHandler keep (simple_distribution_updated services)
  unfolding simple_distribution_updated
  simple_distribution_updated-Sound =
      distribution_updated_by-Sound services.schemas.simple_matching_distribution

  pub funds_distributed-Sound : SoundHandler keep (funds_distributed services)
  unfolding funds_distributed
  funds_distributed-Sound event =
      then-Sound (lift-Keeps (viem.get_address event.src_address)) (λ address.
        then-Sound (keep.round_by_strategy_or_throw _ _) (λ round.
          then-Sound (lift-Keeps (viem.get_address event.params.recipient_id)) (λ anchor.
            bind-Sound (keep.application_by_anchor _ _ _)
              (λ application own. pure-Sound (both (refl, tt) (both refl empty))))))

  application_at-Keeps :
      (row_index full_row i : ℕ) (round_id : String)
      → Keeps I (application_at services row_index full_row i round_id)
  unfolding application_at
  application_at-Keeps row_index full_row i round_id =
      if-Sound (is_valid_application_status (services.status_in_row row_index full_row i))
        (then-Sound (keep.application_by_id _ _ _) (λ found. pure-Sound tt)) (pure-Sound tt)

  applications_from-Keeps :
      (row_index full_row items i : ℕ) (round_id : String)
      → Keeps I (applications_from services row_index full_row items i round_id)
  unfolding applications_from
  applications_from-Keeps row_index full_row zero i round_id = pure-Sound tt
  applications_from-Keeps row_index full_row (suc items) i round_id =
      then-Sound (application_at-Keeps row_index full_row i round_id) (λ here.
        then-Sound (applications_from-Keeps row_index full_row items (i + 1) round_id)
          (λ others. pure-Sound tt))

  get_applications_to_update-Keeps :
      (row_index full_row : ℕ) (round_id : String)
      → Keeps I (get_applications_to_update services row_index full_row round_id)
  unfolding get_applications_to_update
  get_applications_to_update-Keeps row_index full_row round_id =
      applications_from-Keeps row_index full_row items_per_row _ round_id

  pub recipient_status_updated-Sound : SoundHandler keep (recipient_status_updated services)
  unfolding recipient_status_updated
  recipient_status_updated-Sound event =
      then-Sound (lift-Keeps (viem.get_address event.src_address)) (λ address.
        then-Sound (keep.round_by_strategy_or_throw _ _) (λ round.
          then-Sound
            (get_applications_to_update-Keeps event.params.row_index event.params.full_row round.id)
            (λ applications.
              pure-Sound (map-AllOnChain services.chain_id _ applications (λ a. (refl, tt))))))

  registered_by-Sound :
      (decode : AnyEvent Params → Outcome (String × String))
      → SoundHandler keep (registered_by services decode)
  unfolding registered_by
  registered_by-Sound decode event =
      then-Sound (lift-Keeps (viem.get_address event.params.recipient_id)) (λ anchor.
        then-Sound (keep.project_by_anchor _ _) (λ project.
          then-Sound (lift-Keeps (viem.get_address event.src_address)) (λ address.
            then-Sound (keep.round_by_strategy_or_throw _ _) (λ round.
              then-Sound (lift-Keeps (decode event)) (λ decoded.
                then-Sound (keep.metadata _) (λ metadata.
                  then-Sound (lift-Keeps (viem.get_address event.params.sender))
                    (λ sender. pure-Sound (both refl empty))))))))

  pub registered-Sound : SoundHandler keep (registered services)
  unfolding registered
  registered-Sound = registered_by-Sound (decode_with_counter services)

  pub direct_grants_registered-Sound : SoundHandler keep (direct_grants_registered services)
  unfolding direct_grants_registered
  direct_grants_registered-Sound = registered_by-Sound (decode_direct_grants services)

  update_registration-Sound : SoundHandler keep (update_registration services)
  unfolding update_registration
  update_registration-Sound event =
      then-Sound (lift-Keeps (viem.get_address event.params.recipient_id)) (λ anchor.
        then-Sound (keep.project_by_anchor _ _) (λ project.
          then-Sound (lift-Keeps (viem.get_address event.src_address)) (λ address.
            then-Sound (keep.round_by_strategy_or_throw _ _) (λ round.
              bind-Sound (keep.application_by_anchor _ _ _) (λ application own.
                then-Sound
                  (lift-Keeps (decode_dvmd_application_data viem event.params.encoded_data))
                  (λ values.
                    then-Sound (keep.metadata _)
                      (λ metadata. pure-Sound (both (refl, own) empty))))))))

  pub updated_registration-Sound : SoundHandler keep (updated_registration services)
  unfolding updated_registration
  updated_registration-Sound event =
      if-Sound (is_valid_application_status event.params.status) (update_registration-Sound event)
        (pure-Sound empty)

  pub timestamps_updated-Sound : SoundHandler keep (timestamps_updated services)
  unfolding timestamps_updated
  timestamps_updated-Sound event =
      then-Sound (lift-Keeps (viem.get_address event.src_address)) (λ address.
        then-Sound (keep.round_by_strategy_or_throw _ _) (λ round. pure-Sound (both refl empty)))

  pub application_timestamps_updated-Sound :
      SoundHandler keep (application_timestamps_updated services)
  unfolding application_timestamps_updated
  application_timestamps_updated-Sound event =
      then-Sound (lift-Keeps (viem.get_address event.src_address)) (λ address.
        then-Sound (keep.round_by_strategy_or_throw _ _) (λ round. pure-Sound (both refl empty)))

  usd_in_match_token-Keeps :
      (token : Token) (usd : String) (timestamp : ℕ)
      → Keeps I (usd_in_match_token services token usd timestamp)
  unfolding get_usd_in_token_amount
  usd_in_match_token-Keeps token usd timestamp =
      then-Sound
        {m = get_usd_in_token_amount services.numbers services.pricing_provider token usd timestamp
          none}
        (then-Sound (keep.price _ _ _) (λ found. then-Sound (found_price keep found) (λ price.
          then-Sound
            (lift-Keeps
              (calculate_amount_in_token services.numbers usd price.price_usd token.decimals))
            (λ amount. pure-Sound tt))))
        (λ result. pure-Sound tt)

  amounts_of-Keeps :
      (token match_token : Token) (amount timestamp : ℕ)
      → Keeps I (amounts_of services token match_token amount timestamp)
  unfolding amounts_of amount_in_match_token
  amounts_of-Keeps token match_token amount timestamp =
      then-Sound (price-Keeps keep token amount timestamp none) (λ price.
        then-Sound
          (if-Sound (equals match_token.address token.address) (pure-Sound tt)
            (usd_in_match_token-Keeps match_token price.0 timestamp))
          (λ in_match_token. pure-Sound tt))

  payout_amounts-Keeps :
      (token match_token : Token) (amount timestamp : ℕ)
      → Keeps I (payout_amounts services token match_token amount timestamp)
  unfolding payout_amounts
  payout_amounts-Keeps token match_token amount timestamp =
      if-Sound (ltb 0 amount) (amounts_of-Keeps token match_token amount timestamp) (pure-Sound tt)

  pub allocated-Sound : SoundHandler keep (allocated services)
  unfolding allocated
  allocated-Sound event = then-Sound (lift-Keeps (viem.get_address event.src_address)) (λ address.
      then-Sound (keep.round_by_strategy_or_throw _ _) (λ round.
        then-Sound (lift-Keeps (viem.get_address event.params.recipient_id)) (λ recipient_id.
          bind-Sound (keep.application_by_anchor _ _ _) (λ application own.
            then-Sound (lift-Keeps (get_token_or_throw services event.params.token)) (λ token.
              then-Sound (lift-Keeps (get_token_or_throw services round.match_token_address))
                (λ match_token.
                  then-Sound
                    (amounts_of-Keeps token match_token event.params.amount event.block_timestamp)
                    (λ amounts.
                      then-Sound
                        (lift-Keeps (
                          parsed_or_throw services
                            (services.schemas.application_metadata application.metadata)))
                        (λ recipient.
                          then-Sound (lift-Keeps (viem.get_address event.params.origin)) (λ donor.
                            then-Sound (lift-Keeps (viem.get_address recipient))
                              (λ recipient_address.
                                pure-Sound (both refl (both refl (both refl empty)))))))))))))

  pub allocated_with_token-Sound : SoundHandler keep (allocated_with_token services)
  unfolding allocated_with_token
  allocated_with_token-Sound event =
      then-Sound (lift-Keeps (viem.get_address event.src_address)) (λ address.
        then-Sound (keep.round_by_strategy_or_throw _ _) (λ round.
          then-Sound (lift-Keeps (viem.get_address event.params.recipient_id)) (λ recipient_id.
            then-Sound (lift-Keeps (viem.get_address event.params.token)) (λ token_address.
              bind-Sound (keep.application_by_anchor _ _ _) (λ application own.
                then-Sound (lift-Keeps (get_token_or_throw services token_address)) (λ token.
                  then-Sound (lift-Keeps (get_token_or_throw services round.match_token_address))
                    (λ match_token.
                      then-Sound
                        (payout_amounts-Keeps token match_token event.params.amount
                          event.block_timestamp)
                        (λ amounts.
                          then-Sound (lift-Keeps (viem.get_address event.params.sender))
                            (λ sender. pure-Sound (both refl (both refl empty)))))))))))

  pub direct_allocated-Sound : SoundHandler keep (direct_allocated services)
  unfolding direct_allocated
  direct_allocated-Sound event =
      then-Sound (lift-Keeps (viem.get_address event.src_address)) (λ address.
        then-Sound (keep.round_by_strategy_or_throw _ _) (λ round.
          then-Sound (keep.project_by_id_or_throw _ _) (λ project.
            then-Sound (lift-Keeps (get_token_or_throw services event.params.token)) (λ token.
              then-Sound (lift-Keeps (viem.get_address event.params.sender)) (λ sender.
                then-Sound (price-Keeps keep token event.params.amount event.block_timestamp none)
                  (λ price.
                    then-Sound (lift-Keeps (viem.get_address event.params.profile_owner))
                      (λ recipient_address. pure-Sound (both refl (both refl empty)))))))))
