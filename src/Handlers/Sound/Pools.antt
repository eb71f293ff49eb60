-- ===== src/Handlers/Sound/Pools.antt =====
-- The handlers of the events of Allo keep what the services keep, on their own chain.
use grants_stack_indexer_v.Prelude.{
  ℕ, ◌≡◌, refl, String, Option, none, some, List, [], ◌∷◌, ◌++◌, ltb,
}
use grants_stack_indexer_v.Effects.Triples.{
  Keeps, Sound, pure-Sound, if-Sound, lift-Keeps, bind-Sound, then-Sound,
}
use grants_stack_indexer_v.Changesets.{RoundRoleName}
use grants_stack_indexer_v.Events.{AnyEvent, to_lower_case}
use grants_stack_indexer_v.Handlers.Rows.{Round}
use grants_stack_indexer_v.Handlers.Params.{Params}
use grants_stack_indexer_v.Handlers.Services.{Services, Token, ContractCall, TimingsRow}
use grants_stack_indexer_v.Handlers.Helpers.{
  get_token, token_or_throw, calculate_amount_in_usd, read_all, read_contracts, is_some,
}
use grants_stack_indexer_v.Handlers.Sound.{
  ServicesKeep, AllOnChain, empty, both, append-AllOnChain, map-AllOnChain, SoundHandler,
  price-Keeps, found_price,
}
use grants_stack_indexer_v.Processors.{
  StrategyHandlerClass, dvmd_direct_transfer, direct_allocation, dg_simple, direct_grants_lite,
  easy_retro_funding, create_handler, text_or_empty,
}
use grants_stack_indexer_v.Handlers.StrategyReads.{
  fetch_strategy_timings, token_amount_in_usd, match_amount_of, fetch_match_amount,
}
use grants_stack_indexer_v.Handlers.Allo.{
  pool_funded, match_of, pool_metadata_updated, or_manager, find_round_by_role, granted,
  role_granted, revoked, role_revoked, field_of,
}
use grants_stack_indexer_v.Handlers.Allo.PoolCreated.{
  timings_or_fetch, strategy_timings, match_amount, funded_amount_in_usd, sender_of, ids_of,
  delete_changes, handle_pending_roles, created_round, pool_created, match_token_address_of,
}

module _ {ℓ μ} {Json : Type 0} {S P B : Type ℓ} {I : S → Type μ} {services : Services Json S P B}
    (keep : ServicesKeep I services) where
  open services use {viem}

  pub pool_funded-Sound : SoundHandler keep (pool_funded services)
  unfolding pool_funded
  pool_funded-Sound event = then-Sound (keep.round_by_id _ _) (λ round.
      then-Sound
        (lift-Keeps (token_or_throw services (get_token services round.match_token_address)))
        (λ token.
          then-Sound (price-Keeps keep token event.params.amount event.block_timestamp none)
            (λ price. pure-Sound (both refl empty))))

  match_of-Keeps :
      (round : Round Json) (timestamp : ℕ) (funds : Option P) (token : Option Token)
      → Keeps I (match_of services round timestamp funds token)
  match_of-Keeps round timestamp (some funds) (some token) =
      then-Sound
        (lift-Keeps (viem.parse_units (services.numbers.to_numeric_string funds) token.decimals))
        (λ amount.
          then-Sound (price-Keeps keep token amount timestamp none) (λ price. pure-Sound tt))
  match_of-Keeps round timestamp none token = pure-Sound tt
  match_of-Keeps round timestamp (some funds) none = pure-Sound tt

  pub pool_metadata_updated-Sound : SoundHandler keep (pool_metadata_updated services)
  unfolding pool_metadata_updated
  pool_metadata_updated-Sound event = then-Sound (keep.metadata _) (λ metadata.
      then-Sound (keep.round_by_id _ _) (λ round.
        then-Sound
          (match_of-Keeps round event.block_timestamp
            (services.schemas.round_metadata (field_of services.schemas.round_field metadata))
            (get_token services round.match_token_address))
          (λ amounts. pure-Sound (both refl empty))))

  or_manager-Keeps :
      (role : String) (found : Option (Round Json)) → Keeps I (or_manager services role found)
  or_manager-Keeps role (some round) = pure-Sound tt
  or_manager-Keeps role none = then-Sound (keep.round_by_role _ _ _) (λ found. pure-Sound tt)

  find_round_by_role-Keeps : (role : String) → Keeps I (find_round_by_role services role)
  unfolding find_round_by_role
  find_round_by_role-Keeps role = then-Sound (keep.round_by_role _ _ _) (or_manager-Keeps role)

  granted-AllOnChain :
      (event : AnyEvent Params) (account : String) (found : Option (Round Json × RoundRoleName))
      → AllOnChain services.chain_id (granted services event account found ∷ [])
  granted-AllOnChain event account none = both refl empty
  granted-AllOnChain event account (some (round, name)) = both refl empty

  revoked-AllOnChain :
      (account : String) (found : Option (Round Json × RoundRoleName))
      → AllOnChain services.chain_id (revoked services account found)
  revoked-AllOnChain account none = empty
  revoked-AllOnChain account (some (round, name)) = both refl empty

  pub role_granted-Sound : SoundHandler keep (role_granted services)
  unfolding role_granted
  role_granted-Sound event =
      then-Sound (lift-Keeps (viem.get_address event.params.account)) (λ account.
        then-Sound (find_round_by_role-Keeps (to_lower_case event.params.role))
          (λ found. pure-Sound (granted-AllOnChain event account found)))

  pub role_revoked-Sound : SoundHandler keep (role_revoked services)
  unfolding role_revoked
  role_revoked-Sound event =
      then-Sound (lift-Keeps (viem.get_address event.params.account)) (λ account.
        then-Sound (find_round_by_role-Keeps (to_lower_case event.params.role))
          (λ found. pure-Sound (revoked-AllOnChain account found)))

  read_all-Keeps : (calls : List ContractCall) → Keeps I (read_all services.evm_provider calls)
  unfolding read_all
  read_all-Keeps [] = pure-Sound tt
  read_all-Keeps (call ∷ calls) =
      then-Sound (keep.contract call)
        (λ result. then-Sound (read_all-Keeps calls) (λ results. pure-Sound tt))

  read_contracts-Keeps :
      (calls : List ContractCall) → Keeps I (read_contracts services.evm_provider calls)
  unfolding read_contracts
  read_contracts-Keeps calls =
      if-Sound (is_some services.evm_provider services.evm_provider.get_multicall3_address)
        (keep.multicall calls) (read_all-Keeps calls)

  fetch_strategy_timings-Keeps :
      (class : StrategyHandlerClass) (address : String)
      → Keeps I (fetch_strategy_timings services class address)
  unfolding fetch_strategy_timings
  fetch_strategy_timings-Keeps dvmd_direct_transfer address =
      then-Sound (read_contracts-Keeps _) (λ results. pure-Sound tt)
  fetch_strategy_timings-Keeps direct_grants_lite address =
      then-Sound (read_contracts-Keeps _) (λ results. pure-Sound tt)
  fetch_strategy_timings-Keeps easy_retro_funding address =
      then-Sound (read_contracts-Keeps _) (λ results. pure-Sound tt)
  fetch_strategy_timings-Keeps direct_allocation address = pure-Sound tt
  fetch_strategy_timings-Keeps dg_simple address = pure-Sound tt

  token_amount_in_usd-Keeps :
      (token : Token) (amount timestamp : ℕ)
      → Keeps I (token_amount_in_usd services token amount timestamp)
  unfolding token_amount_in_usd
  token_amount_in_usd-Keeps token amount timestamp = then-Sound (keep.price _ _ _) (λ found.
      then-Sound (found_price keep found) (λ price.
        lift-Keeps
          (calculate_amount_in_usd services.numbers amount price.price_usd token.decimals none)))

  match_amount_of-Keeps :
      (funds : P) (token : Token) (timestamp : ℕ)
      → Keeps I (match_amount_of services funds token timestamp)
  match_amount_of-Keeps funds token timestamp =
      then-Sound
        (lift-Keeps (viem.parse_units (services.numbers.to_numeric_string funds) token.decimals))
        (λ amount.
          then-Sound (token_amount_in_usd-Keeps token amount timestamp) (λ usd. pure-Sound tt))

  fetch_match_amount-Keeps :
      (class : StrategyHandlerClass) (funds : P) (token : Token) (timestamp : ℕ)
      → Keeps I (fetch_match_amount services class funds token timestamp)
  unfolding fetch_match_amount
  fetch_match_amount-Keeps dvmd_direct_transfer funds token timestamp =
      match_amount_of-Keeps funds token timestamp
  fetch_match_amount-Keeps easy_retro_funding funds token timestamp =
      match_amount_of-Keeps funds token timestamp
  fetch_match_amount-Keeps direct_grants_lite funds token timestamp = pure-Sound tt
  fetch_match_amount-Keeps direct_allocation funds token timestamp = pure-Sound tt
  fetch_match_amount-Keeps dg_simple funds token timestamp = pure-Sound tt

  timings_or_fetch-Keeps :
      (class : StrategyHandlerClass) (address strategy_id : String) (found : Option TimingsRow)
      → Keeps I (timings_or_fetch services class address strategy_id found)
  timings_or_fetch-Keeps class address strategy_id (some row) = pure-Sound tt
  timings_or_fetch-Keeps class address strategy_id none =
      then-Sound (fetch_strategy_timings-Keeps class address)
        (λ timings. then-Sound (keep.set_timings _ _) (λ done. pure-Sound tt))

  strategy_timings-Keeps :
      (class : Option StrategyHandlerClass) (address strategy_id : String)
      → Keeps I (strategy_timings services class address strategy_id)
  unfolding strategy_timings
  strategy_timings-Keeps none address strategy_id = pure-Sound tt
  strategy_timings-Keeps (some class) address strategy_id =
      then-Sound (keep.get_timings _) (timings_or_fetch-Keeps class address strategy_id)

  match_amount-Keeps :
      (class : Option StrategyHandlerClass) (funds : Option P) (token : Option Token)
      (timestamp : ℕ)
      → Keeps I (match_amount services class funds token timestamp)
  match_amount-Keeps (some class) (some funds) (some token) timestamp =
      fetch_match_amount-Keeps class funds token timestamp
  match_amount-Keeps none funds token timestamp = pure-Sound tt
  match_amount-Keeps (some class) none token timestamp = pure-Sound tt
  match_amount-Keeps (some class) (some funds) none timestamp = pure-Sound tt

  funded_amount-Keeps :
      (token : Option Token) (amount timestamp : ℕ)
      → Keeps I (funded_amount_in_usd services token amount timestamp)
  funded_amount-Keeps none amount timestamp = pure-Sound tt
  funded_amount-Keeps (some token) amount timestamp =
      if-Sound (ltb 0 amount) (token_amount_in_usd-Keeps token amount timestamp) (pure-Sound tt)

  sender_of-Keeps :
      (hash : String) (sender : Option String) → Keeps I (sender_of services hash sender)
  sender_of-Keeps hash none = keep.transaction hash
  sender_of-Keeps hash (some address) = pure-Sound tt

  created_round-Sound :
      (event : AnyEvent Params)
      → Sound I (λ round. round.chain_id ≡ services.chain_id) (created_round services event)
  unfolding created_round
  created_round-Sound event = then-Sound (keep.metadata _) (λ metadata.
      then-Sound (lift-Keeps (viem.get_address event.params.token)) (λ checksummed.
        then-Sound
          (strategy_timings-Keeps (create_handler (text_or_empty event.strategy_id))
            event.params.strategy (text_or_empty event.strategy_id))
          (λ timings.
            then-Sound
              (match_amount-Keeps (create_handler (text_or_empty event.strategy_id))
                (services.schemas.round_metadata (field_of services.schemas.round_field metadata))
                (get_token services (match_token_address_of checksummed)) event.block_timestamp)
              (λ match.
                then-Sound
                  (funded_amount-Keeps (get_token services (match_token_address_of checksummed))
                    event.params.amount event.block_timestamp)
                  (λ usd.
                    then-Sound
                      (sender_of-Keeps event.transaction_fields.hash
                        event.transaction_fields.from_address)
                      (λ sender.
                        then-Sound (lift-Keeps (viem.get_address sender))
                          (λ created_by. pure-Sound refl)))))))

  delete-AllOnChain : (ids : List ℕ) → AllOnChain services.chain_id (delete_changes services ids)
  delete-AllOnChain [] = empty
  delete-AllOnChain (id ∷ ids) = both tt empty

  handle_pending_roles-Sound :
      (pool_id : ℕ) → Sound I (AllOnChain services.chain_id) (handle_pending_roles services pool_id)
  unfolding handle_pending_roles
  handle_pending_roles-Sound pool_id = then-Sound (keep.pending_round_roles _ _) (λ admins.
      then-Sound (keep.pending_round_roles _ _) (λ managers. pure-Sound (
        append-AllOnChain services.chain_id (map-AllOnChain services.chain_id _ admins (λ p. refl))
          (append-AllOnChain services.chain_id
            (map-AllOnChain services.chain_id _ managers (λ p. refl))
            (delete-AllOnChain (ids_of services (admins ++ managers)))))))

  pub pool_created-Sound : SoundHandler keep (pool_created services)
  unfolding pool_created
  pool_created-Sound event = bind-Sound (created_round-Sound event) (λ round on_chain.
      bind-Sound (handle_pending_roles-Sound event.params.pool_id)
        (λ roles roles_on_chain. pure-Sound (both on_chain roles_on_chain)))
