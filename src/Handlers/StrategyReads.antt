-- ===== src/Handlers/StrategyReads.antt =====
-- `name`, `fetchStrategyTimings` and `fetchMatchAmount` of the strategies' handlers
-- (packages/processors/src/processors/strategy), which the handler of PoolCreated calls.
use grants_stack_indexer_v.Prelude.{ℕ, String, none, List, [], ◌∷◌, map, get_elem?}
use grants_stack_indexer_v.Effects.{Action, pure, ◌>>=◌}
use grants_stack_indexer_v.Processors.{
  StrategyHandlerClass, dvmd_direct_transfer, direct_allocation, dg_simple, direct_grants_lite,
  easy_retro_funding,
}
use grants_stack_indexer_v.Handlers.Rows.{StrategyTimings}
use grants_stack_indexer_v.Handlers.Services.{Services, Token, ContractCall}
use grants_stack_indexer_v.Handlers.Helpers.{
  lift, price_or_throw, calculate_amount_in_usd, read_contracts, date_of_result,
}

-- `STRATEGY_NAME`
unfoldable pub strategy_name : StrategyHandlerClass → String
strategy_name dvmd_direct_transfer = "allov2.DonationVotingMerkleDistributionDirectTransferStrategy"
strategy_name direct_allocation = "allov2.DirectAllocationStrategy"
strategy_name dg_simple = "allov2.DirectGrantsSimpleStrategy"
strategy_name direct_grants_lite = "allov2.DirectGrantsLiteStrategy"
strategy_name easy_retro_funding = "allov2.EasyRetroFundingStrategy"

abbrev pub no_timings : StrategyTimings
no_timings = record {
  applications_start_time = none;
  applications_end_time = none;
  donations_start_time = none;
  donations_end_time = none;
}

abbrev pub calls_of : String → List String → List ContractCall
calls_of address functions = map (λ f. (address, f)) functions

abbrev pub two_timings : List ℕ → StrategyTimings
two_timings results = record {
  applications_start_time = date_of_result (get_elem? results 0);
  applications_end_time = date_of_result (get_elem? results 1);
  donations_start_time = none;
  donations_end_time = none;
}

abbrev pub four_timings : List ℕ → StrategyTimings
four_timings results = record {
  applications_start_time = date_of_result (get_elem? results 0);
  applications_end_time = date_of_result (get_elem? results 1);
  donations_start_time = date_of_result (get_elem? results 2);
  donations_end_time = date_of_result (get_elem? results 3);
}

module _ {ℓ} {Json : Type 0} {S P B : Type ℓ} (services : Services Json S P B) where
  open services use {numbers, pricing_provider, evm_provider, viem}

  abbrev pub fetch_dvmd_timings : String → Action S StrategyTimings
  fetch_dvmd_timings address = do
    results ← read_contracts evm_provider (
        calls_of address (
          "registrationStartTime" ∷ "registrationEndTime" ∷ "allocationStartTime"
          ∷ "allocationEndTime" ∷ []))
    pure (four_timings results)

  abbrev pub fetch_lite_timings : String → Action S StrategyTimings
  fetch_lite_timings address = do
    results ←
        read_contracts evm_provider
          (calls_of address ("registrationStartTime" ∷ "registrationEndTime" ∷ []))
    pure (two_timings results)

  abbrev pub fetch_easy_retro_timings : String → Action S StrategyTimings
  fetch_easy_retro_timings address = do
    results ← read_contracts evm_provider (
        calls_of address
          ("registrationStartTime" ∷ "registrationEndTime" ∷ "poolStartTime" ∷ "poolEndTime" ∷ []))
    pure (four_timings results)

  -- `fetchStrategyTimings` of each class, `BaseStrategyHandler`'s where it has none of its own
  unfoldable pub fetch_strategy_timings : StrategyHandlerClass → String → Action S StrategyTimings
  fetch_strategy_timings dvmd_direct_transfer address = fetch_dvmd_timings address
  fetch_strategy_timings direct_grants_lite address = fetch_lite_timings address
  fetch_strategy_timings easy_retro_funding address = fetch_easy_retro_timings address
  fetch_strategy_timings direct_allocation address = pure no_timings
  fetch_strategy_timings dg_simple address = pure no_timings

  -- the private `getTokenAmountInUsd` of the handlers, which gives the amount alone
  unfoldable pub token_amount_in_usd : Token → ℕ → ℕ → Action S String
  token_amount_in_usd token amount timestamp = do
    found ← pricing_provider.get_token_price token.price_source_code timestamp none
    price ← price_or_throw numbers pricing_provider found
    lift (calculate_amount_in_usd numbers amount price.price_usd token.decimals none)

  abbrev pub match_amount_of : P → Token → ℕ → Action S (ℕ × String)
  match_amount_of funds token timestamp = do
    amount ← lift (viem.parse_units (numbers.to_numeric_string funds) token.decimals)
    in_usd ← token_amount_in_usd token amount timestamp
    pure (amount, in_usd)

  -- `fetchMatchAmount`
  unfoldable pub fetch_match_amount : StrategyHandlerClass → P → Token → ℕ → Action S (ℕ × String)
  unfolding token_amount_in_usd
  fetch_match_amount dvmd_direct_transfer funds token timestamp =
      match_amount_of funds token timestamp
  fetch_match_amount easy_retro_funding funds token timestamp =
      match_amount_of funds token timestamp
  fetch_match_amount _ funds token timestamp = pure (0, "0")
