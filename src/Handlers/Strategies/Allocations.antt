-- ===== src/Handlers/Strategies/Allocations.antt =====
-- The handlers of AllocatedWithOrigin, AllocatedWithToken and DirectAllocated in
-- packages/processors/src/processors/strategy.
pub mod Amounts
use grants_stack_indexer_v.Prelude.{
  ℕ, String, Bool, true, false, Option, none, some, List, [], ◌∷◌, ltb, if◌then◌else◌,
}
use grants_stack_indexer_v.Effects.{Outcome, ok, err, Action, pure, continue_with, ◌>>=◌, ◌>>◌}
use grants_stack_indexer_v.Changesets.{
  Changeset, round_changeset, application_changeset, donation_changeset, insert_donation,
  insert_application_payout, increment_round_donation_stats, increment_round_total_distributed,
  increment_application_donation_stats,
}
use grants_stack_indexer_v.Events.{AnyEvent, equals}
use grants_stack_indexer_v.Processors.{Handler}
use grants_stack_indexer_v.Handlers.Rows.{Donation, rows}
use grants_stack_indexer_v.Handlers.Params.{Params}
use grants_stack_indexer_v.Handlers.Services.{Services, Token}
use grants_stack_indexer_v.Handlers.Helpers.{
  lift, new_date, get_donation_id, get_token_or_throw, get_token_amount_in_usd,
  get_usd_in_token_amount,
}
use grants_stack_indexer_v.Handlers.Strategies.Common.{parsed_or_throw}

module _ {ℓ} {Json : Type 0} {S P B : Type ℓ} (services : Services Json S P B) where
  open services use {
    chain_id, viem, schemas, numbers, pricing_provider, round_repository, project_repository,
    application_repository,
  }

  abbrev pub usd_in_match_token : Token → String → ℕ → Action S ℕ
  usd_in_match_token match_token amount_in_usd timestamp = do
    (amount, inverse_price, date) ←
        get_usd_in_token_amount numbers pricing_provider match_token amount_in_usd timestamp none
    pure amount

  -- `matchToken.address === token.address ? amount : …`
  unfoldable pub amount_in_match_token : Token → Token → ℕ → String → ℕ → Action S ℕ
  amount_in_match_token token match_token amount amount_in_usd timestamp =
      if equals match_token.address token.address
      then pure amount
      else usd_in_match_token match_token amount_in_usd timestamp

  -- the value of an amount in US dollars and in the token of the round
  unfoldable pub amounts_of : Token → Token → ℕ → ℕ → Action S (String × ℕ)
  unfolding amount_in_match_token
  amounts_of token match_token amount timestamp = do
    (amount_in_usd, time) ←
        get_token_amount_in_usd numbers pricing_provider token amount timestamp none
    in_match_token ← amount_in_match_token token match_token amount amount_in_usd timestamp
    pure (amount_in_usd, in_match_token)

  -- `DVMDAllocatedHandler`
  unfoldable pub allocated : Handler (rows Json) Params S
  unfolding amounts_of
  allocated event = do
    strategy_address ← lift (viem.get_address event.src_address)
    round ← round_repository.get_round_by_strategy_address_or_throw chain_id strategy_address
    recipient_id ← lift (viem.get_address event.params.recipient_id)
    application ←
        application_repository.get_application_by_anchor_address_or_throw chain_id round.id
          recipient_id
    token ← lift (get_token_or_throw services event.params.token)
    match_token ← lift (get_token_or_throw services round.match_token_address)
    (amount_in_usd, in_match_token) ←
        amounts_of token match_token event.params.amount event.block_timestamp
    recipient ← lift (parsed_or_throw services (schemas.application_metadata application.metadata))
    donor ← lift (viem.get_address event.params.origin)
    recipient_address ← lift (viem.get_address recipient)
    pure (
        donation_changeset (
          insert_donation (record {
            id = get_donation_id viem event.block_number event.log_index;
            chain_id = chain_id;
            round_id = round.id;
            application_id = some application.id;
            donor_address = donor;
            recipient_address = recipient_address;
            project_id = application.project_id;
            transaction_hash = event.transaction_fields.hash;
            block_number = event.block_number;
            token_address = token.address;
            amount = event.params.amount;
            amount_in_usd = amount_in_usd;
            amount_in_round_match_token = in_match_token;
            timestamp = new_date event.block_timestamp;
          }))
        ∷ round_changeset (increment_round_donation_stats chain_id round.id amount_in_usd)
        ∷ application_changeset
            (increment_application_donation_stats chain_id round.id application.id amount_in_usd)
        ∷ [])

  -- the amounts of `DGLiteAllocatedHandler`, which asks for no price of nothing
  unfoldable pub payout_amounts : Token → Token → ℕ → ℕ → Action S (String × ℕ)
  unfolding amounts_of
  payout_amounts token match_token amount timestamp =
      if ltb 0 amount then amounts_of token match_token amount timestamp else pure ("0", 0)

  -- `DGLiteAllocatedHandler`
  unfoldable pub allocated_with_token : Handler (rows Json) Params S
  unfolding payout_amounts
  allocated_with_token event = do
    strategy_address ← lift (viem.get_address event.src_address)
    round ← round_repository.get_round_by_strategy_address_or_throw chain_id strategy_address
    recipient_id ← lift (viem.get_address event.params.recipient_id)
    token_address ← lift (viem.get_address event.params.token)
    application ←
        application_repository.get_application_by_anchor_address_or_throw chain_id round.id
          recipient_id
    token ← lift (get_token_or_throw services token_address)
    match_token ← lift (get_token_or_throw services round.match_token_address)
    (amount_in_usd, in_match_token) ←
        payout_amounts token match_token event.params.amount event.block_timestamp
    sender ← lift (viem.get_address event.params.sender)
    pure (
        insert_application_payout (record {
          amount = event.params.amount;
          application_id = application.id;
          round_id = round.id;
          chain_id = chain_id;
          token_address = token_address;
          amount_in_round_match_token = in_match_token;
          amount_in_usd = amount_in_usd;
          transaction_hash = event.transaction_fields.hash;
          sender = sender;
          timestamp = new_date event.block_timestamp;
        })
        ∷ round_changeset (increment_round_total_distributed chain_id round.id in_match_token)
        ∷ [])

  -- `DirectAllocatedHandler`
  unfoldable pub direct_allocated : Handler (rows Json) Params S
  direct_allocated event = do
    strategy_address ← lift (viem.get_address event.src_address)
    round ← round_repository.get_round_by_strategy_address_or_throw chain_id strategy_address
    project ← project_repository.get_project_by_id_or_throw chain_id event.params.profile_id
    token ← lift (get_token_or_throw services event.params.token)
    sender ← lift (viem.get_address event.params.sender)
    (amount_in_usd, time) ←
        get_token_amount_in_usd numbers pricing_provider token event.params.amount
          event.block_timestamp none
    recipient_address ← lift (viem.get_address event.params.profile_owner)
    pure (
        donation_changeset (
          insert_donation (record {
            id = get_donation_id viem event.block_number event.log_index;
            chain_id = chain_id;
            round_id = round.id;
            application_id = none;
            donor_address = sender;
            recipient_address = recipient_address;
            project_id = project.id;
            transaction_hash = event.transaction_fields.hash;
            block_number = event.block_number;
            token_address = token.address;
            amount = event.params.amount;
            amount_in_usd = amount_in_usd;
            amount_in_round_match_token = 0;
            timestamp = new_date event.block_timestamp;
          }))
        ∷ round_changeset (increment_round_donation_stats chain_id round.id amount_in_usd)
        ∷ [])
