-- ===== src/Handlers/Strategies/Common.antt =====
-- packages/processors/src/processors/strategy/common, and the handler of DistributionUpdated of
-- easyRetroFunding/handlers.
pub mod FullRow
use grants_stack_indexer_v.Prelude.{
  ℕ, zero, suc, ◌+◌, ◌*◌, String, Bool, true, false, Option, none, some, List, [], ◌∷◌, ◌++◌, map,
  if◌then◌else◌,
}
use grants_stack_indexer_v.Prelude.Numerals.{to_string}
use grants_stack_indexer_v.Effects.{
  native_error, retriable, Outcome, ok, err, Action, pure, throw, continue_with, ◌>>=◌, ◌>>◌,
}
use grants_stack_indexer_v.Changesets.{
  Changeset, round_changeset, application_changeset, increment_round_total_distributed,
  update_round_by_strategy_address, update_application,
}
use grants_stack_indexer_v.Events.{AnyEvent}
use grants_stack_indexer_v.Processors.{Handler}
use grants_stack_indexer_v.Handlers.Rows.{
  Round, Application, ready_for_payout, distribution, status_update, rows,
}
use grants_stack_indexer_v.Handlers.Params.{Params}
use grants_stack_indexer_v.Handlers.Services.{Services}
use grants_stack_indexer_v.Handlers.Helpers.{
  lift, is_valid_application_status, status_of, create_status_update,
}

-- the items of a row of the bitmap: 256 bits with 4 for a status
abbrev pub items_per_row : ℕ
items_per_row = 64

module _ {ℓ} {Json : Type 0} {S P B : Type ℓ} (services : Services Json S P B) where
  open services use {
    chain_id, viem, schemas, round_repository, application_repository, status_in_row,
  }

  -- without a round there is only a log line
  abbrev pub distributed_in : ℕ → Option (Round Json) → List (Changeset (rows Json))
  distributed_in amount none = []
  distributed_in amount (some round) =
      round_changeset (increment_round_total_distributed chain_id round.id amount) ∷ []

  -- `BaseDistributedHandler`
  unfoldable pub distributed : Handler (rows Json) Params S
  distributed event = do
    strategy_address ← lift (viem.get_address event.src_address)
    round ← round_repository.get_round_by_strategy_address chain_id strategy_address
    pure (distributed_in event.params.amount round)

  -- `MetadataNotFound`, a `RetriableError`
  abbrev pub metadata_or_throw : Option Json → Outcome Json
  metadata_or_throw none = err (retriable none)
  metadata_or_throw (some metadata) = ok metadata

  -- `MetadataParsingFailed`
  abbrev pub parsed_or_throw {κ} : {A : Type κ} → Option A → Outcome A
  parsed_or_throw none = err (native_error "Failed to parse application metadata")
  parsed_or_throw (some a) = ok a

  -- what the two handlers of a distribution have in common, with the schema of each
  unfoldable pub distribution_updated_by : (Json → Option Json) → Handler (rows Json) Params S
  distribution_updated_by schema event = do
    strategy_address ← lift (viem.get_address event.src_address)
    found ← services.get_metadata event.params.metadata_pointer
    raw ← lift (metadata_or_throw found)
    parsed ← lift (parsed_or_throw (schema raw))
    pure (
        round_changeset (
          update_round_by_strategy_address chain_id strategy_address
            (some (ready_for_payout event.transaction_fields.hash parsed)))
        ∷ [])

  -- `BaseDistributionUpdatedHandler` and `ERFDistributionUpdatedHandler`
  unfoldable pub distribution_updated : Handler (rows Json) Params S
  unfolding distribution_updated_by
  distribution_updated = distribution_updated_by schemas.matching_distribution

  unfoldable pub simple_distribution_updated : Handler (rows Json) Params S
  unfolding distribution_updated_by
  simple_distribution_updated = distribution_updated_by schemas.simple_matching_distribution

  -- `BaseFundsDistributedHandler`
  unfoldable pub funds_distributed : Handler (rows Json) Params S
  funds_distributed event = do
    strategy_address ← lift (viem.get_address event.src_address)
    round ← round_repository.get_round_by_strategy_address_or_throw chain_id strategy_address
    anchor ← lift (viem.get_address event.params.recipient_id)
    application ←
        application_repository.get_application_by_anchor_address_or_throw chain_id round.id anchor
    pure (
        application_changeset (
          update_application chain_id round.id application.id
            (distribution event.transaction_fields.hash))
        ∷ round_changeset (increment_round_total_distributed chain_id round.id event.params.amount)
        ∷ [])

  abbrev pub found_with : ℕ → Option (Application Json) → List (Application Json × ℕ)
  found_with status none = []
  found_with status (some application) = (application, status) ∷ []

  -- what the loop of `getApplicationsToUpdate` does at an index
  unfoldable pub application_at : ℕ → ℕ → ℕ → String → Action S (List (Application Json × ℕ))
  application_at row_index full_row i round_id =
      if is_valid_application_status (status_in_row row_index full_row i)
      then (application_repository.get_application_by_id (to_string i) chain_id round_id
          >>= λ found. pure (found_with (status_in_row row_index full_row i) found))
      else pure []

  -- the loop, from an index on
  unfoldable pub applications_from : ℕ → ℕ → ℕ → ℕ → String → Action S (List (Application Json × ℕ))
  unfolding application_at
  applications_from row_index full_row zero i round_id = pure []
  applications_from row_index full_row (suc items) i round_id = do
    here ← application_at row_index full_row i round_id
    others ← applications_from row_index full_row items (i + 1) round_id
    pure (here ++ others)

  -- `getApplicationsToUpdate`
  unfoldable pub get_applications_to_update :
      ℕ → ℕ → String → Action S (List (Application Json × ℕ))
  unfolding applications_from
  get_applications_to_update row_index full_row round_id =
      applications_from row_index full_row items_per_row (row_index * items_per_row) round_id

  abbrev pub status_change : AnyEvent Params → String → Application Json × ℕ → Changeset (rows Json)
  status_change event round_id (application, status) = application_changeset (
      update_application chain_id round_id application.id (
        status_update (
          create_status_update application (status_of status) event.block_number
            event.block_timestamp)))

  -- `BaseRecipientStatusUpdatedHandler`
  unfoldable pub recipient_status_updated : Handler (rows Json) Params S
  unfolding get_applications_to_update
  recipient_status_updated event = do
    strategy_address ← lift (viem.get_address event.src_address)
    round ← round_repository.get_round_by_strategy_address_or_throw chain_id strategy_address
    applications ← get_applications_to_update event.params.row_index event.params.full_row round.id
    pure (map (status_change event round.id) applications)
