-- ===== src/Handlers/Allo.antt =====
-- packages/processors/src/processors/allo/handlers: the handlers of the events of Allo.
pub mod PoolCreated
pub mod Roles
use grants_stack_indexer_v.Prelude.{
  ℕ, ◌++◌, String, Bool, true, false, Option, none, some, List, [], ◌∷◌, map, ltb, if◌then◌else◌,
}
use grants_stack_indexer_v.Prelude.Numerals.{to_string}
use grants_stack_indexer_v.Effects.{
  native_error, Outcome, ok, err, Action, pure, throw, continue_with, ◌>>=◌, ◌>>◌,
}
use grants_stack_indexer_v.Changesets.{
  Changeset, round_changeset, RoundRoleName, admin, manager, update_round,
  increment_round_funded_amount, insert_pending_round_role, insert_round_role,
  delete_all_round_roles_by_role_and_address,
}
use grants_stack_indexer_v.Events.{AnyEvent, to_lower_case}
use grants_stack_indexer_v.Processors.{Handler}
use grants_stack_indexer_v.Handlers.Rows.{Round, match_and_metadata, rows}
use grants_stack_indexer_v.Handlers.Params.{Params}
use grants_stack_indexer_v.Handlers.Services.{Services, Token}
use grants_stack_indexer_v.Handlers.Helpers.{
  lift, get_token, token_or_throw, get_token_amount_in_usd,
}

-- `metadata?.field`, and `?? {}`
abbrev pub field_of : {Json : Type 0} → (Json → Option Json) → Option Json → Option Json
field_of field none = none
field_of field (some json) = field json

abbrev pub or_else : {Json : Type 0} → Option Json → Json → Json
or_else none default = default
or_else (some json) default = json

module _ {ℓ} {Json : Type 0} {S P B : Type ℓ} (services : Services Json S P B) where
  open services use {chain_id, viem, schemas, round_repository}

  -- `PoolFundedHandler`
  unfoldable pub pool_funded : Handler (rows Json) Params S
  pool_funded event = do
    round ← round_repository.get_round_by_id_or_throw chain_id (to_string event.params.pool_id)
    token ← lift (token_or_throw services (get_token services round.match_token_address))
    (amount_in_usd, time) ←
        get_token_amount_in_usd services.numbers services.pricing_provider token event.params.amount
          event.block_timestamp none
    pure (
        round_changeset
          (increment_round_funded_amount chain_id round.id event.params.amount amount_in_usd)
        ∷ [])

  -- the match amount of `PoolMetadataUpdatedHandler`, which stays as it is without a token
  abbrev pub match_of : Round Json → ℕ → Option P → Option Token → Action S (ℕ × String)
  match_of round timestamp (some funds) (some token) = do
    amount ← lift (viem.parse_units (services.numbers.to_numeric_string funds) token.decimals)
    (in_usd, time) ←
        get_token_amount_in_usd services.numbers services.pricing_provider token amount timestamp
          none
    pure (amount, in_usd)
  match_of round timestamp _ _ = pure (round.match_amount, round.match_amount_in_usd)

  -- `PoolMetadataUpdatedHandler`
  unfoldable pub pool_metadata_updated : Handler (rows Json) Params S
  pool_metadata_updated event = do
    metadata ← services.get_metadata event.params.metadata_pointer
    round ← round_repository.get_round_by_id_or_throw chain_id (to_string event.params.pool_id)
    (match_amount, match_amount_in_usd) ←
        match_of round event.block_timestamp
          (schemas.round_metadata (field_of schemas.round_field metadata))
          (get_token services round.match_token_address)
    pure (
        round_changeset (
          update_round chain_id (to_string event.params.pool_id) (
            match_and_metadata match_amount match_amount_in_usd event.params.metadata_pointer
              (or_else (field_of schemas.application_field metadata) schemas.empty_object)
              event.params.metadata_pointer
              (or_else (field_of schemas.round_field metadata) schemas.empty_object)))
        ∷ [])

  abbrev pub as_role : RoundRoleName → Option (Round Json) → Option (Round Json × RoundRoleName)
  as_role role none = none
  as_role role (some round) = some (round, role)

  abbrev pub or_manager :
      String → Option (Round Json) → Action S (Option (Round Json × RoundRoleName))
  or_manager role (some round) = pure (some (round, admin))
  or_manager role none = do
    found ← round_repository.get_round_by_role chain_id manager role
    pure (as_role manager found)

  -- a round whose role is the one granted or revoked, the admin's role before the manager's
  unfoldable pub find_round_by_role : String → Action S (Option (Round Json × RoundRoleName))
  find_round_by_role role =
      round_repository.get_round_by_role chain_id admin role >>= or_manager role

  abbrev pub granted :
      AnyEvent Params → String → Option (Round Json × RoundRoleName) → Changeset (rows Json)
  granted event account (some (round, name)) = round_changeset (
      insert_round_role (record {
        chain_id = chain_id;
        round_id = round.id;
        address = account;
        role = name;
        created_at_block = event.block_number;
      }))
  granted event account none = round_changeset (
      insert_pending_round_role (record {
        chain_id = chain_id;
        role = to_lower_case event.params.role;
        address = account;
        created_at_block = event.block_number;
      }))

  -- `RoleGrantedHandler`
  unfoldable pub role_granted : Handler (rows Json) Params S
  unfolding find_round_by_role
  role_granted event = do
    account ← lift (viem.get_address event.params.account)
    found ← find_round_by_role (to_lower_case event.params.role)
    pure (granted event account found ∷ [])

  -- without a round there is only a warning
  abbrev pub revoked : String → Option (Round Json × RoundRoleName) → List (Changeset (rows Json))
  revoked account (some (round, name)) =
      round_changeset (delete_all_round_roles_by_role_and_address chain_id round.id name account)
      ∷ []
  revoked account none = []

  -- `RoleRevokedHandler`
  unfoldable pub role_revoked : Handler (rows Json) Params S
  unfolding find_round_by_role
  role_revoked event = do
    account ← lift (viem.get_address event.params.account)
    found ← find_round_by_role (to_lower_case event.params.role)
    pure (revoked account found)
