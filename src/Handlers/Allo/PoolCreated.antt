-- ===== src/Handlers/Allo/PoolCreated.antt =====
-- packages/processors/src/processors/allo/handlers/poolCreated.handler.ts
pub mod Pending
pub mod Timings
use grants_stack_indexer_v.Prelude.{
  ℕ, String, Bool, true, false, Option, none, some, List, [], ◌∷◌, ◌++◌, map, ltb, ◌==◌, ◌||◌,
  if◌then◌else◌,
}
use grants_stack_indexer_v.Prelude.Numerals.{to_string}
use grants_stack_indexer_v.Effects.{Outcome, ok, err, Action, pure, continue_with, ◌>>=◌, ◌>>◌}
use grants_stack_indexer_v.Changesets.{
  Changeset, round_changeset, RoundRoleName, admin, manager, insert_round, insert_round_role,
  delete_pending_round_roles,
}
use grants_stack_indexer_v.Events.{AnyEvent, equals}
use grants_stack_indexer_v.Processors.{Handler, StrategyHandlerClass, create_handler, text_or_empty}
use grants_stack_indexer_v.Handlers.Rows.{
  Round, StrategyTimings, PendingRoundRole, json_timings, cast_timings, rows,
}
use grants_stack_indexer_v.Handlers.Params.{Params}
use grants_stack_indexer_v.Handlers.Services.{Services, Token, TimingsRow}
use grants_stack_indexer_v.Handlers.Helpers.{
  lift, get_token, manager_role_of, admin_role_of, new_date,
}
use grants_stack_indexer_v.Handlers.StrategyReads.{
  strategy_name, no_timings, fetch_strategy_timings, token_amount_in_usd, fetch_match_amount,
}
use grants_stack_indexer_v.Handlers.Allo.{field_of, or_else}

abbrev pub zero_address : String
zero_address = "0x0000000000000000000000000000000000000000"

abbrev pub allo_native_token : String
allo_native_token = "0xEeeeeEeeeEeEeeEeEeEeeEEEeeeeEeeeeeeeEEeE"

-- `isAlloNativeToken(address) ? zeroAddress : address`
unfoldable pub match_token_address_of : String → String
match_token_address_of address = if equals allo_native_token address then zero_address else address

-- `[...new Set(ids)]`, in the order of their first places
unfoldable pub has_id : ℕ → List ℕ → Bool
has_id n [] = false
has_id n (m ∷ ms) = m == n || has_id n ms

unfoldable pub add_ids : List ℕ → List ℕ → List ℕ
unfolding has_id
add_ids set [] = set
add_ids set (n ∷ ns) = add_ids (if has_id n set then set else set ++ n ∷ []) ns

module _ {ℓ} {Json : Type 0} {S P B : Type ℓ} (services : Services Json S P B) where
  open services use {chain_id, viem, schemas, round_repository, timings_repository}

  -- the timings that the cache has as JSON, or those that the strategy tells, whose JSON is then cached
  abbrev pub timings_or_fetch :
      StrategyHandlerClass → String → String → Option TimingsRow → Action S StrategyTimings
  timings_or_fetch class address strategy_id (some row) = pure (cast_timings row.timings)
  timings_or_fetch class address strategy_id none = do
    timings ← fetch_strategy_timings services class address
    timings_repository.set address
        (record { address = address; timings = json_timings timings; strategy_id = strategy_id })
    pure timings

  unfoldable pub strategy_timings :
      Option StrategyHandlerClass → String → String → Action S StrategyTimings
  strategy_timings none address strategy_id = pure no_timings
  strategy_timings (some class) address strategy_id =
      timings_repository.get address >>= timings_or_fetch class address strategy_id

  abbrev pub match_amount :
      Option StrategyHandlerClass → Option P → Option Token → ℕ → Action S (ℕ × String)
  match_amount (some class) (some funds) (some token) timestamp =
      fetch_match_amount services class funds token timestamp
  match_amount _ _ _ timestamp = pure (0, "0")

  abbrev pub funded_amount_in_usd : Option Token → ℕ → ℕ → Action S String
  funded_amount_in_usd none amount timestamp = pure "0"
  funded_amount_in_usd (some token) amount timestamp =
      if ltb 0 amount then token_amount_in_usd services token amount timestamp else pure "0"

  abbrev pub sender_of : String → Option String → Action S String
  sender_of hash none = services.evm_provider.get_transaction_from hash
  sender_of hash (some address) = pure address

  -- the roles of the pool, those that wait for it among the pending ones: one hash after the other
  abbrev pub role_changes :
      String → RoundRoleName → List PendingRoundRole → List (Changeset (rows Json))
  role_changes round_id name pending =
      map
        (λ p. round_changeset (
          insert_round_role (record {
            chain_id = chain_id;
            round_id = round_id;
            address = p.row.address;
            role = name;
            created_at_block = p.row.created_at_block;
          })))
        pending

  abbrev pub ids_of : List PendingRoundRole → List ℕ
  ids_of pending = add_ids [] (map (λ p. p.id) pending)

  abbrev pub delete_changes : List ℕ → List (Changeset (rows Json))
  delete_changes [] = []
  delete_changes (id ∷ ids) = round_changeset (delete_pending_round_roles (id ∷ ids)) ∷ []

  -- `roleHash === adminRole ? "admin" : "manager"`, at the manager's hash
  abbrev pub manager_name : ℕ → RoundRoleName
  manager_name pool_id =
      if equals (admin_role_of viem pool_id) (manager_role_of viem pool_id) then admin else manager

  -- `handlePendingRoles`
  unfoldable pub handle_pending_roles : ℕ → Action S (List (Changeset (rows Json)))
  unfolding add_ids
  handle_pending_roles pool_id = do
    admins ← round_repository.get_pending_round_roles chain_id (admin_role_of viem pool_id)
    managers ← round_repository.get_pending_round_roles chain_id (manager_role_of viem pool_id)
    pure (
        role_changes (to_string pool_id) admin admins
        ++ (role_changes (to_string pool_id) (manager_name pool_id) managers
            ++ delete_changes (ids_of (admins ++ managers))))

  abbrev pub grants_stack_tag : Option P → List String
  grants_stack_tag none = []
  grants_stack_tag (some _) = "grants-stack" ∷ []

  abbrev pub name_of : Option StrategyHandlerClass → String
  name_of none = ""
  name_of (some class) = strategy_name class

  -- what the reads have found, for the new round
  abbrev pub new_round :
      AnyEvent Params
      → Option Json
      → Option P
      → String
      → StrategyTimings
      → ℕ × String
      → String
      → String
      → Round Json
  new_round event metadata parsed token_address timings match funded_in_usd created_by = record {
    chain_id = chain_id;
    id = to_string event.params.pool_id;
    tags = "allo-v2" ∷ grants_stack_tag parsed;
    total_donations_count = 0;
    total_amount_donated_in_usd = "0";
    unique_donors_count = 0;
    match_token_address = token_address;
    match_amount = match.0;
    match_amount_in_usd = match.1;
    funded_amount = event.params.amount;
    funded_amount_in_usd = funded_in_usd;
    application_metadata_cid = event.params.metadata_pointer;
    application_metadata =
        or_else (field_of schemas.application_field metadata) schemas.empty_object;
    round_metadata_cid = event.params.metadata_pointer;
    round_metadata = field_of schemas.round_field metadata;
    timings = timings;
    manager_role = manager_role_of viem event.params.pool_id;
    admin_role = admin_role_of viem event.params.pool_id;
    strategy_address = event.params.strategy;
    strategy_id = text_or_empty event.strategy_id;
    strategy_name = name_of (create_handler (text_or_empty event.strategy_id));
    created_by_address = created_by;
    created_at_block = event.block_number;
    updated_at_block = event.block_number;
    project_id = event.params.profile_id;
    total_distributed = 0;
    ready_for_payout_transaction = none;
    matching_distribution = none;
    timestamp = new_date event.block_timestamp;
  }

  -- `PoolCreatedHandler.handle`, up to the new round
  unfoldable pub created_round : AnyEvent Params → Action S (Round Json)
  unfolding strategy_timings
  created_round event = do
    metadata ← services.get_metadata event.params.metadata_pointer
    let parsed = schemas.round_metadata (field_of schemas.round_field metadata)
    checksummed ← lift (viem.get_address event.params.token)
    let token_address = match_token_address_of checksummed
    let class = create_handler (text_or_empty event.strategy_id)
    let token = get_token services token_address
    timings ← strategy_timings class event.params.strategy (text_or_empty event.strategy_id)
    match ← match_amount class parsed token event.block_timestamp
    funded_in_usd ← funded_amount_in_usd token event.params.amount event.block_timestamp
    sender ← sender_of event.transaction_fields.hash event.transaction_fields.from_address
    created_by ← lift (viem.get_address sender)
    pure (new_round event metadata parsed token_address timings match funded_in_usd created_by)

  -- `PoolCreatedHandler`
  unfoldable pub pool_created : Handler (rows Json) Params S
  pool_created event = do
    round ← created_round event
    roles ← handle_pending_roles event.params.pool_id
    pure (round_changeset (insert_round round) ∷ roles)
