-- ===== src/Handlers/Sound.antt =====
-- What all handlers have in common: they only read, but for the cache of timings, and what they return
-- is about their own chain.
pub mod Pools
pub mod Profiles
pub mod Strategies
pub mod Events
use grants_stack_indexer_v.Prelude.{
  ℕ, ◌≡◌, refl, String, Bool, true, false, Option, none, some, List, [], ◌∷◌, ◌++◌, map,
}
use grants_stack_indexer_v.Effects.{Outcome, ok, err, Action, pure, throw, continue_with, ◌>>=◌}
use grants_stack_indexer_v.Effects.Triples.{
  Any, Keeps, Sound, pure-Sound, throw-Sound, if-Sound, lift-Keeps, bind-Sound, then-Sound,
}
use grants_stack_indexer_v.Changesets.{
  Changeset, project_changeset, round_changeset, application_changeset, donation_changeset,
  insert_application_payout, insert_processed_event, insert_legacy_project, insert_attestation,
  other_changeset, ProjectChangeset, insert_project, update_project, insert_pending_project_role,
  delete_pending_project_roles, insert_project_role, delete_all_project_roles_by_role,
  delete_all_project_roles_by_role_and_address, RoundChangeset, insert_round, update_round,
  update_round_by_strategy_address, increment_round_funded_amount, increment_round_donation_stats,
  increment_round_total_distributed, insert_pending_round_role, delete_pending_round_roles,
  insert_round_role, delete_all_round_roles_by_role_and_address, ApplicationChangeset,
  insert_application, increment_application_donation_stats, update_application, DonationChangeset,
  insert_donation, insert_many_donations, RoundRoleName,
}
use grants_stack_indexer_v.Events.{AnyEvent}
use grants_stack_indexer_v.Handlers.Rows.{
  rows, Donation, PartialApplication, distribution, status_update, all_fields,
}
use grants_stack_indexer_v.Handlers.Params.{Params}
use grants_stack_indexer_v.Pricing.{TokenPrice}
use grants_stack_indexer_v.Handlers.Helpers.{
  lift, get_token, token_or_throw, get_token_amount_in_usd, price_or_throw, calculate_amount_in_usd,
}
use grants_stack_indexer_v.Handlers.Services.{Services, Token, TimingsRow, ContractCall}

abbrev pub DonationsOnChain : ℕ → List Donation → Type 0
DonationsOnChain chain [] = Unit
DonationsOnChain chain (donation ∷ donations) =
    (donation.chain_id ≡ chain) × DonationsOnChain chain donations

module _ {Json : Type 0} (chain : ℕ) where
  abbrev pub ProjectOnChain : ProjectChangeset (rows Json) → Type 0
  ProjectOnChain (insert_project project) = project.chain_id ≡ chain
  ProjectOnChain (update_project id _ _) = id ≡ chain
  ProjectOnChain (insert_pending_project_role role) = role.chain_id ≡ chain
  ProjectOnChain (delete_pending_project_roles ids) = Unit
  ProjectOnChain (insert_project_role role) = role.chain_id ≡ chain
  ProjectOnChain (delete_all_project_roles_by_role id _ _) = id ≡ chain
  ProjectOnChain (delete_all_project_roles_by_role_and_address id _ _ _) = id ≡ chain

  abbrev pub RoundOnChain : RoundChangeset (rows Json) → Type 0
  RoundOnChain (insert_round round) = round.chain_id ≡ chain
  RoundOnChain (update_round id _ _) = id ≡ chain
  RoundOnChain (update_round_by_strategy_address id _ _) = id ≡ chain
  RoundOnChain (increment_round_funded_amount id _ _ _) = id ≡ chain
  RoundOnChain (increment_round_donation_stats id _ _) = id ≡ chain
  RoundOnChain (increment_round_total_distributed id _ _) = id ≡ chain
  RoundOnChain (insert_pending_round_role role) = role.chain_id ≡ chain
  RoundOnChain (delete_pending_round_roles ids) = Unit
  RoundOnChain (insert_round_role role) = role.chain_id ≡ chain
  RoundOnChain (delete_all_round_roles_by_role_and_address id _ _ _) = id ≡ chain

  abbrev pub FieldsOnChain : PartialApplication Json → Type 0
  FieldsOnChain (all_fields row) = row.chain_id ≡ chain
  FieldsOnChain (status_update _) = Unit
  FieldsOnChain (distribution _) = Unit

  abbrev pub ApplicationOnChain : ApplicationChangeset (rows Json) → Type 0
  ApplicationOnChain (insert_application application) = application.chain_id ≡ chain
  ApplicationOnChain (increment_application_donation_stats id _ _ _) = id ≡ chain
  ApplicationOnChain (update_application id _ _ fields) = (id ≡ chain) × FieldsOnChain fields

  abbrev pub DonationOnChain : DonationChangeset (rows Json) → Type 0
  DonationOnChain (insert_donation donation) = donation.chain_id ≡ chain
  DonationOnChain (insert_many_donations donations) = DonationsOnChain chain donations

  -- The rows and keys of a changeset are of the chain, and so is a whole row that is written over one. Ids of
  -- pending roles name no chain. The chain of a project of the first version, and that of a transaction beside
  -- an attestation, are not those of the processor and may be any.
  abbrev pub OnChain : Changeset (rows Json) → Type 0
  OnChain (project_changeset c) = ProjectOnChain c
  OnChain (round_changeset c) = RoundOnChain c
  OnChain (application_changeset c) = ApplicationOnChain c
  OnChain (donation_changeset c) = DonationOnChain c
  OnChain (insert_application_payout payout) = payout.chain_id ≡ chain
  OnChain (insert_processed_event id _) = id ≡ chain
  OnChain (insert_legacy_project project) = Unit
  OnChain (insert_attestation attestation _) = attestation.chain_id ≡ chain
  OnChain (other_changeset type) = ⊥

  pub data AllOnChain : List (Changeset (rows Json)) → Type 0 where
    empty : AllOnChain []
    both :
        {c : Changeset (rows Json)} {cs : List (Changeset (rows Json))}
        → OnChain c
        → AllOnChain cs
        → AllOnChain (c ∷ cs)

  pub append-AllOnChain :
      {cs ds : List (Changeset (rows Json))} → AllOnChain cs → AllOnChain ds → AllOnChain (cs ++ ds)
  append-AllOnChain empty k = k
  append-AllOnChain (both on cs) k = both on (append-AllOnChain cs k)

  pub map-AllOnChain {κ} :
      {A : Type κ} (f : A → Changeset (rows Json)) (xs : List A)
      → ((a : A) → OnChain (f a))
      → AllOnChain (map f xs)
  map-AllOnChain f [] on = empty
  map-AllOnChain f (a ∷ xs) on = both (on a) (map-AllOnChain f xs on)

-- The services keep what `I` says of the world, and an application that is asked for on a chain is of that
-- chain.
pub record ServicesKeep {ℓ μ} {Json : Type 0} {S P B : Type ℓ} (I : S → Type μ)
    (services : Services Json S P B) : Type (ℓ ⊔ μ) where
  pub metadata : (cid : String) → Keeps I (services.get_metadata cid)
  pub price :
      (code : String) (start : ℕ) (end : Option ℕ)
      → Keeps I (services.pricing_provider.get_token_price code start end)
  pub transaction : (hash : String) → Keeps I (services.evm_provider.get_transaction_from hash)
  pub multicall : (calls : List ContractCall) → Keeps I (services.evm_provider.multicall calls)
  pub contract : (call : ContractCall) → Keeps I (services.evm_provider.read_contract call)
  pub round_by_role :
      (chain : ℕ) (name : RoundRoleName) (role : String)
      → Keeps I (services.round_repository.get_round_by_role chain name role)
  pub round_by_id :
      (chain : ℕ) (id : String)
      → Keeps I (services.round_repository.get_round_by_id_or_throw chain id)
  pub round_by_strategy :
      (chain : ℕ) (address : String)
      → Keeps I (services.round_repository.get_round_by_strategy_address chain address)
  pub round_by_strategy_or_throw :
      (chain : ℕ) (address : String)
      → Keeps I (services.round_repository.get_round_by_strategy_address_or_throw chain address)
  pub pending_round_roles :
      (chain : ℕ) (role : String)
      → Keeps I (services.round_repository.get_pending_round_roles chain role)
  pub project_by_id :
      (chain : ℕ) (id : String) → Keeps I (services.project_repository.get_project_by_id chain id)
  pub project_by_id_or_throw :
      (chain : ℕ) (id : String)
      → Keeps I (services.project_repository.get_project_by_id_or_throw chain id)
  pub project_by_anchor :
      (chain : ℕ) (anchor : String)
      → Keeps I (services.project_repository.get_project_by_anchor_or_throw chain anchor)
  pub pending_project_roles :
      (chain : ℕ) (role : String)
      → Keeps I (services.project_repository.get_pending_project_roles_by_role chain role)
  pub application_by_id :
      (id : String) (chain : ℕ) (round_id : String)
      → Keeps I (services.application_repository.get_application_by_id id chain round_id)
  pub application_by_anchor :
      (chain : ℕ) (round_id anchor : String)
      → Sound I
          (λ application. application.chain_id ≡ chain)
          (services.application_repository.get_application_by_anchor_address_or_throw chain round_id
            anchor)
  pub get_timings : (address : String) → Keeps I (services.timings_repository.get address)
  pub set_timings :
      (address : String) (row : TimingsRow) → Keeps I (services.timings_repository.set address row)

module _ {ℓ μ} {Json : Type 0} {S P B : Type ℓ} {I : S → Type μ} {services : Services Json S P B}
    (keep : ServicesKeep I services) where
  -- Sound on the chain of the handlers
  abbrev pub SoundHandler :
      (AnyEvent Params → Action S (List (Changeset (rows Json)))) → Type (ℓ ⊔ μ)
  SoundHandler handler =
      (event : AnyEvent Params) → Sound I (AllOnChain services.chain_id) (handler event)

  pub found_price :
      (found : Option (TokenPrice P))
      → Keeps I (price_or_throw services.numbers services.pricing_provider found)
  found_price none = throw-Sound
  found_price (some price) = pure-Sound tt

  pub price-Keeps :
      (token : Token) (amount timestamp : ℕ) (end : Option ℕ)
      → Keeps I (
          get_token_amount_in_usd services.numbers services.pricing_provider token amount timestamp
            end)
  unfolding get_token_amount_in_usd
  price-Keeps token amount timestamp end = then-Sound (keep.price _ _ _) (λ found.
      then-Sound (found_price found) (λ price.
        then-Sound
          (lift-Keeps
            (calculate_amount_in_usd services.numbers amount price.price_usd token.decimals none))
          (λ usd. pure-Sound tt)))
