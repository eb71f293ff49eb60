-- ===== src/Repositories.antt =====
-- packages/repository/src/interfaces: what the loader calls on the repositories, as records of actions.
-- A call takes the transaction's connection, or none and then runs on its own.
use grants_stack_indexer_v.Prelude.{ℕ, String, Option, List}
use grants_stack_indexer_v.Effects.{Action}
use grants_stack_indexer_v.Changesets.{Entities, NewProcessedEvent, ProjectRoleName, RoundRoleName}

-- an action that returns nothing, on a connection
abbrev pub Write {ℓ} : Type ℓ → Type ℓ → Type ℓ
Write S Tx = Option Tx → Action S (Unit {0})

-- the two forms of `where` of `updateRound`
pub data RoundKey : Type 0 where
  by_id : (round_id : String) (chain_id : ℕ) → RoundKey
  by_strategy : (strategy_address : String) (chain_id : ℕ) → RoundKey

pub record ProjectRepository {ℓ} (E : Entities) (S Tx : Type ℓ) : Type ℓ where
  pub insert_project : E.Project → Write S Tx
  pub update_project : (project_id : String) (chain_id : ℕ) → E.PartialProject → Write S Tx
  pub insert_project_role : E.ProjectRole → Write S Tx
  pub delete_many_project_roles :
      (chain_id : ℕ) (project_id : String)
      → ProjectRoleName
      → (address : Option String) → Write S Tx
  pub insert_pending_project_role : E.PendingProjectRole → Write S Tx
  pub delete_many_pending_project_roles : (ids : List ℕ) → Write S Tx

pub record RoundRepository {ℓ} (E : Entities) (S Tx : Type ℓ) : Type ℓ where
  pub insert_round : E.Round → Write S Tx
  pub update_round : RoundKey → E.PartialRound → Write S Tx
  pub increment_round_funds :
      (chain_id : ℕ) (round_id : String) (amount : ℕ) (amount_in_usd : String) → Write S Tx
  pub increment_round_donation_stats : (chain_id : ℕ) (round_id amount_in_usd : String) → Write S Tx
  pub increment_round_total_distributed :
      (chain_id : ℕ) (round_id : String) (amount : ℕ) → Write S Tx
  pub insert_round_role : E.RoundRole → Write S Tx
  pub delete_many_round_roles_by_role_and_address :
      (chain_id : ℕ) (round_id : String) → RoundRoleName → (address : String) → Write S Tx
  pub insert_pending_round_role : E.PendingRoundRole → Write S Tx
  pub delete_many_pending_round_roles : (ids : List ℕ) → Write S Tx

pub record ApplicationRepository {ℓ} (E : Entities) (S Tx : Type ℓ) : Type ℓ where
  pub insert_application : E.Application → Write S Tx
  pub update_application :
      (application_id : String) (chain_id : ℕ) (round_id : String)
      → E.PartialApplication
      → Write S Tx
  pub increment_application_donation_stats :
      (application_id : String) (chain_id : ℕ) (round_id amount_in_usd : String) → Write S Tx

pub record DonationRepository {ℓ} (E : Entities) (S Tx : Type ℓ) : Type ℓ where
  pub insert_donation : E.Donation → Write S Tx
  pub insert_many_donations : List E.Donation → Write S Tx

-- `ProcessedEvent`
pub record ProcessedEvent (E : Entities) : Type 0 where
  pub chain_id : ℕ
  pub event : NewProcessedEvent E

pub record EventRegistryRepository {ℓ} (E : Entities) (S Tx : Type ℓ) : Type ℓ where
  pub get_last_processed_event : (chain_id : ℕ) → Action S (Option (ProcessedEvent E))
  pub save_last_processed_event : (chain_id : ℕ) → NewProcessedEvent E → Write S Tx

-- the argument `repositories` of `DataLoader`; a repository with one method is that method
pub record Repositories {ℓ} (E : Entities) (S Tx : Type ℓ) : Type ℓ where
  pub project : ProjectRepository E S Tx
  pub round : RoundRepository E S Tx
  pub application : ApplicationRepository E S Tx
  pub donation : DonationRepository E S Tx
  pub insert_application_payout : E.ApplicationPayout → Write S Tx
  pub event_registry : EventRegistryRepository E S Tx
  pub insert_attestation : E.Attestation → List E.AttestationTxn → Write S Tx
  pub insert_legacy_project : E.LegacyProject → Write S Tx

-- `ITransactionManager`, as far as the loader uses it: the function that runs returns nothing
pub record TransactionManager {ℓ} (S Tx : Type ℓ) : Type ℓ where
  pub run_in_transaction : (Tx → Action S (Unit {0})) → Action S (Unit {0})
