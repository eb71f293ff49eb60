-- ===== src/Changesets.antt =====
-- packages/repository/src/types/changeset.types.ts: what the handlers of events ask the loader to do.
-- The loader only passes the rows of the tables on, so their types are a parameter, `Entities`.
use grants_stack_indexer_v.Prelude.{ℕ, String, Option, List}

-- the roles of packages/repository/src/types/project.types.ts and round.types.ts
pub data ProjectRoleName : Type 0 where
  owner member : ProjectRoleName

pub data RoundRoleName : Type 0 where
  admin manager : RoundRoleName

-- the types of rows, `NewProject` and the like
pub record Entities : Type 1 where
  pub Project : Type 0
  pub PartialProject : Type 0
  pub ProjectRole : Type 0
  pub PendingProjectRole : Type 0
  pub Round : Type 0
  pub PartialRound : Type 0
  pub RoundRole : Type 0
  pub PendingRoundRole : Type 0
  pub Application : Type 0
  pub PartialApplication : Type 0
  pub Donation : Type 0
  pub ApplicationPayout : Type 0
  pub Attestation : Type 0
  pub AttestationTxn : Type 0
  pub LegacyProject : Type 0
  pub RawEvent : Type 0

-- `NewProcessedEvent`
pub record NewProcessedEvent (E : Entities) : Type 0 where
  pub block_number : ℕ
  pub block_timestamp : ℕ
  pub log_index : ℕ
  pub raw_event : Option E.RawEvent

-- The constructors take the fields of `args` in their order.
pub data ProjectChangeset (E : Entities) : Type 0 where
  insert_project : E.Project → ProjectChangeset E
  update_project : (chain_id : ℕ) (project_id : String) → E.PartialProject → ProjectChangeset E
  insert_pending_project_role : E.PendingProjectRole → ProjectChangeset E
  delete_pending_project_roles : (ids : List ℕ) → ProjectChangeset E
  insert_project_role : E.ProjectRole → ProjectChangeset E
  delete_all_project_roles_by_role :
      (chain_id : ℕ) (project_id : String) → ProjectRoleName → ProjectChangeset E
  delete_all_project_roles_by_role_and_address :
      (chain_id : ℕ) (project_id : String)
      → ProjectRoleName
      → (address : String) → ProjectChangeset E

pub data RoundChangeset (E : Entities) : Type 0 where
  insert_round : E.Round → RoundChangeset E
  update_round : (chain_id : ℕ) (round_id : String) → E.PartialRound → RoundChangeset E
  -- the round can be `undefined` at run time, which the handler tests
  update_round_by_strategy_address :
      (chain_id : ℕ) (strategy_address : String) → Option E.PartialRound → RoundChangeset E
  increment_round_funded_amount :
      (chain_id : ℕ) (round_id : String) (funded_amount : ℕ) (funded_amount_in_usd : String)
      → RoundChangeset E
  increment_round_donation_stats :
      (chain_id : ℕ) (round_id amount_in_usd : String) → RoundChangeset E
  increment_round_total_distributed :
      (chain_id : ℕ) (round_id : String) (amount : ℕ) → RoundChangeset E
  insert_pending_round_role : E.PendingRoundRole → RoundChangeset E
  delete_pending_round_roles : (ids : List ℕ) → RoundChangeset E
  insert_round_role : E.RoundRole → RoundChangeset E
  delete_all_round_roles_by_role_and_address :
      (chain_id : ℕ) (round_id : String) → RoundRoleName → (address : String) → RoundChangeset E

pub data ApplicationChangeset (E : Entities) : Type 0 where
  insert_application : E.Application → ApplicationChangeset E
  increment_application_donation_stats :
      (chain_id : ℕ) (round_id application_id amount_in_usd : String) → ApplicationChangeset E
  update_application :
      (chain_id : ℕ) (round_id application_id : String)
      → E.PartialApplication
      → ApplicationChangeset E

pub data DonationChangeset (E : Entities) : Type 0 where
  insert_donation : E.Donation → DonationChangeset E
  insert_many_donations : List E.Donation → DonationChangeset E

pub data Changeset (E : Entities) : Type 0 where
  project_changeset : ProjectChangeset E → Changeset E
  round_changeset : RoundChangeset E → Changeset E
  application_changeset : ApplicationChangeset E → Changeset E
  donation_changeset : DonationChangeset E → Changeset E
  insert_application_payout : E.ApplicationPayout → Changeset E
  insert_processed_event : (chain_id : ℕ) → NewProcessedEvent E → Changeset E
  insert_legacy_project : E.LegacyProject → Changeset E
  insert_attestation : E.Attestation → List E.AttestationTxn → Changeset E
  -- a value whose `type` is none of these, against which `applyChanges` is guarded
  other_changeset : (type : String) → Changeset E

-- the field `type`
module _ {E : Entities} where
  unfoldable pub project_type : ProjectChangeset E → String
  project_type (insert_project _) = "InsertProject"
  project_type (update_project _ _ _) = "UpdateProject"
  project_type (insert_pending_project_role _) = "InsertPendingProjectRole"
  project_type (delete_pending_project_roles _) = "DeletePendingProjectRoles"
  project_type (insert_project_role _) = "InsertProjectRole"
  project_type (delete_all_project_roles_by_role _ _ _) = "DeleteAllProjectRolesByRole"
  project_type (delete_all_project_roles_by_role_and_address _ _ _ _) =
      "DeleteAllProjectRolesByRoleAndAddress"

  unfoldable pub round_type : RoundChangeset E → String
  round_type (insert_round _) = "InsertRound"
  round_type (update_round _ _ _) = "UpdateRound"
  round_type (update_round_by_strategy_address _ _ _) = "UpdateRoundByStrategyAddress"
  round_type (increment_round_funded_amount _ _ _ _) = "IncrementRoundFundedAmount"
  round_type (increment_round_donation_stats _ _ _) = "IncrementRoundDonationStats"
  round_type (increment_round_total_distributed _ _ _) = "IncrementRoundTotalDistributed"
  round_type (insert_pending_round_role _) = "InsertPendingRoundRole"
  round_type (delete_pending_round_roles _) = "DeletePendingRoundRoles"
  round_type (insert_round_role _) = "InsertRoundRole"
  round_type (delete_all_round_roles_by_role_and_address _ _ _ _) =
      "DeleteAllRoundRolesByRoleAndAddress"

  unfoldable pub application_type : ApplicationChangeset E → String
  application_type (insert_application _) = "InsertApplication"
  application_type (increment_application_donation_stats _ _ _ _) =
      "IncrementApplicationDonationStats"
  application_type (update_application _ _ _ _) = "UpdateApplication"

  unfoldable pub donation_type : DonationChangeset E → String
  donation_type (insert_donation _) = "InsertDonation"
  donation_type (insert_many_donations _) = "InsertManyDonations"

  unfoldable pub changeset_type : Changeset E → String
  changeset_type (project_changeset c) = project_type c
  changeset_type (round_changeset c) = round_type c
  changeset_type (application_changeset c) = application_type c
  changeset_type (donation_changeset c) = donation_type c
  changeset_type (insert_application_payout _) = "InsertApplicationPayout"
  changeset_type (insert_processed_event _ _) = "InsertProcessedEvent"
  changeset_type (insert_legacy_project _) = "InsertLegacyProject"
  changeset_type (insert_attestation _ _) = "InsertAttestation"
  changeset_type (other_changeset type) = type
