-- ===== src/DataLoader.antt =====
-- packages/data-flow/src/data-loader: the handlers of changesets, and `DataLoader.applyChanges`.
pub mod Order
pub mod Atomic
pub mod Outcomes
pub mod Sample
mod Tests
use grants_stack_indexer_v.Prelude.{ℕ, String, Option, none, some, Bool, true, false, List, [], ◌∷◌}
use grants_stack_indexer_v.Effects.{
  Error, native_error, invalid_changeset, Outcome, ok, err, Action, ◌>>◌, pure, throw,
}
use grants_stack_indexer_v.Changesets.{
  Entities, ProjectChangeset, insert_project, update_project, insert_pending_project_role,
  delete_pending_project_roles, insert_project_role, delete_all_project_roles_by_role,
  delete_all_project_roles_by_role_and_address, RoundChangeset, insert_round, update_round,
  update_round_by_strategy_address, increment_round_funded_amount, increment_round_donation_stats,
  increment_round_total_distributed, insert_pending_round_role, delete_pending_round_roles,
  insert_round_role, delete_all_round_roles_by_role_and_address, ApplicationChangeset,
  insert_application, increment_application_donation_stats, update_application, DonationChangeset,
  insert_donation, insert_many_donations, Changeset, changeset_type, project_changeset,
  round_changeset, application_changeset, donation_changeset, insert_application_payout,
  insert_processed_event, insert_legacy_project, insert_attestation, other_changeset,
}
use grants_stack_indexer_v.Repositories.{
  Write, by_id, by_strategy, ProjectRepository, RoundRepository, ApplicationRepository,
  DonationRepository, Repositories, TransactionManager,
}

module _ {ℓ} {E : Entities} {S Tx : Type ℓ} where
  -- `createProjectHandlers`
  unfoldable pub project_handlers : ProjectRepository E S Tx → ProjectChangeset E → Write S Tx
  project_handlers r (insert_project project) tx = r.insert_project project tx
  project_handlers r (update_project chain_id project_id project) tx =
      r.update_project project_id chain_id project tx
  project_handlers r (insert_pending_project_role role) tx = r.insert_pending_project_role role tx
  project_handlers r (delete_pending_project_roles ids) tx =
      r.delete_many_pending_project_roles ids tx
  project_handlers r (insert_project_role role) tx = r.insert_project_role role tx
  project_handlers r (delete_all_project_roles_by_role chain_id project_id role) tx =
      r.delete_many_project_roles chain_id project_id role none tx
  project_handlers r (delete_all_project_roles_by_role_and_address chain_id project_id role address)
        tx =
      r.delete_many_project_roles chain_id project_id role (some address) tx

  -- `createRoundHandlers`
  unfoldable pub round_handlers : RoundRepository E S Tx → RoundChangeset E → Write S Tx
  round_handlers r (insert_round round) tx = r.insert_round round tx
  round_handlers r (update_round chain_id round_id round) tx =
      r.update_round (by_id round_id chain_id) round tx
  round_handlers r (update_round_by_strategy_address chain_id strategy_address none) tx = pure tt
  round_handlers r (update_round_by_strategy_address chain_id strategy_address (some round)) tx =
      r.update_round (by_strategy strategy_address chain_id) round tx
  round_handlers r (increment_round_funded_amount chain_id round_id amount amount_in_usd) tx =
      r.increment_round_funds chain_id round_id amount amount_in_usd tx
  round_handlers r (increment_round_donation_stats chain_id round_id amount_in_usd) tx =
      r.increment_round_donation_stats chain_id round_id amount_in_usd tx
  round_handlers r (increment_round_total_distributed chain_id round_id amount) tx =
      r.increment_round_total_distributed chain_id round_id amount tx
  round_handlers r (insert_pending_round_role role) tx = r.insert_pending_round_role role tx
  round_handlers r (delete_pending_round_roles ids) tx = r.delete_many_pending_round_roles ids tx
  round_handlers r (insert_round_role role) tx = r.insert_round_role role tx
  round_handlers r (delete_all_round_roles_by_role_and_address chain_id round_id role address) tx =
      r.delete_many_round_roles_by_role_and_address chain_id round_id role address tx

  -- `createApplicationHandlers`
  unfoldable pub application_handlers :
      ApplicationRepository E S Tx → ApplicationChangeset E → Write S Tx
  application_handlers r (insert_application application) tx = r.insert_application application tx
  application_handlers r (update_application chain_id round_id application_id application) tx =
      r.update_application application_id chain_id round_id application tx
  application_handlers r
        (increment_application_donation_stats chain_id round_id application_id amount_in_usd) tx =
      r.increment_application_donation_stats application_id chain_id round_id amount_in_usd tx

  -- `createDonationHandlers`
  unfoldable pub donation_handlers : DonationRepository E S Tx → DonationChangeset E → Write S Tx
  donation_handlers r (insert_donation donation) tx = r.insert_donation donation tx
  donation_handlers r (insert_many_donations donations) tx = r.insert_many_donations donations tx

  -- `this.handlers[changeset.type]` on the changeset; `none` where there is no such handler
  unfoldable pub handler : Repositories E S Tx → Changeset E → Option (Write S Tx)
  handler r (project_changeset c) = some (project_handlers r.project c)
  handler r (round_changeset c) = some (round_handlers r.round c)
  handler r (application_changeset c) = some (application_handlers r.application c)
  handler r (donation_changeset c) = some (donation_handlers r.donation c)
  handler r (insert_application_payout payout) = some (r.insert_application_payout payout)
  handler r (insert_processed_event chain_id event) =
      some (r.event_registry.save_last_processed_event chain_id event)
  handler r (insert_legacy_project project) = some (r.insert_legacy_project project)
  handler r (insert_attestation attestation transactions) =
      some (r.insert_attestation attestation transactions)
  handler r (other_changeset type) = none

  -- the types of the changesets that have no handler
  unfoldable pub invalid_types : Repositories E S Tx → List (Changeset E) → List String
  invalid_types r [] = []
  invalid_types r (changeset ∷ changesets) =
      let others = invalid_types r changesets in
      elim (handler r changeset) [ none ↦ changeset_type changeset ∷ others | some write ↦ others ]

  -- `await this.handlers[changeset.type](changeset, tx)`; a handler that is missing cannot be called
  unfoldable pub apply : Repositories E S Tx → Tx → Changeset E → Action S (Unit {0})
  apply r tx changeset = elim (handler r changeset) [
    | none ↦ throw (native_error "not a function")
    | some write ↦ write (some tx)
  ]

  -- the loop, which an error leaves
  unfoldable pub apply_in_order :
      Repositories E S Tx → List (Changeset E) → Tx → Action S (Unit {0})
  apply_in_order r [] tx s = (ok tt, s)
  apply_in_order r (changeset ∷ changesets) tx s =
      (apply r tx changeset >> apply_in_order r changesets tx) s

  unfoldable pub run_or_refuse :
      Repositories E S Tx
      → TransactionManager S Tx
      → List (Changeset E)
      → List String
      → Action S (Unit {0})
  run_or_refuse r manager changesets [] = manager.run_in_transaction (apply_in_order r changesets)
  run_or_refuse r manager changesets (type ∷ types) = throw (invalid_changeset (type ∷ types))

  unfoldable pub apply_changes :
      Repositories E S Tx → TransactionManager S Tx → List (Changeset E) → Action S (Unit {0})
  apply_changes r manager changesets =
      run_or_refuse r manager changesets (invalid_types r changesets)
