-- ===== src/Orchestrator/Handling/Skips.antt =====
-- `handleEvent` of orchestrator.ts on the events of strategies.
use grants_stack_indexer_v.Prelude.{◌≡◌, refl, ap, String, true, false, none, some, [], ◌∷◌}
use grants_stack_indexer_v.Effects.{ok}
use grants_stack_indexer_v.Changesets.{Entities, insert_processed_event}
use grants_stack_indexer_v.DataLoader.{apply_changes}
use grants_stack_indexer_v.Events.{AnyEvent, allo, strategy, is_contract, includes, strategy_events}
use grants_stack_indexer_v.Processors.{exists_handler}
use grants_stack_indexer_v.Orchestrator.{Dependencies}
use grants_stack_indexer_v.Orchestrator.Handling.{
  beside, set_strategy_id, enhance_strategy_id, get_or_fetch_strategy_id, get_strategy_address,
  handle_enhanced, handle_event, load, operation, new_processed_event, with_processed,
}
use grants_stack_indexer_v.Orchestrator.Handling.Taken.{with_id}

module _ {ℓ} {E : Entities} {P S Tx : Type ℓ} (d : Dependencies E P S Tx) where
  enhanced :
      (event : AnyEvent P) (id : String) (s t : S)
      → is_contract event.contract_name allo ≡ false
      → is_contract event.contract_name strategy ≡ true
      → includes strategy_events event.event_name ≡ true
      → get_or_fetch_strategy_id d event.src_address s ≡ (ok id, t)
      → enhance_strategy_id d (event, s) ≡ (ok tt, (with_id (some id) event, t))
  unfolding enhance_strategy_id get_strategy_address set_strategy_id
  enhanced event id s t at_allo at_strategy known found =
      rw (at_allo, at_strategy, known) (ap (set_strategy_id event) found)

  skipped :
      (event : AnyEvent P) (id : String) (t : S)
      → is_contract event.contract_name allo ≡ false
      → is_contract event.contract_name strategy ≡ true
      → exists_handler id ≡ false
      → handle_enhanced d (with_id (some id) event, t) ≡ (ok none, (with_id (some id) event, t))
  unfolding handle_enhanced
  skipped event id t at_allo at_strategy unhandled = rw (at_allo, at_strategy, unhandled) refl

  -- An event of a strategy whose id, from the registry or else from the contract at the address that
  -- emitted the event, has no handler, is skipped: no processor runs, and the only changeset that is applied
  -- records it as processed, with the strategy id that was found.
  pub operation_skips :
      (event : AnyEvent P) (id : String) (s t : S)
      → event.contract_name ≡ strategy
      → includes strategy_events event.event_name ≡ true
      → get_or_fetch_strategy_id d event.src_address s ≡ (ok id, t)
      → exists_handler id ≡ false
      → operation d (event, s)
        ≡ beside (with_id (some id) event) (
            apply_changes d.repositories d.transaction_manager
              (insert_processed_event d.chain_id (new_processed_event d (with_id (some id) event))
                ∷ [])
              t)
  unfolding operation handle_event load with_processed
  operation_skips event id s t from_strategy known found unhandled =
      let at_allo : is_contract event.contract_name allo ≡ false =
        ap (λ c. is_contract c allo) from_strategy in
      let at_strategy : is_contract event.contract_name strategy ≡ true =
        ap (λ c. is_contract c strategy) from_strategy in
      rw
        (
          enhanced event id s t at_allo at_strategy known found,
          skipped event id t at_allo at_strategy unhandled,
        )
        refl
