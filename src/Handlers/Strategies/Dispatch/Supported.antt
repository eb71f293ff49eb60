-- ===== src/Handlers/Strategies/Dispatch/Supported.antt =====
-- Which events each strategy of packages/processors/src/processors/strategy has a handler for.
use grants_stack_indexer_v.Prelude.{
  ◌≡◌, refl, String, Bool, true, false, ◌||◌, List, [], ◌∷◌, if◌then◌else◌,
}
use grants_stack_indexer_v.Effects.{unsupported_event, Action, throw}
use grants_stack_indexer_v.Changesets.{Changeset}
use grants_stack_indexer_v.Events.{AnyEvent, equals, includes}
use grants_stack_indexer_v.Processors.{
  StrategyHandlerClass, dvmd_direct_transfer, direct_allocation, dg_simple, direct_grants_lite,
  easy_retro_funding,
}
use grants_stack_indexer_v.Handlers.Rows.{rows}
use grants_stack_indexer_v.Handlers.Params.{Params}
use grants_stack_indexer_v.Handlers.Services.{Services}
use grants_stack_indexer_v.Handlers.Strategies.Dispatch.{
  handle_dvmd, handle_direct_allocation, handle_dg_simple, handle_direct_grants_lite,
  handle_easy_retro_funding, handle_strategy,
}

-- the events that a strategy of the class supports
unfoldable pub supported_names : StrategyHandlerClass → List String
supported_names dvmd_direct_transfer =
    "RegisteredWithSender" ∷ "DistributedWithRecipientAddress" ∷ "AllocatedWithOrigin"
    ∷ "TimestampsUpdatedWithRegistrationAndAllocation" ∷ "DistributionUpdatedWithMerkleRoot"
    ∷ "FundsDistributed" ∷ "UpdatedRegistrationWithStatus" ∷ "RecipientStatusUpdatedWithFullRow"
    ∷ []
supported_names direct_allocation = "DirectAllocated" ∷ []
supported_names dg_simple =
    "TimestampsUpdated" ∷ "RegisteredWithSender" ∷ "DistributedWithRecipientAddress" ∷ []
supported_names direct_grants_lite =
    "RecipientStatusUpdatedWithFullRow" ∷ "RegisteredWithSender" ∷ "UpdatedRegistrationWithStatus"
    ∷ "TimestampsUpdated" ∷ "AllocatedWithToken" ∷ []
supported_names easy_retro_funding =
    "RegisteredWithSender" ∷ "UpdatedRegistrationWithStatus" ∷ "RecipientStatusUpdatedWithFullRow"
    ∷ "TimestampsUpdatedWithRegistrationAndAllocation" ∷ "DistributionUpdated" ∷ "FundsDistributed"
    ∷ []

module _ {ℓ} {Json : Type 0} {S P B : Type ℓ} (services : Services Json S P B)
    (event : AnyEvent Params) where
  -- a `switch` over the names that ends in the exception
  data Switch : List String → Action S (List (Changeset (rows Json))) → Type ℓ where
    otherwise : Switch [] (throw unsupported_event)
    case :
        (name : String) {names : List String} (m : Action S (List (Changeset (rows Json))))
        {n : Action S (List (Changeset (rows Json)))}
        → Switch names n
        → Switch (name ∷ names) (if equals name event.event_name then m else n)

  skip :
      (m : Action S (List (Changeset (rows Json)))) {n : Action S (List (Changeset (rows Json)))}
      (b c : Bool)
      → (b || c) ≡ false
      → (c ≡ false → n ≡ throw unsupported_event)
      → (if b then m else n) ≡ throw unsupported_event
  skip m true c none_of others = absurd (cc none_of)
  skip m false c none_of others = others none_of

  no_case :
      {names : List String} {m : Action S (List (Changeset (rows Json)))}
      → Switch names m
      → includes names event.event_name ≡ false
      → m ≡ throw unsupported_event
  unfolding includes
  no_case otherwise none_of = refl
  no_case (case name {names} m cases) none_of =
      skip m (equals name event.event_name) (includes names event.event_name) none_of
        (no_case cases)

  Switch-of :
      (strategy_class : StrategyHandlerClass)
      → Switch (supported_names strategy_class) (handle_strategy services strategy_class event)
  unfolding handle_strategy handle_dvmd handle_direct_allocation handle_dg_simple
      handle_direct_grants_lite handle_easy_retro_funding supported_names
  Switch-of dvmd_direct_transfer =
      case _ _
        (case _ _ (case _ _ (case _ _ (case _ _ (case _ _ (case _ _ (case _ _ otherwise)))))))
  Switch-of direct_allocation = case _ _ otherwise
  Switch-of dg_simple = case _ _ (case _ _ (case _ _ otherwise))
  Switch-of direct_grants_lite = case _ _ (case _ _ (case _ _ (case _ _ (case _ _ otherwise))))
  Switch-of easy_retro_funding =
      case _ _ (case _ _ (case _ _ (case _ _ (case _ _ (case _ _ otherwise)))))

  -- handle of a strategy refuses every event that its class does not support with UnsupportedEventException,
  -- whatever the services do, and leaves the world as it is.
  handle_strategy_refused :
      (strategy_class : StrategyHandlerClass)
      → includes (supported_names strategy_class) event.event_name ≡ false
      → handle_strategy services strategy_class event ≡ throw unsupported_event
  handle_strategy_refused strategy_class h = no_case (Switch-of strategy_class) h
