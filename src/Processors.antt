-- ===== src/Processors.antt =====
-- packages/processors/src/processors and packages/data-flow/src/eventsProcessor.ts: which handler gets an
-- event. The handlers themselves are parameters here.
pub mod Dispatch
pub mod Strategies
mod Tests
use grants_stack_indexer_v.Prelude.{
  ℕ, String, Bool, true, false, Option, none, some, List, [], ◌∷◌, if◌then◌else◌,
}
use grants_stack_indexer_v.Prelude.Maps.{text_keys, map_get}
use grants_stack_indexer_v.Effects.{
  Error, unsupported_event, unsupported_strategy, invalid_event, Outcome, ok, err, Action, throw,
}
use grants_stack_indexer_v.Changesets.{Entities, Changeset}
use grants_stack_indexer_v.Events.{
  AnyEvent, allo, registry, strategy, profile_migration, attestation_network, is_event_of, equals,
  to_lower_case,
}

-- `handle` of a handler, made for an event
abbrev pub Handler {ℓ κ} : Entities → Type ℓ → Type κ → Type (ℓ ⊔ κ)
Handler E P S = AnyEvent P → Action S (List (Changeset E))

pub record AlloHandlers {ℓ κ} (E : Entities) (P : Type ℓ) (S : Type κ) : Type (ℓ ⊔ κ) where
  pub pool_created : Handler E P S
  pub pool_funded : Handler E P S
  pub role_granted : Handler E P S
  pub pool_metadata_updated : Handler E P S
  pub role_revoked : Handler E P S

pub record RegistryHandlers {ℓ κ} (E : Entities) (P : Type ℓ) (S : Type κ) : Type (ℓ ⊔ κ) where
  pub profile_created : Handler E P S
  pub profile_metadata_updated : Handler E P S
  pub profile_name_updated : Handler E P S
  pub profile_owner_updated : Handler E P S
  pub role_granted : Handler E P S
  pub role_revoked : Handler E P S

-- the classes of `mapping.ts`
pub data StrategyHandlerClass : Type 0 where
  dvmd_direct_transfer direct_allocation dg_simple direct_grants_lite easy_retro_funding :
      StrategyHandlerClass

-- `strategyIdToHandler`
abbrev pub strategy_id_to_handler : List (String × StrategyHandlerClass)
strategy_id_to_handler =
    ("0x6f9291df02b2664139cec5703c124e4ebce32879c74b6297faa1468aa5ff9ebf", dvmd_direct_transfer)
    ∷ ("0x2f46bf157821dc41daa51479e94783bb0c8699eac63bf75ec450508ab03867ce", dvmd_direct_transfer)
    ∷ ("0x2f0250d534b2d59b8b5cfa5eb0d0848a59ccbf5de2eaf72d2ba4bfe73dce7c6b", dvmd_direct_transfer)
    ∷ ("0x9fa6890423649187b1f0e8bf4265f0305ce99523c3d11aa36b35a54617bb0ec0", dvmd_direct_transfer)
    ∷ ("0x4cd0051913234cdd7d165b208851240d334786d6e5afbb4d0eec203515a9c6f3", direct_allocation)
    ∷ ("0x263cb916541b6fc1fb5543a244829ccdba75264b097726e6ecc3c3cfce824bf5", dg_simple)
    ∷ ("0x53fb9d3bce0956ca2db5bb1441f5ca23050cb1973b33789e04a5978acfd9ca93", dg_simple)
    ∷ ("0x103732a8e473467a510d4128ee11065262bdd978f0d9dad89ba68f2c56127e27", direct_grants_lite)
    ∷ ("0x060ffd6c79f918819a622248c6823443412aedea610cc19c89d28dadcdef7fba", easy_retro_funding)
    ∷ []

unfoldable pub get_handler : String → Option StrategyHandlerClass
get_handler strategy_id = map_get (to_lower_case strategy_id) strategy_id_to_handler

abbrev pub is_defined {ℓ} : {A : Type ℓ} → Option A → Bool
is_defined none = false
is_defined (some _) = true

unfoldable pub exists_handler : String → Bool
exists_handler strategy_id = is_defined (map_get (to_lower_case strategy_id) strategy_id_to_handler)

-- `StrategyHandlerFactory.createHandler`, up to the class
unfoldable pub create_handler : String → Option StrategyHandlerClass
create_handler strategy_id = get_handler (to_lower_case strategy_id)

-- the handlers of each contract
pub record Handlers {ℓ κ} (E : Entities) (P : Type ℓ) (S : Type κ) : Type (ℓ ⊔ κ) where
  pub allo : AlloHandlers E P S
  pub registry : RegistryHandlers E P S
  pub strategy : StrategyHandlerClass → Handler E P S
  pub on_attested : Handler E P S
  pub profile_migrated : Handler E P S

-- `event.strategyId`, which is set on the events that reach the strategy processor
abbrev pub text_or_empty : Option String → String
text_or_empty none = ""
text_or_empty (some text) = text

module _ {ℓ κ} {E : Entities} {P : Type ℓ} {S : Type κ} where
  -- `AlloProcessor.process`
  unfoldable pub process_allo : AlloHandlers E P S → Handler E P S
  process_allo h event =
      if equals "PoolCreated" event.event_name
      then h.pool_created event
      else if equals "PoolFunded" event.event_name
      then h.pool_funded event
      else if equals "RoleGranted" event.event_name
      then h.role_granted event
      else if equals "PoolMetadataUpdated" event.event_name
      then h.pool_metadata_updated event
      else if equals "RoleRevoked" event.event_name
      then h.role_revoked event
      else throw unsupported_event

  -- `RegistryProcessor.process`
  unfoldable pub process_registry : RegistryHandlers E P S → Handler E P S
  process_registry h event =
      if equals "ProfileCreated" event.event_name
      then h.profile_created event
      else if equals "ProfileMetadataUpdated" event.event_name
      then h.profile_metadata_updated event
      else if equals "ProfileNameUpdated" event.event_name
      then h.profile_name_updated event
      else if equals "ProfileOwnerUpdated" event.event_name
      then h.profile_owner_updated event
      else if equals "RoleGranted" event.event_name
      then h.role_granted event
      else if equals "RoleRevoked" event.event_name
      then h.role_revoked event
      else throw unsupported_event

  -- `StrategyProcessor.process`
  unfoldable pub process_strategy : (StrategyHandlerClass → Handler E P S) → Handler E P S
  process_strategy h event = elim (create_handler (text_or_empty event.strategy_id)) [
    | none ↦ throw unsupported_strategy
    | some handler_class ↦ h handler_class event
  ]

  -- `GitcoinAttestationNetworkProcessor.process`
  unfoldable pub process_attestation : Handler E P S → Handler E P S
  process_attestation h event =
      if equals "OnAttested" event.event_name then h event else throw unsupported_event

  -- `AlloV1ToV2ProfileMigrationProcessor.process`
  unfoldable pub process_migration : Handler E P S → Handler E P S
  process_migration h event =
      if equals "ProfileMigrated" event.event_name then h event else throw unsupported_event

  -- `EventsProcessor.processEvent`
  unfoldable pub process_event : Handlers E P S → Handler E P S
  process_event h event =
      if is_event_of allo event
      then process_allo h.allo event
      else if is_event_of registry event
      then process_registry h.registry event
      else if is_event_of strategy event
      then process_strategy h.strategy event
      else if is_event_of attestation_network event
      then process_attestation h.on_attested event
      else if is_event_of profile_migration event
      then process_migration h.profile_migrated event
      else throw invalid_event
