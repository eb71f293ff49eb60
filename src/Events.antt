-- ===== src/Events.antt =====
-- packages/shared/src/types/events: the events that the indexer returns, and the guards that tell the
-- contracts' events apart. The parameters of an event are of any type `P`.
mod Tests
use Prim.Native.Char.{Char, code}
use Prim.Native.String.{◌∷◌ as ◌∷ₛ◌, [] as empty_text}
use grants_stack_indexer_v.Prelude.{
  ℕ, String, Bool, true, false, ◌&&◌, ◌||◌, Option, none, some, List, [], ◌∷◌,
}
use grants_stack_indexer_v.Prelude.Maps.{number_keys, text_keys, map_get}

pub data ContractName : Type 0 where
  strategy allo registry profile_migration attestation_network : ContractName

-- `TransactionFields`
pub record TransactionFields : Type 0 where
  pub hash : String
  pub transaction_index : ℕ
  pub from_address : Option String

-- `IndexerFetchedEvent`, and `ProcessorEvent` with the field `strategyId` that the orchestrator adds
pub record AnyEvent {ℓ} (P : Type ℓ) : Type ℓ where
  pub block_number : ℕ
  pub block_timestamp : ℕ
  pub chain_id : ℕ
  pub contract_name : ContractName
  pub event_name : String
  pub log_index : ℕ
  pub params : P
  pub src_address : String
  pub transaction_fields : TransactionFields
  pub strategy_id : Option String

-- `===` on texts
abbrev pub equals : String → String → Bool
equals a b = text_keys.same a b

-- `array.includes(name)`
unfoldable pub includes : List String → String → Bool
includes [] name = false
includes (n ∷ names) name = equals n name || includes names name

abbrev pub allo_events : List String
allo_events =
    "PoolCreated" ∷ "PoolFunded" ∷ "PoolMetadataUpdated" ∷ "RoleGranted" ∷ "RoleRevoked" ∷ []

abbrev pub registry_events : List String
registry_events =
    "ProfileCreated" ∷ "ProfileMetadataUpdated" ∷ "ProfileNameUpdated" ∷ "ProfileOwnerUpdated"
    ∷ "RoleGranted" ∷ "RoleRevoked" ∷ []

abbrev pub strategy_events : List String
strategy_events =
    "RegisteredWithSender" ∷ "RegisteredWithData" ∷ "DistributedWithRecipientAddress"
    ∷ "DistributedWithData" ∷ "DistributedWithFlowRate" ∷ "TimestampsUpdated"
    ∷ "TimestampsUpdatedWithRegistrationAndAllocation" ∷ "AllocatedWithOrigin"
    ∷ "AllocatedWithToken" ∷ "AllocatedWithData" ∷ "AllocatedWithVotes" ∷ "AllocatedWithStatus"
    ∷ "DistributionUpdated" ∷ "DistributionUpdatedWithMerkleRoot" ∷ "FundsDistributed"
    ∷ "RecipientStatusUpdatedWithApplicationId" ∷ "RecipientStatusUpdatedWithRecipientStatus"
    ∷ "RecipientStatusUpdatedWithFullRow" ∷ "UpdatedRegistrationWithStatus" ∷ "UpdatedRegistration"
    ∷ "UpdatedRegistrationWithApplicationId" ∷ "DirectAllocated" ∷ []

abbrev pub profile_migration_events : List String
profile_migration_events = "ProfileMigrated" ∷ []

abbrev pub attestation_network_events : List String
attestation_network_events = "OnAttested" ∷ []

-- the names that the guard of a contract admits
abbrev pub event_names : ContractName → List String
event_names allo = allo_events
event_names registry = registry_events
event_names strategy = strategy_events
event_names profile_migration = profile_migration_events
event_names attestation_network = attestation_network_events

-- `event.contractName === …`
abbrev pub is_contract : ContractName → ContractName → Bool
is_contract strategy strategy = true
is_contract allo allo = true
is_contract registry registry = true
is_contract profile_migration profile_migration = true
is_contract attestation_network attestation_network = true
is_contract _ _ = false

module _ {ℓ} {P : Type ℓ} where
  -- `isAlloEvent`, `isStrategyEvent` and the others, by the contract
  abbrev pub is_event_of : ContractName → AnyEvent P → Bool
  is_event_of contract event =
      is_contract event.contract_name contract && includes (event_names contract) event.event_name

-- the capital letters by their numbers, and the small ones
abbrev pub small_letters : List (ℕ × Char)
small_letters =
    (b'A', "a")
    ∷ (b'B', "b")
    ∷ (b'C', "c")
    ∷ (b'D', "d")
    ∷ (b'E', "e")
    ∷ (b'F', "f")
    ∷ (b'G', "g")
    ∷ (b'H', "h")
    ∷ (b'I', "i")
    ∷ (b'J', "j")
    ∷ (b'K', "k")
    ∷ (b'L', "l")
    ∷ (b'M', "m")
    ∷ (b'N', "n")
    ∷ (b'O', "o")
    ∷ (b'P', "p")
    ∷ (b'Q', "q")
    ∷ (b'R', "r")
    ∷ (b'S', "s")
    ∷ (b'T', "t")
    ∷ (b'U', "u")
    ∷ (b'V', "v")
    ∷ (b'W', "w")
    ∷ (b'X', "x")
    ∷ (b'Y', "y")
    ∷ (b'Z', "z")
    ∷ []

-- `toLowerCase`, on the letters of ASCII: the texts are hexadecimal
abbrev pub lower_char : Option Char → Char → Char
lower_char none c = c
lower_char (some d) c = d

unfoldable pub to_lower_case : String → String
to_lower_case empty_text = empty_text
to_lower_case (c ∷ₛ s) = lower_char (map_get (code c) small_letters) c ∷ₛ to_lower_case s
