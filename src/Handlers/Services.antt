-- ===== src/Handlers/Services.antt =====
-- `ProcessorDependencies` of packages/processors/src/types/processor.types.ts: the repositories to read
-- from and the providers. Beside them stand the libraries that the handlers call, viem, bignumber.js,
-- zod and statuses-bitmap, as functions that the model takes.
use grants_stack_indexer_v.Prelude.{ℕ, String, Bool, Option, List}
use grants_stack_indexer_v.Effects.{Outcome, Action}
use grants_stack_indexer_v.Changesets.{RoundRoleName}
use grants_stack_indexer_v.Pricing.Provider.{PricingProvider}
use grants_stack_indexer_v.Handlers.Rows.{
  JsonTimings, PendingRoundRole, PendingProjectRole, Round, Project, Application,
  AttestationTxnData,
}

-- a row of `TOKENS`
pub record Token : Type 0 where
  pub price_source_code : String
  pub address : String
  pub decimals : ℕ

-- viem; `keccak_of_text` is keccak256 of the packed text, `keccak_of_pool` of the number and "admin"
pub record Viem : Type 0 where
  pub get_address : String → Outcome String
  pub keccak_of_text : String → String
  pub keccak_of_pool : ℕ → String
  -- `pad` of the number's hexadecimal digits
  pub pad_number : ℕ → String
  pub parse_units : String → ℕ → Outcome ℕ
  -- `decodeAbiParameters` with each list of types in the sources, its tuples flattened
  pub decode_dvmd_data : String → Outcome (String × String × ℕ × String)
  pub decode_dvmd_event_data : String → Outcome (String × ℕ)
  pub decode_dg_data : String → Outcome (String × String × ℕ × ℕ × String)
  pub decode_attestation : String → Outcome (ℕ × ℕ × ℕ × ℕ × ℕ × String)

-- bignumber.js, on values `B`, with the numbers `P` of JavaScript
pub record BigNumbers {ℓ} (B P : Type ℓ) : Type ℓ where
  pub big : String → B
  pub multiplied_by : B → B → B
  pub divided_by : B → B → B
  pub pow : B → ℕ → B
  pub decimal_places : B → ℕ → B
  pub big_to_string : B → String
  -- `toFixed(0, ROUND_FLOOR)`
  pub to_fixed_floor : B → String
  -- `toString`, `1 / x` and `toNumericString` of a number
  pub number_to_string : P → String
  pub inverse : P → P
  pub to_numeric_string : P → String

-- `ProjectMetadata`, as far as the handlers look at it
pub record ProjectMetadata (Json : Type 0) : Type 0 where
  pub has_canonical : Bool
  pub type : String
  pub value : Json

-- the schemas of packages/processors/src/schemas, run by zod, and the fields of a JSON value
pub record Schemas {ℓ} (Json : Type 0) (P : Type ℓ) : Type ℓ where
  -- `metadata?.round` and `metadata?.application`
  pub round_field : Json → Option Json
  pub application_field : Json → Option Json
  -- `{}`
  pub empty_object : Json
  -- `quadraticFundingConfig.matchingFundsAvailable` of the round's metadata
  pub round_metadata : Option Json → Option P
  pub project_metadata : Option Json → Option (ProjectMetadata Json)
  -- `application.recipient` of the application's metadata
  pub application_metadata : Option Json → Option String
  pub matching_distribution : Json → Option Json
  pub simple_matching_distribution : Json → Option Json
  -- an array of the attestation's transactions; `no_attestations` is the empty one
  pub attestations : Json → List AttestationTxnData
  pub no_attestations : Json

-- `IRoundReadRepository`
pub record RoundReads {ℓ} (Json : Type 0) (S : Type ℓ) : Type ℓ where
  pub get_round_by_role :
      (chain_id : ℕ) → RoundRoleName → (role : String) → Action S (Option (Round Json))
  pub get_round_by_id_or_throw : (chain_id : ℕ) (round_id : String) → Action S (Round Json)
  pub get_round_by_strategy_address :
      (chain_id : ℕ) (strategy_address : String) → Action S (Option (Round Json))
  pub get_round_by_strategy_address_or_throw :
      (chain_id : ℕ) (strategy_address : String) → Action S (Round Json)
  pub get_pending_round_roles : (chain_id : ℕ) (role : String) → Action S (List PendingRoundRole)

-- `IProjectReadRepository`
pub record ProjectReads {ℓ} (Json : Type 0) (S : Type ℓ) : Type ℓ where
  pub get_project_by_id : (chain_id : ℕ) (project_id : String) → Action S (Option (Project Json))
  pub get_project_by_id_or_throw : (chain_id : ℕ) (project_id : String) → Action S (Project Json)
  pub get_project_by_anchor_or_throw : (chain_id : ℕ) (anchor : String) → Action S (Project Json)
  pub get_pending_project_roles_by_role :
      (chain_id : ℕ) (role : String) → Action S (List PendingProjectRole)

-- `IApplicationReadRepository`
pub record ApplicationReads {ℓ} (Json : Type 0) (S : Type ℓ) : Type ℓ where
  pub get_application_by_id :
      (id : String) (chain_id : ℕ) (round_id : String) → Action S (Option (Application Json))
  pub get_application_by_anchor_address_or_throw :
      (chain_id : ℕ) (round_id anchor : String) → Action S (Application Json)

-- a row of the cache of timings, which are JSON; the time of its creation is left out
pub record TimingsRow : Type 0 where
  pub address : String
  pub timings : JsonTimings
  pub strategy_id : String

pub record TimingsCache {ℓ} (S : Type ℓ) : Type ℓ where
  pub get : String → Action S (Option TimingsRow)
  pub set : String → TimingsRow → Action S (Unit {0})

-- a call of a contract's function: the address and the function's name
abbrev pub ContractCall : Type 0
ContractCall = String × String

pub record EvmProvider {ℓ} (S : Type ℓ) : Type ℓ where
  -- the field `from`
  pub get_transaction_from : (hash : String) → Action S String
  pub get_multicall3_address : Option String
  pub multicall : List ContractCall → Action S (List ℕ)
  pub read_contract : ContractCall → Action S ℕ

pub record Services {ℓ} (Json : Type 0) (S P B : Type ℓ) : Type ℓ where
  pub chain_id : ℕ
  -- `TOKENS[chainId]?.[tokenAddress]`
  pub tokens : ℕ → String → Option Token
  pub viem : Viem
  pub numbers : BigNumbers B P
  pub schemas : Schemas Json P
  -- `setRow(rowIndex, fullRow)` on a new bitmap of 256 bits with 4 for a status, then `getStatus(i)`
  pub status_in_row : (row_index full_row i : ℕ) → ℕ
  pub get_metadata : String → Action S (Option Json)
  pub pricing_provider : PricingProvider S P
  pub evm_provider : EvmProvider S
  pub round_repository : RoundReads Json S
  pub project_repository : ProjectReads Json S
  pub application_repository : ApplicationReads Json S
  pub timings_repository : TimingsCache S
