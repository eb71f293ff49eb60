-- ===== src/Handlers/Helpers.antt =====
-- packages/processors/src/helpers and src/processors/strategy/helpers: dates, amounts, roles, the status
-- of an application, ids and decoders.
pub mod Dates
pub mod Ids
pub mod Statuses
use grants_stack_indexer_v.Prelude.{
  ℕ, zero, suc, ◌+◌, ◌-◌, ◌*◌, ◌^◌, ◌≡◌, String, Bool, true, false, ◌&&◌, ◌||◌, Option, none, some,
  List, [], ◌∷◌, ◌++◌, ltb, leb, get_elem?, if◌then◌else◌,
}
use grants_stack_indexer_v.Prelude.Numerals.{to_string, big_int}
use Prim.Native.String.{◌++◌ as ◌++ₛ◌}
use grants_stack_indexer_v.Effects.{
  native_error, retriable, Outcome, ok, err, Action, pure, throw, continue_with, ◌>>=◌, ◌>>◌,
}
use grants_stack_indexer_v.Pricing.{TokenPrice}
use grants_stack_indexer_v.Pricing.Provider.{PricingProvider}
use grants_stack_indexer_v.Events.{equals}
use grants_stack_indexer_v.Handlers.Rows.{
  Date, at, invalid_date, StrategyTimings, ApplicationStatus, pending, approved, rejected,
  cancelled, in_review, StatusSnapshot, StatusUpdate, Application,
}
use grants_stack_indexer_v.Handlers.Services.{
  Token, Viem, BigNumbers, Services, ContractCall, EvmProvider,
}

-- `new Date(ms)`: a date lies within 8.64e15 milliseconds of the epoch
unfoldable pub new_date : ℕ → Date
new_date ms = if leb ms 8640000000000000 then at ms else invalid_date

abbrev pub uint64_max : ℕ
uint64_max = 18446744073709551615

unfoldable pub is_milliseconds : ℕ → Bool
is_milliseconds timestamp = leb 10000000000 timestamp

-- the timestamps that the handlers read are not negative
unfoldable pub get_date_from_timestamp : ℕ → Option Date
unfolding new_date is_milliseconds
get_date_from_timestamp timestamp =
    if ltb timestamp uint64_max
    then some
        (if is_milliseconds timestamp then new_date timestamp else new_date (timestamp * 1000))
    else none

-- `isValidApplicationStatus`, and the name in the enum
unfoldable pub is_valid_application_status : ℕ → Bool
is_valid_application_status status = leb 1 status && leb status 5

-- `ApplicationStatus[status]`, used on valid numbers
unfoldable pub status_of : ℕ → ApplicationStatus
status_of (suc zero) = pending
status_of (suc (suc zero)) = approved
status_of (suc (suc (suc zero))) = rejected
status_of (suc (suc (suc (suc zero)))) = cancelled
status_of _ = in_review

unfoldable pub same_status : ApplicationStatus → ApplicationStatus → Bool
same_status pending pending = true
same_status approved approved = true
same_status rejected rejected = true
same_status cancelled cancelled = true
same_status in_review in_review = true
same_status _ _ = false

-- `createStatusUpdate`
unfoldable pub create_status_update :
    {Json : Type 0} → Application Json → ApplicationStatus → ℕ → ℕ → StatusUpdate
unfolding new_date
create_status_update application new_status block_number block_timestamp = record {
  status = new_status;
  status_updated_at_block = block_number;
  status_snapshots =
      if same_status application.status new_status
      then application.status_snapshots
      else application.status_snapshots
        ++ record {
          status = new_status;
          updated_at_block = to_string block_number;
          updated_at = new_date block_timestamp;
        }
          ∷ [];
}

-- a function of a library that can throw
abbrev pub lift {ℓ κ} : {S : Type ℓ} {A : Type κ} → Outcome A → Action S A
lift outcome s = (outcome, s)

-- `getDonationId`
unfoldable pub get_donation_id : Viem → ℕ → ℕ → String
get_donation_id viem block_number log_index =
    viem.keccak_of_text (to_string block_number ++ₛ "-" ++ₛ to_string log_index)

-- `getRoundRoles`
unfoldable pub manager_role_of : Viem → ℕ → String
manager_role_of viem pool_id = viem.pad_number pool_id

unfoldable pub admin_role_of : Viem → ℕ → String
admin_role_of viem pool_id = viem.keccak_of_pool pool_id

-- `DVMDApplicationData` and `DGApplicationData`, as far as they are used
pub record DecodedApplication : Type 0 where
  pub anchor_address : String
  pub recipient_address : String
  pub pointer : String

pub record DecodedExtendedApplication : Type 0 where
  pub application : DecodedApplication
  pub recipients_counter : String

abbrev pub application_of : Outcome (String × String × ℕ × String) → Outcome DecodedApplication
application_of (err e) = err e
application_of (ok (anchor, recipient, protocol, pointer)) =
    ok (record { anchor_address = anchor; recipient_address = recipient; pointer = pointer })

abbrev pub with_counter : ℕ → Outcome DecodedApplication → Outcome DecodedExtendedApplication
with_counter counter (err e) = err e
with_counter counter (ok application) =
    ok (record { application = application; recipients_counter = to_string counter })

module _ (viem : Viem) where
  unfoldable pub decode_dvmd_application_data : String → Outcome DecodedApplication
  decode_dvmd_application_data encoded = application_of (viem.decode_dvmd_data encoded)

  unfoldable pub decode_dvmd_extended_application_data : String → Outcome DecodedExtendedApplication
  unfolding decode_dvmd_application_data
  decode_dvmd_extended_application_data encoded = elim (viem.decode_dvmd_event_data encoded) [
    | err e ↦ err e
    | ok (bytes, counter) ↦ with_counter counter (decode_dvmd_application_data bytes)
  ]

  unfoldable pub decode_dg_application_data : String → Outcome DecodedApplication
  decode_dg_application_data encoded = elim (viem.decode_dg_data encoded) [
    | err e ↦ err e
    | ok (recipient, anchor, amount, protocol, pointer) ↦
        ok (record { anchor_address = anchor; recipient_address = recipient; pointer = pointer })
  ]

-- `BigInt(text)`, which throws a SyntaxError
abbrev pub big_int_or_throw : Option ℕ → Outcome ℕ
big_int_or_throw none = err (native_error "SyntaxError")
big_int_or_throw (some n) = ok n

module _ {ℓ} {P B : Type ℓ} (numbers : BigNumbers B P) where
  -- amount · price / 10^decimals
  abbrev pub usd_value : ℕ → P → ℕ → B
  usd_value amount price decimals =
      numbers.divided_by
        (numbers.multiplied_by (numbers.big (to_string amount))
          (numbers.big (numbers.number_to_string price)))
        (numbers.pow (numbers.big "10") decimals)

  unfoldable pub calculate_amount_in_usd : ℕ → P → ℕ → Option ℕ → Outcome String
  calculate_amount_in_usd amount price decimals none =
      ok (numbers.big_to_string (usd_value amount price decimals))
  calculate_amount_in_usd amount price decimals (some truncate) =
      if ltb 18 truncate
      then err (native_error "Truncate decimals must be between 0 and 18")
      else ok (
          numbers.big_to_string (numbers.decimal_places (usd_value amount price decimals) truncate))

  unfoldable pub calculate_amount_in_token : String → P → ℕ → Outcome ℕ
  calculate_amount_in_token amount_in_usd price decimals = big_int_or_throw (
      big_int (
        numbers.to_fixed_floor (
          numbers.divided_by
            (numbers.multiplied_by (numbers.big amount_in_usd)
              (numbers.pow (numbers.big "10") decimals))
            (numbers.big (numbers.number_to_string price)))))

module _ {ℓ} {S P B : Type ℓ} (numbers : BigNumbers B P)
    (pricing_provider : PricingProvider S P) where
  -- `TokenPriceNotFoundError` is no `RetriableError`
  abbrev pub price_or_throw : Option (TokenPrice P) → Action S (TokenPrice P)
  price_or_throw none = throw (native_error "Token price not found")
  price_or_throw (some price) = pure price

  -- `getTokenAmountInUsd`: the amount and the time of the price
  unfoldable pub get_token_amount_in_usd : Token → ℕ → ℕ → Option ℕ → Action S (String × ℕ)
  get_token_amount_in_usd token amount timestamp timestamp_end = do
    found ← pricing_provider.get_token_price token.price_source_code timestamp timestamp_end
    price ← price_or_throw found
    in_usd ← lift (calculate_amount_in_usd numbers amount price.price_usd token.decimals none)
    pure (in_usd, price.timestamp_ms)

  -- `getUsdInTokenAmount`: the amount, the inverse price and its date
  unfoldable pub get_usd_in_token_amount : Token → String → ℕ → Option ℕ → Action S (ℕ × P × Date)
  unfolding new_date
  get_usd_in_token_amount token amount_in_usd timestamp timestamp_end = do
    found ← pricing_provider.get_token_price token.price_source_code timestamp timestamp_end
    price ← price_or_throw found
    amount ← lift (calculate_amount_in_token numbers amount_in_usd price.price_usd token.decimals)
    pure (amount, numbers.inverse price.price_usd, new_date price.timestamp_ms)

-- `getToken` and `getTokenOrThrow` on the chain of the handler
module _ {ℓ} {Json : Type 0} {S P B : Type ℓ} (services : Services Json S P B) where
  abbrev pub get_token : String → Option Token
  get_token address = services.tokens services.chain_id address

  abbrev pub token_or_throw : Option Token → Outcome Token
  token_or_throw none = err (native_error "Unknown token")
  token_or_throw (some token) = ok token

  unfoldable pub get_token_or_throw : String → Outcome Token
  get_token_or_throw address = token_or_throw (get_token address)

-- the reads of a contract, one after the other where the code makes them at the same time
module _ {ℓ} {S : Type ℓ} (evm_provider : EvmProvider S) where
  unfoldable pub read_all : List ContractCall → Action S (List ℕ)
  read_all [] = pure []
  read_all (call ∷ calls) = do
    result ← evm_provider.read_contract call
    results ← read_all calls
    pure (result ∷ results)

  abbrev pub is_some {κ} : {A : Type κ} → Option A → Bool
  is_some none = false
  is_some (some _) = true

  unfoldable pub read_contracts : List ContractCall → Action S (List ℕ)
  unfolding read_all
  read_contracts calls =
      if is_some evm_provider.get_multicall3_address
      then evm_provider.multicall calls
      else read_all calls

-- `getDateFromTimestamp(results[i])`, where a missing result gives null
unfoldable pub date_of_result : Option ℕ → Option Date
unfolding get_date_from_timestamp
date_of_result none = none
date_of_result (some timestamp) = get_date_from_timestamp timestamp
