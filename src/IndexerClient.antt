-- ===== src/IndexerClient.antt =====
-- packages/indexer-client/src/providers/envioIndexerClient.ts, and the fetcher of events that calls it,
-- packages/data-flow/src/eventsFetcher.ts. The service that answers the queries is a parameter; a query is
-- a value in place of a text.
pub mod Blocks
pub mod WholeBlocks
mod Tests
use grants_stack_indexer_v.Prelude.{
  ℕ, zero, suc, ◌+◌, ◌*◌, ◌==◌, String, Bool, true, false, Option, none, some, List, [], ◌∷◌, ◌++◌,
  map, ltb, if◌then◌else◌,
}
use grants_stack_indexer_v.Effects.{
  native_error, Error, Outcome, ok, err, Action, pure, continue_with, ◌>>=◌, ◌>>◌,
}
use grants_stack_indexer_v.Events.{AnyEvent, equals}

-- a place in the chain: a block's number and a log index
pub record Place : Type 0 where
  pub block_number : ℕ
  pub log_index : ℕ

-- an item of `andConditions`
pub data Condition : Type 0 where
  of_chain : (chain_id : ℕ) → Condition
  of_addresses : (src_addresses : List String) → Condition
  after up_to : Place → Condition

-- a query for `raw_events`, in the order of block numbers and log indices
pub record Query : Type 0 where
  pub conditions : List Condition
  pub event_name : Option String
  pub limit : ℕ

-- `GetEventsFilters`
pub record EventsFilters : Type 0 where
  pub chain_id : ℕ
  pub src_addresses : List String
  pub from : Option Place
  pub to : Option Place
  pub event_name : Option String
  pub limit : Option ℕ

-- the service: `response?.raw_events`, `aggregate.count`, and the first and the last timestamp
pub record GraphQlClient {ℓ} (S P : Type ℓ) : Type ℓ where
  pub raw_events : Query → Action S (Option (List (AnyEvent P)))
  pub count_in_block : (chain_id block_number : ℕ) → Action S ℕ
  pub block_range : (chain_id : ℕ) → Action S (Option ℕ × Option ℕ)

abbrev pub default_limit : Option ℕ → ℕ
default_limit none = 100
default_limit (some limit) = limit

-- a name that is given and not empty
abbrev pub given_name : Option String → Option String
given_name none = none
given_name (some name) = if equals "" name then none else some name

-- `handleError`: an `InvalidIndexerResponse` is thrown again, another error wrapped
abbrev pub handle_error : Error → Error
handle_error (native_error message) =
    if equals "InvalidIndexerResponse" message
    then native_error message
    else native_error "IndexerClientError"
handle_error _ = native_error "IndexerClientError"

module _ {ℓ κ} {S : Type ℓ} {A : Type κ} where
  abbrev pub handled_outcome : Outcome A × S → Outcome A × S
  handled_outcome (ok a, s) = (ok a, s)
  handled_outcome (err e, s) = (err (handle_error e), s)

  -- `try { … } catch (error) { throw this.handleError(error) }`
  unfoldable pub handled : Action S A → Action S A
  handled m s = handled_outcome (m s)

module _ {ℓ} {P : Type ℓ} where
  -- seconds in milliseconds
  abbrev pub in_milliseconds : AnyEvent P → AnyEvent P
  in_milliseconds event = record event { block_timestamp = event.block_timestamp * 1000 }

  abbrev pub last_block : ℕ → List (AnyEvent P) → ℕ
  last_block n [] = n
  last_block n (e ∷ es) = last_block e.block_number es

  -- the events of a block, and those of the blocks before
  unfoldable pub count_of_block : ℕ → List (AnyEvent P) → ℕ
  count_of_block n [] = 0
  count_of_block n (e ∷ es) =
      if e.block_number == n then suc (count_of_block n es) else count_of_block n es

  unfoldable pub before_block : ℕ → List (AnyEvent P) → List (AnyEvent P)
  before_block n [] = []
  before_block n (e ∷ es) =
      let others = before_block n es in if ltb e.block_number n then e ∷ others else others

  abbrev pub events_or_throw : Option (List (AnyEvent P)) → Outcome (List (AnyEvent P))
  events_or_throw none = err (native_error "InvalidIndexerResponse")
  events_or_throw (some events) = ok (map in_milliseconds events)

abbrev pub given {κ} : {A : Type κ} → (A → Condition) → Option A → List Condition
given condition none = []
given condition (some a) = condition a ∷ []

abbrev pub given_addresses : List String → List Condition
given_addresses [] = []
given_addresses (a ∷ addresses) = of_addresses (a ∷ addresses) ∷ []

-- `andConditions` of `getEvents`
unfoldable pub conditions_of : EventsFilters → List Condition
conditions_of filters =
    of_chain filters.chain_id ∷ given_addresses filters.src_addresses
    ++ (given after filters.from ++ given up_to filters.to)

module _ {ℓ} {S P : Type ℓ} (client : GraphQlClient S P) where
  abbrev pub returned : Option (List (AnyEvent P)) → Action S (List (AnyEvent P))
  returned found s = (events_or_throw found, s)

  -- `getTotalEventsInBlock`
  unfoldable pub get_total_events_in_block : ℕ → ℕ → Action S ℕ
  unfolding handled
  get_total_events_in_block chain_id block_number =
      handled (client.count_in_block chain_id block_number)

  -- the events without those of the last block, if not all of that block were fetched
  unfoldable pub without_partial_block : ℕ → List (AnyEvent P) → Action S (List (AnyEvent P))
  unfolding get_total_events_in_block
  without_partial_block chain_id [] = pure []
  without_partial_block chain_id (e ∷ es) = do
    let last = last_block e.block_number es
    total ← get_total_events_in_block chain_id last
    pure (if ltb (count_of_block last (e ∷ es)) total then before_block last (e ∷ es) else e ∷ es)

  -- `getEventsAfterBlockNumberAndLogIndex`
  unfoldable pub get_events_after :
      (chain_id : ℕ)
      → Place
      → (limit : Option ℕ) (allow_partial_last_block : Bool) → Action S (List (AnyEvent P))
  unfolding handled without_partial_block
  get_events_after chain_id place limit allow_partial_last_block = handled (do
    found ← client.raw_events (record {
      conditions = of_chain chain_id ∷ after place ∷ [];
      event_name = none;
      limit = default_limit limit;
    })
    events ← returned found
    if allow_partial_last_block then pure events else without_partial_block chain_id events)

  -- `getEvents`
  unfoldable pub get_events : EventsFilters → Action S (List (AnyEvent P))
  unfolding handled conditions_of
  get_events filters = handled (do
    found ← client.raw_events (record {
      conditions = conditions_of filters;
      event_name = given_name filters.event_name;
      limit = default_limit filters.limit;
    })
    returned found)

  abbrev pub range_or_throw : Option ℕ × Option ℕ → Outcome (ℕ × ℕ)
  range_or_throw (some from, some to) = ok (from, to)
  range_or_throw _ = err (native_error "IndexerClientError")

  -- `getBlockRangeTimestampByChainId`
  unfoldable pub get_block_range : (chain_id : ℕ) → Action S (ℕ × ℕ)
  unfolding handled
  get_block_range chain_id =
      handled (client.block_range chain_id >>= λ range s. (range_or_throw range, s))

  abbrev pub default_partial : Option Bool → Bool
  default_partial none = true
  default_partial (some allow) = allow

  -- `EventsFetcher`
  unfoldable pub fetch_events_after :
      (chain_id : ℕ) → Place → Option ℕ → Option Bool → Action S (List (AnyEvent P))
  unfolding get_events_after
  fetch_events_after chain_id place limit allow_partial_last_block =
      get_events_after chain_id place (some (default_limit limit))
        (default_partial allow_partial_last_block)

  unfoldable pub fetch_events : EventsFilters → Action S (List (AnyEvent P))
  unfolding get_events
  fetch_events filters = get_events filters
