-- ===== src/Lib.antt =====
-- The indexer of Allo grants: packages/ of the repository, in TypeScript.
--
-- The program reads the events of a chain from an indexer, in order, chooses for each the handler of its
-- contract or strategy, which returns changesets, and applies these to a database in one transaction
-- together with a record of the event as the last one processed. Prices come from a provider behind a
-- cache. Operations that fail with an error that can be retried are retried with growing delays.
--
-- Which file models which part:
--   Effects        async methods: an action takes the world to an outcome and the world it leaves; the
--                  classes of errors (packages/*/src/exceptions) are the constructors of `Error`
--   Queue          packages/data-flow/src/utils/queue.ts, the circular buffer of the fetched events
--   Retry          packages/shared/src/retry/retry.ts; Retry/Backoff: exponentialBackoff.strategy.ts
--   Pricing        packages/pricing/src/providers/cachingProxy.provider.ts: findClosestPrice; the methods
--                  are in Pricing/Provider, and the cache in memory of packages/repository/src/memory
--                  is in Pricing/Memory
--   Changesets     packages/repository/src/types/changeset.types.ts
--   Repositories   packages/repository/src/interfaces, the methods that write
--   DataLoader     packages/data-flow/src/data-loader: the handlers of changesets, applyChanges
--   Registries     packages/data-flow/src/registries: the last processed event, the strategies
--   Events         packages/shared/src/types/events: events and the guards of the contracts
--   Processors     packages/data-flow/src/eventsProcessor.ts and packages/processors/src/processors: the
--                  choice of the handler, where the handlers are parameters
--   Handlers       packages/processors/src: the handlers. Rows (packages/repository/src/types), Params
--                  (the parameters of events) and Services (types/processor.types.ts) are their data;
--                  Helpers (helpers, processors/strategy/helpers), StrategyReads (what each strategy
--                  reads of its contract), Allo (processors/allo/handlers, with poolCreated.handler.ts in
--                  Allo/PoolCreated), Registry (processors/registry/handlers), Attestations (the two
--                  contracts that are left) and Strategies (processors/strategy) are the code.
--                  Strategies/Dispatch has `handle` of each strategy, and all handlers together
--   Orchestrator   packages/data-flow/src/orchestrator.ts: handleEvent in Orchestrator/Handling, run in
--                  Orchestrator/Loop
--   Retroactive    packages/data-flow/src/retroactiveProcessor.ts: which strategies are found and
--                  what is done for one
--   IndexerClient  packages/indexer-client/src/providers/envioIndexerClient.ts and
--                  packages/data-flow/src/eventsFetcher.ts
--   Metadata       packages/metadata/src: both providers and the check of content ids
--   Prelude        numbers, arrays and maps of JavaScript, for all parts
--
-- A method is a function with its name in small letters (getTokenPrice is get_token_price). State that a
-- method changes is passed on: a class's fields as a record, and what is outside of it as a world of any
-- type, on which the parameters act: the database's transactions, the cache, the provider of prices, the
-- contract reads, the indexer's client, waiting and the abort signal.
--
-- Numbers are natural numbers, which the code's block numbers, times and sizes are; the doubles of the
-- backoff are exact fractions, and a price is passed on without a look at it. A difference that would be
-- negative, the start of a range of times, is 0, before which no time lies.
--
-- Loops over arrays are recursive on the array. The binary search has the number of prices as fuel. The
-- retry loop has fuel that a bound on the attempts of the strategy gives. The loop over a strategy's
-- events has a bound on its rounds: how often the pointer can move on is enough, where each fetch moves
-- it. The orchestrator's loop runs until a signal, so no bound on its rounds can be enough.
--
-- The handlers call libraries, which are parameters: viem for addresses, hashes and the encoding of data,
-- bignumber.js for amounts, zod for the schemas of metadata, and statuses-bitmap for rows of statuses. The
-- uint256 numbers of the parameters of events, which are decimal texts in the code, are numbers. `Number`
-- of such a text is exact up to 2^53, and the model has no number beyond; a Date is a number of
-- milliseconds, not a date, or the text of a time that the cast of a JSON value has in its place. The
-- repositories that the handlers read from act on the world and are parameters too. Handlers whose code is
-- repeated in several classes have one definition, with a name for each class.
--
-- What is not modelled: the repositories on the database, the provider of prices at Coingecko and the
-- provider of contract reads, which are input and output around libraries and services; the schemas; the
-- applications and scripts, which are configuration; the table of tokens, a parameter; the time of
-- creation in a row of cached timings; that getTokenPrices sorts the list of its caller in place; and
-- processRetroactiveStrategies, which runs the strategies that were found at the same time. Parallel
-- requests within a method are made one after the other, and logs are left out.
pub mod Changesets
pub mod DataLoader
pub mod Effects
pub mod Events
pub mod Handlers
pub mod IndexerClient
pub mod Metadata
pub mod Orchestrator
pub mod Prelude
pub mod Pricing
pub mod Processors
pub mod Queue
pub mod Registries
pub mod Repositories
pub mod Retroactive
pub mod Retry
