-- ===== src/Handlers.antt =====
-- packages/processors/src/processors: what each handler of an event reads, and the changesets that it
-- returns. `Rows` and `Params` are the data, `Services` is what the handlers call, `Helpers` the helper
-- functions; the handlers of a contract, and the strategies, have a module each.
pub mod Rows
pub mod Params
pub mod Services
pub mod Helpers
pub mod StrategyReads
pub mod Allo
pub mod Registry
pub mod Attestations
pub mod Strategies
pub mod Sound
mod Sample
mod Tests
