-- ===== src/Handlers/Strategies.antt =====
-- packages/processors/src/processors/strategy: the handlers of the events of strategies. `Common` has
-- those that the strategies share, `Registrations` and `Allocations` the others, and `Dispatch` the
-- choice of the handler in each strategy.
pub mod Common
pub mod Registrations
pub mod Allocations
pub mod Dispatch
