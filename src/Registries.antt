-- ===== src/Registries.antt =====
-- packages/data-flow/src/registries: the last processed event of a chain, and the strategies, each as a
-- registry on the database and one that keeps a copy in memory.
pub mod Events
pub mod Strategies
