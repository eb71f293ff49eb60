-- ===== src/Registries/Strategies.antt =====
-- registries/strategy: `DatabaseStrategyRegistry` and `InMemoryCachedStrategyRegistry`.
pub mod Lookups
mod Tests
use grants_stack_indexer_v.Prelude.{
  ℕ, ◌≡◌, refl, String, Bool, true, false, Option, none, some, List, [], ◌∷◌, ◌==◌, if◌then◌else◌,
}
use grants_stack_indexer_v.Prelude.Maps.{number_keys, text_keys, map_get, map_set}
use grants_stack_indexer_v.Effects.{Error, Outcome, ok, err, Action}

-- `Strategy`
pub record Strategy : Type 0 where
  pub address : String
  pub id : String
  pub chain_id : ℕ
  pub handled : Bool

-- the argument `filters` of `getStrategies`
pub record Filters : Type 0 where
  pub handled : Option Bool
  pub chain_id : Option ℕ

-- `IStrategyRegistryRepository`
pub record StrategyRegistryRepository {ℓ} (S : Type ℓ) : Type ℓ where
  pub get_strategy_by_chain_id_and_address : ℕ → String → Action S (Option Strategy)
  pub save_strategy : Strategy → Action S (Unit {0})
  pub get_strategies : Filters → Action S (List Strategy)

-- `IStrategyRegistry`
pub record StrategyRegistry {ℓ} (S : Type ℓ) : Type ℓ where
  pub get_strategy_id : ℕ → String → Action S (Option Strategy)
  pub save_strategy_id : (chain_id : ℕ) (address id : String) (handled : Bool) → Action S (Unit {0})
  pub get_strategies : Filters → Action S (List Strategy)

-- `Map<ChainId, Map<Address, Strategy>>`
abbrev pub StrategyCache : Type 0
StrategyCache = List (ℕ × List (String × Strategy))

-- `cache.get(chainId)?.get(address)`
abbrev pub inner_get : String → Option (List (String × Strategy)) → Option Strategy
inner_get address none = none
inner_get address (some inner) = map_get address inner

unfoldable pub cache_get : ℕ → String → StrategyCache → Option Strategy
cache_get chain_id address cache = inner_get address (map_get chain_id cache)

-- the inner map, which is made if there is none
abbrev pub inner_set :
    String → Strategy → Option (List (String × Strategy)) → List (String × Strategy)
inner_set address strategy none = map_set address strategy []
inner_set address strategy (some inner) = map_set address strategy inner

-- `if (!cache.has(chainId)) …; cache.get(chainId)?.set(address, strategy)`
unfoldable pub cache_set : ℕ → String → Strategy → StrategyCache → StrategyCache
cache_set chain_id address strategy cache =
    map_set chain_id (inner_set address strategy (map_get chain_id cache)) cache

-- `cache?.handled === handled`
abbrev pub same_flag : Option Strategy → Bool → Bool
same_flag none handled = false
same_flag (some s) true = s.handled
same_flag (some s) false = if s.handled then false else true

-- the strategies of `initialize`, put into the map in order
pub load_strategies : List Strategy → StrategyCache → StrategyCache
load_strategies [] cache = cache
load_strategies (s ∷ strategies) cache =
    load_strategies strategies (cache_set s.chain_id s.address s cache)

module _ {ℓ} {S : Type ℓ} where
  -- `DatabaseStrategyRegistry`
  pub database_strategy_registry : StrategyRegistryRepository S → StrategyRegistry S
  database_strategy_registry repository = record {
    get_strategy_id =
        λ chain_id address. repository.get_strategy_by_chain_id_and_address chain_id address;
    save_strategy_id = λ chain_id address id handled.
        repository.save_strategy
          (record { address = address; id = id; chain_id = chain_id; handled = handled });
    get_strategies = λ filters. repository.get_strategies filters;
  }

  -- what follows a read of the registry behind: a strategy that was found is kept, under the chain that
  -- it carries and the address asked for
  unfoldable pub keep_strategy :
      String
      → StrategyCache
      → Outcome (Option Strategy) × S
      → Outcome (Option Strategy) × (StrategyCache × S)
  keep_strategy address cache (err e, s) = (err e, (cache, s))
  keep_strategy address cache (ok none, s) = (ok none, (cache, s))
  keep_strategy address cache (ok (some found), s) =
      (ok (some found), (cache_set found.chain_id address found cache, s))

  -- what follows a save in the registry behind
  unfoldable pub keep_strategy_saved :
      Strategy → StrategyCache → Outcome (Unit {0}) × S → Outcome (Unit {0}) × (StrategyCache × S)
  keep_strategy_saved strategy cache (err e, s) = (err e, (cache, s))
  keep_strategy_saved strategy cache (ok _, s) =
      (ok tt, (cache_set strategy.chain_id strategy.address strategy cache, s))

  module _ (registry : StrategyRegistry S) where
    unfoldable pub cached_get_strategy : ℕ → String → Action (StrategyCache × S) (Option Strategy)
    cached_get_strategy chain_id address (cache, s) = elim (cache_get chain_id address cache) [
      | some strategy ↦ (ok (some strategy), (cache, s))
      | none ↦ keep_strategy address cache (registry.get_strategy_id chain_id address s)
    ]

    unfoldable pub cached_save_strategy :
        (chain_id : ℕ) (address id : String) (handled : Bool)
        → Action (StrategyCache × S) (Unit {0})
    cached_save_strategy chain_id address id handled (cache, s) =
        if same_flag (cache_get chain_id address cache) handled
        then (ok tt, (cache, s))
        else keep_strategy_saved
            (record { address = address; id = id; chain_id = chain_id; handled = handled }) cache
            (registry.save_strategy_id chain_id address id handled s)

    -- `InMemoryCachedStrategyRegistry`
    pub cached_strategy_registry : StrategyRegistry (StrategyCache × S)
    cached_strategy_registry = record {
      get_strategy_id = cached_get_strategy;
      save_strategy_id = cached_save_strategy;
      get_strategies = λ filters (cache, s).
          let (found, s') = registry.get_strategies filters s in (found, (cache, s'));
    }

    -- `initialize`, from an empty map
    pub initialize_strategies : ℕ → Action S StrategyCache
    initialize_strategies chain_id s =
        loaded (registry.get_strategies (record { handled = none; chain_id = some chain_id }) s)
      where
        loaded : Outcome (List Strategy) × S → Outcome StrategyCache × S
        loaded (ok strategies, s') = (ok (load_strategies strategies []), s')
        loaded (err e, s') = (err e, s')
