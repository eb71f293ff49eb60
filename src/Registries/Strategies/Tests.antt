-- ===== src/Registries/Strategies/Tests.antt =====
-- The registry of strategies in memory over a list of strategies.
use grants_stack_indexer_v.Prelude.{ℕ, suc, ◌≡◌, refl, true, none, [], ◌∷◌}
use grants_stack_indexer_v.Prelude.Maps.{map_get}
use grants_stack_indexer_v.Effects.{ok}
use grants_stack_indexer_v.Registries.Strategies.{
  Strategy, StrategyRegistry, StrategyCache, cache_get, cached_save_strategy,
}
use grants_stack_indexer_v.Registries.Strategies.Lookups.{Kept, cached_save_strategy-Kept}

-- the registry behind counts the saves
abbrev registry : StrategyRegistry ℕ
registry = record {
  get_strategy_id = λ c a s. (ok none, s);
  save_strategy_id = λ c a i h s. (ok tt, suc s);
  get_strategies = λ f s. (ok [], s);
}

abbrev first_strategy : Strategy
first_strategy = record { address = "0x1"; id = "0xa"; chain_id = 10; handled = true }

abbrev filled : StrategyCache
filled = (10, ("0x1", first_strategy) ∷ []) ∷ []

-- another id with the same flag: nothing is saved
other_id : cached_save_strategy registry 10 "0x1" "0xb" true (filled, 0) ≡ (ok tt, (filled, 0))
unfolding cached_save_strategy cache_get map_get
other_id = refl

cached_save_strategy-Kept_example : Kept registry 10 "0x1" "0xb" true (filled, 0) (filled, 0)
cached_save_strategy-Kept_example =
    cached_save_strategy-Kept registry 10 "0x1" "0xb" true filled 0 (filled, 0) other_id
