-- ===== src/Pricing/Memory/Tests.antt =====
-- The in-memory price cache at an input.
use grants_stack_indexer_v.Prelude.{ℕ, ◌≡◌, none, List, [], ◌∷◌}
use grants_stack_indexer_v.Pricing.Memory.{
  Call, set_call, after, get, get_prices_by_time_range, nothing_is_cached,
}

abbrev calls : List (Call ℕ)
calls = set_call "ETH" 5 (record { timestamp_ms = 5; price_usd = 1 }) ∷ []

nothing_is_cached_example :
    (get "ETH" 5 (after [] calls) ≡ none)
    × (get_prices_by_time_range "ETH" 0 9 (after [] calls) ≡ [])
nothing_is_cached_example = nothing_is_cached calls "ETH" 5 0 9
