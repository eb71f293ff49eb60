-- ===== src/Pricing/Memory.antt =====
-- `InMemoryPricingCache` of packages/repository/src/memory/prices.repository.ts: a map of maps.
mod Tests
use grants_stack_indexer_v.Prelude.{
  ℕ, ◌≡◌, refl, ap, String, Bool, ◌&&◌, Option, none, some, List, [], ◌∷◌, map, leb, ◌==◌,
  if◌then◌else◌,
}
use grants_stack_indexer_v.Prelude.Maps.{text_keys, number_keys, map_get, map_set, map_values}
use grants_stack_indexer_v.Pricing.{TokenPrice}

-- the field `cache`
abbrev pub PriceMap {ℓ} : Type ℓ → Type ℓ
PriceMap P = List (String × List (ℕ × TokenPrice P))

-- the calls that change the cache
pub data Call {ℓ} (P : Type ℓ) : Type ℓ where
  set_call : String → ℕ → TokenPrice P → Call P
  clear_call : Call P

module _ {ℓ} {P : Type ℓ} where
  pub get : String → ℕ → PriceMap P → Option (TokenPrice P)
  get code t cache = elim (map_get code cache) [ none ↦ none | some inner ↦ map_get t inner ]

  -- `this.cache.get(keyString)?.set(timestampMs, value)`: the inner map is changed in place
  pub set : String → ℕ → TokenPrice P → PriceMap P → PriceMap P
  set code t p cache = elim (map_get code cache) [
    | none ↦ cache
    | some inner ↦ map_set code (map_set t p inner) cache
  ]

  pub in_range : ℕ → ℕ → List (TokenPrice P) → List (TokenPrice P)
  in_range from to [] = []
  in_range from to (p ∷ ps) =
      let rest = in_range from to ps in
      if leb from p.timestamp_ms && leb p.timestamp_ms to then p ∷ rest else rest

  -- `Array.from(this.cache.get(keyString)?.values() ?? [])`, filtered
  pub get_prices_by_time_range : String → ℕ → ℕ → PriceMap P → List (TokenPrice P)
  get_prices_by_time_range code from to cache =
      in_range from to (elim (map_get code cache) [ none ↦ [] | some inner ↦ map_values inner ])

  pub clear_all : PriceMap P → PriceMap P
  clear_all cache = []

  -- the calls in order
  pub after : PriceMap P → List (Call P) → PriceMap P
  after cache [] = cache
  after cache (set_call code t p ∷ calls) = after (set code t p cache) calls
  after cache (clear_call ∷ calls) = after (clear_all cache) calls

  stays_empty : (calls : List (Call P)) → after [] calls ≡ []
  unfolding after set clear_all map_get
  stays_empty [] = refl
  stays_empty (set_call code t p ∷ calls) = stays_empty calls
  stays_empty (clear_call ∷ calls) = stays_empty calls

  -- Whatever was set, the cache finds no price and no price in any range: `set` never makes the inner
  -- map of a token, so nothing is stored.
  pub nothing_is_cached :
      (calls : List (Call P)) (code : String) (t from to : ℕ)
      → (get code t (after [] calls) ≡ none)
        × (get_prices_by_time_range code from to (after [] calls) ≡ [])
  unfolding get get_prices_by_time_range map_get in_range
  nothing_is_cached calls code t from to = rw (stays_empty calls) (refl, refl)
