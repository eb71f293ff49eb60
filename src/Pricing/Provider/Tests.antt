-- ===== src/Pricing/Provider/Tests.antt =====
-- Runs of the caching provider, and each theorem at an input.
use grants_stack_indexer_v.Prelude.{
  ℕ, ◌+◌, ◌*◌, ◌≡◌, refl, subst, Option, none, some, List, [], ◌∷◌, arith,
}
use grants_stack_indexer_v.Effects.{native_error, Outcome, ok, err}
use grants_stack_indexer_v.Pricing.{
  TokenPrice, insert_price, sort_prices, if_close, search_loop, search_from, find_closest_price,
}
use grants_stack_indexer_v.Pricing.Sorting.{IsAscending}
use grants_stack_indexer_v.Pricing.Search.{Closest, IsFloor, find_closest_price-Closest}
use grants_stack_indexer_v.Pricing.Provider.{
  PricingProvider, PricingCache, insert_number, sort_numbers, closest_or_throw, get_closest_price,
  get_closest_prices, cons_price, get_token_price, or_fetch, prices_between, get_token_prices,
}
use grants_stack_indexer_v.Pricing.Provider.Lookup.{restamp, get_token_price_hit}
use grants_stack_indexer_v.Pricing.Provider.Batch.{Source, Priced, get_token_prices-Batch}

abbrev price : ℕ → ℕ → TokenPrice ℕ
price t p = record { timestamp_ms = t; price_usd = p }

abbrev hours : ℕ → ℕ
hours n = n * 3600000

-- the world counts the calls of the provider behind the cache
abbrev provider : PricingProvider ℕ ℕ
provider = record {
  get_token_price = λ code start end s. (ok (some (price start 7)), s + 1);
  get_token_prices = λ code ts s. (ok (price (hours 1) 7 ∷ price (hours 2) 8 ∷ []), s + 1);
}

abbrev cache_of : Outcome (List (TokenPrice ℕ)) → PricingCache ℕ ℕ
cache_of held = record {
  get_prices_by_time_range = λ code from to s. (held, s);
  set = λ code t p s. (err (native_error "down"), s);
  clear_cache = none;
}

abbrev held : List (TokenPrice ℕ)
held = price (hours 9) 3 ∷ price (hours 6) 2 ∷ price (hours 7) 1 ∷ []

abbrev ascending : List (TokenPrice ℕ)
ascending = price (hours 6) 2 ∷ price (hours 7) 1 ∷ price (hours 9) 3 ∷ []

find_closest_price-Closest_example :
    (r : Option (TokenPrice ℕ)) × (find_closest_price ascending (hours 8) ≡ some r)
    × Closest ascending (hours 8) r
find_closest_price-Closest_example = find_closest_price-Closest ascending (hours 8) (omega arith)

get_token_price_hit_example :
    (i : ℕ) × (p : TokenPrice ℕ) × (get_token_price provider
        (cache_of (ok held))
        "ETH"
        (hours 10)
        none
        0
      ≡ (ok (some (restamp (hours 10) p)), 0))
    × IsFloor (sort_prices held) (hours 10) i p
get_token_price_hit_example =
    get_token_price_hit provider (cache_of (ok held)) "ETH" (hours 10) none held refl (omega arith)
      (omega arith)

-- the first price is returned for a timestamp that is any time before it
far_before : find_closest_price ascending 0 ≡ some (some (price (hours 6) 2))
unfolding find_closest_price search_from search_loop
far_before = refl

abbrev asked : List ℕ
asked = hours 8 ∷ hours 7 ∷ []

-- served from the cache: the provider is not called
batch_from_cache :
    get_token_prices provider (cache_of (ok held)) "ETH" asked 0
    ≡ (ok (price (hours 7) 1 ∷ price (hours 8) 1 ∷ []), 0)
unfolding get_token_prices prices_between sort_numbers insert_number sort_prices insert_price
    or_fetch get_closest_prices cons_price get_closest_price closest_or_throw find_closest_price
    search_from search_loop if_close
batch_from_cache = refl

provider_ascends :
    (sorted : List ℕ) (u v : ℕ) (prices : List (TokenPrice ℕ))
    → provider.get_token_prices "ETH" sorted u ≡ (ok prices, v)
    → IsAscending prices
provider_ascends sorted u v prices e =
    let same : price (hours 1) 7 ∷ price (hours 2) 8 ∷ [] ≡ prices = cc (e) in
    subst IsAscending same (omega arith)

get_token_prices-Batch_example :
    (prices : List (TokenPrice ℕ)) × Source provider
      (cache_of (ok held))
      "ETH"
      0
      (sort_numbers asked)
      prices
    × Priced prices (sort_numbers asked) (price (hours 7) 1 ∷ price (hours 8) 1 ∷ [])
unfolding get_token_prices prices_between sort_numbers insert_number sort_prices insert_price
    or_fetch get_closest_prices cons_price get_closest_price closest_or_throw find_closest_price
    search_from search_loop if_close
get_token_prices-Batch_example =
    get_token_prices-Batch provider (cache_of (ok held)) "ETH" provider_ascends asked 0
      (price (hours 7) 1 ∷ price (hours 8) 1 ∷ []) (λ e. cc (e)) refl
