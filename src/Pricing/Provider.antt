-- ===== src/Pricing/Provider.antt =====
-- `CachingPricingProvider` of packages/pricing/src/providers/cachingProxy.provider.ts. The provider
-- behind it and the cache are interfaces of the repository, taken as records of actions. A write to
-- the cache is not awaited in the source; here it is done at once and its failure dropped.
pub mod Lookup
pub mod Numbers
pub mod Batch
mod Tests
use grants_stack_indexer_v.Prelude.{
  ℕ, zero, suc, ◌+◌, ◌-◌, ◌≤◌, String, Bool, true, false, Option, none, some, List, [], ◌∷◌, leb,
  if◌then◌else◌, first,
}
use grants_stack_indexer_v.Effects.{
  Error, no_close_price_found, other_value, Outcome, ok, err, Action, ◌>>=◌, ◌>>◌, pure, throw,
}
use grants_stack_indexer_v.Pricing.{
  TokenPrice, min_granularity_ms, proximity_ms, sort_prices, find_closest_price,
}

-- `IPricingCache` and the optional method of `ICacheable`
pub record PricingCache {ℓ} (S P : Type ℓ) : Type ℓ where
  pub get_prices_by_time_range : String → ℕ → ℕ → Action S (List (TokenPrice P))
  pub set : String → ℕ → TokenPrice P → Action S (Unit {0})
  pub clear_cache : Option (Action S (Unit {0}))

-- `IPricingProvider`
pub record PricingProvider {ℓ} (S P : Type ℓ) : Type ℓ where
  pub get_token_price : String → ℕ → Option ℕ → Action S (Option (TokenPrice P))
  pub get_token_prices : String → List ℕ → Action S (List (TokenPrice P))

-- `.sort((a, b) => a - b)`
pub insert_number : ℕ → List ℕ → List ℕ
insert_number n [] = n ∷ []
insert_number n (m ∷ ms) = let rest = insert_number n ms in if leb n m then n ∷ m ∷ ms else m ∷ rest

pub sort_numbers : List ℕ → List ℕ
sort_numbers [] = []
sort_numbers (n ∷ ns) = insert_number n (sort_numbers ns)

-- `xs[xs.length - 1]` after `x`
abbrev pub last_of : ℕ → List ℕ → ℕ
last_of x [] = x
last_of x (y ∷ ys) = last_of y ys

module _ {ℓ} {S : Type ℓ} where
  -- `try { … } catch { log }` around an action, with what stands for its result then
  unfoldable pub attempt {κ} : {A : Type κ} → A → Outcome A × S → Outcome A × S
  attempt default (ok a, s) = (ok a, s)
  attempt default (err e, s) = (ok default, s)

  -- `void action.catch(log)`
  pub settle : Action S (Unit {0}) → S → S
  settle action s = (action s).1

module _ {ℓ} {P : Type ℓ} where
  -- `if (!closestPrice) throw …`, and the price at the timestamp asked for; the search never fails
  -- to end, so its outer `none` is not met
  pub closest_or_throw : ℕ → Option (Option (TokenPrice P)) → Outcome (TokenPrice P)
  closest_or_throw t none = err other_value
  closest_or_throw t (some none) = err no_close_price_found
  closest_or_throw t (some (some p)) = ok (record { timestamp_ms = t; price_usd = p.price_usd })

  -- one call of the callback in `getClosestPrices`
  pub get_closest_price : List (TokenPrice P) → ℕ → Outcome (TokenPrice P)
  get_closest_price prices t = closest_or_throw t (find_closest_price prices t)

  pub cons_price :
      Outcome (TokenPrice P) → Outcome (List (TokenPrice P)) → Outcome (List (TokenPrice P))
  cons_price (err e) rest = err e
  cons_price (ok p) (err e) = err e
  cons_price (ok p) (ok ps) = ok (p ∷ ps)

  pub get_closest_prices : List ℕ → List (TokenPrice P) → Outcome (List (TokenPrice P))
  get_closest_prices [] prices = ok []
  get_closest_prices (t ∷ ts) prices =
      cons_price (get_closest_price prices t) (get_closest_prices ts prices)

  -- `.sort` on the prices that `getClosestPrices` returned, if it did not throw
  pub sort_result : Outcome (List (TokenPrice P)) → Outcome (List (TokenPrice P))
  sort_result (ok ps) = ok (sort_prices ps)
  sort_result (err e) = err e

module _ {ℓ} {S P : Type ℓ} (provider : PricingProvider S P) (cache : PricingCache S P) where
  -- the cached prices of the five hours before, sorted; none if the cache fails
  pub recent_prices : String → ℕ → Action S (List (TokenPrice P))
  recent_prices code start s =
      let read = cache.get_prices_by_time_range code (start - proximity_ms) start in
      attempt [] ((read >>= λ ps. pure (sort_prices ps)) s)

  -- a price that was fetched is put into the cache
  pub remember : String → ℕ → Option (TokenPrice P) → S → S
  remember code t none s = s
  remember code t (some p) s = settle (cache.set code t p) s

  pub fetch_price : String → ℕ → Option ℕ → Action S (Option (TokenPrice P))
  fetch_price code start end =
      provider.get_token_price code start end >>= λ price s. (ok price, remember code start price s)

  pub answer : String → ℕ → Option ℕ → List (TokenPrice P) → Action S (Option (TokenPrice P))
  answer code start end [] s = fetch_price code start end s
  answer code start end (p ∷ ps) s = elim (get_closest_prices (start ∷ []) (p ∷ ps)) [
    | err e ↦ (err e, s)
    | ok found ↦ (ok (first found), s)
  ]

  pub get_token_price : String → ℕ → Option ℕ → Action S (Option (TokenPrice P))
  get_token_price code start end = recent_prices code start >>= answer code start end

  -- the loop that puts the fetched prices into the cache
  pub remember_all : String → List (TokenPrice P) → S → S
  remember_all code [] s = s
  remember_all code (p ∷ ps) s = remember_all code ps (settle (cache.set code p.timestamp_ms p) s)

  -- the `catch` block of `getTokenPrices`
  pub fetch_prices : String → List ℕ → Action S (List (TokenPrice P))
  fetch_prices code sorted = provider.get_token_prices code sorted >>= λ fetched s.
      (sort_result (get_closest_prices sorted fetched), remember_all code fetched s)

  pub or_fetch : String → List ℕ → Outcome (List (TokenPrice P)) → Action S (List (TokenPrice P))
  or_fetch code sorted (ok prices) s = (ok prices, s)
  or_fetch code sorted (err no_close_price_found) s = fetch_prices code sorted s
  or_fetch code sorted (err e) s = (err e, s)

  pub prices_between : String → List ℕ → Action S (List (TokenPrice P))
  prices_between code [] s = (ok [], s)
  prices_between code (from ∷ later) s =
      (cache.get_prices_by_time_range code (from - min_granularity_ms) (last_of from later)
          >>= λ cached.
              or_fetch code (from ∷ later) (get_closest_prices (from ∷ later) (sort_prices cached)))
        s

  -- `timestamps.sort` sorts the caller's own list too, which is left out
  pub get_token_prices : String → List ℕ → Action S (List (TokenPrice P))
  get_token_prices code timestamps = prices_between code (sort_numbers timestamps)

  pub clear_cache : Action S (Unit {0})
  clear_cache s = elim cache.clear_cache [ none ↦ (ok tt, s) | some clear ↦ attempt tt (clear s) ]
