-- ===== src/Pricing/Provider/Lookup.antt =====
-- `getTokenPrice` of cachingProxy.provider.ts: a hit in the cache, and a miss.
use grants_stack_indexer_v.Prelude.{
  ℕ, ◌+◌, ◌-◌, ◌≤◌, ◌<◌, ◌≡◌, refl, ◌∙◌, ap, ◌⊎◌, inl, inr, String, Option, some, List, [], ◌∷◌,
  length, arith,
}
use grants_stack_indexer_v.Effects.{Error, Outcome, ok, err}
use grants_stack_indexer_v.Pricing.{
  TokenPrice, proximity_ms, sort_prices, find_closest_price, if_close,
}
use grants_stack_indexer_v.Pricing.Sorting.{
  All, All-at, IsAscending, sort_prices-All, sort_prices-IsAscending, length-sort_prices,
}
use grants_stack_indexer_v.Pricing.Search.{
  Closest, no_prices, before_all, floor, IsFloor, find_closest_price-Closest,
}
use grants_stack_indexer_v.Pricing.Provider.{
  PricingProvider, PricingCache, recent_prices, attempt, closest_or_throw, get_closest_price,
  get_closest_prices, cons_price, answer, fetch_price, get_token_price,
}

module _ {ℓ} {P : Type ℓ} where
  -- the price that the search returned, at the timestamp asked for
  abbrev pub restamp : ℕ → TokenPrice P → TokenPrice P
  restamp t p = record { timestamp_ms = t; price_usd = p.price_usd }

  abbrev Within : ℕ → TokenPrice P → Type 0
  Within t p = (t ≤ p.timestamp_ms + proximity_ms) × (p.timestamp_ms ≤ t)

  close_enough : (t : ℕ) (p : TokenPrice P) → Within t p → if_close p t ≡ some p
  unfolding if_close
  close_enough t p h = ground arith

  -- If all the prices lie in the five hours before `t` there is a close one, and it is not `null`.
  Closest-Within :
      (prices : List (TokenPrice P)) (t : ℕ) (r : Option (TokenPrice P))
      → 0 < length prices
      → All (Within t) prices
      → Closest prices t r
      → (i : ℕ) × (p : TokenPrice P) × (r ≡ some p) × IsFloor prices t i p
  Closest-Within prices t _ some_price h (no_prices e) =
      absurd (omega (arith, ap (λ (l : List (TokenPrice P)). length l) e))
  Closest-Within prices t _ some_price h (before_all p e le) =
      let near : Within t p = All-at (Within t) prices 0 h e in
      (0, p, refl, record { found = e; not_after = near.1; latest = λ j b k. omega arith })
  Closest-Within prices t _ some_price h (floor i p is_floor lt) =
      (i, p, close_enough t p (All-at (Within t) prices i h is_floor.found), is_floor)

  one_price :
      (prices : List (TokenPrice P)) (t : ℕ) (p : TokenPrice P)
      → find_closest_price prices t ≡ some (some p)
      → get_closest_prices (t ∷ []) prices ≡ ok (restamp t p ∷ [])
  unfolding get_closest_prices get_closest_price closest_or_throw cons_price
  one_price prices t p e = rw (e, get_closest_prices, get_closest_price, cons_price)

  -- One timestamp is answered from such prices, sorted.
  answered :
      (prices : List (TokenPrice P)) (t : ℕ)
      → 0 < length prices
      → All (Within t) prices
      → IsAscending prices
      → (i : ℕ) × (p : TokenPrice P) × (get_closest_prices (t ∷ []) prices ≡ ok (restamp t p ∷ []))
        × IsFloor prices t i p
  answered prices t some_price h ascending =
      let (r, e, closest) = find_closest_price-Closest prices t ascending in
      let (i, p, e', is_floor) = Closest-Within prices t r some_price h closest in
      (i, p, one_price prices t p (e ∙ ap some e'), is_floor)

module _ {ℓ} {S P : Type ℓ} (provider : PricingProvider S P) (cache : PricingCache S P) where
  module _ (code : String) (start : ℕ) (end : Option ℕ) where
    answer-some :
        (prices : List (TokenPrice P)) (p : TokenPrice P) (t : S)
        → 0 < length prices
        → get_closest_prices (start ∷ []) prices ≡ ok (p ∷ [])
        → answer provider cache code start end prices t ≡ (ok (some p), t)
    unfolding answer
    answer-some [] p t h e = absurd (omega arith)
    answer-some (q ∷ qs) p t h e = rw (e, answer)

    -- If the cache holds prices of the five hours up to the start, `getTokenPrice` returns the latest
    -- of them at the start's timestamp, does not call the provider behind it, and does not throw.
    pub get_token_price_hit :
        (cached : List (TokenPrice P)) {s t : S}
        → cache.get_prices_by_time_range code (start - proximity_ms) start s ≡ (ok cached, t)
        → 0 < length cached
        → All (λ p. (start ≤ p.timestamp_ms + proximity_ms) × (p.timestamp_ms ≤ start)) cached
        → (i : ℕ) × (p : TokenPrice P) × (get_token_price provider cache code start end s
            ≡ (ok (some (restamp start p)), t))
          × IsFloor (sort_prices cached) start i p
    unfolding get_token_price recent_prices attempt
    get_token_price_hit cached read some_price h =
        let sorted = sort_prices cached in
        let not_empty : 0 < length sorted = omega (arith, length-sort_prices cached) in
        let (i, p, e, is_floor) =
          answered sorted start not_empty (sort_prices-All _ cached h)
            (sort_prices-IsAscending cached) in
        (i, p, rw read (answer-some sorted (restamp start p) _ not_empty e), is_floor)

    fetch_price-eq :
        (t : S)
        → (fetch_price provider cache code start end t).0
          ≡ (provider.get_token_price code start end t).0
    unfolding fetch_price
    fetch_price-eq t = ground arith

    missed :
        (read : Outcome (List (TokenPrice P))) {s t : S}
        → cache.get_prices_by_time_range code (start - proximity_ms) start s ≡ (read, t)
        → (read ≡ ok []) ⊎ ((e : Error) × (read ≡ err e))
        → get_token_price provider cache code start end s
          ≡ fetch_price provider cache code start end t
    unfolding get_token_price recent_prices attempt answer sort_prices
    missed read e (inl empty) = rw (e) (rw empty)
    missed read e (inr (error, failed)) = rw e (rw failed)

    -- If the cache holds none, or the read of the cache fails, `getTokenPrice` returns or throws what
    -- the provider behind it does, also when the write of that price to the cache fails.
    get_token_price_miss :
        (read : Outcome (List (TokenPrice P))) {s t : S}
        → cache.get_prices_by_time_range code (start - proximity_ms) start s ≡ (read, t)
        → (read ≡ ok []) ⊎ ((e : Error) × (read ≡ err e))
        → (get_token_price provider cache code start end s).0
          ≡ (provider.get_token_price code start end t).0
    get_token_price_miss read {s} {t} e nothing = rw (missed read e nothing) (fetch_price-eq t)
