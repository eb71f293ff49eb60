-- ===== src/Pricing/Provider/Batch.antt =====
-- `getTokenPrices` of cachingProxy.provider.ts: what the prices of a batch are.
use grants_stack_indexer_v.Prelude.{
  ℕ, ◌-◌, ◌≤◌, ◌≡◌, ◌≢◌, refl, sym, ◌∙◌, subst, String, Option, none, some, List, [], ◌∷◌, first,
  arith,
}
use grants_stack_indexer_v.Effects.{Error, no_close_price_found, Outcome, ok, err}
use grants_stack_indexer_v.Pricing.{
  TokenPrice, min_granularity_ms, insert_price, sort_prices, find_closest_price,
}
use grants_stack_indexer_v.Pricing.Sorting.{All, IsAscending, sort_prices-IsAscending}
use grants_stack_indexer_v.Pricing.Search.{Closest, find_closest_price-Closest}
use grants_stack_indexer_v.Pricing.Provider.Numbers.{
  AllNumbers, Ascends, sort_numbers-Ascends, sort_numbers-ne,
}
use grants_stack_indexer_v.Pricing.Provider.{
  PricingProvider, PricingCache, sort_numbers, last_of, closest_or_throw, get_closest_price,
  get_closest_prices, cons_price, sort_result, fetch_prices, or_fetch, prices_between,
  get_token_prices,
}

module _ {ℓ} {P : Type ℓ} where
  -- One price for each timestamp, in order: the one that stands closest to that timestamp in `prices`.
  pub data Priced (prices : List (TokenPrice P)) : List ℕ → List (TokenPrice P) → Type ℓ where
    end : Priced prices [] []
    next :
        {t : ℕ} {ts : List ℕ} {p q : TokenPrice P} {qs : List (TokenPrice P)}
        → Closest prices t (some p)
        → q ≡ record { timestamp_ms = t; price_usd = p.price_usd }
        → Priced prices ts qs
        → Priced prices (t ∷ ts) (q ∷ qs)

  price_found :
      (t : ℕ) (x : Option (Option (TokenPrice P))) (q : TokenPrice P)
      → closest_or_throw t x ≡ ok q
      → (p : TokenPrice P) × (x ≡ some (some p))
        × (q ≡ record { timestamp_ms = t; price_usd = p.price_usd })
  unfolding closest_or_throw
  price_found t none q e = cc
  price_found t (some none) q e = cc
  price_found t (some (some p)) q e = (p, refl, cc)

  both_found :
      (o : Outcome (TokenPrice P)) (os : Outcome (List (TokenPrice P)))
      (result : List (TokenPrice P))
      → cons_price o os ≡ ok result
      → (q : TokenPrice P) × (qs : List (TokenPrice P)) × (o ≡ ok q)
        × (os ≡ ok qs)
        × (result ≡ q ∷ qs)
  unfolding cons_price
  both_found (err e) os result h = cc
  both_found (ok q) (err e) result h = cc
  both_found (ok q) (ok qs) result h = (q, qs, refl, refl, cc)

  found-Closest :
      (t : ℕ) (prices : List (TokenPrice P)) (p : TokenPrice P)
      → IsAscending prices
      → find_closest_price prices t ≡ some (some p)
      → Closest prices t (some p)
  found-Closest t prices p ascending found =
      let (r, same, closest) = find_closest_price-Closest prices t ascending in
      let e : r ≡ some p = cc (same, found) in subst (Closest prices t) e closest

  -- What `getClosestPrices` finds in prices that ascend has one price for each timestamp, in order, each the closest.
  pub get_closest_prices-Priced :
      (ts : List ℕ) (prices result : List (TokenPrice P))
      → IsAscending prices
      → get_closest_prices ts prices ≡ ok result
      → Priced prices ts result
  unfolding get_closest_prices get_closest_price
  get_closest_prices-Priced [] prices [] ascending e = end
  get_closest_prices-Priced [] prices (q ∷ qs) ascending e = cc
  get_closest_prices-Priced (t ∷ ts) prices result ascending e =
      let (q, qs, first, others, same) = both_found _ _ result e in
      let (p, found, stamped) = price_found t _ q first in
      subst (Priced prices (t ∷ ts)) (sym same) (
        next (found-Closest t prices p ascending found) stamped
          (get_closest_prices-Priced ts prices qs ascending others))

  Priced-All :
      (n : ℕ) {prices : List (TokenPrice P)} {ts : List ℕ} {result : List (TokenPrice P)}
      → Priced prices ts result
      → AllNumbers (λ m. n ≤ m) ts
      → All (λ q. n ≤ q.timestamp_ms) result
  Priced-All n end h = tt
  Priced-All n (next e stamped more) h = (rw stamped h.0, Priced-All n more h.1)

  Priced-IsAscending :
      {prices : List (TokenPrice P)} {ts : List ℕ} {result : List (TokenPrice P)}
      → Priced prices ts result
      → Ascends ts
      → IsAscending result
  Priced-IsAscending end h = tt
  Priced-IsAscending (next e stamped more) h =
      (rw stamped (Priced-All _ more h.0), Priced-IsAscending more h.1)

  sort_prices_id : (ps : List (TokenPrice P)) → IsAscending ps → sort_prices ps ≡ ps
  unfolding sort_prices insert_price
  sort_prices_id [] h = refl
  sort_prices_id (p ∷ []) h = refl
  sort_prices_id (p ∷ q ∷ ps) h = rw (sort_prices_id (q ∷ ps) h.1) (ground (arith, h.0.0))

sort_result-ok {ℓ} :
    {P : Type ℓ} (x : Outcome (List (TokenPrice P))) (result : List (TokenPrice P))
    → sort_result x ≡ ok result
    → (qs : List (TokenPrice P)) × (x ≡ ok qs) × (result ≡ sort_prices qs)
unfolding sort_result
sort_result-ok (ok qs) result h = (qs, refl, cc)
sort_result-ok (err e) result h = cc

module _ {ℓ} {S P : Type ℓ} (provider : PricingProvider S P) (cache : PricingCache S P)
    (code : String) where
  -- where the prices of a batch come from: the cache, sorted, or the provider behind it
  pub data Source (s : S) (sorted : List ℕ) (prices : List (TokenPrice P)) : Type ℓ where
    from_cache :
        (from : ℕ) (later : List ℕ) (cached : List (TokenPrice P)) (u : S)
        → sorted ≡ from ∷ later
        → cache.get_prices_by_time_range code (from - min_granularity_ms) (last_of from later) s
          ≡ (ok cached, u)
        → prices ≡ sort_prices cached
        → Source s sorted prices
    from_provider :
        (u v : S)
        → provider.get_token_prices code sorted u ≡ (ok prices, v)
        → Source s sorted prices

  abbrev Batch : S → List ℕ → List (TokenPrice P) → Type ℓ
  Batch s sorted result =
      (prices : List (TokenPrice P)) × Source s sorted prices × Priced prices sorted result

  module _
      (provider_ascends : (sorted : List ℕ) (u v : S) (prices : List (TokenPrice P))
        → provider.get_token_prices code sorted u ≡ (ok prices, v)
        → IsAscending prices) where
    fetched-Batch :
        (sorted : List ℕ) (s u v : S) (o : Outcome (List (TokenPrice P)))
        (result : List (TokenPrice P))
        → Ascends sorted
        → provider.get_token_prices code sorted u ≡ (o, v)
        → (fetch_prices provider cache code sorted u).0 ≡ ok result
        → Batch s sorted result
    fetched-Batch sorted s u v (err e) result up read h =
        let failed : (fetch_prices provider cache code sorted u).0 ≡ err e =
          unfold fetch_prices in rw (read, fetch_prices) in
        cc
    fetched-Batch sorted s u v (ok fetched) result up read h =
        let found : (fetch_prices provider cache code sorted u).0
            ≡ sort_result (get_closest_prices sorted fetched) =
          unfold fetch_prices in rw (read, fetch_prices) in
        let (qs, e, same) =
          sort_result-ok (get_closest_prices sorted fetched) result (sym found ∙ h) in
        let priced =
          get_closest_prices-Priced sorted fetched qs (provider_ascends sorted u v fetched read)
            e in
        (
          fetched,
          from_provider u v read,
          subst (Priced fetched sorted)
              (sym (same ∙ sort_prices_id qs (Priced-IsAscending priced up))) priced,
        )

    fetched_or_cached :
        (sorted : List ℕ) (s u : S) (prices : List (TokenPrice P))
        (o : Outcome (List (TokenPrice P))) (result : List (TokenPrice P))
        → Ascends sorted
        → Source s sorted prices
        → IsAscending prices
        → get_closest_prices sorted prices ≡ o
        → (or_fetch provider cache code sorted o u).0 ≡ ok result
        → Batch s sorted result
    unfolding or_fetch
    fetched_or_cached sorted s u prices (ok qs) result up source ascending e h =
        (prices, source, get_closest_prices-Priced sorted prices result ascending (e ∙ h))
    fetched_or_cached sorted s u prices (err no_close_price_found) result up source ascending e h =
        fetched-Batch sorted s u _ _ result up refl h
    fetched_or_cached sorted s u prices (err _) result up source ascending e h = cc

    prices_between-Batch :
        (from : ℕ) (later : List ℕ) (s u : S) (o : Outcome (List (TokenPrice P)))
        (result : List (TokenPrice P))
        → Ascends (from ∷ later)
        → cache.get_prices_by_time_range code (from - min_granularity_ms) (last_of from later) s
          ≡ (o, u)
        → (prices_between provider cache code (from ∷ later) s).0 ≡ ok result
        → Batch s (from ∷ later) result
    prices_between-Batch from later s u (err e) result up read h =
        let failed : (prices_between provider cache code (from ∷ later) s).0 ≡ err e =
          unfold prices_between in rw (read, prices_between) in
        cc
    prices_between-Batch from later s u (ok cached) result up read h =
        let prices = sort_prices cached in
        let tried : (prices_between provider cache code (from ∷ later) s).0
            ≡ (or_fetch provider cache code (from ∷ later)
                (get_closest_prices (from ∷ later) prices) u).0 =
          unfold prices_between in rw (read, prices_between) in
        fetched_or_cached (from ∷ later) s u prices _ result up
          (from_cache from later cached u refl read refl) (sort_prices-IsAscending cached) refl
          (sym tried ∙ h)

    sorted-Batch :
        (sorted : List ℕ) (s : S) (result : List (TokenPrice P))
        → Ascends sorted
        → sorted ≢ []
        → (prices_between provider cache code sorted s).0 ≡ ok result
        → Batch s sorted result
    sorted-Batch [] s result up some_time h = absurd (some_time refl)
    sorted-Batch (from ∷ later) s result up some_time h =
        prices_between-Batch from later s _ _ result up refl h

    -- If the provider behind it returns its prices in ascending order and `getTokenPrices` returns on a
    -- list that is not empty, its result has one price for each timestamp, in ascending order of the
    -- timestamps: the closest to it of the prices in the cache, sorted, or of those that the provider
    -- behind it returned (the latest that is not after it, if near enough, or the first of all when none
    -- is before it), with the timestamp asked for.
    pub get_token_prices-Batch :
        (timestamps : List ℕ) (s : S) (result : List (TokenPrice P))
        → timestamps ≢ []
        → (get_token_prices provider cache code timestamps s).0 ≡ ok result
        → (prices : List (TokenPrice P)) × Source s (sort_numbers timestamps) prices
          × Priced prices (sort_numbers timestamps) result
    unfolding get_token_prices
    get_token_prices-Batch timestamps s result some_time h =
        sorted-Batch (sort_numbers timestamps) s result (sort_numbers-Ascends timestamps)
          (sort_numbers-ne timestamps some_time) h

  -- A failure of the cache is not caught here: `getTokenPrices` throws it.
  get_token_prices_cache_failure :
      (timestamps : List ℕ) (from : ℕ) (later : List ℕ) (s u : S) (e : Error)
      → sort_numbers timestamps ≡ from ∷ later
      → cache.get_prices_by_time_range code (from - min_granularity_ms) (last_of from later) s
        ≡ (err e, u)
      → get_token_prices provider cache code timestamps s ≡ (err e, u)
  unfolding get_token_prices prices_between
  get_token_prices_cache_failure timestamps from later s u e sorted read =
      rw (sorted) (rw (read, prices_between))
