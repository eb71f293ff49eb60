-- ===== src/Pricing.antt =====
-- packages/pricing/src/providers/cachingProxy.provider.ts: the search for a close price, and the
-- provider that caches. A price in USD is a double that the code only passes on: any type `P`.
pub mod Sorting
pub mod Search
pub mod Provider
pub mod Memory
use grants_stack_indexer_v.Prelude.{
  ℕ, zero, suc, ◌+◌, ◌-◌, ◌*◌, ◌/◌, ◌<◌, ◌≤◌, ◌≡◌, refl, Bool, true, false, Option, none, some,
  List, [], ◌∷◌, ltb, leb, ◌==◌, if◌then◌else◌, length, get_elem?, first,
}
use grants_stack_indexer_v.Effects.{Error, no_close_price_found, Outcome, ok, err}

-- `TokenPrice`
pub record TokenPrice {ℓ} (P : Type ℓ) : Type ℓ where
  pub timestamp_ms : ℕ
  pub price_usd : P

-- `MIN_GRANULARITY_MS`, `PROXIMITY_FACTOR` and their product
abbrev pub min_granularity_ms : ℕ
min_granularity_ms = 3600000

abbrev pub proximity_factor : ℕ
proximity_factor = 5

abbrev pub proximity_ms : ℕ
proximity_ms = min_granularity_ms * proximity_factor

-- `Math.abs(a - b)`
abbrev pub abs_diff : ℕ → ℕ → ℕ
abs_diff a b = (a - b) + (b - a)

module _ {ℓ} {P : Type ℓ} where
  -- `.sort((a, b) => a.timestampMs - b.timestampMs)`, which is stable
  pub insert_price : TokenPrice P → List (TokenPrice P) → List (TokenPrice P)
  insert_price p [] = p ∷ []
  insert_price p (q ∷ qs) =
      let rest = insert_price p qs in
      if leb p.timestamp_ms q.timestamp_ms then p ∷ q ∷ qs else q ∷ rest

  pub sort_prices : List (TokenPrice P) → List (TokenPrice P)
  sort_prices [] = []
  sort_prices (p ∷ ps) = insert_price p (sort_prices ps)

  -- `prices[i]` is returned, or `null` if it is too far from the target
  pub if_close : TokenPrice P → ℕ → Option (TokenPrice P)
  if_close p target = if ltb proximity_ms (abs_diff p.timestamp_ms target) then none else some p

  module _ (prices : List (TokenPrice P)) (target : ℕ) where
    -- `while (left + 1 < right)`, and what is returned after it; out of range and out of fuel are
    -- `none` on the outside
    pub search_loop : ℕ → ℕ → ℕ → Option (Option (TokenPrice P))
    search_loop zero left right = none
    search_loop (suc fuel) left right =
        let mid = (left + right) / 2 in
        let go_right = search_loop fuel mid right in
        let go_left = search_loop fuel left mid in
        if ltb (left + 1) right
        then elim (get_elem? prices mid) [
          | none ↦ none
          | some p ↦
              if p.timestamp_ms == target
              then some (if_close p target)
              else if ltb p.timestamp_ms target
              then go_right
              else go_left
        ]
        else elim (get_elem? prices left) [ none ↦ none | some p ↦ some (if_close p target) ]

    -- the two edge cases before the search, on the first and the last price
    pub search_from :
        TokenPrice P
        → TokenPrice P
        → Option (Option (TokenPrice P))
        → Option (Option (TokenPrice P))
    search_from head last searched =
        if leb target head.timestamp_ms
        then some (some head)
        else if leb last.timestamp_ms target
        then some (if_close last target)
        else searched

    pub find_closest_price : Option (Option (TokenPrice P))
    find_closest_price = elim (get_elem? prices 0) [
      | none ↦ some none
      | some head ↦ elim (get_elem? prices (length prices - 1)) [
        | none ↦ none
        | some last ↦ search_from head last (search_loop (length prices) 0 (length prices - 1))
      ]
    ]
