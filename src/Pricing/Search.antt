-- ===== src/Pricing/Search.antt =====
-- What `findClosestPrice` of cachingProxy.provider.ts finds on prices that ascend.
use native.Mathlib.Decide.{dec_lt}
use grants_stack_indexer_v.Prelude.{
  ℕ, zero, suc, ◌+◌, ◌-◌, ◌/◌, ◌<◌, ◌≤◌, ◌≡◌, refl, true, false, Option, none, some, List, [], ◌∷◌,
  ltb, leb, ◌==◌, if◌then◌else◌, length, get_elem?, inl, inr, Bool-cases, ltb→lt, ==_iff, subst,
  sym, arith,
}
use grants_stack_indexer_v.Pricing.{
  TokenPrice, if_close, search_loop, search_from, find_closest_price,
}
use grants_stack_indexer_v.Pricing.Sorting.{IsAscending, stamp, elem_at, stamp_mono}

module _ {ℓ} {P : Type ℓ} (prices : List (TokenPrice P)) (target : ℕ) where
  -- The latest timestamp that is not after the target stands at index `i`.
  pub record IsFloor (i : ℕ) (p : TokenPrice P) : Type ℓ where
    pub found : get_elem? prices i ≡ some p
    pub not_after : p.timestamp_ms ≤ target
    pub latest :
        (j : ℕ) → j < length prices → stamp prices j ≤ target → stamp prices j ≤ p.timestamp_ms

  -- What the search is to return.
  pub data Closest : Option (TokenPrice P) → Type ℓ where
    no_prices : prices ≡ [] → Closest none
    before_all :
        (p : TokenPrice P)
        → get_elem? prices 0 ≡ some p
        → target ≤ p.timestamp_ms
        → Closest (some p)
    floor :
        (i : ℕ) (p : TokenPrice P)
        → IsFloor i p
        → stamp prices 0 < target
        → Closest (if_close p target)

  module _ (ascending : IsAscending prices) where
    IsFloor-at :
        (i : ℕ)
        → i < length prices
        → stamp prices i ≤ target
        → ((j : ℕ)
            → i < j
            → j < length prices
            → stamp prices j ≤ target
            → stamp prices j ≤ stamp prices i)
        → (p : TokenPrice P) × IsFloor i p
    IsFloor-at i h le after =
        let (p, e, t) = elem_at prices i h in
        (
          p,
          record {
            found = e;
            not_after = omega (arith, t);
            latest = λ j b k. elim (dec_lt i j) [
              | yes past ↦ omega (arith, t, after j past b k)
              | no here ↦ omega (arith, t, stamp_mono prices j i ascending (omega arith) h)
            ];
          },
        )

    abbrev Finds : Option (Option (TokenPrice P)) → Type ℓ
    Finds result = (i : ℕ) × (p : TokenPrice P) × (result ≡ some (if_close p target)) × IsFloor i p

    -- the test that ends the loop
    last_round :
        (fuel left right : ℕ)
        → ltb (left + 1) right ≡ false
        → left < right
        → right < length prices
        → stamp prices left ≤ target
        → target < stamp prices right
        → Finds (search_loop prices target (suc fuel) left right)
    unfolding search_loop
    last_round fuel left right stop h b l r =
        let (p, is_floor) = IsFloor-at left (omega arith) l (λ j past k le.
          absurd (omega (arith, stamp_mono prices right j ascending (ground (arith, stop)) k))) in
        (left, p, rw (stop, is_floor.found), is_floor)

    -- a round that goes on, by what it reads in the middle
    middle_round :
        (fuel left right : ℕ) (p : TokenPrice P)
        → ltb (left + 1) right ≡ true
        → get_elem? prices ((left + right) / 2) ≡ some p
        → search_loop prices target (suc fuel) left right ≡ (
            if p.timestamp_ms == target
            then some (if_close p target)
            else if ltb p.timestamp_ms target
            then search_loop prices target fuel ((left + right) / 2) right
            else search_loop prices target fuel left ((left + right) / 2))
    unfolding search_loop
    middle_round fuel left right p go e = rw (go, e)

    hit :
        (i : ℕ) (p : TokenPrice P)
        → get_elem? prices i ≡ some p
        → p.timestamp_ms ≡ target
        → IsFloor i p
    hit i p e t = record { found = e; not_after = omega arith; latest = λ j b k. omega arith }

    search_loop-Finds :
        (fuel left right : ℕ)
        → right ≤ left + fuel
        → left < right
        → right < length prices
        → stamp prices left ≤ target
        → target < stamp prices right
        → Finds (search_loop prices target fuel left right)
    search_loop-Finds zero left right f h b l r = absurd (omega arith)
    search_loop-Finds (suc fuel) left right f h b l r = elim (Bool-cases (ltb (left + 1) right)) [
      | inr stop ↦ last_round fuel left right stop h b l r
      | inl go ↦
          let mid = (left + right) / 2 in
          let apart : left + 1 < right = ltb→lt _ _ go in
          let (p, e, t) = elem_at prices mid (omega arith) in
          subst Finds (sym (middle_round fuel left right p go e))
            (elim (Bool-cases (p.timestamp_ms == target)) [
              | inl same ↦ (mid, p, rw same, hit mid p e ((==_iff _ _).0 same))
              | inr other ↦ elim (Bool-cases (ltb p.timestamp_ms target)) [
                | inl low ↦
                    rw (other, low)
                      (search_loop-Finds fuel mid right (omega arith) (omega arith) b
                        (omega (arith, t, ltb→lt _ _ low)) r)
                | inr high ↦
                    rw (other, high)
                      (search_loop-Finds fuel left mid (omega arith) (omega arith) (omega arith) l
                        (ground (arith, t, other, high)))
              ]
            ])
    ]

module _ {ℓ} {P : Type ℓ} (head : TokenPrice P) (others : List (TokenPrice P)) (target : ℕ) where
  abbrev all : List (TokenPrice P)
  all = head ∷ others

  abbrev searched : Option (Option (TokenPrice P))
  searched = search_loop all target (length all) 0 (length all - 1)

  abbrev Settles : Option (Option (TokenPrice P)) → Type ℓ
  Settles result = (r : Option (TokenPrice P)) × (result ≡ some r) × Closest all target r

  find_closest_price_step :
      (last : TokenPrice P)
      → get_elem? all (length all - 1) ≡ some last
      → find_closest_price all target ≡ search_from all target head last searched
  unfolding find_closest_price
  find_closest_price_step last e = rw (e, find_closest_price)

  search_from-Settles :
      (last : TokenPrice P)
      → IsAscending all
      → get_elem? all (length all - 1) ≡ some last
      → last.timestamp_ms ≡ stamp all (length all - 1)
      → Settles (search_from all target head last searched)
  unfolding search_from
  search_from-Settles last h e t = elim (Bool-cases (leb target head.timestamp_ms)) [
    | inl before ↦ (some head, rw before, before_all head refl (ground (arith, before)))
    | inr after ↦ elim (Bool-cases (leb last.timestamp_ms target)) [
      | inl past ↦
          let is_floor : IsFloor all target (length all - 1) last = record {
            found = e;
            not_after = ground (arith, past);
            latest = λ j b k.
                omega (arith, t, stamp_mono all j (length all - 1) h (omega arith) (omega arith));
          } in
          (if_close last target, rw (after, past), floor _ last is_floor (ground (arith, after)))
      | inr inside ↦
          let beyond : target < stamp all (length all - 1) = ground (arith, t, inside) in
          let start : head.timestamp_ms < target = ground (arith, after) in
          let (i, p, eq, is_floor) =
            search_loop-Finds all target h (length all) 0 (length all - 1) (omega arith)
              (many others beyond start) (omega arith) (omega arith) beyond in
          (if_close p target, rw (after, inside) eq, floor i p is_floor start)
    ]
  ]
    where
      many :
          (others' : List (TokenPrice P))
          → target < stamp (head ∷ others') (length (head ∷ others') - 1)
          → head.timestamp_ms < target
          → 0 < length (head ∷ others') - 1
      many [] b a = absurd (omega arith)
      many (q ∷ qs) b a = omega arith

-- On prices that ascend the search ends. It returns `null` when there is no price, the first price
-- when the target is not after it, however far away it is, and else the price with the latest
-- timestamp that is not after the target, or `null` if that is more than five hours away.
pub find_closest_price-Closest {ℓ} :
    {P : Type ℓ} (prices : List (TokenPrice P)) (target : ℕ)
    → IsAscending prices
    → (r : Option (TokenPrice P)) × (find_closest_price prices target ≡ some r)
      × Closest prices target r
unfolding find_closest_price
find_closest_price-Closest [] target h = (none, refl, no_prices refl)
find_closest_price-Closest (head ∷ others) target h =
    let (last, e, t) = elem_at (head ∷ others) (length (head ∷ others) - 1) (omega arith) in
    subst (Settles head others target) (sym (find_closest_price_step head others target last e))
      (search_from-Settles head others target last h e t)
