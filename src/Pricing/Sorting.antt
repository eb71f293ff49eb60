-- ===== src/Pricing/Sorting.antt =====
-- The sort of cachingProxy.provider.ts by timestamp.
use grants_stack_indexer_v.Prelude.{
  ℕ, zero, suc, ◌≤◌, ◌<◌, ◌≡◌, refl, subst, some, List, [], ◌∷◌, leb, Bool-cases, inl, inr, arith,
  length, get_elem?,
}
use grants_stack_indexer_v.Pricing.{TokenPrice, insert_price, sort_prices}

module _ {ℓ} {P : Type ℓ} where
  abbrev pub All : (TokenPrice P → Type 0) → List (TokenPrice P) → Type 0
  All Q [] = Unit
  All Q (p ∷ ps) = Q p × All Q ps

  abbrev pub IsAscending : List (TokenPrice P) → Type 0
  IsAscending [] = Unit
  IsAscending (p ∷ ps) = All (λ q. p.timestamp_ms ≤ q.timestamp_ms) ps × IsAscending ps

  -- the timestamp at an index, for statements
  abbrev pub stamp : List (TokenPrice P) → ℕ → ℕ
  stamp [] i = 0
  stamp (p ∷ ps) zero = p.timestamp_ms
  stamp (p ∷ ps) (suc i) = stamp ps i

  pub All-at :
      (Q : TokenPrice P → Type 0) (ps : List (TokenPrice P)) (i : ℕ) {p : TokenPrice P}
      → All Q ps
      → get_elem? ps i ≡ some p
      → Q p
  All-at Q [] i h e = cc
  All-at Q (q ∷ ps) zero {p} h e = let same : q ≡ p = cc in subst Q same h.0
  All-at Q (q ∷ ps) (suc i) h e = All-at Q ps i h.1 e

  pub elem_at :
      (ps : List (TokenPrice P)) (i : ℕ)
      → i < length ps
      → (p : TokenPrice P) × (get_elem? ps i ≡ some p) × (p.timestamp_ms ≡ stamp ps i)
  elem_at [] i h = absurd (omega arith)
  elem_at (p ∷ ps) zero h = (p, refl, refl)
  elem_at (p ∷ ps) (suc i) h = elem_at ps i (omega arith)

  low_stamp :
      (n : ℕ) (ps : List (TokenPrice P)) (i : ℕ)
      → All (λ q. n ≤ q.timestamp_ms) ps
      → i < length ps
      → n ≤ stamp ps i
  low_stamp n [] i h b = absurd (omega arith)
  low_stamp n (p ∷ ps) zero h b = h.0
  low_stamp n (p ∷ ps) (suc i) h b = low_stamp n ps i h.1 (omega arith)

  pub stamp_mono :
      (ps : List (TokenPrice P)) (i j : ℕ)
      → IsAscending ps
      → i ≤ j
      → j < length ps
      → stamp ps i ≤ stamp ps j
  stamp_mono [] i j h le b = absurd (omega arith)
  stamp_mono (p ∷ ps) zero zero h le b = omega arith
  stamp_mono (p ∷ ps) zero (suc j) h le b = low_stamp p.timestamp_ms ps j h.0 (omega arith)
  stamp_mono (p ∷ ps) (suc i) zero h le b = absurd (omega arith)
  stamp_mono (p ∷ ps) (suc i) (suc j) h le b = stamp_mono ps i j h.1 (omega arith) (omega arith)

  insert_price-All :
      (Q : TokenPrice P → Type 0) (p : TokenPrice P) (ps : List (TokenPrice P))
      → Q p
      → All Q ps
      → All Q (insert_price p ps)
  unfolding insert_price
  insert_price-All Q p [] h hs = (h, tt)
  insert_price-All Q p (q ∷ ps) h hs = elim (Bool-cases (leb p.timestamp_ms q.timestamp_ms)) [
    | inl le ↦ rw le (h, hs)
    | inr gt ↦ rw gt (hs.0, insert_price-All Q p ps h hs.1)
  ]

  pub sort_prices-All :
      (Q : TokenPrice P → Type 0) (ps : List (TokenPrice P)) → All Q ps → All Q (sort_prices ps)
  unfolding sort_prices
  sort_prices-All Q [] h = tt
  sort_prices-All Q (p ∷ ps) h = insert_price-All Q p _ h.0 (sort_prices-All Q ps h.1)

  All-mono :
      (m n : ℕ) (ps : List (TokenPrice P))
      → m ≤ n
      → All (λ q. n ≤ q.timestamp_ms) ps
      → All (λ q. m ≤ q.timestamp_ms) ps
  All-mono m n [] le h = tt
  All-mono m n (p ∷ ps) le h = (omega arith, All-mono m n ps le h.1)

  insert_price-IsAscending :
      (p : TokenPrice P) (ps : List (TokenPrice P))
      → IsAscending ps
      → IsAscending (insert_price p ps)
  unfolding insert_price
  insert_price-IsAscending p [] h = (tt, tt)
  insert_price-IsAscending p (q ∷ ps) h = elim (Bool-cases (leb p.timestamp_ms q.timestamp_ms)) [
    | inl le ↦
        let below : p.timestamp_ms ≤ q.timestamp_ms = ground (arith, le) in
        rw le ((below, All-mono _ _ ps below h.0), h)
    | inr gt ↦ rw gt (
      insert_price-All (λ r. q.timestamp_ms ≤ r.timestamp_ms) p ps (ground (arith, gt)) h.0,
      insert_price-IsAscending p ps h.1,
    )
  ]

  -- The sorted prices ascend.
  pub sort_prices-IsAscending : (ps : List (TokenPrice P)) → IsAscending (sort_prices ps)
  unfolding sort_prices
  sort_prices-IsAscending [] = tt
  sort_prices-IsAscending (p ∷ ps) = insert_price-IsAscending p _ (sort_prices-IsAscending ps)

  length-insert_price :
      (p : TokenPrice P) (ps : List (TokenPrice P)) → length (insert_price p ps) ≡ suc (length ps)
  unfolding insert_price
  length-insert_price p [] = refl
  length-insert_price p (q ∷ ps) = ground (arith, length-insert_price p ps)

  pub length-sort_prices : (ps : List (TokenPrice P)) → length (sort_prices ps) ≡ length ps
  unfolding sort_prices
  length-sort_prices [] = refl
  length-sort_prices (p ∷ ps) =
      omega (arith, length-insert_price p (sort_prices ps), length-sort_prices ps)
