-- ===== src/IndexerClient/Blocks.antt =====
-- The blocks of the events that the indexer returns: counts, and what comes before a block.
use grants_stack_indexer_v.Prelude.{
  ℕ, zero, suc, ◌+◌, ◌==◌, ◌≤◌, ◌<◌, ◌≡◌, refl, ap, Bool, ◌&&◌, ◌||◌, List, [], ◌∷◌, ◌++◌, map, ltb,
  ltb→lt, inl, inr, Bool-cases, arith, if◌then◌else◌,
}
use grants_stack_indexer_v.Events.{AnyEvent}
use grants_stack_indexer_v.IndexerClient.{
  Place, in_milliseconds, last_block, count_of_block, before_block,
}

module _ {ℓ} {P : Type ℓ} where
  -- the first items of a list, and the events after a place, in their order
  unfoldable pub take : ℕ → List (AnyEvent P) → List (AnyEvent P)
  take zero es = []
  take (suc n) [] = []
  take (suc n) (e ∷ es) = e ∷ take n es

  abbrev pub is_after : Place → AnyEvent P → Bool
  is_after p e =
      ltb p.block_number e.block_number
      || (e.block_number == p.block_number && ltb p.log_index e.log_index)

  unfoldable pub events_after : Place → List (AnyEvent P) → List (AnyEvent P)
  events_after p [] = []
  events_after p (e ∷ es) =
      let others = events_after p es in if is_after p e then e ∷ others else others

  -- the blocks do not go back, and start at a number or later
  abbrev pub Ascending : ℕ → List (AnyEvent P) → Type 0
  Ascending low [] = Unit
  Ascending low (e ∷ es) = (low ≤ e.block_number) × Ascending e.block_number es

  abbrev pub AllFrom : ℕ → List (AnyEvent P) → Type 0
  AllFrom n [] = Unit
  AllFrom n (e ∷ es) = (n ≤ e.block_number) × AllFrom n es

  abbrev pub AllBefore : ℕ → List (AnyEvent P) → Type 0
  AllBefore n [] = Unit
  AllBefore n (e ∷ es) = (e.block_number < n) × AllBefore n es

  pub take-append :
      (n : ℕ) (es : List (AnyEvent P)) → (rest : List (AnyEvent P)) × (es ≡ take n es ++ rest)
  unfolding take
  take-append zero es = (es, refl)
  take-append (suc n) [] = ([], refl)
  take-append (suc n) (e ∷ es) = let (rest, same) = take-append n es in (rest, ap (λ l. e ∷ l) same)

  pub Ascending-of_le : (m n : ℕ) (es : List (AnyEvent P)) → m ≤ n → Ascending n es → Ascending m es
  Ascending-of_le m n [] le a = tt
  Ascending-of_le m n (e ∷ es) le (low, a) = (omega (arith, le, low), a)

  pub events_after-Ascending :
      (p : Place) (low : ℕ) (es : List (AnyEvent P))
      → Ascending low es
      → Ascending low (events_after p es)
  unfolding events_after
  events_after-Ascending p low [] a = tt
  events_after-Ascending p low (e ∷ es) (le, a) = elim (Bool-cases (is_after p e)) [
    | inl later ↦ rw later (le, events_after-Ascending p e.block_number es a)
    | inr not_later ↦ rw not_later (
        Ascending-of_le low e.block_number (events_after p es) le
          (events_after-Ascending p e.block_number es a))
  ]

  pub Ascending-AllFrom :
      (n low : ℕ) (es : List (AnyEvent P)) → n ≤ low → Ascending low es → AllFrom n es
  Ascending-AllFrom n low [] le a = tt
  Ascending-AllFrom n low (e ∷ es) le (le2, a) =
      (omega (arith, le, le2), Ascending-AllFrom n e.block_number es (omega (arith, le, le2)) a)

  pub count_of_block-append :
      (n : ℕ) (es fs : List (AnyEvent P))
      → count_of_block n (es ++ fs) ≡ count_of_block n es + count_of_block n fs
  unfolding count_of_block
  count_of_block-append n [] fs = omega arith
  count_of_block-append n (e ∷ es) fs = elim (Bool-cases (e.block_number == n)) [
    | inl same ↦ rw same (omega (arith, count_of_block-append n es fs))
    | inr other ↦ rw other (count_of_block-append n es fs)
  ]

  pub count_of_block-events_after :
      (n : ℕ) (p : Place) (es : List (AnyEvent P))
      → count_of_block n (events_after p es) ≤ count_of_block n es
  unfolding count_of_block events_after
  count_of_block-events_after n p [] = omega arith
  count_of_block-events_after n p (e ∷ es) =
      let le = count_of_block-events_after n p es in
      elim (Bool-cases (is_after p e)) [
        | inl later ↦ elim (Bool-cases (e.block_number == n)) [
          | inl same ↦ rw (later, same) (omega (arith, le))
          | inr other ↦ rw (later, other) le
        ]
        | inr not_later ↦ elim (Bool-cases (e.block_number == n)) [
          | inl same ↦ rw (not_later, same) (omega (arith, le))
          | inr other ↦ rw (not_later, other) le
        ]
      ]

  pub before_block-none :
      (n low : ℕ) (es : List (AnyEvent P)) → n ≤ low → Ascending low es → before_block n es ≡ []
  unfolding before_block
  before_block-none n low [] le a = refl
  before_block-none n low (e ∷ es) le (le2, a) =
      rw (before_block-none n e.block_number es (omega (arith, le, le2)) a)
        (elim (Bool-cases (ltb e.block_number n)) [
          | inl earlier ↦ absurd (omega (arith, ltb→lt e.block_number n earlier, le, le2))
          | inr later ↦ rw later refl
        ])

  -- what is left out of the events before a block
  pub before_block-append :
      (n low : ℕ) (es : List (AnyEvent P))
      → Ascending low es
      → (rest : List (AnyEvent P)) × (es ≡ before_block n es ++ rest)
        × AllBefore n (before_block n es)
        × AllFrom n rest
  unfolding before_block
  before_block-append n low [] a = ([], refl, tt, tt)
  before_block-append n low (e ∷ es) (le, a) =
      let (rest, same, before, from) = before_block-append n e.block_number es a in
      elim (Bool-cases (ltb e.block_number n)) [
        | inl earlier ↦
            rw earlier (rest, ap (λ l. e ∷ l) same, (ltb→lt e.block_number n earlier, before), from)
        | inr later ↦
            let none_before : before_block n es ≡ [] =
              before_block-none n e.block_number es (ground arith) a in
            rw (later, none_before)
              (
                e ∷ es,
                refl,
                tt,
                (ground arith, Ascending-AllFrom n e.block_number es (ground arith) a),
              )
      ]

  -- the events up to the last block of a list, and those that follow it
  pub last_block-bounds :
      (low : ℕ) (es fs : List (AnyEvent P)) (e : AnyEvent P)
      → Ascending low (e ∷ es ++ fs)
      → AllBefore (suc (last_block e.block_number es)) (e ∷ es)
        × AllFrom (last_block e.block_number es) fs
        × (e.block_number ≤ last_block e.block_number es)
  last_block-bounds low [] fs e (le, a) = (
    (omega arith, tt),
    Ascending-AllFrom e.block_number e.block_number fs (omega arith) a,
    omega arith,
  )
  last_block-bounds low (f ∷ es) fs e (le, a) =
      let (before, from, le2) = last_block-bounds e.block_number es fs f a in
      ((omega (arith, a.0, le2), before), from, omega (arith, a.0, le2))

  pub none_of_block :
      (n : ℕ) (es : List (AnyEvent P)) → count_of_block n es ≤ 0 → AllFrom n es → AllFrom (suc n) es
  unfolding count_of_block
  none_of_block n [] none_counted from = tt
  none_of_block n (e ∷ es) none_counted (le, from) = elim (Bool-cases (e.block_number == n)) [
    | inl same ↦ absurd (omega (arith, rw same at none_counted))
    | inr other ↦ (ground arith, none_of_block n es (rw other at none_counted) from)
  ]

  pub Ascending-left :
      (low : ℕ) (es fs : List (AnyEvent P)) → Ascending low (es ++ fs) → Ascending low es
  Ascending-left low [] fs a = tt
  Ascending-left low (e ∷ es) fs (le, a) = (le, Ascending-left e.block_number es fs a)

  pub AllFrom-append :
      (n : ℕ) (es fs : List (AnyEvent P)) → AllFrom n es → AllFrom n fs → AllFrom n (es ++ fs)
  AllFrom-append n [] fs h k = k
  AllFrom-append n (e ∷ es) fs (le, h) k = (le, AllFrom-append n es fs h k)

  -- the time of an event has nothing to do with its block
  pub last_block-map :
      (n : ℕ) (es : List (AnyEvent P)) → last_block n (map in_milliseconds es) ≡ last_block n es
  last_block-map n [] = refl
  last_block-map n (e ∷ es) = last_block-map e.block_number es

  pub count_of_block-map :
      (n : ℕ) (es : List (AnyEvent P))
      → count_of_block n (map in_milliseconds es) ≡ count_of_block n es
  unfolding count_of_block
  count_of_block-map n [] = refl
  count_of_block-map n (e ∷ es) = rw (count_of_block-map n es) refl

  pub before_block-map :
      (n : ℕ) (es : List (AnyEvent P))
      → before_block n (map in_milliseconds es) ≡ map in_milliseconds (before_block n es)
  unfolding before_block
  before_block-map n [] = refl
  before_block-map n (e ∷ es) = elim (Bool-cases (ltb e.block_number n)) [
    | inl earlier ↦ rw earlier (ap (λ l. in_milliseconds e ∷ l) (before_block-map n es))
    | inr later ↦ rw later (before_block-map n es)
  ]

  pub AllFrom-left : (n : ℕ) (es fs : List (AnyEvent P)) → AllFrom n (es ++ fs) → AllFrom n es
  AllFrom-left n [] fs h = tt
  AllFrom-left n (e ∷ es) fs (le, h) = (le, AllFrom-left n es fs h)

  pub AllBefore-left : (n : ℕ) (es fs : List (AnyEvent P)) → AllBefore n (es ++ fs) → AllBefore n es
  AllBefore-left n [] fs h = tt
  AllBefore-left n (e ∷ es) fs (lt, h) = (lt, AllBefore-left n es fs h)

  -- events that all are of one block
  pub last_block-same :
      (n m : ℕ) (es : List (AnyEvent P))
      → m ≡ n
      → AllFrom n es
      → AllBefore (suc n) es
      → last_block m es ≡ n
  last_block-same n m [] same from before = same
  last_block-same n m (e ∷ es) same (le, from) (lt, before) =
      last_block-same n e.block_number es (omega (arith, le, lt)) from before

  pub before_block-AllFrom :
      (n : ℕ) (es : List (AnyEvent P)) → AllFrom n es → before_block n es ≡ []
  unfolding before_block
  before_block-AllFrom n [] from = refl
  before_block-AllFrom n (e ∷ es) (le, from) =
      rw (before_block-AllFrom n es from) (elim (Bool-cases (ltb e.block_number n)) [
        | inl earlier ↦ absurd (omega (arith, ltb→lt e.block_number n earlier, le))
        | inr later ↦ rw later refl
      ])
