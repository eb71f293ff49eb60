-- ===== src/Pricing/Provider/Numbers.antt =====
-- The sort of the timestamps in cachingProxy.provider.ts.
use grants_stack_indexer_v.Prelude.{ℕ, ◌≤◌, ◌≢◌, List, [], ◌∷◌, leb, Bool-cases, inl, inr, arith}
use grants_stack_indexer_v.Pricing.Provider.{insert_number, sort_numbers}

abbrev pub AllNumbers : (ℕ → Type 0) → List ℕ → Type 0
AllNumbers Q [] = Unit
AllNumbers Q (n ∷ ns) = Q n × AllNumbers Q ns

abbrev pub Ascends : List ℕ → Type 0
Ascends [] = Unit
Ascends (n ∷ ns) = AllNumbers (λ m. n ≤ m) ns × Ascends ns

insert_number-All :
    (Q : ℕ → Type 0) (n : ℕ) (ns : List ℕ)
    → Q n
    → AllNumbers Q ns
    → AllNumbers Q (insert_number n ns)
unfolding insert_number
insert_number-All Q n [] h hs = (h, tt)
insert_number-All Q n (m ∷ ns) h hs = elim (Bool-cases (leb n m)) [
  | inl le ↦ rw le (h, hs)
  | inr gt ↦ rw gt (hs.0, insert_number-All Q n ns h hs.1)
]

All_numbers_mono :
    (m n : ℕ) (ns : List ℕ) → m ≤ n → AllNumbers (λ k. n ≤ k) ns → AllNumbers (λ k. m ≤ k) ns
All_numbers_mono m n [] le h = tt
All_numbers_mono m n (k ∷ ns) le h = (omega arith, All_numbers_mono m n ns le h.1)

insert_number-Ascends : (n : ℕ) (ns : List ℕ) → Ascends ns → Ascends (insert_number n ns)
unfolding insert_number
insert_number-Ascends n [] h = (tt, tt)
insert_number-Ascends n (m ∷ ns) h = elim (Bool-cases (leb n m)) [
  | inl le ↦
      let below : n ≤ m = ground (arith, le) in
      rw le ((below, All_numbers_mono _ _ ns below h.0), h)
  | inr gt ↦
      rw gt (
        insert_number-All (λ k. m ≤ k) n ns (ground (arith, gt)) h.0,
        insert_number-Ascends n ns h.1,
      )
]

pub sort_numbers-Ascends : (ns : List ℕ) → Ascends (sort_numbers ns)
unfolding sort_numbers
sort_numbers-Ascends [] = tt
sort_numbers-Ascends (n ∷ ns) = insert_number-Ascends n _ (sort_numbers-Ascends ns)

insert_number-ne : (n : ℕ) (ns : List ℕ) → insert_number n ns ≢ []
unfolding insert_number
insert_number-ne n [] = ground arith
insert_number-ne n (m ∷ ns) = ground arith

pub sort_numbers-ne : (ns : List ℕ) → ns ≢ [] → sort_numbers ns ≢ []
unfolding sort_numbers
sort_numbers-ne [] h = h
sort_numbers-ne (n ∷ ns) h = insert_number-ne n (sort_numbers ns)
