-- ===== src/Queue/Represents.antt =====
-- What it means for the circular buffer of queue.ts to hold a sequence of items.
use native.Mathlib.Decide.{dec_lt}
use native.Mathlib.Nat.{mod-add-mod, mod-eq_of_lt, mod-eq-sub-mod, zero-mod}
use grants_stack_indexer_v.Prelude.{
  ℕ, suc, ◌+◌, ◌-◌, ◌%◌, ◌≤◌, ◌<◌, max, ◌≡◌, ◌≢◌, refl, ap, sym, ◌∙◌, ◌⊎◌, inl, inr, none, List, [],
  arith, length, get_elem?, get_or-replicate,
}
use grants_stack_indexer_v.Queue.{Queue, cell, new_queue}

-- The cells from `head` on, going round, are the items and then `undefined`.
pub record Represents {ℓ} {A : Type ℓ} (q : Queue A) (xs : List A) : Type ℓ where
  pub size_eq : q.size ≡ length xs
  pub fits : length xs ≤ length q.buffer
  pub head_in : q.head < max 1 (length q.buffer)
  pub tail_eq : q.tail ≡ (q.head + q.size) % length q.buffer
  pub cells :
      (i : ℕ)
      → i < length q.buffer
      → cell q.buffer ((q.head + i) % length q.buffer) ≡ get_elem? xs i

-- Going round once at most.
pub wrap_cases :
    (cap n : ℕ) → n < cap + cap → ((n < cap) × (n % cap ≡ n)) ⊎ ((cap ≤ n) × (n % cap ≡ n - cap))
wrap_cases cap n h = elim (dec_lt n cap) [
  | yes p ↦ inl (p, mod-eq_of_lt p)
  | no p ↦ inr (
    omega arith,
    mod-eq-sub-mod {n = n} {m = cap} (omega arith)
        ∙ mod-eq_of_lt {n = n - cap} {m = cap} (omega arith),
  )
]

-- Two different offsets below the capacity go to different cells.
pub offsets_differ :
    (cap h i j : ℕ) → h < cap → i < cap → j < cap → i ≢ j → (h + i) % cap ≢ (h + j) % cap
offsets_differ cap h i j hh hi hj ne e =
    omega (arith, wrap_cases cap (h + i) (omega arith), wrap_cases cap (h + j) (omega arith))

-- One more step round from an offset.
pub next_offset : (cap h i : ℕ) → ((h + i) % cap + 1) % cap ≡ (h + (i + 1)) % cap
next_offset cap h i = rw mod-add-mod (ap (λ k. k % cap) (omega arith))

pub head_offset : (cap h i : ℕ) → ((h + 1) % cap + i) % cap ≡ (h + suc i) % cap
head_offset cap h i = rw mod-add-mod (ap (λ k. k % cap) (omega arith))

module _ {ℓ} {A : Type ℓ} where
  -- A new queue holds nothing.
  pub new_queue-Represents : (capacity : ℕ) → Represents (new_queue {A = A} capacity) []
  unfolding new_queue
  new_queue-Represents capacity = record {
    size_eq = refl;
    fits = omega arith;
    head_in = omega arith;
    tail_eq = sym (zero-mod _);
    cells = λ i h. get_or-replicate capacity _ none;
  }
