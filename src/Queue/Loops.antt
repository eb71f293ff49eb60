-- ===== src/Queue/Loops.antt =====
-- The two loops of queue.ts: the one that writes pushed items and the one that copies on a resize.
use native.Mathlib.Nat.{mod-lt}
use native.Mathlib.Decide.{ℕ_discrete}
use mathlib.Core.List.{append_assoc, append-nil}
use grants_stack_indexer_v.Prelude.{
  ℕ, zero, suc, ◌+◌, ◌%◌, ◌≤◌, ◌<◌, ◌≡◌, refl, sym, ◌∙◌, ◌⊎◌, inl, Option, none, some, List, [],
  ◌∷◌, ◌++◌, arith, length, get_elem?, set, length-set, length-append, get_or-set_self,
  get_or-set_ne, get_elem?-append_length, get_elem?-append_ne,
}
use grants_stack_indexer_v.Queue.{Queue, cell, copy_from, put, put_all}
use grants_stack_indexer_v.Queue.Represents.{Represents, offsets_differ, next_offset}

module _ {ℓ} {A : Type ℓ} where
  -- Writing just past the items adds the item, and leaves the other cells alone.
  set_cells :
      (buffer : List (Option A)) (xs : List A) (item : A) (h t i : ℕ)
      → h < length buffer
      → length xs < length buffer
      → i < length buffer
      → t ≡ (h + length xs) % length buffer
      → cell buffer ((h + i) % length buffer) ≡ get_elem? xs i
      → cell (set buffer t (some item)) ((h + i) % length buffer) ≡ get_elem? (xs ++ item ∷ []) i
  set_cells buffer xs item h t i hh room hi e old = elim (ℕ_discrete i (length xs)) [
    | yes p ↦
        rw (p, e, get_elem?-append_length xs item)
          (get_or-set_self buffer _ (some item) none (mod-lt _ (omega arith)))
    | no p ↦
        rw (e, get_elem?-append_ne xs item i p)
          (get_or-set_ne buffer _ _ (some item) none
              (offsets_differ (length buffer) h (length xs) i hh room hi (λ q. p (sym q)))
            ∙ old)
  ]

  pub put-Represents :
      (q : Queue A) (xs : List A) (item : A)
      → Represents q xs
      → length xs < length q.buffer
      → Represents (put q item) (xs ++ item ∷ [])
  unfolding put
  put-Represents q xs item r room = record {
    size_eq = omega (arith, r.size_eq, length-append xs (item ∷ []));
    fits = omega (arith, length-append xs (item ∷ []), length-set q.buffer q.tail (some item));
    head_in = omega (arith, r.head_in, length-set q.buffer q.tail (some item));
    tail_eq =
        rw (length-set q.buffer q.tail (some item), r.tail_eq)
          (next_offset (length q.buffer) q.head q.size);
    cells = λ i. rw (length-set q.buffer q.tail (some item)) λ h.
        set_cells q.buffer xs item q.head q.tail i (omega (arith, r.head_in)) room h
          (rw (← r.size_eq) r.tail_eq) (r.cells i h);
  }

  pub put-capacity : (q : Queue A) (item : A) → length (put q item).buffer ≡ length q.buffer
  unfolding put
  put-capacity q item = length-set q.buffer q.tail (some item)

  pub put_all-Represents :
      (q : Queue A) (xs items : List A)
      → Represents q xs
      → length xs + length items ≤ length q.buffer
      → Represents (put_all q items) (xs ++ items)
  unfolding put_all
  put_all-Represents q xs [] r room = rw (append-nil xs) r
  put_all-Represents q xs (item ∷ items) r room = rw (← append_assoc xs (item ∷ []) items) (
      put_all-Represents (put q item) (xs ++ item ∷ []) items
        (put-Represents q xs item r (omega arith))
        (omega (arith, length-append xs (item ∷ []), put-capacity q item)))

  pub length-copy_from :
      (buffer : List (Option A)) (head i n : ℕ) (new_buffer : List (Option A))
      → length (copy_from buffer head i n new_buffer) ≡ length new_buffer
  unfolding copy_from
  length-copy_from buffer head i zero new_buffer = refl
  length-copy_from buffer head i (suc n) new_buffer =
      length-copy_from buffer head (i + 1) n _ ∙ length-set new_buffer i _

  pub copy_from_outside :
      (buffer : List (Option A)) (head i n j : ℕ) (new_buffer : List (Option A))
      → (j < i) ⊎ (i + n ≤ j)
      → cell (copy_from buffer head i n new_buffer) j ≡ cell new_buffer j
  unfolding copy_from
  copy_from_outside buffer head i zero j new_buffer h = refl
  copy_from_outside buffer head i (suc n) j new_buffer h =
      copy_from_outside buffer head (i + 1) n j _ (omega arith)
      ∙ get_or-set_ne new_buffer i j _ none (omega arith)

  -- The copying loop writes the cells from `i` to `i + n`, and no other.
  pub copy_from_inside :
      (buffer : List (Option A)) (head i n j : ℕ) (new_buffer : List (Option A))
      → i ≤ j
      → j < i + n
      → i + n ≤ length new_buffer
      → cell (copy_from buffer head i n new_buffer) j ≡ cell buffer ((head + j) % length buffer)
  unfolding copy_from
  copy_from_inside buffer head i zero j new_buffer h k l = absurd (omega arith)
  copy_from_inside buffer head i (suc n) j new_buffer h k l = elim (ℕ_discrete i j) [
    | yes e ↦ rw (← e) (
        copy_from_outside buffer head (i + 1) n i _ (inl (omega arith))
        ∙ get_or-set_self new_buffer i _ none (omega arith))
    | no ne ↦
        copy_from_inside buffer head (i + 1) n j _ (omega arith) (omega arith)
          (omega (arith, length-set new_buffer i (cell buffer ((head + i) % length buffer))))
  ]
