-- ===== src/Queue/Refine.antt =====
-- Each method of queue.ts does to the items what a FIFO list does.
use native.Mathlib.Nat.{mod-lt, mod-eq_of_lt}
use native.Mathlib.Decide.{dec_lt}
use grants_stack_indexer_v.Prelude.{
  ℕ, suc, ◌+◌, ◌-◌, ◌*◌, ◌/◌, ◌%◌, ◌≤◌, ◌<◌, max, ◌≡◌, refl, sym, ◌∙◌, inl, inr, Option, none, List,
  [], ◌∷◌, ◌++◌, true, false, ◌&&◌, Bool-cases, ltb, ltb→lt, ltb→le, ◌==◌, arith, length, get_elem?,
  set, first, rest, replicate, length-set, length-replicate, get_or-replicate, get_or-set_self,
  get_or-set_ne, get_elem?-of_le, get_elem?-zero,
}
use grants_stack_indexer_v.Queue.{
  Queue, cell, grown, resize, push, shrink, remove_head, pop, peek, is_empty,
}
use grants_stack_indexer_v.Queue.Represents.{Represents, wrap_cases, offsets_differ, head_offset}
use grants_stack_indexer_v.Queue.Loops.{
  put_all-Represents, length-copy_from, copy_from_inside, copy_from_outside,
}

still_room :
    (size capacity : ℕ)
    → (ltb (size * 8) capacity && ltb 16384 capacity) ≡ true
    → size < (capacity + 1) / 2
still_room size capacity h = ground arith

module _ {ℓ} {A : Type ℓ} where
  module _ (q : Queue A) (xs : List A) (n : ℕ) (r : Represents q xs) (room : length xs < n) where
    resized_capacity : length (resize n q).buffer ≡ n
    unfolding resize
    resized_capacity =
        length-copy_from q.buffer q.head 0 q.size (replicate n none) ∙ length-replicate n none

    resized_cell : (i : ℕ) → i < n → cell (resize n q).buffer i ≡ get_elem? xs i
    unfolding resize
    resized_cell i h = elim (dec_lt i (length xs)) [
      | yes p ↦
          copy_from_inside q.buffer q.head 0 q.size i (replicate n none) (omega arith)
            (omega (arith, r.size_eq))
            (omega (arith, r.size_eq, length-replicate {A = Option A} n none))
          ∙ r.cells i (omega (arith, r.fits))
      | no p ↦
          copy_from_outside q.buffer q.head 0 q.size i (replicate n none)
            (inr (omega (arith, r.size_eq)))
          ∙ get_or-replicate n i none
          ∙ sym (get_elem?-of_le xs i (omega arith))
    ]

    resized_fields :
        ((resize n q).head ≡ 0) × ((resize n q).tail ≡ q.size) × ((resize n q).size ≡ q.size)
    unfolding resize
    resized_fields = (refl, refl, refl)

    from_start : (i : ℕ) → i < n → ((resize n q).head + i) % n ≡ i
    from_start i h =
        rw (resized_fields.0) (omega (arith, mod-eq_of_lt {n = 0 + i} {m = n} (omega arith)))

    -- A resize to more cells than items keeps the items.
    resize-Represents : Represents (resize n q) xs
    resize-Represents = record {
      size_eq = omega (arith, resized_fields, r.size_eq);
      fits = omega (arith, resized_capacity);
      head_in = omega (arith, resized_capacity, resized_fields);
      tail_eq = rw resized_capacity (
          omega (
            arith,
            resized_fields,
            from_start (resize n q).size (omega (arith, resized_fields, r.size_eq)),
            r.size_eq,
          ));
      cells = rw resized_capacity (λ i h. rw (from_start i h) (resized_cell i h));
    }

  -- `push` appends the items, whether or not it has to grow the buffer.
  pub push-Represents :
      (q : Queue A) (xs items : List A) → Represents q xs → Represents (push q items) (xs ++ items)
  unfolding push
  push-Represents q xs items r = elim (Bool-cases (ltb (length q.buffer) (q.size + length items))) [
    | inl grow ↦
        let more : length xs < grown (length q.buffer) (q.size + length items) =
          omega (arith, ltb→lt _ _ grow, r.size_eq, r.fits) in
        rw grow (
          put_all-Represents _ xs items (resize-Represents q xs _ r more)
            (omega (arith, resized_capacity q xs _ r more, r.size_eq)))
    | inr fit ↦ rw fit (put_all-Represents q xs items r (omega (arith, ltb→le _ _ fit, r.size_eq)))
  ]

  -- Taking the head away shifts the cells by one and leaves `undefined` behind.
  removed_cells :
      (buffer : List (Option A)) (x : A) (xs : List A) (h i : ℕ)
      → h < length buffer
      → i < length buffer
      → length xs < length buffer
      → ((j : ℕ) → j < length buffer → cell buffer ((h + j) % length buffer) ≡ get_elem? (x ∷ xs) j)
      → cell (set buffer h none) (((h + 1) % length buffer + i) % length buffer) ≡ get_elem? xs i
  removed_cells buffer x xs h i hh hi room old = elim (dec_lt (suc i) (length buffer)) [
    | yes p ↦ rw (head_offset (length buffer) h i) (
        get_or-set_ne buffer h _ none none (λ e.
          offsets_differ (length buffer) h 0 (suc i) hh (omega arith) p (omega arith) (rw (here) e))
        ∙ old (suc i) p)
    | no p ↦
        rw
          (head_offset (length buffer) h i, round (omega arith), get_elem?-of_le xs i (omega arith))
          (get_or-set_self buffer h none none hh)
  ]
    where
      here : (h + 0) % length buffer ≡ h
      here = omega (arith, mod-eq_of_lt {n = h + 0} {m = length buffer} (omega arith))

      round : suc i ≡ length buffer → (h + suc i) % length buffer ≡ h
      round e = omega (arith, wrap_cases (length buffer) (h + suc i) (omega arith))

  remove_head-Represents :
      (q : Queue A) (x : A) (xs : List A) → Represents q (x ∷ xs) → Represents (remove_head q) xs
  unfolding remove_head
  remove_head-Represents q x xs r = record {
    size_eq = omega (arith, r.size_eq);
    fits = omega (arith, length-set q.buffer q.head none, r.fits);
    head_in = omega (
      arith,
      length-set q.buffer q.head none,
      r.fits,
      mod-lt (q.head + 1) {m = length q.buffer} (omega (arith, r.fits)),
    );
    tail_eq = rw (length-set q.buffer q.head none) (
        r.tail_eq
        ∙ rw (r.size_eq, one_less) (sym (head_offset (length q.buffer) q.head (length xs))));
    cells = rw (length-set q.buffer q.head none) λ i h.
        removed_cells q.buffer x xs q.head i (omega (arith, r.head_in, r.fits)) h
          (omega (arith, r.fits)) r.cells;
  }
    where
      one_less : suc (length xs) - 1 ≡ length xs
      one_less = omega arith

  shrink-Represents : (q : Queue A) (xs : List A) → Represents q xs → Represents (shrink q) xs
  unfolding shrink
  shrink-Represents q xs r =
      elim (Bool-cases (ltb (q.size * 8) (length q.buffer) && ltb 16384 (length q.buffer))) [
        | inl small ↦ rw small (
            resize-Represents q xs _ r
              (omega (arith, r.size_eq, still_room q.size (length q.buffer) small)))
        | inr big ↦ rw big r
      ]

  -- With items the cell at `head` is the first, and with none it is `undefined`.
  head_cell :
      (buffer : List (Option A)) (h : ℕ) (xs : List A)
      → h < max 1 (length buffer)
      → ((i : ℕ) → i < length buffer → cell buffer ((h + i) % length buffer) ≡ get_elem? xs i)
      → length xs ≤ length buffer
      → cell buffer h ≡ first xs
  head_cell [] h [] hh old fits = refl
  head_cell [] h (x ∷ xs) hh old fits = absurd (omega arith)
  head_cell (c ∷ buffer) h xs hh old fits = rw (here) at (old 0 (omega arith)) ∙ get_elem?-zero xs
    where
      here : (h + 0) % suc (length buffer) ≡ h
      here = omega (arith, mod-eq_of_lt {n = h + 0} {m = suc (length buffer)} (omega arith))

  -- `peek` shows the first item, and `undefined` on an empty queue.
  pub peek-first : (q : Queue A) (xs : List A) → Represents q xs → peek q ≡ first xs
  unfolding peek
  peek-first q xs r = head_cell q.buffer q.head xs r.head_in r.cells r.fits

  -- `pop` returns the first item and keeps the rest.
  pub pop-Represents :
      (q : Queue A) (xs : List A)
      → Represents q xs
      → ((pop q).0 ≡ first xs) × Represents (pop q).1 (rest xs)
  unfolding pop
  pop-Represents q [] r = simp (empty) (refl, r)
    where
      empty : (q.size == 0) ≡ true
      empty = ground (arith, r.size_eq)
  pop-Represents q (x ∷ xs) r = simp (more) (
    head_cell q.buffer q.head (x ∷ xs) r.head_in r.cells r.fits,
    shrink-Represents _ xs (remove_head-Represents q x xs r),
  )
    where
      more : (q.size == 0) ≡ false
      more = ground (arith, r.size_eq)

  pub is_empty_lem : (q : Queue A) (xs : List A) → Represents q xs → is_empty q ≡ (length xs == 0)
  unfolding is_empty
  is_empty_lem q xs r = ground (arith, r.size_eq)
