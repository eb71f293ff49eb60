-- ===== src/Queue/Tests.antt =====
-- Runs of the queue, and each theorem at an input.
use grants_stack_indexer_v.Prelude.{
  ℕ, zero, suc, ◌+◌, ◌%◌, ◌<◌, get_elem?, ◌≡◌, refl, none, some, List, [], ◌∷◌, arith,
}
use grants_stack_indexer_v.Queue.{Queue, cell, new_queue, copy_from, resize, put, put_all, push}
use grants_stack_indexer_v.Queue.Represents.{Represents}
use grants_stack_indexer_v.Queue.Fifo.{
  Call, push_call, pop_call, peek_call, length_call, run, fifo, new_queue-fifo,
}

-- 8, then 9, round the end of the buffer
abbrev wrapped : Queue ℕ
wrapped = record { buffer = some 9 ∷ none ∷ some 8 ∷ []; head = 2; tail = 1; size = 2 }

wrapped-Represents : Represents wrapped (8 ∷ 9 ∷ [])
wrapped-Represents = record {
  size_eq = refl;
  fits = omega arith;
  head_in = omega arith;
  tail_eq = refl;
  cells = λ i h. cell_at i h;
}
  where
    cell_at : (i : ℕ) → i < 3 → cell wrapped.buffer ((2 + i) % 3) ≡ get_elem? (8 ∷ 9 ∷ []) i
    cell_at zero h = refl
    cell_at (suc zero) h = refl
    cell_at (suc (suc zero)) h = refl
    cell_at (suc (suc (suc i))) h = absurd (omega arith)

-- a push that has to grow the buffer while it goes round
grows : (push wrapped (1 ∷ 2 ∷ [])).buffer ≡ some 8 ∷ some 9 ∷ some 1 ∷ some 2 ∷ none ∷ none ∷ []
unfolding push put_all put resize copy_from
grows = refl

abbrev script : List (Call ℕ)
script =
    pop_call ∷ push_call (1 ∷ 2 ∷ []) ∷ pop_call ∷ push_call (3 ∷ []) ∷ peek_call ∷ length_call ∷ []

new_queue-fifo_example : run (new_queue 1) script ≡ fifo [] script
new_queue-fifo_example = new_queue-fifo 1 script
