-- ===== src/Queue/Fifo.antt =====
-- The interface `IQueue` of queue.ts as a first-in first-out list, and the buffer against it over
-- any sequence of calls.
use grants_stack_indexer_v.Prelude.{
  ℕ, ◌≡◌, refl, Bool, Option, List, [], ◌∷◌, ◌++◌, ◌==◌, length, first, rest,
}
use grants_stack_indexer_v.Queue.{Queue, new_queue, push, pop, peek, is_empty}
use grants_stack_indexer_v.Queue.Represents.{Represents, new_queue-Represents}
use grants_stack_indexer_v.Queue.Refine.{push-Represents, pop-Represents, peek-first, is_empty_lem}

-- a call on the queue, and what it returns
pub data Call {ℓ} (A : Type ℓ) : Type ℓ where
  push_call : List A → Call A
  pop_call peek_call length_call is_empty_call : Call A

pub data Reply {ℓ} (A : Type ℓ) : Type ℓ where
  nothing : Reply A
  item : Option A → Reply A
  number : ℕ → Reply A
  flag : Bool → Reply A

module _ {ℓ} {A : Type ℓ} where
  -- the calls in order on the circular buffer
  pub run : Queue A → List (Call A) → List (Reply A)
  run q [] = []
  run q (push_call items ∷ calls) = nothing ∷ run (push q items) calls
  run q (pop_call ∷ calls) = item (pop q).0 ∷ run (pop q).1 calls
  run q (peek_call ∷ calls) = item (peek q) ∷ run q calls
  run q (length_call ∷ calls) = number q.size ∷ run q calls
  run q (is_empty_call ∷ calls) = flag (is_empty q) ∷ run q calls

  -- the same calls on a list, oldest item first
  pub fifo : List A → List (Call A) → List (Reply A)
  fifo xs [] = []
  fifo xs (push_call items ∷ calls) = nothing ∷ fifo (xs ++ items) calls
  fifo xs (pop_call ∷ calls) = item (first xs) ∷ fifo (rest xs) calls
  fifo xs (peek_call ∷ calls) = item (first xs) ∷ fifo xs calls
  fifo xs (length_call ∷ calls) = number (length xs) ∷ fifo xs calls
  fifo xs (is_empty_call ∷ calls) = flag (length xs == 0) ∷ fifo xs calls

  run-fifo :
      (calls : List (Call A)) (q : Queue A) (xs : List A)
      → Represents q xs
      → run q calls ≡ fifo xs calls
  unfolding run fifo
  run-fifo [] q xs r = refl
  run-fifo (push_call items ∷ calls) q xs r =
      cc (run-fifo calls (push q items) (xs ++ items) (push-Represents q xs items r))
  run-fifo (pop_call ∷ calls) q xs r =
      cc ((pop-Represents q xs r).0, run-fifo calls (pop q).1 (rest xs) (pop-Represents q xs r).1)
  run-fifo (peek_call ∷ calls) q xs r = cc (peek-first q xs r, run-fifo calls q xs r)
  run-fifo (length_call ∷ calls) q xs r = cc (r.size_eq, run-fifo calls q xs r)
  run-fifo (is_empty_call ∷ calls) q xs r = cc (is_empty_lem q xs r, run-fifo calls q xs r)

  -- Whatever the initial capacity and the calls of `push`, `pop`, `peek`, `length` and `isEmpty`,
  -- growing and shrinking included, a new queue answers each call as a first-in first-out list.
  pub new_queue-fifo :
      (capacity : ℕ) (calls : List (Call A)) → run (new_queue capacity) calls ≡ fifo [] calls
  new_queue-fifo capacity calls = run-fifo calls _ [] (new_queue-Represents capacity)
