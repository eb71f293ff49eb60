-- ===== src/Queue.antt =====
-- packages/data-flow/src/utils/queue.ts: the circular buffer that holds the fetched events.
-- A cell is `T | undefined`: an option. A method that mutates the queue returns the new one.
pub mod Represents
pub mod Loops
pub mod Refine
pub mod Fifo
mod Tests
use grants_stack_indexer_v.Prelude.{
  ℕ, zero, suc, ◌+◌, ◌-◌, ◌*◌, ◌/◌, ◌%◌, max, Bool, ◌&&◌, Option, none, List, [], ◌∷◌, some, ltb,
  ◌==◌, if◌then◌else◌, length, get_or, set, replicate,
}

pub record Queue {ℓ} (A : Type ℓ) : Type ℓ where
  pub buffer : List (Option A)
  pub head : ℕ
  pub tail : ℕ
  pub size : ℕ

-- `Math.ceil(Math.max(buffer.length * 2, requiredCapacity * 1.5))`
abbrev pub grown : ℕ → ℕ → ℕ
grown capacity required = max (capacity * 2) ((required * 3 + 1) / 2)

module _ {ℓ} {A : Type ℓ} where
  -- `buffer[i]`, which is `undefined` out of range
  abbrev pub cell : List (Option A) → ℕ → Option A
  cell buffer i = get_or buffer i none

  -- `new Queue(initialCapacity)`
  pub new_queue : ℕ → Queue A
  new_queue initial_capacity = record {
    buffer = replicate initial_capacity none;
    head = 0;
    tail = 0;
    size = 0;
  }

  -- the loop of `resize`: `newBuffer[i] = buffer[(head + i) % buffer.length]` for the next `n`
  -- values of `i`
  pub copy_from : List (Option A) → ℕ → ℕ → ℕ → List (Option A) → List (Option A)
  copy_from buffer head i zero new_buffer = new_buffer
  copy_from buffer head i (suc n) new_buffer =
      copy_from buffer head (i + 1) n (set new_buffer i (cell buffer ((head + i) % length buffer)))

  pub resize : ℕ → Queue A → Queue A
  resize new_capacity q = record {
    buffer = copy_from q.buffer q.head 0 q.size (replicate new_capacity none);
    head = 0;
    tail = q.size;
    size = q.size;
  }

  -- one round of the loop of `push`
  pub put : Queue A → A → Queue A
  put q item = record q {
    buffer = set q.buffer q.tail (some item);
    tail = (q.tail + 1) % length q.buffer;
    size = q.size + 1;
  }

  pub put_all : Queue A → List A → Queue A
  put_all q [] = q
  put_all q (item ∷ items) = put_all (put q item) items

  pub push : Queue A → List A → Queue A
  push q items =
      let required = q.size + length items in
      if ltb (length q.buffer) required
      then put_all (resize (grown (length q.buffer) required) q) items
      else put_all q items

  -- `size < buffer.length / 8 && buffer.length > 16384`; the new capacity is
  -- `Math.ceil(buffer.length / 2)`.
  pub shrink : Queue A → Queue A
  shrink q =
      if ltb (q.size * 8) (length q.buffer) && ltb 16384 (length q.buffer)
      then resize ((length q.buffer + 1) / 2) q
      else q

  pub remove_head : Queue A → Queue A
  remove_head q = record q {
    buffer = set q.buffer q.head none;
    head = (q.head + 1) % length q.buffer;
    size = q.size - 1;
  }

  pub pop : Queue A → Option A × Queue A
  pop q = if q.size == 0 then (none, q) else (cell q.buffer q.head, shrink (remove_head q))

  pub peek : Queue A → Option A
  peek q = cell q.buffer q.head

  pub is_empty : Queue A → Bool
  is_empty q = q.size == 0
