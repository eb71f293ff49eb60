-- ===== src/Retry.antt =====
-- packages/shared/src/retry/retry.ts: `RetryHandler`, over the interface `RetryStrategy`.
-- The abort signal is read from the world, so it can fire while an operation or a delay is awaited.
pub mod Backoff
pub mod Attempts
pub mod Exits
pub mod Keeps
mod Tests
use grants_stack_indexer_v.Prelude.{
  ℕ, zero, suc, ◌+◌, Bool, true, false, Option, none, some, if◌then◌else◌,
}
use grants_stack_indexer_v.Effects.{Error, retriable, native_error, Outcome, ok, err, Action}

-- `RetryStrategy`; `get_delay` reads the random numbers of the world.
pub record RetryStrategy {ℓ} (S : Type ℓ) : Type ℓ where
  pub should_retry : ℕ → Bool
  pub get_delay : ℕ → Option ℕ → S → ℕ × S

-- what the handler finds in its surroundings: the signal, and `setTimeout` awaited
pub record Surroundings {ℓ} (S : Type ℓ) : Type ℓ where
  pub aborted : S → Bool
  pub sleep : ℕ → S → S

abbrev pub operation_aborted : Error
operation_aborted = native_error "Operation aborted"

-- `error instanceof RetriableError`, with `error.metadata?.retryAfterInMs`
abbrev pub retriable_metadata : Error → Option (Option ℕ)
retriable_metadata (retriable retry_after) = some retry_after
retriable_metadata _ = none

module _ {ℓ} {S : Type ℓ} (strategy : RetryStrategy S) (around : Surroundings S) where
  -- wait for `getDelay(attemptCount, retryAfter)`
  unfoldable pub wait : ℕ → Option ℕ → S → S
  wait attempt_count retry_after s =
      let (delay, s') = strategy.get_delay attempt_count retry_after s in around.sleep delay s'

module _ {ℓ κ} {S : Type ℓ} {A : Type κ} (strategy : RetryStrategy S)
    (around : Surroundings S) where
  -- the `catch` block, and the `break` after a success; `again` is the rest of the loop
  unfoldable pub after_attempt :
      (ℕ → S → Option (Outcome (Option A) × S))
      → ℕ
      → Outcome A × S
      → Option (Outcome (Option A) × S)
  after_attempt again attempt_count (ok a, s) = some (ok (some a), s)
  after_attempt again attempt_count (err e, s) = elim (retriable_metadata e) [
    | none ↦ some (err e, s)
    | some retry_after ↦ elim (strategy.should_retry (attempt_count + 1)) [
      | false ↦ some (err e, s)
      | true ↦ again (attempt_count + 1) (wait strategy around (attempt_count + 1) retry_after s)
    ]
  ]

  module _ (operation : Action S A) where
    -- the `while` loop; `none` means that the fuel ran out
    unfoldable pub retry_loop : ℕ → ℕ → S → Option (Outcome (Option A) × S)
    retry_loop zero attempt_count s = none
    retry_loop (suc fuel) attempt_count s = elim (around.aborted s) [
      | true ↦ some (ok none, s)
      | false ↦ after_attempt (retry_loop fuel) attempt_count (operation s)
    ]

    -- what follows the loop
    unfoldable pub after_loop : Outcome (Option A) × S → Outcome (Option A) × S
    after_loop (err e, s) = (err e, s)
    after_loop (ok result, s) =
        if around.aborted s then (err operation_aborted, s) else (ok result, s)

    unfoldable pub execute : ℕ → S → Option (Outcome (Option A) × S)
    execute fuel s = elim (retry_loop fuel 0 s) [ none ↦ none | some left ↦ some (after_loop left) ]
