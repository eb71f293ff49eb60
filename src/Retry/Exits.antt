-- ===== src/Retry/Exits.antt =====
-- How a run of `RetryHandler.execute` ends after some attempts that were retried.
use native.Mathlib.Nat.{zero-add}
use grants_stack_indexer_v.Prelude.{
  ℕ, suc, ◌+◌, ◌≡◌, ap, ◌∙◌, true, false, Option, none, some, arith, if◌then◌else◌,
}
use grants_stack_indexer_v.Effects.{Error, retriable, Outcome, ok, err, Action}
use grants_stack_indexer_v.Retry.{
  RetryStrategy, Surroundings, operation_aborted, retriable_metadata, wait, after_attempt,
  retry_loop, after_loop, execute,
}

module _ {ℓ μ} {S : Type ℓ} {A : Type μ} (strategy : RetryStrategy S) (around : Surroundings S)
    (operation : Action S A) where
  -- `n` attempts that failed with a retriable error, each with a retry granted and waited for
  pub data Retried (start : S) : ℕ → S → Type (ℓ ⊔ μ) where
    not_yet : Retried start 0 start
    once_more :
        {n m : ℕ} {s t : S} (r : Option ℕ)
        → Retried start n s
        → around.aborted s ≡ false
        → operation s ≡ (err (retriable r), t)
        → m ≡ n + 1
        → strategy.should_retry m ≡ true
        → Retried start m (wait strategy around m r t)

  loop_step :
      (fuel n : ℕ) (s : S) (o : Outcome A) (t : S)
      → around.aborted s ≡ false
      → operation s ≡ (o, t)
      → retry_loop strategy around operation (suc fuel) n s
        ≡ after_attempt strategy around (retry_loop strategy around operation fuel) n (o, t)
  unfolding retry_loop
  loop_step fuel n s o t run e = rw (run, e, retry_loop)

  retried_step :
      (fuel n m : ℕ) (r : Option ℕ) (t : S)
      → m ≡ n + 1
      → strategy.should_retry m ≡ true
      → after_attempt strategy around
          (retry_loop strategy around operation fuel)
          n
          (err (retriable r), t)
        ≡ retry_loop strategy around operation fuel m (wait strategy around m r t)
  unfolding after_attempt
  retried_step fuel n m r t e more = rw (e) (rw (rw e at more, after_attempt))

  -- The retried attempts take up as much fuel as there were.
  loop_after :
      {start t : S} {n : ℕ} (fuel : ℕ)
      → Retried start n t
      → retry_loop strategy around operation (n + fuel) 0 start
        ≡ retry_loop strategy around operation fuel n t
  loop_after fuel not_yet = rw zero-add
  loop_after {start} fuel (once_more {n} {m} {s} {t} r before run e next more) =
      ap (λ f. retry_loop strategy around operation f 0 start) regroup
      ∙ loop_after (suc fuel) before
      ∙ loop_step fuel n s _ t run e
      ∙ retried_step fuel n m r t next more
    where
      regroup : m + fuel ≡ n + suc fuel
      regroup = omega (arith, next)

  module _ {start t : S} {n : ℕ} (before : Retried start n t) where
    execute_after :
        (fuel : ℕ)
        → execute strategy around operation (n + fuel) start
          ≡ elim (retry_loop strategy around operation fuel n t) [
            | none ↦ none
            | some left ↦ some (after_loop strategy around operation left)
          ]
    unfolding execute
    execute_after fuel = rw (loop_after fuel before, execute)

    -- The signal has fired: the operation is not called again.
    pub execute_aborted :
        (fuel : ℕ)
        → around.aborted t ≡ true
        → execute strategy around operation (n + suc fuel) start ≡ some (err operation_aborted, t)
    unfolding retry_loop after_loop
    execute_aborted fuel stop = execute_after (suc fuel) ∙ rw (stop, retry_loop) (rw stop)

    module _ (run : around.aborted t ≡ false) {u : S} (fuel : ℕ) where
      -- The first success is the result, unless the signal fired meanwhile: then it is dropped.
      pub execute_success :
          (a : A)
          → operation t ≡ (ok a, u)
          → execute strategy around operation (n + suc fuel) start
            ≡ some (if around.aborted u then (err operation_aborted, u) else (ok (some a), u))
      unfolding after_attempt after_loop
      execute_success a e = execute_after (suc fuel) ∙ rw (loop_step fuel n t (ok a) u run e)

      -- An error that is not retriable is thrown at once.
      execute_failure :
          (error : Error)
          → operation t ≡ (err error, u)
          → retriable_metadata error ≡ none
          → execute strategy around operation (n + suc fuel) start ≡ some (err error, u)
      unfolding after_attempt after_loop
      execute_failure error e fatal =
          execute_after (suc fuel) ∙ rw (loop_step fuel n t (err error) u run e) (rw fatal)

      -- A retriable error is thrown when the strategy refuses another attempt.
      execute_given_up :
          (r : Option ℕ)
          → operation t ≡ (err (retriable r), u)
          → strategy.should_retry (n + 1) ≡ false
          → execute strategy around operation (n + suc fuel) start ≡ some (err (retriable r), u)
      unfolding after_attempt after_loop
      execute_given_up r e refused =
          execute_after (suc fuel)
          ∙ rw (loop_step fuel n t (err (retriable r)) u run e) (rw refused)
