-- ===== src/Retry/Tests.antt =====
-- Runs of the retry handler with exponential backoff, and each theorem at an input.
use grants_stack_indexer_v.Prelude.{
  ℕ, suc, ◌+◌, max, ◌≡◌, refl, false, Option, none, some, ltb, arith, if◌then◌else◌,
}
use grants_stack_indexer_v.Effects.{retriable, invalid_event, ok, err, Action}
use grants_stack_indexer_v.Retry.{
  RetryStrategy, Surroundings, operation_aborted, wait, after_attempt, retry_loop, after_loop,
  execute,
}
use grants_stack_indexer_v.Retry.Attempts.{Ends, execute-Ends}
use grants_stack_indexer_v.Retry.Exits.{Retried, not_yet, once_more, execute_success}

-- The world counts the calls.
abbrev three : RetryStrategy ℕ
three = record { should_retry = λ n. ltb n 3; get_delay = λ n r s. (200, s) }

-- a signal that never fires, and one that fires after one call
abbrev quiet : Surroundings ℕ
quiet = record { aborted = λ s. false; sleep = λ d s. s }

abbrev fires : Surroundings ℕ
fires = record { aborted = λ s. ltb 0 s; sleep = λ d s. s }

-- fails with a retriable error until call `n`
abbrev flaky : ℕ → Action ℕ ℕ
flaky n s = (if ltb s n then err (retriable none) else ok (s + 1), s + 1)

retries_then_succeeds : execute three quiet (flaky 2) 4 0 ≡ some (ok (some 3), 3)
unfolding execute retry_loop after_attempt after_loop wait
retries_then_succeeds = refl

gives_up_at_three : execute three quiet (flaky 9) 4 0 ≡ some (err (retriable none), 3)
unfolding execute retry_loop after_attempt after_loop wait
gives_up_at_three = refl

execute-Ends_example :
    Ends three quiet (λ n s. n ≡ s) (max 1 3) (execute three quiet (flaky 9) (3 + 1) 0)
execute-Ends_example =
    execute-Ends three quiet (flaky 9) 3 (λ n s. n ≡ s) (λ n h. ground arith) (λ n s h. omega arith)
      counts_wait 0 refl
  where
    counts_wait : (n k : ℕ) (r : Option ℕ) (s : ℕ) → n ≡ s → n ≡ wait three quiet k r s
    counts_wait n k r s h = unfold wait in h

one_retry : Retried three quiet (flaky 1) 0 1 1
unfolding wait
one_retry = once_more none not_yet refl refl refl refl

execute_success_example :
    execute three quiet (flaky 1) (1 + suc 2) 0
    ≡ some (if false then (err operation_aborted, 2) else (ok (some 2), 2))
execute_success_example = execute_success three quiet (flaky 1) one_retry refl 2 2 refl

abbrev always : Action ℕ ℕ
always s = (err (retriable none), s + 1)

two_retries : Retried three quiet always 0 2 2
unfolding wait
two_retries = once_more none one_before refl refl refl refl
  where
    one_before : Retried three quiet always 0 1 1
    one_before = once_more none not_yet refl refl refl refl

-- the signal fires during the first attempt, so the success is dropped
success_dropped : execute three fires (flaky 0) 4 0 ≡ some (err operation_aborted, 1)
unfolding execute retry_loop after_attempt after_loop
success_dropped = refl

abbrev refused : Action ℕ ℕ
refused s = (err invalid_event, s + 1)
