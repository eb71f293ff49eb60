-- ===== src/Retry/Keeps.antt =====
-- What holds of the world after `RetryHandler.execute`: an invariant of the operation and of waiting, and
-- after a result what the operation's success gives.
use grants_stack_indexer_v.Prelude.{
  ℕ, zero, suc, ◌+◌, ◌≡◌, refl, true, false, Bool, Bool-cases, inl, inr, Option, none, some,
}
use grants_stack_indexer_v.Effects.{Error, Outcome, ok, err, Action}
use grants_stack_indexer_v.Retry.{
  RetryStrategy, Surroundings, operation_aborted, retriable_metadata, wait, after_attempt,
  retry_loop, after_loop, execute,
}

module _ {ℓ μ κ ν} {S : Type ℓ} {A : Type μ} (around : Surroundings S) (I : S → Type κ)
    (Q : S → Type ν) where
  -- what is known of a run that ended
  pub data Kept : Option (Outcome (Option A) × S) → Type (ℓ ⊔ μ ⊔ κ ⊔ ν) where
    out_of_fuel : Kept none
    returned : (a : A) (s : S) → I s → Q s → Kept (some (ok (some a), s))
    -- the loop was left because the signal had fired
    stopped : (s : S) → around.aborted s ≡ true → I s → Kept (some (ok none, s))
    thrown : (e : Error) (s : S) → I s → Kept (some (err e, s))

module _ {ℓ μ κ ν} {S : Type ℓ} {A : Type μ} (I : S → Type κ) (Q : S → Type ν) where
  -- what is known when `execute` is over
  pub data Left : Option (Outcome (Option A) × S) → Type (ℓ ⊔ μ ⊔ κ ⊔ ν) where
    no_fuel : Left none
    result : (a : A) (s : S) → I s → Q s → Left (some (ok (some a), s))
    failure : (e : Error) (s : S) → I s → Left (some (err e, s))

module _ {ℓ μ κ ν} {S : Type ℓ} {A : Type μ} (strategy : RetryStrategy S) (around : Surroundings S)
    (operation : Action S A) (I : S → Type κ) (Q : S → Type ν)
    (op_keeps : (s : S) → I s → I (operation s).1)
    (op_gives : (s : S) (a : A) → I s → (operation s).0 ≡ ok a → Q (operation s).1)
    (wait_keeps : (n : ℕ) (r : Option ℕ) (s : S) → I s → I (wait strategy around n r s)) where
  after_attempt-Kept :
      (fuel n : ℕ)
      → ((m : ℕ) (s : S) → I s → Kept around I Q (retry_loop strategy around operation fuel m s))
      → (o : Outcome A) (s : S) → I s
      → ((a : A) → o ≡ ok a → Q s)
      → Kept around I Q
          (after_attempt strategy around (retry_loop strategy around operation fuel) n (o, s))
  unfolding after_attempt
  after_attempt-Kept fuel n again (ok a) s i q = returned a s i (q a refl)
  after_attempt-Kept fuel n again (err e) s i q = by_class (retriable_metadata e)
    where
      by_class :
          (o : Option (Option ℕ))
          → Kept around I Q (elim o [
            | none ↦ some (err e, s)
            | some r ↦ elim (strategy.should_retry (n + 1)) [
              | false ↦ some (err e, s)
              | true ↦
                  retry_loop strategy around operation fuel
                    (n + 1)
                    (wait strategy around (n + 1) r s)
            ]
          ])
      by_class none = thrown e s i
      by_class (some r) = by_strategy (strategy.should_retry (n + 1))
        where
          by_strategy :
              (b : Bool)
              → Kept around I Q (elim b [
                | false ↦ some (err e, s)
                | true ↦
                    retry_loop strategy around operation fuel
                      (n + 1)
                      (wait strategy around (n + 1) r s)
              ])
          by_strategy false = thrown e s i
          by_strategy true = again (n + 1) _ (wait_keeps (n + 1) r s i)

  retry_loop-Kept :
      (fuel n : ℕ) (s : S) → I s → Kept around I Q (retry_loop strategy around operation fuel n s)
  unfolding retry_loop
  retry_loop-Kept zero n s i = out_of_fuel
  retry_loop-Kept (suc fuel) n s i = elim (Bool-cases (around.aborted s)) [
    | inl fired ↦ rw (fired, retry_loop) (stopped s fired i)
    | inr running ↦
        rw (running, retry_loop)
          (after_attempt-Kept fuel n (λ m t. retry_loop-Kept fuel m t) (operation s).0
            (operation s).1 (op_keeps s i) (λ a. op_gives s a i))
  ]

  after_loop-Left :
      (o : Option (Outcome (Option A) × S))
      → Kept around I Q o
      → Left I Q
          (elim o [ none ↦ none | some left ↦ some (after_loop strategy around operation left) ])
  unfolding after_loop
  after_loop-Left _ out_of_fuel = no_fuel
  after_loop-Left _ (returned a s i q) = elim (Bool-cases (around.aborted s)) [
    | inl fired ↦ rw (fired) (failure operation_aborted s i)
    | inr running ↦ rw (running) (result a s i q)
  ]
  after_loop-Left _ (stopped s fired i) = rw (fired) (failure operation_aborted s i)
  after_loop-Left _ (thrown e s i) = failure e s i

  -- Whatever the operation's outcomes, `execute` leaves a world with the invariant; if it returns, then it
  -- returns a result of the operation, in the world that this success left.
  pub execute-Left : (fuel : ℕ) (s : S) → I s → Left I Q (execute strategy around operation fuel s)
  unfolding execute
  execute-Left fuel s i = after_loop-Left _ (retry_loop-Kept fuel 0 s i)
