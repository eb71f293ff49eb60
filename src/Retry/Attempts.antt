-- ===== src/Retry/Attempts.antt =====
-- How often `RetryHandler.execute` calls the operation, and how each run of it ends.
use native.Mathlib.Decide.{dec_lt}
use grants_stack_indexer_v.Prelude.{
  ℕ, zero, suc, ◌+◌, ◌≤◌, ◌<◌, max, ◌≡◌, refl, inl, inr, true, false, Bool-cases, Option, none,
  some, arith,
}
use grants_stack_indexer_v.Effects.{retriable, Outcome, ok, err, Action}
use grants_stack_indexer_v.Retry.{
  RetryStrategy, Surroundings, operation_aborted, wait, after_attempt, retry_loop, after_loop,
  execute,
}

module _ {ℓ μ} {S : Type ℓ} {A : Type μ} (strategy : RetryStrategy S)
    (around : Surroundings S) where
  -- What a run of the loop comes to: an end within the calls allowed, in a state that knows how
  -- many calls were made.
  pub record Ends {κ} (Calls : ℕ → S → Type κ) (bound : ℕ) (r : Option (Outcome (Option A) × S))
      : Type (ℓ ⊔ κ ⊔ μ) where
    pub outcome : Outcome (Option A)
    pub state : S
    pub calls : ℕ
    pub ended : r ≡ some (outcome, state)
    pub within : calls ≤ bound
    pub made : Calls calls state

  module _ {κ} (operation : Action S A) (limit : ℕ) (Calls : ℕ → S → Type κ)
      (gives_up : (n : ℕ) → limit ≤ n → strategy.should_retry n ≡ false)
      (counts_call : (n : ℕ) (s : S) → Calls n s → Calls (n + 1) (operation s).1)
      (counts_wait : (n k : ℕ) (r : Option ℕ) (s : S)
        → Calls n s
        → Calls n (wait strategy around k r s)) where
    within_limit : (n : ℕ) → strategy.should_retry n ≡ true → n < limit
    within_limit n h = elim (dec_lt n limit) [ yes p ↦ p | no p ↦ cc (h, gives_up n (omega arith)) ]

    after_attempt-Ends :
        (fuel n : ℕ) (o : Outcome A) (s : S)
        → Calls (n + 1) s
        → ((s' : S)
            → n + 1 < limit
            → Calls (n + 1) s'
            → Ends Calls (max (n + 1) limit) (retry_loop strategy around operation fuel (n + 1) s'))
        → Ends Calls
            (max (n + 1) limit)
            (after_attempt strategy around (retry_loop strategy around operation fuel) n (o, s))
    unfolding after_attempt
    after_attempt-Ends fuel n (ok a) s made again = record {
      outcome = ok (some a);
      state = s;
      calls = n + 1;
      ended = refl;
      within = omega arith;
      made = made;
    }
    after_attempt-Ends fuel n (err (retriable r)) s made again =
        elim (Bool-cases (strategy.should_retry (n + 1))) [
          | inl retry ↦ rw retry (
              again (wait strategy around (n + 1) r s) (within_limit (n + 1) retry)
                (counts_wait (n + 1) (n + 1) r s made))
          | inr stop ↦ rw stop (record {
            outcome = err (retriable r);
            state = s;
            calls = n + 1;
            ended = refl;
            within = omega arith;
            made = made;
          })
        ]
    after_attempt-Ends fuel n (err e) s made again = record {
      outcome = err e;
      state = s;
      calls = n + 1;
      ended = refl;
      within = omega arith;
      made = made;
    }

    retry_loop-Ends :
        (fuel n : ℕ) (s : S)
        → 0 < fuel
        → limit ≤ n + fuel
        → Calls n s
        → Ends Calls (max (n + 1) limit) (retry_loop strategy around operation fuel n s)
    unfolding retry_loop
    retry_loop-Ends zero n s p q made = absurd (omega arith)
    retry_loop-Ends (suc fuel) n s p q made = elim (Bool-cases (around.aborted s)) [
      | inl stop ↦
          rw (stop, retry_loop)
            (record {
              outcome = ok none;
              state = s;
              calls = n;
              ended = refl;
              within = omega arith;
              made = made;
            })
      | inr run ↦
          rw (run, retry_loop)
            (after_attempt-Ends fuel n (operation s).0 (operation s).1 (counts_call n s made)
              (λ s' below made'.
                let e = retry_loop-Ends fuel (n + 1) s' (omega arith) (omega arith) made' in
                record {
                  outcome = e.outcome;
                  state = e.state;
                  calls = e.calls;
                  ended = e.ended;
                  within = omega (arith, e.within);
                  made = e.made;
                }))
    ]

    after_loop-Ends :
        (bound : ℕ) (o : Outcome (Option A)) (s : S) (n : ℕ)
        → n ≤ bound
        → Calls n s
        → Ends Calls bound (some (after_loop strategy around operation (o, s)))
    unfolding after_loop
    after_loop-Ends bound (err e) s n h made = record {
      outcome = err e;
      state = s;
      calls = n;
      ended = refl;
      within = h;
      made = made;
    }
    after_loop-Ends bound (ok r) s n h made = elim (Bool-cases (around.aborted s)) [
      | inl stop ↦ rw stop (record {
        outcome = err operation_aborted;
        state = s;
        calls = n;
        ended = refl;
        within = h;
        made = made;
      })
      | inr run ↦
          rw run
            (record { outcome = ok r; state = s; calls = n; ended = refl; within = h; made = made })
    ]

    -- If the strategy refuses every retry from `limit` on, `execute` ends, and it calls the operation
    -- at most `limit` times (once, if `limit` is 0). `Calls n s` says that `n` calls lead to `s`.
    pub execute-Ends :
        (s : S)
        → Calls 0 s
        → Ends Calls (max 1 limit) (execute strategy around operation (limit + 1) s)
    unfolding execute
    execute-Ends s made =
        let e = retry_loop-Ends (limit + 1) 0 s (omega arith) (omega arith) made in
        rw (e.ended, execute)
          (after_loop-Ends (max 1 limit) e.outcome e.state e.calls (omega (arith, e.within)) e.made)
