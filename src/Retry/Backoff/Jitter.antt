-- ===== src/Retry/Backoff/Jitter.antt =====
-- The bounds of `getDelay` in exponentialBackoff.strategy.ts.
use native.Mathlib.Nat.{
  mul-div-le, lt-mul-div-succ, le_of_mul-le-mul_left, mul-le-mul_left, lt_of_mul-lt-mul_left,
  one-le-pow,
}
use grants_stack_indexer_v.Prelude.{ℕ, suc, ◌+◌, ◌*◌, ◌≤◌, ◌<◌, ◌≡◌, Option, none, some, arith}
use grants_stack_indexer_v.Retry.Backoff.{
  Fraction, Options, calculated_delay, target_delay, at_most, at_least, wanted_delay, add_jitter,
  get_delay,
}

module _ (random delay : Fraction) (unit : random.num < random.den) (pos : 0 < delay.den) where
  abbrev divisor : ℕ
  divisor = delay.den * (10 * random.den)

  divisor_pos : 0 < divisor
  divisor_pos = grind arith

  jitter_le : 10 * (delay.den * add_jitter random delay) ≤ 12 * delay.num
  unfolding add_jitter
  jitter_le =
      le_of_mul-le-mul_left {k = random.den}
        (omega (
          arith,
          mul-div-le (delay.num * (8 * random.den + 4 * random.num)) divisor,
          mul-le-mul_left {m = random.num} {n = random.den} delay.num (omega arith),
        ))
        (omega arith)

  jitter_gt : 8 * delay.num < 10 * (delay.den * (add_jitter random delay + 1))
  unfolding add_jitter
  jitter_gt =
      lt_of_mul-lt-mul_left random.den
        (omega (arith, lt-mul-div-succ (delay.num * (8 * random.den + 4 * random.num)) divisor_pos))

-- The delay that is asked for is a fraction with a positive denominator.
wanted_delay_pos :
    (o : Options) (attempt_count : ℕ) (retry_after : Option ℕ)
    → 0 < o.factor.den
    → 0 < (wanted_delay o attempt_count retry_after).den
unfolding wanted_delay target_delay at_most at_least calculated_delay
wanted_delay_pos o attempt_count retry_after h =
    ground (arith, one-le-pow attempt_count o.factor.den h)

-- `getDelay` strays at most a fifth from the delay that is asked for, downwards before rounding to
-- whole milliseconds, if the factor is a fraction and the random number is below 1.
pub get_delay_bounds :
    (o : Options) (random : Fraction) (attempt_count : ℕ) (retry_after : Option ℕ)
    → 0 < o.factor.den
    → random.num < random.den
    → let wanted = wanted_delay o attempt_count retry_after in
      let delay = get_delay o random attempt_count retry_after in
      (10 * (wanted.den * delay) ≤ 12 * wanted.num)
      × (8 * wanted.num < 10 * (wanted.den * (delay + 1)))
unfolding get_delay
get_delay_bounds o random attempt_count retry_after h unit =
    let pos = wanted_delay_pos o attempt_count retry_after h in
    (jitter_le random _ unit pos, jitter_gt random _ unit pos)

capped :
    (o : Options) (attempt_count cap : ℕ)
    → o.max_delay ≡ some (suc cap)
    → (target_delay o attempt_count).num ≤ suc cap * (target_delay o attempt_count).den
unfolding target_delay at_most calculated_delay
capped o attempt_count cap e = rw e (ground arith)

-- With a maximal delay and no delay asked for by the service, `getDelay` exceeds the maximum by a
-- fifth at most, at every attempt.
get_delay_le_max :
    (o : Options) (random : Fraction) (attempt_count cap : ℕ)
    → 0 < o.factor.den
    → random.num < random.den
    → o.max_delay ≡ some (suc cap)
    → 10 * get_delay o random attempt_count none ≤ 12 * suc cap
unfolding wanted_delay
get_delay_le_max o random attempt_count cap h unit e =
    le_of_mul-le-mul_left {k = (target_delay o attempt_count).den}
      (omega
        (arith, get_delay_bounds o random attempt_count none h unit, capped o attempt_count cap e))
      (wanted_delay_pos o attempt_count none h)

asked :
    (o : Options) (attempt_count low : ℕ)
    → (target_delay o attempt_count).num ≤ suc low * (target_delay o attempt_count).den
    → wanted_delay o attempt_count (some (suc low)) ≡ record { num = suc low; den = 1 }
unfolding wanted_delay at_least
asked o attempt_count low h = ground arith

shortened :
    (random : Fraction) (low : ℕ)
    → 2 * random.num < random.den
    → add_jitter random (record { num = suc low; den = 1 }) < suc low
unfolding add_jitter
shortened random low h = lt_of_mul-lt-mul_left (1 * (10 * random.den)) (
    omega (
      arith,
      mul-div-le (suc low * (8 * random.den + 4 * random.num)) (1 * (10 * random.den)),
      mul-le-mul_left {m = 2 * random.num + 1} {n = random.den} (suc low) (omega arith),
    ))

-- When the delay that the service asks for is at least the calculated one and the random number is
-- below a half, `getDelay` returns less than what the service asked for.
get_delay-lt-retry_after :
    (o : Options) (random : Fraction) (attempt_count low : ℕ)
    → (target_delay o attempt_count).num ≤ suc low * (target_delay o attempt_count).den
    → 2 * random.num < random.den
    → get_delay o random attempt_count (some (suc low)) < suc low
unfolding get_delay
get_delay-lt-retry_after o random attempt_count low h r =
    rw (asked o attempt_count low h) (shortened random low r)
