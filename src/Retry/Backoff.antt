-- ===== src/Retry/Backoff.antt =====
-- packages/shared/src/retry/exponentialBackoff.strategy.ts. Delays are exact fractions in place of
-- doubles, and `Math.random()` is a fraction below 1 that the world gives.
pub mod Jitter
mod Tests
use native.Mathlib.Nat.{
  mul-div-le, lt-mul-div-succ, le_of_mul-le-mul_left, div-le_of_le-mul, mul-le-mul, mul_assoc,
  mul_comm, one-le-pow,
}
use grants_stack_indexer_v.Prelude.{
  ℕ, zero, suc, ◌+◌, ◌-◌, ◌*◌, ◌/◌, ◌^◌, ◌≤◌, ◌<◌, ◌≡◌, refl, Bool, true, false, Bool-cases, Option,
  none, some, inl, inr, arith, ltb, leb, ◌==◌, if◌then◌else◌,
}
use grants_stack_indexer_v.Retry.{RetryStrategy}

pub record Fraction : Type 0 where
  pub num : ℕ
  pub den : ℕ

abbrev whole : ℕ → Fraction
whole n = record { num = n; den = 1 }

pub record Options : Type 0 where
  pub base_delay : ℕ
  pub factor : Fraction
  pub max_attempts : ℕ
  pub max_delay : Option ℕ

-- `{ baseDelay: 200, factor: 1.5, maxAttempts: 10 }`
abbrev pub default_options : Options
default_options = record {
  base_delay = 200;
  factor = record { num = 3; den = 2 };
  max_attempts = 10;
  max_delay = none;
}

-- `Math.min` and `Math.max` of a fraction and a number
at_most : Fraction → ℕ → Fraction
at_most d cap = if leb d.num (cap * d.den) then d else whole cap

at_least : ℕ → Fraction → Fraction
at_least low d = if leb d.num (low * d.den) then whole low else d

-- an optional number that is `undefined` or 0 counts as missing
abbrev present : Option ℕ → Option ℕ
present (some (suc n)) = some (suc n)
present _ = none

-- `baseDelay * Math.pow(factor, attemptCount)`
calculated_delay : Options → ℕ → Fraction
calculated_delay o attempt_count = record {
  num = o.base_delay * o.factor.num ^ attempt_count;
  den = o.factor.den ^ attempt_count;
}

pub target_delay : Options → ℕ → Fraction
target_delay o attempt_count = elim (present o.max_delay) [
  | none ↦ calculated_delay o attempt_count
  | some cap ↦ at_most (calculated_delay o attempt_count) cap
]

pub wanted_delay : Options → ℕ → Option ℕ → Fraction
wanted_delay o attempt_count retry_after = elim (present retry_after) [
  | none ↦ target_delay o attempt_count
  | some low ↦ at_least low (target_delay o attempt_count)
]

-- `Math.floor(delay * (0.8 + Math.random() * 0.4))`
pub add_jitter : Fraction → Fraction → ℕ
add_jitter random delay =
    (delay.num * (8 * random.den + 4 * random.num)) / (delay.den * (10 * random.den))

pub get_delay : Options → Fraction → ℕ → Option ℕ → ℕ
get_delay o random attempt_count retry_after =
    add_jitter random (wanted_delay o attempt_count retry_after)

pub should_retry : Options → ℕ → Bool
should_retry o attempt_count = ltb attempt_count o.max_attempts

-- the class, over a world that has a source of random numbers
unfoldable pub exponential_backoff {ℓ} :
    {S : Type ℓ} → (S → Fraction × S) → Options → RetryStrategy S
unfolding should_retry
exponential_backoff random o = record {
  should_retry = should_retry o;
  get_delay = λ attempt_count retry_after s.
      let (r, s') = random s in (get_delay o r attempt_count retry_after, s');
}
