-- ===== src/Retry/Backoff/Tests.antt =====
-- The theorems on `getDelay`, each at an input.
use grants_stack_indexer_v.Prelude.{◌+◌, ◌*◌, ◌≤◌, ◌<◌, ◌≡◌, refl, some, arith}
use grants_stack_indexer_v.Retry.Backoff.{
  Options, add_jitter, calculated_delay, at_most, at_least, wanted_delay, target_delay, get_delay,
}
use grants_stack_indexer_v.Retry.Backoff.Jitter.{get_delay_bounds}

abbrev quick : Options
quick = record {
  base_delay = 200;
  factor = record { num = 3; den = 2 };
  max_attempts = 3;
  max_delay = some 1000;
}

get_delay_bounds_example :
    let wanted = wanted_delay quick 2 (some 500) in
    let delay = get_delay quick (record { num = 1; den = 4 }) 2 (some 500) in
    (10 * (wanted.den * delay) ≤ 12 * wanted.num)
    × (8 * wanted.num < 10 * (wanted.den * (delay + 1)))
get_delay_bounds_example =
    get_delay_bounds quick (record { num = 1; den = 4 }) 2 (some 500) (omega arith) (omega arith)

-- the service asks for one second, and the delay is 900 milliseconds
below_retry_after : get_delay quick (record { num = 1; den = 4 }) 1 (some 1000) ≡ 900
unfolding get_delay wanted_delay add_jitter target_delay calculated_delay at_most at_least
below_retry_after = refl
