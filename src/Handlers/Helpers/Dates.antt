-- ===== src/Handlers/Helpers/Dates.antt =====
-- `getDateFromTimestamp`: seconds, milliseconds and the values that are no dates.
use grants_stack_indexer_v.Prelude.{ℕ, ◌*◌, ◌≤◌, ◌<◌, ◌≡◌, ◌↔◌, none, some, arith}
use grants_stack_indexer_v.Handlers.Rows.{at, invalid_date}
use grants_stack_indexer_v.Handlers.Helpers.{
  new_date, uint64_max, is_milliseconds, get_date_from_timestamp,
}

-- A timestamp gives null exactly from 2^64 - 1 on, something that is no date exactly between 8.64e15
-- milliseconds and that, and else a date within 8.64e15 milliseconds.
pub get_date_from_timestamp_bounds :
    (timestamp : ℕ)
    → ((get_date_from_timestamp timestamp ≡ none) ↔ (uint64_max ≤ timestamp))
      × ((get_date_from_timestamp timestamp ≡ some invalid_date)
          ↔ ((8640000000000000 < timestamp) × (timestamp < uint64_max)))
      × ((ms : ℕ) → get_date_from_timestamp timestamp ≡ some (at ms) → ms ≤ 8640000000000000)
unfolding get_date_from_timestamp is_milliseconds new_date
get_date_from_timestamp_bounds timestamp = (ground arith, ground arith, λ ms h. ground arith)

-- A time from 10^7 seconds after the epoch up to 10^10 gives the same date in seconds and in
-- milliseconds.
get_date_from_timestamp_units :
    (seconds : ℕ)
    → 10000000 ≤ seconds
    → seconds < 10000000000
    → get_date_from_timestamp seconds ≡ get_date_from_timestamp (seconds * 1000)
unfolding get_date_from_timestamp is_milliseconds new_date
get_date_from_timestamp_units seconds low high = ground arith
