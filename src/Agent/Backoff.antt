-- ===== src/Agent/Backoff.antt =====
-- client/client.go, `GetExponentialBackoffTime`, and app/state.go, `maxSendingAttempts`: how long,
-- and how often, a failed request is repeated. Durations are nanoseconds in an int64.
pub mod Laws
use ota_pulse.Prelude.{
  ℕ, zero, suc, ◌+◌, ◌*◌, ◌/◌, ◌%◌, ◌^◌, Bool, true, false, ◌&&◌, ◌||◌, Option, none, some, ltb,
  leb, ◌==◌, if◌then◌else◌,
}

-- `ExponentialBackoffSmallestUnit`
abbrev pub smallest_unit : ℕ
smallest_unit = 60_000_000_000

-- Doubling an int64, by its bit pattern.
abbrev pub double : ℕ → ℕ
double x = 2 * x % 2 ^ 64

-- `interval >= maxInterval` between int64 values, the first by its bit pattern and the second not
-- negative.
abbrev pub reaches : ℕ → ℕ → Bool
reaches interval max_interval = ltb interval (2 ^ 63) && leb max_interval interval

-- At the longest interval: three tries are left with it, unless the attempts are counted.
abbrev at_longest : Bool → ℕ → ℕ → Option ℕ
at_longest limited rest max_interval =
    if not_limited limited && leb 3 rest
    then none
    else some (if ltb max_interval smallest_unit then smallest_unit else max_interval)
  where
    not_limited : Bool → Bool
    not_limited true = false
    not_limited false = true

-- The loop, with `rest` for `tried - c`; `interval` is what a round takes as its interval.
backoff_loop : Bool → ℕ → ℕ → ℕ → Option ℕ
backoff_loop limited max_interval interval (suc (suc (suc rest))) =
    let later = backoff_loop limited max_interval (double interval) rest in
    if reaches interval max_interval
    then at_longest limited (suc (suc (suc rest))) max_interval
    else later
backoff_loop limited max_interval interval rest =
    if reaches interval max_interval then at_longest limited rest max_interval else some interval

-- `GetExponentialBackoffTime`: `none` is `MaxRetriesExceededError`; a count of 0 sets no limit, as
-- does any that is not positive.
unfoldable pub get_exponential_backoff_time : ℕ → ℕ → ℕ → Option ℕ
unfolding backoff_loop
get_exponential_backoff_time tried max_interval max_attempts =
    if ltb 0 max_attempts && leb max_attempts tried
    then none
    else backoff_loop (ltb 0 max_attempts) max_interval smallest_unit tried

abbrev pub max_sending_attempts_roof : ℕ
max_sending_attempts_roof = 10

abbrev pub min_report_send_retries : ℕ
min_report_send_retries = 3

abbrev min_int : ℕ → ℕ → ℕ
min_int a b = if ltb a b then a else b

unfoldable pub max_sending_attempts : ℕ → ℕ → ℕ → ℕ
max_sending_attempts upi rpi min_retries =
    if rpi == 0
    then min_retries
    else if leb (upi / rpi) min_retries
    then min_retries
    else min_int (upi / rpi * 2) max_sending_attempts_roof
