-- ===== src/Retry.antt =====
-- relay/delivery/retry.py: which failures are retried, and after how long. Times are milliseconds;
-- a jitter factor is a number of thousandths, so `uniform(0.8, 1.2)` is a number in 800 .. 1200.
mod Bounds
mod Tests
use web_hooks.Base.{
  ℕ, ◌*◌, Bool, false, not, ◌&&◌, ◌||◌, Option, none, some, ltb, leb, ◌==◌, min, if◌then◌else◌,
}

abbrev pub jitter_min : ℕ
jitter_min = 800

abbrev pub jitter_max : ℕ
jitter_max = 1200

abbrev pub terminal_4xx_max_attempts : ℕ
terminal_4xx_max_attempts = 3

abbrev pub retry_after_cap : ℕ
retry_after_cap = 60 * 60 * 1000

-- `BACKOFF_SCHEDULE.get(attempt_number)`, in seconds.
unfoldable pub backoff_schedule : ℕ → Option ℕ
backoff_schedule n =
    if n == 1
    then some 5
    else if n == 2
    then some 30
    else if n == 3
    then some (2 * 60)
    else if n == 4
    then some (10 * 60)
    else if n == 5
    then some (30 * 60)
    else if n == 6
    then some (2 * 60 * 60)
    else if n == 7
    then some (5 * 60 * 60)
    else none

abbrev retryable_4xx : ℕ → Bool
retryable_4xx status = status == 408 || status == 429

unfoldable pub is_terminal_status : Option ℕ → Bool
is_terminal_status none = false
is_terminal_status (some status) = leb 400 status && ltb status 500 && not (retryable_4xx status)

unfoldable pub max_attempts_for : Option ℕ → ℕ → ℕ
max_attempts_for status configured_max =
    if is_terminal_status status
    then min terminal_4xx_max_attempts configured_max
    else configured_max

-- `delay` seconds by `factor` thousandths are milliseconds.
unfoldable pub apply_jitter : ℕ → ℕ → ℕ
apply_jitter delay factor = delay * factor

-- What `float(value.strip())` makes of a header: it raises, or yields a number of milliseconds
-- below zero or not below, where an infinity counts as a number above the cap, or nan.
pub data Parsed : Type 0 where
  value_error : Parsed
  negative : Parsed
  seconds : ℕ → Parsed
  parsed_nan : Parsed

-- A delay, which is a float of the source.
pub data Delay : Type 0 where
  milliseconds : ℕ → Delay
  not_a_number : Delay

-- `parse` stands for `float` after `strip`; an absent or empty header is `none`. For nan neither
-- `seconds < 0` nor the test of `min` holds, so nan is returned.
unfoldable pub parse_retry_after {ℓ} :
    {Header : Type ℓ} → (Header → Parsed) → Option Header → Option Delay
parse_retry_after parse none = none
parse_retry_after parse (some value) = elim (parse value) [
  | value_error ↦ none
  | negative ↦ none
  | seconds s ↦ some (milliseconds (min s retry_after_cap))
  | parsed_nan ↦ some not_a_number
]

-- `if http_status == 429: explicit = parse_retry_after(retry_after)`.
unfoldable pub explicit_delay {ℓ} :
    {Header : Type ℓ} → (Header → Parsed) → Option ℕ → Option Header → Option Delay
explicit_delay parse none retry_after = none
explicit_delay parse (some status) retry_after =
    if status == 429 then parse_retry_after parse retry_after else none

-- The schedule's delay with jitter, or `none` for an attempt that it does not list.
unfoldable pub scheduled_delay : ℕ → ℕ → Option Delay
scheduled_delay attempt_number factor = elim (backoff_schedule attempt_number) [
  | none ↦ none
  | some base ↦ some (milliseconds (apply_jitter base factor))
]

unfoldable pub next_delay_seconds {ℓ} :
    {Header : Type ℓ}
    → (Header → Parsed)
    → (attempt_number : ℕ) → (http_status : Option ℕ) → Option Header
    → (configured_max factor : ℕ) → Option Delay
next_delay_seconds parse attempt_number http_status retry_after configured_max factor =
    if leb (max_attempts_for http_status configured_max) attempt_number
    then none
    else elim (explicit_delay parse http_status retry_after) [
      | some explicit ↦ some explicit
      | none ↦ scheduled_delay attempt_number factor
    ]
