-- ===== src/Retry/Bounds.antt =====
-- The retry policy of relay/delivery/retry.py: when a delivery dies, and how long a retry waits.
use web_hooks.Base.{ℕ, Bool, true, false, ◌*◌, ◌≤◌, ◌≡◌, ◌⊎◌, Option, none, some, arith, ◌↔◌}
use web_hooks.Retry.{
  Parsed, parsed_nan, Delay, milliseconds, not_a_number, backoff_schedule, max_attempts_for,
  parse_retry_after, explicit_delay, scheduled_delay, apply_jitter, next_delay_seconds, jitter_min,
  jitter_max,
}

abbrev pub is_nan : Option Parsed → Bool
is_nan (some parsed_nan) = true
is_nan _ = false

module _ {ℓ} {Header : Type ℓ} (parse : Header → Parsed) where
  abbrev pub read_header : Option Header → Option Parsed
  read_header none = none
  read_header (some h) = some (parse h)

  -- With at most seven attempts configured, an attempt from 1 on is followed by another exactly
  -- when its number is below the limit for its status: a retry is neither lost nor added.
  pub next_delay_none_iff :
      (n : ℕ) (status : Option ℕ) (header : Option Header) (configured factor : ℕ)
      → 1 ≤ n
      → configured ≤ 7
      → (next_delay_seconds parse n status header configured factor ≡ none)
        ↔ (max_attempts_for status configured ≤ n)
  unfolding next_delay_seconds scheduled_delay backoff_schedule max_attempts_for
  next_delay_none_iff n status header configured factor h k = ground arith

  -- What a delay may be for an answer with the given status and header.
  abbrev pub Allowed : Option ℕ → Option Header → Delay → Type 0
  Allowed status header (milliseconds d) =
      (d ≤ 6 * 60 * 60 * 1000) × ((status ≡ some 429) ⊎ (4000 ≤ d))
  Allowed status header not_a_number = (status ≡ some 429) × (is_nan (read_header header) ≡ true)

  -- With a jitter factor from 0.8 to 1.2, a delay is at least four fifths of the five seconds of
  -- the first step, unless the answer was a 429, and it never passes six hours; and it is no number
  -- only where the answer was a 429 whose header `float` reads as nan.
  pub next_delay_bounds :
      (n : ℕ) (status : Option ℕ) (header : Option Header) (configured factor : ℕ) {delay : Delay}
      → jitter_min ≤ factor
      → factor ≤ jitter_max
      → next_delay_seconds parse n status header configured factor ≡ some delay
      → Allowed status header delay
  unfolding next_delay_seconds scheduled_delay backoff_schedule explicit_delay parse_retry_after
      apply_jitter
  next_delay_bounds n status header configured factor {delay = milliseconds d} lo hi e =
      ground arith
  next_delay_bounds n status none configured factor {delay = not_a_number} lo hi e = ground arith
  next_delay_bounds n status (some h) configured factor {delay = not_a_number} lo hi e =
      ground arith
