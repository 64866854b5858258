-- ===== src/Retry/Tests.antt =====
-- The retry policy at concrete inputs.
use web_hooks.Base.{ℕ, ◌*◌, ◌≤◌, ◌≡◌, ◌⊎◌, Option, none, some, arith}
use web_hooks.Retry.{
  Parsed, seconds, milliseconds, next_delay_seconds, scheduled_delay, backoff_schedule,
  max_attempts_for, explicit_delay, apply_jitter,
}
use web_hooks.Retry.Bounds.{next_delay_bounds}

-- A client whose headers are numbers of milliseconds.
abbrev parsed : ℕ → Parsed
parsed n = seconds n

abbrev unavailable : Option ℕ
unavailable = some 503

next_delay_bounds_example :
    (36000 ≤ 6 * 60 * 60 * 1000) × ((unavailable ≡ some 429) ⊎ (4000 ≤ 36000))
next_delay_bounds_example =
    next_delay_bounds parsed 2 unavailable none 7 1200 {delay = milliseconds 36000} (omega arith)
      (omega arith)
      (unfold next_delay_seconds scheduled_delay backoff_schedule explicit_delay apply_jitter
          max_attempts_for in
        ground arith)
