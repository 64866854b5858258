-- ===== src/RateLimit/Bucket.antt =====
-- The token bucket of relay/delivery/rate_limit.py (TOKEN_BUCKET_LUA, take_token). Times are
-- milliseconds and tokens are thousandths of a token, so one second of `rate` is `rate * 1000` and
-- the refill of one millisecond is `rate`.
pub mod Rate
pub mod Skew
use web_hooks.Base.{
  ℕ, ◌+◌, ◌-◌, ◌*◌, Bool, true, false, Option, none, some, List, [], ◌∷◌, leb, min, if◌then◌else◌,
}
use web_hooks.Redis.{Expiring, read}

pub record Bucket : Type 0 where
  pub tokens : ℕ
  pub updated_at : ℕ

-- EXPIRE key 60
abbrev pub bucket_ttl : ℕ
bucket_ttl = 60 * 1000

-- One second of headroom.
abbrev pub burst : ℕ → ℕ
burst rate = rate * 1000

-- `if tokens == nil`.
unfoldable pub or_full : ℕ → ℕ → Option Bucket → Bucket
or_full rate now none = record { tokens = burst rate; updated_at = now }
or_full rate now (some b) = b

-- `math.min(burst, tokens + math.max(0, now - updated_at) * rate)`; `-` stops at 0 as `max` does.
unfoldable pub refill : ℕ → ℕ → Bucket → ℕ
refill rate now b = min (burst rate) (b.tokens + (now - b.updated_at) * rate)

-- The grant, and the bucket that HSET leaves.
unfoldable pub spend : ℕ → ℕ → ℕ → Bool × Bucket
spend requested now tokens =
    if leb requested tokens
    then (true, record { tokens = tokens - requested; updated_at = now })
    else (false, record { tokens = tokens; updated_at = now })

-- The expiry of the key is read by the clock of the caller, as the refill is, and not by the
-- server's own: the two agree here.
unfoldable pub token_bucket : ℕ → ℕ → ℕ → Option (Expiring Bucket) → Bool × Option (Expiring Bucket)
unfolding or_full refill spend read
token_bucket rate now requested key =
    let (granted, b) =
      spend (requested * 1000) now (refill rate now (or_full rate now (read now key))) in
    (granted, some (record { value = b; deadline = now + bucket_ttl }))

unfoldable pub take_token : ℕ → ℕ → Option (Expiring Bucket) → Bool × Option (Expiring Bucket)
unfolding token_bucket
take_token rate now key = token_bucket rate now 1 key

-- Calls at the given times, one after another, and how many of them were granted.
unfoldable pub take_all : ℕ → List ℕ → Option (Expiring Bucket) → ℕ × Option (Expiring Bucket)
take_all rate [] key = (0, key)
take_all rate (now ∷ rest) key =
    let (granted, key') = take_token rate now key in
    let (n, last) = take_all rate rest key' in ((if granted then n + 1 else n), last)
