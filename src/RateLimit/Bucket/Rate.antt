-- ===== src/RateLimit/Bucket/Rate.antt =====
-- With clocks that do not run backwards the bucket keeps to its rate.
use native.Mathlib.Nat.{mul-le-mul_right}
use web_hooks.Base.{
  ℕ, ◌+◌, ◌-◌, ◌*◌, ◌≤◌, ◌≡◌, Option, none, some, List, [], ◌∷◌, arith, if◌then◌else◌,
}
use web_hooks.Redis.{Expiring, read}
use web_hooks.RateLimit.Bucket.{
  Bucket, burst, bucket_ttl, refill, or_full, spend, take_token, take_all,
}

-- The times do not fall, and start at `t` or later.
abbrev pub FromOn : ℕ → List ℕ → Type 0
FromOn t [] = Unit {0}
FromOn t (now ∷ rest) = (t ≤ now) × FromOn now rest

-- The last of the times, or `t`.
abbrev pub last_time : ℕ → List ℕ → ℕ
last_time t [] = t
last_time t (now ∷ rest) = last_time now rest

-- What a key still allows at the time `t`: an absent one allows a full burst.
abbrev pub allowance : ℕ → ℕ → Option (Expiring Bucket) → ℕ
allowance rate t key = refill rate t (or_full rate t (read t key))

-- A key as the script writes it: it lives for `bucket_ttl` from its last update.
abbrev pub IsBucketKey : Option (Expiring Bucket) → Type 0
IsBucketKey none = Unit {0}
IsBucketKey (some e) = e.deadline ≡ e.value.updated_at + bucket_ttl

mul_split : (a b c r : ℕ) → a ≤ b + c → a * r ≤ b * r + c * r
mul_split a b c r h = omega (arith, mul-le-mul_right r h)

mul_ttl : (a r : ℕ) → 1000 ≤ a → r * 1000 ≤ a * r
mul_ttl a r h = grind arith

-- Time adds at most `rate` a millisecond to what a bucket allows.
refill_later :
    (rate t now : ℕ) (b : Bucket) → t ≤ now → refill rate now b ≤ refill rate t b + (now - t) * rate
unfolding refill
refill_later rate t now b h =
    omega (arith, mul_split (now - b.updated_at) (t - b.updated_at) (now - t) rate (omega arith))

-- So it does to what a key allows, whether the key has expired meanwhile or not.
allowance_later :
    (rate t now : ℕ) (key : Option (Expiring Bucket))
    → IsBucketKey key
    → t ≤ now
    → allowance rate now key ≤ allowance rate t key + (now - t) * rate
unfolding or_full read
allowance_later rate t now none k h = unfold refill in omega arith
allowance_later rate t now (some e) k h =
    let later = refill_later rate t now e.value h in
    unfold refill in
    ground (
      arith,
      later,
      mul_split 1000 (t - e.value.updated_at) (now - t) rate,
      mul_ttl (now - e.value.updated_at) rate,
      mul_ttl ((t - e.value.updated_at) + (now - t)) rate,
    )

-- A call at `now` pays for its grant.
pub one_step :
    (rate t now : ℕ) (key : Option (Expiring Bucket))
    → IsBucketKey key
    → t ≤ now
    → 1000 * (if (take_token rate now key).0 then 1 else 0)
        + allowance rate now (take_token rate now key).1
      ≤ allowance rate t key + (now - t) * rate
unfolding take_token
one_step rate t now key k h =
    unfold refill spend in ground (arith, allowance_later rate t now key k h)

take_token-IsBucketKey :
    (rate now : ℕ) (key : Option (Expiring Bucket)) → IsBucketKey (take_token rate now key).1
unfolding take_token
take_token-IsBucketKey rate now key = unfold spend in ground arith

last_time-ge : (t : ℕ) (times : List ℕ) → FromOn t times → t ≤ last_time t times
last_time-ge t [] f = omega arith
last_time-ge t (now ∷ rest) f = omega (arith, last_time-ge now rest f.1)

granted_bound :
    (rate t : ℕ) (times : List ℕ) (key : Option (Expiring Bucket))
    → IsBucketKey key
    → FromOn t times
    → 1000 * (take_all rate times key).0 ≤ allowance rate t key + (last_time t times - t) * rate
unfolding take_all
granted_bound rate t [] key k f = omega arith
granted_bound rate t (now ∷ rest) key k f = ground (
  arith,
  one_step rate t now key k f.0,
  granted_bound rate now rest (take_token rate now key).1 (take_token-IsBucketKey rate now key) f.1,
  mul_split (last_time now rest - now + (now - t)) (last_time now rest - t) 0 rate,
  last_time-ge now rest f.1,
)

allowance-le-burst :
    (rate t : ℕ) (key : Option (Expiring Bucket)) → allowance rate t key ≤ burst rate
unfolding refill
allowance-le-burst rate t key = omega arith

-- If the clocks of the calls do not run backwards, then from any time `t` on no sequence of calls
-- is granted more than one second's burst and the refill of the time that has passed. The key may
-- be absent, full, or expire on the way, by the same clocks; if it is there, it is as the script
-- writes it.
pub take_all_rate :
    (rate t : ℕ) (times : List ℕ) (key : Option (Expiring Bucket))
    → IsBucketKey key
    → FromOn t times
    → 1000 * (take_all rate times key).0 ≤ burst rate + (last_time t times - t) * rate
take_all_rate rate t times key k f =
    omega (arith, granted_bound rate t times key k f, allowance-le-burst rate t key)
