-- ===== src/RateLimit/Bucket/Skew.antt =====
-- The bucket takes `now` from the caller, and writes it back also where it lies behind `updated_at`.
use native.Mathlib.Nat.{mul-le-mul_right}
use web_hooks.Base.{
  ℕ, zero, suc, ◌+◌, ◌*◌, ◌≤◌, ◌≡◌, true, Option, none, some, List, [], ◌∷◌, arith, refl,
}
use web_hooks.Redis.{Expiring}
use web_hooks.RateLimit.Bucket.{Bucket, refill, spend, take_token, take_all}

-- Two workers call in turn `n` times; the clock of one is `skew` behind that of the other.
unfoldable pub in_turn : ℕ → ℕ → ℕ → List ℕ
in_turn zero t skew = []
in_turn (suc n) t skew = t ∷ (t + skew) ∷ in_turn n t skew

mul_second : (skew rate : ℕ) → 1000 ≤ skew → rate * 1000 ≤ skew * rate
mul_second skew rate h = omega (arith, mul-le-mul_right rate h)

-- A key written by the worker that is ahead, with a token or more left.
abbrev WrittenAhead : ℕ → ℕ → Option (Expiring Bucket) → Type 0
WrittenAhead t skew none = Unit {0}
WrittenAhead t skew (some e) =
    (e.value.updated_at ≡ t + skew) × (1000 ≤ e.value.tokens) × (t + skew + 1 ≤ e.deadline)

two_calls :
    (rate t skew : ℕ) (key : Option (Expiring Bucket))
    → 2 ≤ rate
    → 1000 ≤ skew
    → skew ≤ 30 * 1000
    → WrittenAhead t skew key
    → ((take_token rate t key).0 ≡ true)
      × ((take_token rate (t + skew) (take_token rate t key).1).0 ≡ true)
      × WrittenAhead t skew (take_token rate (t + skew) (take_token rate t key).1).1
unfolding take_token
two_calls rate t skew key r s u w = unfold refill spend in ground (arith, mul_second skew rate s)

skewed :
    (n rate t skew : ℕ) (key : Option (Expiring Bucket))
    → 2 ≤ rate
    → 1000 ≤ skew
    → skew ≤ 30 * 1000
    → WrittenAhead t skew key
    → (take_all rate (in_turn n t skew) key).0 ≡ 2 * n
unfolding take_all in_turn
skewed zero rate t skew key r s u w = refl
skewed (suc n) rate t skew key r s u w =
    let (first, second, ahead) = two_calls rate t skew key r s u w in
    ground (arith, first, second, skewed n rate t skew _ r s u ahead)

-- For a rate of two a second or more: if one worker's clock is a second behind another's, and at
-- most half a minute, then the rate does not limit them: of any number of calls in turn at one
-- moment, from an absent key on, every one is granted.
pub skewed_clocks_unlimited :
    (n rate t skew : ℕ)
    → 2 ≤ rate
    → 1000 ≤ skew
    → skew ≤ 30 * 1000
    → (take_all rate (in_turn n t skew) none).0 ≡ 2 * n
skewed_clocks_unlimited n rate t skew r s u = skewed n rate t skew none r s u tt
