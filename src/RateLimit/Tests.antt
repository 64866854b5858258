-- ===== src/RateLimit/Tests.antt =====
-- The limits of a tenant at concrete inputs.
use web_hooks.Base.{
  ℕ, ℕ_discrete, ◌+◌, ◌-◌, ◌*◌, ◌≤◌, ◌≡◌, Option, none, some, [], ◌∷◌, arith, refl,
}
use web_hooks.Redis.{SortedSets, Expiring}
use web_hooks.Redis.Concrete.{lists, zscore, zcard}
use web_hooks.RateLimit.Bucket.{Bucket, take_all}
use web_hooks.RateLimit.Bucket.Rate.{take_all_rate}
use web_hooks.RateLimit.Bucket.Skew.{in_turn, skewed_clocks_unlimited}
use web_hooks.RateLimit.Slots.{acquire, release, slot_run}
use web_hooks.RateLimit.Slots.Cap.{slot_run-le-cap}

abbrev sets : SortedSets ℕ
sets = lists ℕ_discrete

-- Two slots, of the tokens 7 and 8.
abbrev two : SortedSets.ZSet sets
two = (61000, 8) ∷ (60000, 7) ∷ []

abbrev key : Option (Expiring Bucket)
key = some (record { value = record { tokens = 500; updated_at = 1000 }; deadline = 61000 })

slot_run-le-cap_example :
    zcard ℕ_discrete
      (slot_run sets 2 [] (acquire 0 7 ∷ acquire 1000 8 ∷ acquire 2000 9 ∷ release 7 ∷ []))
    ≤ 2
slot_run-le-cap_example =
    slot_run-le-cap sets 2 [] (acquire 0 7 ∷ acquire 1000 8 ∷ acquire 2000 9 ∷ release 7 ∷ [])
      (unfold zcard in omega arith)

all_old : (m s : ℕ) → zscore ℕ_discrete m two ≡ some s → s ≤ 61000
unfolding zscore
all_old m s h = ground arith

-- Three calls in half a second, at two tokens a second.
take_all_rate_example :
    1000 * (take_all 2 (1000 ∷ 1200 ∷ 1500 ∷ []) key).0 ≤ 2 * 1000 + (1500 - 1000) * 2
take_all_rate_example =
    take_all_rate 2 1000 (1000 ∷ 1200 ∷ 1500 ∷ []) key refl
      (omega arith, (omega arith, (omega arith, tt)))

-- Four calls, the last after a pause in which the key expires.
skewed_clocks_unlimited_example : (take_all 2 (in_turn 50 9000 1000) none).0 ≡ 100
skewed_clocks_unlimited_example =
    skewed_clocks_unlimited 50 2 9000 1000 (omega arith) (omega arith) (omega arith)
