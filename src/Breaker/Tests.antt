-- ===== src/Breaker/Tests.antt =====
-- Runs of the circuit breaker at concrete inputs.
use web_hooks.Base.{
  ℕ, zero, suc, ◌+◌, ◌≡◌, ◌≤◌, refl, List, [], ◌∷◌, All, length, false, some, arith,
}
use web_hooks.Redis.Concrete.{lists}
use web_hooks.Base.{ℕ_discrete}
use web_hooks.Redis.{SortedSets}
use web_hooks.Breaker.{
  State, opened, Breaker, or_closed, fresh, ask, breaker_step, should_auto_disable,
  auto_disable_after, half_open_probe_interval,
}
use web_hooks.Breaker.States.{Edge, IsSound, breaker_step-Edge}
use web_hooks.Breaker.Probe.{ask_all, probes, one_probe}
use web_hooks.Breaker.Opening.{Failures}
use web_hooks.Breaker.Disabling.{OpenSince, failed_probes, open_for_72_hours_not_disabled}

abbrev sets : SortedSets ℕ
sets = lists ℕ_discrete

abbrev new : Breaker sets
new = fresh sets

abbrev open_at : State → ℕ → Breaker sets
open_at s t = record {
  hash = record {
    state = some s;
    consecutive = some 10;
    opened_at = some t;
    last_probe_at = some t;
  };
  attempts = (t, 1) ∷ [];
  failures = (t, 1) ∷ [];
}

-- Ten failures, one second apart, with the identifiers 1 to 10.
abbrev ten : Failures
ten =
    (1000, 1)
    ∷ (2000, 2)
    ∷ (3000, 3)
    ∷ (4000, 4)
    ∷ (5000, 5)
    ∷ (6000, 6)
    ∷ (7000, 7)
    ∷ (8000, 8)
    ∷ (9000, 9)
    ∷ (10000, 10)
    ∷ []

-- 432 waits of ten minutes.
unfoldable waits : ℕ → List ℕ
waits zero = []
waits (suc n) = half_open_probe_interval ∷ waits n

length-waits : (n : ℕ) → length (waits n) ≡ n
unfolding waits
length-waits zero = refl
length-waits (suc n) = omega (arith, length-waits n)

All-waits : (n : ℕ) → All (λ w. half_open_probe_interval ≤ w) (waits n)
unfolding waits
All-waits zero = tt
All-waits (suc n) = (omega arith, All-waits n)

fresh-IsSound : IsSound new.hash
fresh-IsSound = record {
  below = λ e. omega arith;
  no_opened_at = λ e. refl;
  no_last_probe_at = λ e. refl;
  has_opened_at = λ e. cc;
  has_last_probe_at = λ e. cc;
}

open_at-OpenSince : (t : ℕ) → OpenSince sets t (open_at opened t)
open_at-OpenSince t = record { is_open = refl; since = refl; probed = refl }

breaker_step-Edge_example :
    Edge {S = sets}
      (ask 700000)
      opened
      (or_closed (breaker_step sets (open_at opened 1000) (ask 700000)).hash.state)
breaker_step-Edge_example = breaker_step-Edge sets (open_at opened 1000) (ask 700000)

one_probe_example : probes sets (ask_all sets (601000 ∷ 602000 ∷ []) (open_at opened 1000)).0 ≤ 1
one_probe_example = one_probe sets (601000 ∷ 602000 ∷ []) (open_at opened 1000)

open_for_72_hours_not_disabled_example :
    (1000 + auto_disable_after ≤ (failed_probes sets 1000 (waits 432) (open_at opened 1000)).0)
    × (should_auto_disable sets
          ((failed_probes sets 1000 (waits 432) (open_at opened 1000)).0 + half_open_probe_interval)
          (failed_probes sets 1000 (waits 432) (open_at opened 1000)).1
        ≡ false)
open_for_72_hours_not_disabled_example =
    open_for_72_hours_not_disabled sets 1000 (waits 432) (open_at opened 1000)
      (open_at-OpenSince 1000) (All-waits 432) (omega (arith, length-waits 432))
