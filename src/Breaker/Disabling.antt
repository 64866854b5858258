-- ===== src/Breaker/Disabling.antt =====
-- The age by which an endpoint is disabled: `opened_at` is written at each transition to 'open', also
-- at the one that a failed probe makes.
use web_hooks.Base.{ℕ, ◌+◌, ◌*◌, ◌≤◌, ◌<◌, ◌≡◌, false, some, List, [], ◌∷◌, arith, All, length}
use web_hooks.Redis.{SortedSets}
use web_hooks.Breaker.{
  opened, or_closed, Breaker, probe, record_outcome, allow_request, should_auto_disable,
  auto_disable_after, half_open_probe_interval,
}

module _ (S : SortedSets ℕ) where
  -- The breaker is open since `t` and was probed then.
  pub record OpenSince (t : ℕ) (b : Breaker S) : Type 0 where
    pub is_open : or_closed b.hash.state ≡ opened
    pub since : b.hash.opened_at ≡ some t
    pub probed : b.hash.last_probe_at ≡ some t

  -- A probe is asked for `wait` after `t` and fails at once, under the identifier 0.
  unfoldable pub failed_probe : ℕ → Breaker S → Breaker S
  failed_probe now b = (record_outcome S now false 0 (allow_request S now b).0).0

  -- One failed probe after another, each a given time after the last; the breaker at the end and
  -- the time of the last probe.
  unfoldable pub failed_probes : ℕ → List ℕ → Breaker S → ℕ × Breaker S
  failed_probes t [] b = (t, b)
  failed_probes t (wait ∷ waits) b = failed_probes (t + wait) waits (failed_probe (t + wait) b)

  failed_probe-OpenSince :
      (t wait : ℕ) (b : Breaker S)
      → half_open_probe_interval ≤ wait
      → OpenSince t b
      → ((allow_request S (t + wait) b).1 ≡ probe)
        × OpenSince (t + wait) (failed_probe (t + wait) b)
  unfolding failed_probe allow_request record_outcome
  failed_probe-OpenSince t wait b h o = ground (arith, o.is_open, o.since, o.probed)

  failed_probes-OpenSince :
      (t : ℕ) (waits : List ℕ) (b : Breaker S)
      → All (λ w. half_open_probe_interval ≤ w) waits
      → OpenSince t b
      → OpenSince (failed_probes t waits b).0 (failed_probes t waits b).1
  unfolding failed_probes
  failed_probes-OpenSince t [] b h o = o
  failed_probes-OpenSince t (wait ∷ waits) b h o =
      failed_probes-OpenSince (t + wait) waits _ h.1 (failed_probe-OpenSince t wait b h.0 o).1

  -- An endpoint whose probes all fail is open all the time, and yet until 72 hours after its last
  -- probe it is not disabled, however many probes have failed and however long it has been open.
  pub probed_endpoint_not_disabled :
      (t now : ℕ) (waits : List ℕ) (b : Breaker S)
      → OpenSince t b
      → All (λ w. half_open_probe_interval ≤ w) waits
      → now < (failed_probes t waits b).0 + auto_disable_after
      → (or_closed (failed_probes t waits b).1.hash.state ≡ opened)
        × (should_auto_disable S now (failed_probes t waits b).1 ≡ false)
  unfolding should_auto_disable
  probed_endpoint_not_disabled t now waits b o h early =
      let last = failed_probes-OpenSince t waits b h o in
      (last.is_open, ground (arith, last.since, last.is_open))

  elapsed :
      (t : ℕ) (waits : List ℕ) (b : Breaker S)
      → All (λ w. half_open_probe_interval ≤ w) waits
      → t + length waits * half_open_probe_interval ≤ (failed_probes t waits b).0
  unfolding failed_probes
  elapsed t [] b h = omega arith
  elapsed t (wait ∷ waits) b h =
      omega (arith, elapsed (t + wait) waits (failed_probe (t + wait) b) h.1, h.0)

  -- For a breaker that has opened at its last probe: the condition of the docstring, open for 72
  -- hours, holds after 432 failed probes in a row, ten minutes or more apart, and still the
  -- endpoint is not disabled ten minutes after the last of them.
  pub open_for_72_hours_not_disabled :
      (t : ℕ) (waits : List ℕ) (b : Breaker S)
      → OpenSince t b
      → All (λ w. half_open_probe_interval ≤ w) waits
      → 432 ≤ length waits
      → (t + auto_disable_after ≤ (failed_probes t waits b).0)
        × (should_auto_disable S
              ((failed_probes t waits b).0 + half_open_probe_interval)
              (failed_probes t waits b).1
            ≡ false)
  open_for_72_hours_not_disabled t waits b o h n = (
    omega (arith, elapsed t waits b h),
    (probed_endpoint_not_disabled t _ waits b o h (omega arith)).1,
  )
