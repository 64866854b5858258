-- ===== src/Breaker/Probe.antt =====
-- One probe at a time.
use web_hooks.Base.{ℕ, suc, ◌≤◌, ◌≡◌, refl, List, [], ◌∷◌, arith}
use web_hooks.Redis.{SortedSets}
use web_hooks.Breaker.{half_open, or_closed, Breaker, allow_request, Decision, probe, deny}

module _ (S : SortedSets ℕ) where
  -- Callers ask at the given times, one after another: what each is told.
  unfoldable pub ask_all : List ℕ → Breaker S → List Decision × Breaker S
  ask_all [] b = ([], b)
  ask_all (now ∷ times) b =
      let (b', decision, state) = allow_request S now b in
      let (decisions, last) = ask_all times b' in (decision ∷ decisions, last)

  abbrev pub probes : List Decision → ℕ
  probes [] = 0
  probes (probe ∷ ds) = suc (probes ds)
  probes (_ ∷ ds) = probes ds

  denied :
      (now : ℕ) (b : Breaker S)
      → or_closed b.hash.state ≡ half_open
      → ((allow_request S now b).0 ≡ b) × ((allow_request S now b).1 ≡ deny)
  unfolding allow_request
  denied now b h = rw (allow_request, h) (refl, refl)

  no_probes :
      (times : List ℕ) (b : Breaker S)
      → or_closed b.hash.state ≡ half_open
      → probes (ask_all times b).0 ≡ 0
  unfolding ask_all
  no_probes [] b h = refl
  no_probes (now ∷ times) b h = ground (arith, denied now b h, no_probes times b h)

  -- A caller that is told to probe has made the breaker half open.
  one_ask :
      (now : ℕ) (b : Breaker S)
      → (allow_request S now b).1 ≡ probe
      → or_closed (allow_request S now b).0.hash.state ≡ half_open
  unfolding allow_request
  one_ask now b h = ground arith

  -- Of any number of callers that ask, in any order and with any clocks, before the next outcome is
  -- recorded, at most one is let through as a probe.
  pub one_probe : (times : List ℕ) (b : Breaker S) → probes (ask_all times b).0 ≤ 1
  unfolding ask_all
  one_probe [] b = omega arith
  one_probe (now ∷ times) b = ground (
    arith,
    one_ask now b,
    one_probe times (allow_request S now b).0,
    no_probes times (allow_request S now b).0,
  )
