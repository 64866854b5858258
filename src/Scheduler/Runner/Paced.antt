-- ===== src/Scheduler/Runner/Paced.antt =====
-- The pauses of the scheduler, and how it ends.
use web_hooks.Base.{
  ℕ, ◌+◌, ◌≤◌, ◌≡◌, refl, Bool, true, false, List, [], ◌∷◌, leb, ltb, arith, Bool-cases, inl, inr,
}
use web_hooks.Services.{Services}
use web_hooks.Worker.Monad.{Result, ok, raised}
use package.web_hooks.Scheduler.{batch_limit, reconnect_base_delay, reconnect_max_delay}
use package.web_hooks.Scheduler.Gauges.{Process, refresh_gauges}
use package.web_hooks.Scheduler.Runner.{
  Loop, Turn, Ending, after_turn, gauge_refresh_interval, slept, went_on, died, caught, paused,
  after_refresh, refresh_if, after_poll, run_turn, run_scheduler,
}

abbrev pub IsPaced : Loop → Type 0
IsPaced l = (reconnect_base_delay ≤ l.delay) × (l.delay ≤ reconnect_max_delay)

-- How the rounds may end: each with a pause of half a second to ten seconds or at once, but for the last, which may
-- end the loop by an exception that it does not catch.
abbrev pub EndsAs : List Turn → List Ending → Type 0
EndsAs [] [] = Unit {0}
EndsAs [] (e ∷ es) = ⊥
EndsAs (t ∷ ts) [] = ⊥
EndsAs (t ∷ ts) (slept n ∷ es) =
    (reconnect_base_delay ≤ n) × (n ≤ reconnect_max_delay) × EndsAs ts es
EndsAs (t ∷ ts) (went_on ∷ es) = EndsAs ts es
EndsAs (t ∷ ts) (died ∷ []) = t.is_caught ≡ false
EndsAs (t ∷ ts) (died ∷ e ∷ es) = ⊥

module _ (V : Services) where
  -- What one round leaves.
  abbrev TurnEnds : Turn → Loop × Ending → Type 0
  TurnEnds t (l, slept n) = IsPaced l × (reconnect_base_delay ≤ n) × (n ≤ reconnect_max_delay)
  TurnEnds t (l, went_on) = IsPaced l
  TurnEnds t (l, died) = t.is_caught ≡ false

  caught-TurnEnds : (t : Turn) (l : Loop) → IsPaced l → TurnEnds t (caught V l t.is_caught)
  caught-TurnEnds t l h = go t.is_caught refl
    where
      go : (b : Bool) → t.is_caught ≡ b → TurnEnds t (caught V l b)
      go true e = ground (arith, h)
      go false e = e

  paused-TurnEnds : (t : Turn) (l : Loop) (moved : ℕ) → IsPaced l → TurnEnds t (paused V l moved)
  paused-TurnEnds t l moved h = elim (Bool-cases (ltb moved batch_limit)) [
    | inl short ↦ rw short (omega (arith, h))
    | inr full ↦ rw full h
  ]

  refresh_if-TurnEnds :
      (t : Turn) (l : Loop) (moved : ℕ) (p : Process V)
      → IsPaced l
      → TurnEnds t (refresh_if V t l moved p).0
  unfolding refresh_if
  refresh_if-TurnEnds t l moved p h = elim (Bool-cases (leb l.next_gauge_refresh t.checked_at)) [
    | inl due ↦ rw due (go (refresh_gauges V p).0)
    | inr early ↦ rw early (paused-TurnEnds t l moved h)
  ]
    where
      go : (r : Result (Unit {0})) → TurnEnds t (after_refresh V t l moved r)
      go raised = caught-TurnEnds t l h
      go (ok a) =
          paused-TurnEnds t
            (record l { next_gauge_refresh = t.refreshed_at + gauge_refresh_interval }) moved h

  after_poll-TurnEnds :
      (t : Turn) (l : Loop) (r : Result ℕ) (p : Process V)
      → IsPaced l
      → TurnEnds t (after_poll V t l r p).0
  unfolding after_poll
  after_poll-TurnEnds t l raised p h = caught-TurnEnds t l h
  after_poll-TurnEnds t l (ok moved) p h = refresh_if-TurnEnds t _ moved p (omega arith)

  run_turn-TurnEnds :
      (t : Turn) (l : Loop) (p : Process V) → IsPaced l → TurnEnds t (run_turn V t l p).0
  unfolding run_turn
  run_turn-TurnEnds t l p h = after_poll-TurnEnds t l _ _ h

  -- The scheduler pauses for half a second to ten seconds or goes on at once, whatever fails, and stops before its
  -- last round only at an exception that is neither a RedisError nor an OSError.
  pub run_scheduler-EndsAs :
      (ts : List Turn) (l : Loop) (p : Process V) → IsPaced l → EndsAs ts (run_scheduler V ts l p).0
  unfolding run_scheduler
  run_scheduler-EndsAs [] l p h = tt
  run_scheduler-EndsAs (t ∷ ts) l p h =
      go (run_scheduler-EndsAs ts) (run_turn V t l p) (run_turn-TurnEnds t l p h)
    where
      go :
          ((l' : Loop) (p' : Process V) → IsPaced l' → EndsAs ts (run_scheduler V ts l' p').0)
          → (x : (Loop × Ending) × Process V) → TurnEnds t x.0
          → EndsAs (t ∷ ts) (after_turn V x.0.1 x.1 (run_scheduler V ts x.0.0 x.1)).0
      go ih ((l', slept n), p') k = (k.1, k.2, ih l' p' k.0)
      go ih ((l', went_on), p') k = ih l' p' k
      go ih ((l', died), p') k = k
