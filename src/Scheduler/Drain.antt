-- ===== src/Scheduler/Drain.antt =====
-- The scheduler drains a burst and then sleeps; in an outage its pauses stay between half a second
-- and ten seconds.
use web_hooks.Base.{
  inl, inr, ℕ, zero, suc, ◌+◌, ◌≤◌, ◌<◌, ◌≡◌, refl, false, Option, none, some, List, [], ◌∷◌, ◌++◌,
  ltb, if◌then◌else◌, arith, length, length-append, Bool-cases, All,
}
use web_hooks.Redis.{SortedSets}
use web_hooks.RetryQueue.{Text, move_due_to_streams}
use web_hooks.RetryQueue.Moves.{Decodes, move_due-conserves}
use web_hooks.Scheduler.{
  batch_limit, poll_interval, reconnect_base_delay, reconnect_max_delay, Scheduler, Round, answers,
  fails, poll_once, poll_round, run_until_sleep,
}

module _ (S : SortedSets Text) where
  open S use {zcard}

  -- The rounds have ended, and what they took from the queue is on the streams.
  abbrev pub Drained : Scheduler S → Option (Scheduler S) → Type 0
  Drained s none = ⊥
  Drained s (some t) =
      (zcard t.retries + length t.added ≡ zcard s.retries + length s.added)
      × Decodes S t.retries
      × (t.delay ≡ reconnect_base_delay)

  Drained-step :
      (s u : Scheduler S) (o : Option (Scheduler S))
      → zcard u.retries + length u.added ≡ zcard s.retries + length s.added
      → Drained u o
      → Drained s o
  Drained-step s u none e h = h
  Drained-step s u (some t) e h = (omega (arith, e, h.0), h.1, h.2)

  good_round :
      (now : ℕ) (s : Scheduler S)
      → let m = move_due_to_streams S batch_limit now s.retries in
        m.failed ≡ false
        → poll_round S (answers now) s ≡ (
          record { delay = reconnect_base_delay; retries = m.retries; added = s.added ++ m.added },
          (if ltb m.moved batch_limit then some poll_interval else none),
        )
  unfolding poll_round poll_once
  good_round now s h = rw h refl

  -- On a queue of encoded deliveries, however large a burst is due, and however the clock runs: if
  -- Redis answers, the scheduler comes to a round that sleeps, after no more rounds than the queue
  -- has members and one; as many entries are on the streams as have left the queue by then.
  pub run_until_sleep-Drained :
      (fuel : ℕ) (clock : ℕ → ℕ) (s : Scheduler S)
      → Decodes S s.retries
      → zcard s.retries < fuel
      → Drained s (run_until_sleep S fuel clock s)
  unfolding run_until_sleep
  run_until_sleep-Drained zero clock s w h = absurd (omega arith)
  run_until_sleep-Drained (suc n) clock s w h =
      let m = move_due_to_streams S batch_limit (clock n) s.retries in
      let c = move_due-conserves S batch_limit (clock n) s.retries w in
      let total = length-append s.added m.added in
      let good = good_round (clock n) s c.0 in
      elim (Bool-cases (ltb m.moved batch_limit)) [
        | inl short ↦
            rw (good, run_until_sleep, short) (rw good (omega (arith, c.1, c.2, total), c.3, refl))
        | inr full ↦
            rw (good, run_until_sleep, full)
              (rw good (
                Drained-step s
                  (record {
                    delay = reconnect_base_delay;
                    retries = m.retries;
                    added = s.added ++ m.added;
                  })
                  _ (omega (arith, c.1, c.2, total))
                  (run_until_sleep-Drained n clock
                    (record {
                      delay = reconnect_base_delay;
                      retries = m.retries;
                      added = s.added ++ m.added;
                    })
                    c.3 (ground (arith, c.2, full, h)))))
      ]

  -- The pauses of rounds one after another.
  unfoldable pub pauses : List (Round S) → Scheduler S → List (Option ℕ)
  pauses [] s = []
  pauses (r ∷ rs) s = let (after, sleep) = poll_round S r s in sleep ∷ pauses rs after

  -- A pause of half a second to ten seconds, or none.
  abbrev pub IsBounded : Option ℕ → Type 0
  IsBounded none = Unit {0}
  IsBounded (some t) = (500 ≤ t) × (t ≤ reconnect_max_delay)

  one_round :
      (r : Round S) (s : Scheduler S)
      → 500 ≤ s.delay
      → s.delay ≤ reconnect_max_delay
      → IsBounded (poll_round S r s).1
        × (500 ≤ (poll_round S r s).0.delay)
        × ((poll_round S r s).0.delay ≤ reconnect_max_delay)
  unfolding poll_round
  one_round fails s h k = ground arith
  one_round (answers now) s h k = ground arith

  -- Whatever rounds fail, each pause is between half a second and ten seconds.
  pub pauses-IsBounded :
      (rs : List (Round S)) (s : Scheduler S)
      → 500 ≤ s.delay
      → s.delay ≤ reconnect_max_delay
      → All IsBounded (pauses rs s)
  unfolding pauses
  pauses-IsBounded [] s h k = tt
  pauses-IsBounded (r ∷ rs) s h k =
      let one = one_round r s h k in (one.0, pauses-IsBounded rs (poll_round S r s).0 one.1 one.2)
