-- ===== src/Scheduler.antt =====
-- relay/delivery/retry_scheduler.py: the loop that moves due deliveries back to their streams. The
-- gauges, which it refreshes in between, are left out. Times are milliseconds.
pub mod Drain
pub mod Gauges
pub mod Runner
mod Tests
use web_hooks.Base.{ℕ, zero, suc, ◌+◌, ◌*◌, Option, none, some, List, ◌++◌, ltb, min, if◌then◌else◌}
use web_hooks.Redis.{SortedSets}
use web_hooks.RetryQueue.{Text, StreamEntry, Moved, move_due_to_streams}

abbrev pub batch_limit : ℕ
batch_limit = 100

abbrev pub poll_interval : ℕ
poll_interval = 500

abbrev pub reconnect_base_delay : ℕ
reconnect_base_delay = 500

abbrev pub reconnect_max_delay : ℕ
reconnect_max_delay = 10 * 1000

module _ (S : SortedSets Text) where
  open S use {ZSet}

  -- The loop's variable and the queue, with what was added to the streams.
  pub record Scheduler : Type 0 where
    pub delay : ℕ
    pub retries : ZSet
    pub added : List StreamEntry

  unfoldable pub poll_once : ℕ → ZSet → Moved S
  poll_once now retries = move_due_to_streams S batch_limit now retries

  -- What Redis does in a round: it answers at its time, or the call fails.
  pub data Round : Type 0 where
    answers : (now : ℕ) → Round
    fails : Round

  -- One round of the loop, and how long it sleeps then: not at all after a full batch. A script that
  -- fails on a member raises too.
  unfoldable pub poll_round : Round → Scheduler → Scheduler × Option ℕ
  unfolding poll_once
  poll_round fails s = (record s { delay = min (s.delay * 2) reconnect_max_delay }, some s.delay)
  poll_round (answers now) s =
      let m = poll_once now s.retries in
      let kept = record s { retries = m.retries; added = s.added ++ m.added } in
      if m.failed
      then (record kept { delay = min (s.delay * 2) reconnect_max_delay }, some s.delay)
      else (
        record kept { delay = reconnect_base_delay },
        (if ltb m.moved batch_limit then some poll_interval else none),
      )

  -- Rounds until one sleeps: the loop without its sleeps, from the given clock on.
  unfoldable pub run_until_sleep : ℕ → (ℕ → ℕ) → Scheduler → Option Scheduler
  run_until_sleep zero clock s = none
  run_until_sleep (suc n) clock s =
      let (after, sleep) = poll_round (answers (clock n)) s in
      let rest = run_until_sleep n clock after in elim sleep [ some t ↦ some after | none ↦ rest ]
