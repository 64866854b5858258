-- ===== src/Scheduler/Runner.antt =====
-- relay/delivery/retry_scheduler.py: the loop of `run_scheduler` over the world, with the sweep of the
-- gauges between the polls. Times are milliseconds.
pub mod Paced
use web_hooks.Base.{
  ℕ, ◌+◌, ◌*◌, Bool, true, false, List, [], ◌∷◌, ◌++◌, ◌==◌, leb, ltb, min, if◌then◌else◌,
}
use web_hooks.Services.{Services, World}
use web_hooks.RetryQueue.{retry_queue_depth}
use web_hooks.Worker.Monad.{Result, ok, raised, Action, pure, raise, exec, query, ◌>>=◌, ◌>>◌}
use package.web_hooks.Scheduler.{
  batch_limit, poll_interval, reconnect_base_delay, reconnect_max_delay, poll_once,
}
use package.web_hooks.Scheduler.Gauges.{Process, on_world, refresh_gauges}

abbrev pub gauge_refresh_interval : ℕ
gauge_refresh_interval = 5000

-- The variables of the loop.
pub record Loop : Type 0 where
  pub delay : ℕ
  pub next_gauge_refresh : ℕ

-- What a round reads of the outside: the clocks, and whether an exception that comes, if one does, is a
-- `RedisError` or an `OSError`. Those of Postgres mostly are not.
pub record Turn : Type 0 where
  pub now : ℕ
  pub checked_at : ℕ
  pub refreshed_at : ℕ
  pub is_caught : Bool

-- How a round ends: with a sleep, at once, or with an exception that leaves the loop.
pub data Ending : Type 0 where
  slept : ℕ → Ending
  went_on : Ending
  died : Ending

module _ (V : Services) where
  -- The script, of which a failure raises too.
  unfoldable pub poll : ℕ → World V → (Bool × ℕ) × World V
  unfolding poll_once
  poll now w =
      let m = poll_once V.text_sets now w.retries in
      ((m.failed, m.moved), record w { retries = m.retries; streamed = w.streamed ++ m.added })

  -- The line of the log asks for the depth of the queue.
  unfoldable pub log_moved : ℕ → Action (World V) ℕ
  log_moved moved =
      if moved == 0
      then pure moved
      else (do query (λ w. retry_queue_depth V.texts V.text_sets w.retries); pure moved)

  unfoldable pub poll_world : ℕ → Action (World V) ℕ
  unfolding poll log_moved
  poll_world now = do polled ← exec (poll now); if polled.0 then raise else log_moved polled.1

  abbrev pub caught : Loop → Bool → Loop × Ending
  caught l true = (record l { delay = min (l.delay * 2) reconnect_max_delay }, slept l.delay)
  caught l false = (l, died)

  abbrev pub paused : Loop → ℕ → Loop × Ending
  paused l moved = (l, (if ltb moved batch_limit then slept poll_interval else went_on))

  abbrev pub after_refresh : {A : Type 0} → Turn → Loop → ℕ → Result A → Loop × Ending
  after_refresh t l moved raised = caught l t.is_caught
  after_refresh t l moved (ok a) =
      paused (record l { next_gauge_refresh = t.refreshed_at + gauge_refresh_interval }) moved

  unfoldable pub refresh_if : Turn → Loop → ℕ → Process V → (Loop × Ending) × Process V
  refresh_if t l moved p =
      if leb l.next_gauge_refresh t.checked_at
      then (let (r, p') = refresh_gauges V p in (after_refresh t l moved r, p'))
      else (paused l moved, p)

  unfoldable pub after_poll : Turn → Loop → Result ℕ → Process V → (Loop × Ending) × Process V
  unfolding refresh_if
  after_poll t l raised p = (caught l t.is_caught, p)
  after_poll t l (ok moved) p = refresh_if t (record l { delay = reconnect_base_delay }) moved p

  unfoldable pub run_turn : Turn → Loop → Process V → (Loop × Ending) × Process V
  unfolding after_poll poll_world on_world
  run_turn t l p = let (polled, p') = on_world V (poll_world t.now) p in after_poll t l polled p'

  abbrev pub after_turn : Ending → Process V → List Ending × Process V → List Ending × Process V
  after_turn died p rest = (died ∷ [], p)
  after_turn (slept n) p (es, last) = (slept n ∷ es, last)
  after_turn went_on p (es, last) = (went_on ∷ es, last)

  -- Rounds until an exception leaves the loop, with how each ended.
  unfoldable pub run_scheduler : List Turn → Loop → Process V → List Ending × Process V
  unfolding run_turn
  run_scheduler [] l p = ([], p)
  run_scheduler (t ∷ ts) l p =
      let ((l', e), p') = run_turn t l p in
      let rest = run_scheduler ts l' p' in after_turn e p' rest
