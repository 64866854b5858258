-- ===== src/Agent/Trigger/Listener.antt =====
-- relay/agent/trigger.py: `claim_budget` call by call, `handle_breaker_event` with the run that it starts,
-- and the loop of `run_trigger` over its subscription. What arrives, the clocks and the failures of the
-- subscription are inputs; the calls of the budgets fail by the faults of the world.
pub mod Traversal
pub mod Bounded
pub mod Confined
pub mod Diagnosed
mod Tests
use web_hooks.Base.{
  ℕ, ◌+◌, ◌*◌, Bool, true, false, Option, none, some, List, [], ◌∷◌, ◌++◌, ◌==◌, length, ltb, min,
  if◌then◌else◌,
}
use web_hooks.Services.{World, update}
use web_hooks.RetryQueue.{Uuid, Text}
use web_hooks.Worker.Monad.{Result, ok, raised, Action, pure, query, ◌>>=◌, ◌>>◌}
use web_hooks.Agent.Chat.{codes}
use web_hooks.Agent.Findings.{Outside}
use web_hooks.Agent.State.{Setting}
use web_hooks.Agent.Graph.{diagnose_and_record}
use package.web_hooks.Agent.Trigger.{
  Budgets, Denial, endpoint_rate_limited, daily_budget_exhausted, is_claimed,
}

abbrev pub reconnect_base_delay : ℕ
reconnect_base_delay = 1000

abbrev pub reconnect_max_delay : ℕ
reconnect_max_delay = 15000

-- The text of an event: not JSON; JSON that is no object; or an object, with whether `to_state` is
-- "open", whether `trigger` is "consecutive_failures", and the identifier if there is a good one.
pub data Payload : Type 0 where
  not_json not_object : Payload
  event : (to_open is_failures : Bool) (endpoint_id : Option Uuid) → Payload

-- What `triggered_by` is; none if the handler returns.
unfoldable pub trigger_text : (to_open is_failures : Bool) → Option Text
trigger_text true is_failures = some (codes "breaker_open")
trigger_text false true = some (codes "consecutive_failures")
trigger_text false false = none

-- How the handling of an event ends: with no exception, with one of Redis, or with another, such as the
-- AttributeError, KeyError or ValueError of a malformed event.
pub data Handled : Type 0 where
  handled redis_failed malformed : Handled

-- One call of `get_message`. `is_caught` says of an exception of Redis, if one comes, whether it is a
-- RedisError or an OSError.
pub data Poll : Type 0 where
  silent : Poll
  failed : (is_caught : Bool) → Poll
  message : (now day : ℕ) (is_caught : Bool) (payload : Payload) → Poll

-- One round of the outer loop: the subscription is refused, or messages arrive until `stop` is set.
pub data Connection : Type 0 where
  refused : (is_caught : Bool) → Connection
  subscribed : List Poll → Connection

pub data Exit : Type 0 where
  stopped : Exit
  broken : (is_caught : Bool) → Exit

-- How a round of the outer loop ends: with a sleep, with `stop`, or with an exception that leaves it.
pub data Finish : Type 0 where
  slept : ℕ → Finish
  left_by_stop left_by_exception : Finish

-- A run of the agent that was started.
pub record Run : Type 0 where
  pub day : ℕ
  pub endpoint : Uuid
  pub diagnosis : Option Uuid

-- The setting that all runs share, with the n-th run's fresh id, its outside and its session of the
-- model's client; `per_day` is `settings.agent_max_runs_per_day`, and `claim_ttl` the milliseconds of
-- `per_hour_seconds`.
pub record Trigger : Type 1 where
  pub setting : Setting
  pub per_day : ℕ
  pub claim_ttl : ℕ
  pub fresh : ℕ → Uuid
  pub outside : ℕ → ℕ → Outside
  pub llm : ℕ → Option setting.client.Session

module _ (G : Trigger) where
  open G use {setting, per_day, claim_ttl, fresh, outside, llm}
  open setting use {services}

  pub record Listener : Type 0 where
    pub world : World services
    pub budgets : Budgets
    pub runs : List Run

  -- A call of Redis on the keys of the budgets, which fails as the next fault says.
  abbrev pub called :
      {A : Type 0}
      → (Budgets → A × Budgets)
      → Listener
      → Result (Unit {0}) × World services
      → Result A × Listener
  called f s (ok u, w) = let (a, b) = f s.budgets in (ok a, record s { world = w; budgets = b })
  called f s (raised, w) = (raised, record s { world = w })

  unfoldable pub call : {A : Type 0} → (Budgets → A × Budgets) → Action Listener A
  call f s = called f s (query (λ w. tt) s.world)

  -- `SET … NX EX`, `INCR` and `DEL`.
  unfoldable pub set_claim : ℕ → Uuid → Budgets → Bool × Budgets
  unfolding is_claimed
  set_claim now k b = if is_claimed per_day claim_ttl now k b then (false, b) else (
    true,
    record b { ran = update b.ran k (some (record { value = 1; deadline = now + claim_ttl })) },
  )

  unfoldable pub count_run : ℕ → Budgets → ℕ × Budgets
  count_run day b = let n = b.used day + 1 in (n, record b { used = update b.used day n })

  unfoldable pub drop_claim : Uuid → Budgets → Unit {0} × Budgets
  drop_claim k b = (tt, record b { ran = update b.ran k none })

  -- The expiry of the day's key is left out, but the call may fail.
  unfoldable pub expire_first : ℕ → Action Listener (Unit {0})
  unfolding call
  expire_first used = if used == 1 then call (λ b. (tt, b)) else pure tt

  unfoldable pub within_day : ℕ → Uuid → ℕ → Action Listener (Option Denial)
  unfolding call drop_claim
  within_day day k used =
      if ltb per_day used
      then (do call (drop_claim k); pure (some daily_budget_exhausted))
      else pure none

  unfoldable pub after_set : ℕ → Uuid → Bool → Action Listener (Option Denial)
  unfolding call count_run expire_first within_day
  after_set day k false = pure (some endpoint_rate_limited)
  after_set day k true = do used ← call (count_run day); expire_first used; within_day day k used

  unfoldable pub claim : ℕ → ℕ → Uuid → Action Listener (Option Denial)
  unfolding call set_claim after_set
  claim now day k = do is_new ← call (set_claim now k); after_set day k is_new

  -- The setting of the n-th run.
  abbrev pub setting_of : ℕ → Uuid → Text → Setting
  setting_of n k cause = record setting {
    outside = outside n;
    endpoint_id = k;
    diagnosis_id = fresh n;
    triggered_by = cause;
  }

  unfoldable pub diagnose : ℕ → Uuid → Text → Listener → Listener
  diagnose day k cause s =
      let n = length s.runs in
      let (o, w) = diagnose_and_record (setting_of n k cause) (llm n) s.world in
      record s {
        world = w;
        runs = s.runs ++ record { day = day; endpoint = k; diagnosis = o } ∷ [];
      }

  abbrev pub after_claim : ℕ → Uuid → Text → Result (Option Denial) × Listener → Handled × Listener
  after_claim day k cause (raised, s) = (redis_failed, s)
  after_claim day k cause (ok (some denial), s) = (handled, s)
  after_claim day k cause (ok none, s) = (handled, diagnose day k cause s)

  unfoldable pub handle_trigger : ℕ → ℕ → Option Text → Option Uuid → Listener → Handled × Listener
  unfolding claim diagnose
  handle_trigger now day none k s = (handled, s)
  handle_trigger now day (some cause) none s = (malformed, s)
  handle_trigger now day (some cause) (some k) s = after_claim day k cause (claim now day k s)

  -- `handle_breaker_event`
  unfoldable pub handle_event : ℕ → ℕ → Payload → Listener → Handled × Listener
  unfolding handle_trigger trigger_text
  handle_event now day not_json s = (handled, s)
  handle_event now day not_object s = (malformed, s)
  handle_event now day (event to_open is_failures k) s =
      handle_trigger now day (trigger_text to_open is_failures) k s

  abbrev pub after_event : Bool → Handled → Listener → Exit × Listener → Exit × Listener
  after_event is_caught handled s rest = rest
  after_event is_caught redis_failed s rest = (broken is_caught, s)
  after_event is_caught malformed s rest = (broken false, s)

  -- The inner loop. At the end of the list `stop` is set.
  unfoldable pub listen : List Poll → Listener → Exit × Listener
  unfolding handle_event
  listen [] s = (stopped, s)
  listen (silent ∷ ps) s = listen ps s
  listen (failed is_caught ∷ ps) s = (broken is_caught, s)
  listen (message now day is_caught payload ∷ ps) s =
      let (r, s') = handle_event now day payload s in
      let rest = listen ps s' in after_event is_caught r s' rest

  -- The `except` clauses, and the delay after them.
  abbrev pub finish : ℕ → Exit → ℕ × Finish
  finish delay stopped = (delay, left_by_stop)
  finish delay (broken true) = (min (delay * 2) reconnect_max_delay, slept delay)
  finish delay (broken false) = (delay, left_by_exception)

  unfoldable pub run_connection : Connection → ℕ → Listener → (ℕ × Finish) × Listener
  unfolding listen
  run_connection (refused is_caught) delay s = (finish delay (broken is_caught), s)
  run_connection (subscribed ps) delay s =
      let (e, s') = listen ps s in (finish reconnect_base_delay e, s')

  abbrev pub after_connection : Finish → Listener → List Finish × Listener → List Finish × Listener
  after_connection (slept n) s (fs, last) = (slept n ∷ fs, last)
  after_connection left_by_stop s rest = (left_by_stop ∷ [], s)
  after_connection left_by_exception s rest = (left_by_exception ∷ [], s)

  -- `run_trigger`: how each round of the outer loop ended.
  unfoldable pub run_trigger : List Connection → ℕ → Listener → List Finish × Listener
  unfolding run_connection
  run_trigger [] delay s = ([], s)
  run_trigger (c ∷ cs) delay s =
      let ((delay', f), s') = run_connection c delay s in
      let rest = run_trigger cs delay' s' in after_connection f s' rest
