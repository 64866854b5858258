-- ===== src/Breaker.antt =====
-- relay/delivery/circuit_breaker.py: the circuit breaker of an endpoint. Times are milliseconds. The
-- hash of an endpoint is a record with its fields, each absent until HSET; the sliding window is
-- two sorted sets of attempt identifiers scored by time.
pub mod States
pub mod Probe
pub mod Opening
pub mod Disabling
mod Tests
use web_hooks.Base.{
  ℕ, ◌-◌, ◌+◌, ◌*◌, Bool, true, false, ◌&&◌, ◌||◌, Option, none, some, List, [], ◌∷◌, ◌++◌, leb,
  ltb, ◌==◌, if◌then◌else◌,
}
use web_hooks.Redis.{SortedSets}

abbrev pub consecutive_failure_threshold : ℕ
consecutive_failure_threshold = 10

abbrev pub consecutive_failure_trigger : ℕ
consecutive_failure_trigger = 5

abbrev pub window : ℕ
window = 300 * 1000

abbrev pub window_min_attempts : ℕ
window_min_attempts = 20

abbrev pub half_open_probe_interval : ℕ
half_open_probe_interval = 600 * 1000

abbrev pub auto_disable_after : ℕ
auto_disable_after = 72 * 3600 * 1000

-- `opened` is the source's state 'open'.
pub data State : Type 0 where
  closed opened half_open : State

pub State-discrete : Discrete State
State-discrete = hlevel

abbrev pub is_closed : State → Bool
is_closed closed = true
is_closed _ = false

abbrev pub same_state : State → State → Bool
same_state closed closed = true
same_state opened opened = true
same_state half_open half_open = true
same_state _ _ = false

-- The hash under `relay:breaker:{endpoint_id}`.
pub record Hash : Type 0 where
  pub state : Option State
  pub consecutive : Option ℕ
  pub opened_at : Option ℕ
  pub last_probe_at : Option ℕ

abbrev pub no_hash : Hash
no_hash = record { state = none; consecutive = none; opened_at = none; last_probe_at = none }

abbrev pub or_closed : Option State → State
or_closed none = closed
or_closed (some s) = s

abbrev pub or_zero : Option ℕ → ℕ
or_zero none = 0
or_zero (some n) = n

-- What is published on `relay:breaker-events`.
pub data Message : Type 0 where
  transition : (from_state to_state : State) → (at consecutive : ℕ) → Message
  consecutive_failures : (at consecutive : ℕ) → Message

pub record Outcome : Type 0 where
  pub state : State
  pub consecutive : ℕ
  pub transitioned : Bool

pub data Decision : Type 0 where
  allow probe deny : Decision

-- `rate_tripped`: failures / attempts > 0.5 among at least twenty attempts.
unfoldable pub rate_tripped : ℕ → ℕ → Bool
rate_tripped attempts failures = leb window_min_attempts attempts && ltb attempts (2 * failures)

-- The state after an outcome, before anything of it is written.
unfoldable pub next_state : State → Bool → (consecutive attempts failures : ℕ) → State
unfolding rate_tripped
next_state closed true consecutive attempts failures = closed
next_state opened true consecutive attempts failures = closed
next_state half_open true consecutive attempts failures = closed
next_state half_open false consecutive attempts failures = opened
next_state opened false consecutive attempts failures = opened
next_state closed false consecutive attempts failures =
    if leb consecutive_failure_threshold consecutive || rate_tripped attempts failures
    then opened
    else closed

-- The hash that a transition to the given state leaves.
unfoldable pub enter : State → ℕ → Hash → Hash
enter opened now h = record h {
  state = some opened;
  opened_at = some now;
  last_probe_at = some now;
}
enter closed now h = record h {
  state = some closed;
  opened_at = none;
  last_probe_at = none;
  consecutive = some 0;
}
enter half_open now h = record h { state = some half_open }

module _ (S : SortedSets ℕ) where
  open S use {ZSet, empty, zadd, zremrangebyscore, zcard}

  -- The three keys of one endpoint.
  pub record Breaker : Type 0 where
    pub hash : Hash
    pub attempts : ZSet
    pub failures : ZSet

  abbrev pub fresh : Breaker
  fresh = record { hash = no_hash; attempts = empty; failures = empty }

  -- Trim both sets, then record this attempt; `now - window` as a real number may be negative, and
  -- then nothing is trimmed.
  unfoldable pub slide : ℕ → Bool → ℕ → Breaker → Breaker
  slide now success member b =
      let trim = λ (z : ZSet). if leb window now then zremrangebyscore (now - window) z else z in
      record b {
        attempts = zadd now member (trim b.attempts);
        failures = if success then trim b.failures else zadd now member (trim b.failures);
      }

  -- `if new_state ~= state then …`
  unfoldable pub settle : ℕ → State → State → Breaker → Breaker
  unfolding enter
  settle now state new_state b =
      if same_state state new_state
      then b
      else (if is_closed new_state
          then record { hash = enter new_state now b.hash; attempts = empty; failures = empty }
          else record b { hash = enter new_state now b.hash })

  unfoldable pub announce : ℕ → State → State → ℕ → List Message
  announce now state new_state consecutive =
      if same_state state new_state then [] else transition state new_state now consecutive ∷ []

  -- RECORD_OUTCOME_LUA; `member` is the fresh identifier of the attempt.
  unfoldable pub record_outcome_script : ℕ → Bool → ℕ → Breaker → Breaker × Outcome × List Message
  unfolding slide next_state settle announce
  record_outcome_script now success member b =
      let state = or_closed b.hash.state in
      let slid = slide now success member b in
      let consecutive = if success then 0 else or_zero b.hash.consecutive + 1 in
      let counted = record slid { hash = record b.hash { consecutive = some consecutive } } in
      let new_state =
        next_state state success consecutive (zcard slid.attempts) (zcard slid.failures) in
      (
        settle now state new_state counted,
        record {
          state = new_state;
          consecutive = consecutive;
          transitioned = if same_state state new_state then false else true;
        },
        announce now state new_state consecutive,
      )

  -- The second publication of `record_outcome`, at exactly five consecutive failures while closed.
  unfoldable pub trigger : ℕ → Bool → Outcome → List Message
  trigger now success o =
      if success
      then []
      else if (o.consecutive == consecutive_failure_trigger) && is_closed o.state
      then consecutive_failures now o.consecutive ∷ []
      else []

  unfoldable pub record_outcome : ℕ → Bool → ℕ → Breaker → Breaker × Outcome × List Message
  unfolding record_outcome_script trigger
  record_outcome now success member b =
      let (b', o, published) = record_outcome_script now success member b in
      (b', o, published ++ trigger now success o)

  -- ALLOW_REQUEST_LUA.
  unfoldable pub allow_request : ℕ → Breaker → Breaker × Decision × State
  allow_request now b = elim (or_closed b.hash.state) [
    | closed ↦ (b, allow, closed)
    | half_open ↦ (b, deny, half_open)
    | opened ↦
        if leb (or_zero b.hash.last_probe_at + half_open_probe_interval) now
        then (
          record b { hash = record b.hash { state = some half_open; last_probe_at = some now } },
          probe,
          half_open,
        )
        else (b, deny, opened)
  ]

  -- `get_state`, its four values.
  unfoldable pub get_state : Breaker → State × ℕ × Option ℕ × Option ℕ
  get_state b =
      (or_closed b.hash.state, or_zero b.hash.consecutive, b.hash.opened_at, b.hash.last_probe_at)

  unfoldable pub reset : Breaker → Breaker
  reset b = fresh

  unfoldable pub should_auto_disable : ℕ → Breaker → Bool
  unfolding get_state
  should_auto_disable now b =
      let (state, consecutive, opened_at, last_probe_at) = get_state b in
      if is_closed state
      then false
      else elim opened_at [ none ↦ false | some t ↦ leb (t + auto_disable_after) now ]

  -- What the workers, the operators and the server do to the keys of one endpoint. EXPIRE is an
  -- operation by which the server may drop the window's sets.
  pub data BreakerOp : Type 0 where
    outcome : (now : ℕ) (success : Bool) (member : ℕ) → BreakerOp
    ask : (now : ℕ) → BreakerOp
    force_closed expire_attempts expire_failures : BreakerOp

  unfoldable pub breaker_step : Breaker → BreakerOp → Breaker
  breaker_step b (outcome now success member) = (record_outcome now success member b).0
  breaker_step b (ask now) = (allow_request now b).0
  breaker_step b force_closed = reset b
  breaker_step b expire_attempts = record b { attempts = empty }
  breaker_step b expire_failures = record b { failures = empty }

  unfoldable pub breaker_run : Breaker → List BreakerOp → Breaker
  breaker_run b [] = b
  breaker_run b (op ∷ ops) = breaker_run (breaker_step b op) ops
