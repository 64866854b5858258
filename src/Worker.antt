-- ===== src/Worker.antt =====
-- relay/delivery/worker.py: one stream entry, from the gates to the acknowledgement. What a run
-- reads of the outside, clocks, fresh tokens, the receiver's answer, is its `Env`. Log lines are left
-- out; the metrics that a run writes are lists in the world.
pub mod Monad
pub mod Gates
pub mod Attempt
pub mod Frame
pub mod Safety
pub mod Loop
pub mod Supervisor
pub mod Completes
pub mod Released
mod Tests
use web_hooks.Base.{
  ℕ, ◌+◌, ◌*◌, Bool, true, false, Option, none, some, [], ◌∷◌, ◌++◌, ◌==◌, if◌then◌else◌,
}
use web_hooks.Db.{
  Endpoint, EndpointStatus, Event, Delivery, DeliveryStatus, DeliveryAttempt, ordered, unordered,
  active, delivering, delivered, failed, dead, DeliveryOrder,
}
use web_hooks.Services.{Services, World, Post}
use web_hooks.RetryQueue.{Uuid, schedule_retry}
use web_hooks.Retry.{Parsed, milliseconds, not_a_number, next_delay_seconds}
use web_hooks.Sender.{Posted, AttemptResult, send_delivery, succeeded}
use Monad.{Action, pure, raise, modify, query, command, ◌>>=◌, ◌>>◌}

abbrev pub rate_limit_retry_delay : ℕ
rate_limit_retry_delay = 500

abbrev pub concurrency_retry_delay : ℕ
concurrency_retry_delay = 500

abbrev pub ordered_wait_delay : ℕ
ordered_wait_delay = 250

abbrev pub breaker_recheck_delay : ℕ
breaker_recheck_delay = 30 * 1000

-- relay/config.py, the settings that the worker reads.
pub record Settings : Type 0 where
  pub stream_shards : ℕ
  pub default_tenant_rate_per_sec : ℕ
  pub default_tenant_max_inflight : ℕ
  pub max_attempts : ℕ

pub record Env : Type 1 where
  pub settings : Settings
  pub Header : Type 0
  pub parse : Header → Parsed
  -- What the receiver answers to a POST, and how long that takes.
  pub client : Post → Posted Header
  pub latency : ℕ
  -- `random.uniform(0.8, 1.2)` in thousandths.
  pub jitter : ℕ
  -- The clock at the start of `deliver_with_gates`, when the row of a failed attempt gets the time of
  -- its retry, when that retry is put on the queue, and when the outcome of an attempt is recorded; the server's clock at the lock's SET and at its release.
  pub now : ℕ
  pub settled_at : ℕ
  pub scheduled_at : ℕ
  pub recorded_at : ℕ
  -- The database's clock when the attempt is stored.
  pub stored_at : ℕ
  pub locked_at : ℕ
  pub unlocked_at : ℕ
  -- Fresh `uuid4().hex` values.
  pub lock_token : ℕ
  pub slot_token : ℕ
  pub member : ℕ

-- `tenant.rate_per_sec or default`: also 0 falls back.
unfoldable pub or_default : Option ℕ → ℕ → ℕ
or_default none default = default
or_default (some n) default = if n == 0 then default else n

abbrev pub is_delivered : DeliveryStatus → Bool
is_delivered delivered = true
is_delivered _ = false

-- `status in {"delivered", "dead"}`
abbrev pub is_settled : DeliveryStatus → Bool
is_settled delivered = true
is_settled dead = true
is_settled _ = false

abbrev pub is_active : EndpointStatus → Bool
is_active active = true
is_active _ = false

abbrev pub is_ordered : DeliveryOrder → Bool
is_ordered ordered = true
is_ordered unordered = false

module _ (V : Services) (X : Env) where
  open X use {
    settings, Header, parse, client, latency, jitter, now, settled_at, scheduled_at, recorded_at,
    stored_at, locked_at, unlocked_at, lock_token, slot_token, member,
  }

  abbrev pub Run : Type 0 → Type 0
  Run A = Action (World V) A

  abbrev pub find_delivery : Uuid → World V → Option Delivery
  find_delivery k w = V.deliveries_table.find k w.deliveries

  abbrev pub find_endpoint : Uuid → World V → Option Endpoint
  find_endpoint k w = V.endpoints_table.find k w.endpoints

  abbrev pub save_delivery : Delivery → World V → World V
  save_delivery d w = record w { deliveries = V.deliveries_table.save d w.deliveries }

  -- `schedule_retry` on the world's retry queue.
  unfoldable pub retry_in : Delivery → ℕ → World V → World V
  retry_in d delay w = record w {
    retries =
        (schedule_retry V.texts V.text_sets settings.stream_shards d.id d.event_id d.endpoint_id
          delay scheduled_at w.retries).0;
  }

  -- The row after an attempt with the given result, and the delay to its retry if it gets one; none
  -- where `timedelta` raises, which takes no nan.
  unfoldable pub settled_row : Delivery → AttemptResult Header → Option (Delivery × Option ℕ)
  settled_row d result =
      if succeeded result
      then some (record d { status = delivered; next_attempt_at = none }, none)
      else elim (next_delay_seconds parse d.attempt_count result.http_status result.retry_after
          settings.max_attempts jitter) [
            | none ↦ some (record d { status = dead; next_attempt_at = none }, none)
            | some (milliseconds delay) ↦ some (
              record d { status = failed; next_attempt_at = some (settled_at + delay) },
              some delay,
            )
            | some not_a_number ↦ none
          ]

  abbrev pub attempt_of : Delivery → AttemptResult Header → DeliveryAttempt
  attempt_of d result = record {
    delivery_id = d.id;
    attempt_number = d.attempt_count;
    started_at = stored_at;
    latency_ms = result.latency_ms;
    http_status = result.http_status;
    error_class = result.error_class;
    response_snippet = result.response_snippet;
  }

  abbrev pub post_of : Delivery → Endpoint → Event → Post
  post_of d endpoint event = record {
    url = endpoint.url;
    secret = endpoint.signing_secret;
    delivery_id = d.id;
    event_id = event.id;
    payload = event.payload;
  }

  -- The row as it is committed before the POST.
  abbrev pub begun : Delivery → Delivery
  begun d = record d { status = delivering; attempt_count = d.attempt_count + 1 }

  -- `if delay_seconds is not None: await schedule_retry(…)`
  unfoldable pub schedule_if : Delivery → Option ℕ → Run (Unit {0})
  schedule_if d none = pure tt
  schedule_if d (some delay) = command (retry_in d delay)

  -- The commit of the outcome and the retry after it. Where the row could not be settled, the
  -- session ends without a commit.
  unfoldable pub conclude :
      Delivery → Endpoint → AttemptResult Header → Option (Delivery × Option ℕ) → Run Bool
  unfolding schedule_if
  conclude d endpoint result none = raise
  conclude d endpoint result (some (row, delay)) = do
    command (λ w. record w {
      deliveries = V.deliveries_table.save row w.deliveries;
      attempts = w.attempts ++ attempt_of (begun d) result ∷ [];
    })
    schedule_if row delay
    modify (λ w. record w { outcomes = w.outcomes ++ (endpoint.tenant_id, row.status) ∷ [] })
    pure true

  -- The second half of `process_delivery`: the POST, the commit of its outcome, the retry.
  unfoldable pub attempt : Delivery → Endpoint → Event → Run Bool
  unfolding conclude
  attempt d endpoint event = do
    command (save_delivery (begun d))
    let post = post_of d endpoint event
    let result = send_delivery (client post) latency
    modify (λ w. record w { posts = w.posts ++ post ∷ [] })
    conclude d endpoint result (settled_row (begun d) result)

  -- Both rows that the delivery refers to must be there.
  unfoldable pub attempt_if : Delivery → Option Endpoint → Option Event → Run Bool
  unfolding attempt
  attempt_if d (some endpoint) (some event) = attempt d endpoint event
  attempt_if d none event = pure true
  attempt_if d (some endpoint) none = pure true

  unfoldable pub process_found : Option Delivery → Run Bool
  unfolding attempt_if
  process_found none = pure true
  process_found (some d) = if is_delivered d.status then pure true else do
    endpoint ← query (find_endpoint d.endpoint_id)
    event ← query (λ w. V.events_table.find d.event_id w.events)
    attempt_if d endpoint event

  unfoldable pub process_delivery : Uuid → Run Bool
  unfolding process_found
  process_delivery delivery_id = do found ← query (find_delivery delivery_id); process_found found
