-- ===== src/Services.antt =====
-- The services that the processes share, Redis and Postgres, and the world of one deployment: the
-- keys that the code names, each key family as a function of its identifier.
pub mod Concrete
use web_hooks.Base.{ℕ, Bool, Option, List, ◌==◌, if◌then◌else◌}
use web_hooks.Redis.{SortedSets, Queues, Expiring}
use web_hooks.Db.{
  Tenant, Endpoint, Event, Delivery, DeliveryAttempt, DeliveryStatus, AgentAction, Diagnosis, Table,
}
use web_hooks.RetryQueue.{Text, Texts, Uuid, StreamEntry}
use web_hooks.RateLimit.Bucket.{Bucket}
use web_hooks.Breaker.{Breaker, State, Message}

pub record Services : Type 1 where
  pub texts : Texts
  pub sets : SortedSets ℕ
  pub text_sets : SortedSets Text
  pub lists : Queues ℕ
  pub tenants_table : Table Tenant (λ r. r.id)
  pub endpoints_table : Table Endpoint (λ r. r.id)
  pub events_table : Table Event (λ r. r.id)
  pub deliveries_table : Table Delivery (λ r. r.id)
  pub actions_table : Table AgentAction (λ r. r.id)
  pub diagnoses_table : Table Diagnosis (λ r. r.id)

-- The labels of `relay_deliveries_gated_total`.
pub data GateReason : Type 0 where
  rate_limited max_inflight ordered_wait endpoint_disabled : GateReason
  breaker_state : State → GateReason

-- One POST that left the worker.
pub record Post : Type 0 where
  pub url : Text
  pub secret : Text
  pub delivery_id : Uuid
  pub event_id : Uuid
  pub payload : Text

-- A value at one key.
abbrev pub update : {A : Type 0} → (ℕ → A) → ℕ → A → ℕ → A
update f k v j = if k == j then v else f j

pub record World (V : Services) : Type 0 where
  pub tenants : V.tenants_table.Rows
  pub endpoints : V.endpoints_table.Rows
  pub events : V.events_table.Rows
  pub deliveries : V.deliveries_table.Rows
  pub actions : V.actions_table.Rows
  pub diagnoses : V.diagnoses_table.Rows
  pub attempts : List DeliveryAttempt
  pub breakers : Uuid → Breaker V.sets
  pub published : List Message
  pub buckets : Uuid → Option (Expiring Bucket)
  pub slots : Uuid → V.sets.ZSet
  pub locks : Uuid → Option (Expiring ℕ)
  pub queues : Uuid → V.lists.Queue
  pub retries : V.text_sets.ZSet
  pub streamed : List StreamEntry
  pub gated : List GateReason
  pub outcomes : List (Uuid × DeliveryStatus)
  pub posts : List Post
  -- The stream entries that were acknowledged.
  pub acked : List ℕ
  -- Whether each of the coming calls of Redis or Postgres fails; past the end none does.
  pub faults : List Bool
