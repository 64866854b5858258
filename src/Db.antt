-- ===== src/Db.antt =====
-- relay/db/models.py: the rows of the tables, and what the code uses of a table through SQLAlchemy.
-- Identifiers are UUIDs as numbers, times are milliseconds. `created_at` and `updated_at`, which
-- only order listings, are left out.
pub mod Concrete
use web_hooks.Base.{ℕ, ◌≡◌, Bool, true, Option, none, some, List, ◌==◌, if◌then◌else◌, All, Elem}
use web_hooks.RetryQueue.{Text, Uuid}
use web_hooks.Sender.{ErrorClass}

pub record Tenant : Type 0 where
  pub id : Uuid
  pub name : Text
  pub api_key_hash : Text
  pub rate_per_sec : Option ℕ
  pub max_inflight : Option ℕ

pub data DeliveryOrder : Type 0 where
  ordered unordered : DeliveryOrder

pub data EndpointStatus : Type 0 where
  active paused disabled : EndpointStatus

pub record Endpoint : Type 0 where
  pub id : Uuid
  pub tenant_id : Uuid
  pub url : Text
  pub signing_secret : Text
  pub ordering : DeliveryOrder
  pub status : EndpointStatus
  pub event_types : List Text

pub record Event : Type 0 where
  pub id : Uuid
  pub tenant_id : Uuid
  pub event_type : Text
  pub payload : Text
  pub idempotency_key : Option Text

pub data DeliveryStatus : Type 0 where
  pending delivering delivered failed dead : DeliveryStatus

pub record Delivery : Type 0 where
  pub id : Uuid
  pub event_id : Uuid
  pub endpoint_id : Uuid
  pub status : DeliveryStatus
  pub attempt_count : ℕ
  pub next_attempt_at : Option ℕ

pub record DeliveryAttempt : Type 0 where
  pub delivery_id : Uuid
  pub attempt_number : ℕ
  pub started_at : ℕ
  pub latency_ms : ℕ
  pub http_status : Option ℕ
  pub error_class : Option ErrorClass
  pub response_snippet : Option Text

pub data ActionKind : Type 0 where
  pause_endpoint replay_dlq : ActionKind

pub data ActionStatus : Type 0 where
  pending approved rejected : ActionStatus

pub record AgentAction : Type 0 where
  pub id : Uuid
  pub diagnosis_id : Uuid
  pub endpoint_id : Uuid
  pub action : ActionKind
  pub reason : Text
  pub status : ActionStatus
  pub decided_at : Option ℕ

pub data Confidence : Type 0 where
  low medium high : Confidence

pub data DiagnosisStatus : Type 0 where
  opened acknowledged resolved : DiagnosisStatus

-- The cost is in millionths of a dollar; the evidence is its JSON text.
pub record Diagnosis : Type 0 where
  pub id : Uuid
  pub endpoint_id : Uuid
  pub triggered_by : Text
  pub root_cause : Text
  pub confidence : Confidence
  pub evidence : Text
  pub recommendation : Text
  pub draft_email : Text
  pub status : DiagnosisStatus
  pub cost_usd : ℕ

-- A table of rows with the primary key `key`: `find` selects by it, `select` by a condition, and
-- `save` writes a row, new or changed. The laws are those of SELECT, INSERT and UPDATE.
pub record Table (Row : Type 0) (key : Row → Uuid) : Type 1 where
  pub Rows : Type 0
  pub no_rows : Rows
  pub find : Uuid → Rows → Option Row
  pub select : (Row → Bool) → Rows → List Row
  pub save : Row → Rows → Rows
  pub find-no_rows : (k : Uuid) → find k no_rows ≡ none
  pub find-save :
      (k : Uuid) (r : Row) (t : Rows)
      → find k (save r t) ≡ (if key r == k then some r else find k t)
  pub find_key : (k : Uuid) (r : Row) (t : Rows) → find k t ≡ some r → key r ≡ k
  pub select_sound :
      (p : Row → Bool) (t : Rows) → All (λ r. (p r ≡ true) × (find (key r) t ≡ some r)) (select p t)
  pub select_complete :
      (p : Row → Bool) (k : Uuid) (r : Row) (t : Rows)
      → find k t ≡ some r
      → p r ≡ true
      → Elem r (select p t)
