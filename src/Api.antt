-- ===== src/Api.antt =====
-- relay/api/routes: what the handlers share. A handler is an action on the world that answers or
-- refuses with an HTTP status; where a call of a service fails, it raises.
mod Tests
pub mod Auth
pub mod Dlq
pub mod Endpoints
pub mod Events
pub mod Diagnoses
pub mod Listings
pub mod Tenants
pub mod App
use web_hooks.Base.{
  ℕ, ◌+◌, Bool, true, false, Option, none, some, List, [], ◌∷◌, ◌++◌, ◌==◌, if◌then◌else◌,
}
use web_hooks.Db.{Endpoint, Delivery, DeliveryStatus, dead, pending}
use web_hooks.Services.{Services, World, update}
use web_hooks.RetryQueue.{Uuid, enqueue_delivery}
use web_hooks.Breaker.{reset}
use web_hooks.Worker.Monad.{Action, pure, raise}

-- The body of an answer, or the status of an `ApiError`.
pub data Reply (A : Type 0) : Type 0 where
  answered : A → Reply A
  refused : ℕ → Reply A

unfoldable pub contains : List Uuid → Uuid → Bool
contains [] k = false
contains (x ∷ xs) k = if x == k then true else contains xs k

abbrev pub is_dead : DeliveryStatus → Bool
is_dead dead = true
is_dead _ = false

abbrev pub endpoint_ids : List Endpoint → List Uuid
endpoint_ids [] = []
endpoint_ids (e ∷ es) = e.id ∷ endpoint_ids es

-- A dead delivery as it is replayed.
abbrev pub revived : Delivery → Delivery
revived d = record d { status = pending; attempt_count = 0; next_attempt_at = none }

module _ (V : Services) where
  -- `_tenant_endpoint_ids` and `_owned_endpoint_ids`
  unfoldable pub owned_endpoint_ids : Uuid → World V → List Uuid
  owned_endpoint_ids tenant w =
      endpoint_ids (V.endpoints_table.select (λ e. e.tenant_id == tenant) w.endpoints)

  unfoldable pub one_or_raise : {A : Type 0} → Option A → Action (World V) A
  one_or_raise none = raise
  one_or_raise (some a) = pure a

  -- One commit of all the rows.
  unfoldable pub revive_all : List Delivery → V.deliveries_table.Rows → V.deliveries_table.Rows
  revive_all [] rows = rows
  revive_all (d ∷ ds) rows = revive_all ds (V.deliveries_table.save (revived d) rows)

  -- `enqueue_delivery` on the streams of the world.
  unfoldable pub stream_in : (stream_shards : ℕ) → Delivery → World V → World V
  stream_in stream_shards d w = record w {
    streamed =
        w.streamed ++ enqueue_delivery V.texts stream_shards d.id d.event_id d.endpoint_id ∷ [];
  }

  unfoldable pub reset_in : Uuid → World V → World V
  reset_in k w = record w { breakers = update w.breakers k (reset V.sets (w.breakers k)) }
