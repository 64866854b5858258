-- ===== src/Api/Dlq.antt =====
-- relay/api/routes/dlq.py: the replay of dead deliveries.
pub mod Replay
pub mod Underway
use web_hooks.Base.{ℕ, Bool, true, ◌&&◌, List, [], ◌∷◌, ◌==◌, if◌then◌else◌}
use web_hooks.Db.{Delivery, DeliveryOrder, ordered, unordered}
use web_hooks.Services.{Services, World, update}
use web_hooks.RetryQueue.{Uuid, remove_from_retry_queue}
use web_hooks.Ordering.{enqueue_ordered}
use web_hooks.Worker.Monad.{Action, pure, command, query, ◌>>=◌, ◌>>◌}
use package.web_hooks.Api.{
  Reply, answered, refused, contains, is_dead, owned_endpoint_ids, one_or_raise, revive_all,
  stream_in, reset_in,
}

-- `if body.delivery_ids: query = query.where(…)`
abbrev pub wanted : List Uuid → Uuid → Bool
wanted [] k = true
wanted (x ∷ xs) k = contains (x ∷ xs) k

abbrev pub delivery_ids : List Delivery → List Uuid
delivery_ids [] = []
delivery_ids (d ∷ ds) = d.id ∷ delivery_ids ds

module _ (V : Services) (stream_shards : ℕ) where
  -- The rows that the query selects.
  unfoldable pub replayable : Uuid → List Uuid → World V → List Delivery
  replayable endpoint_id ids w =
      V.deliveries_table.select
        (λ d. (d.endpoint_id == endpoint_id) && (is_dead d.status && wanted ids d.id)) w.deliveries

  unfoldable pub forget_retry : Delivery → World V → World V
  forget_retry d w = record w {
    retries =
        remove_from_retry_queue V.texts V.text_sets stream_shards d.id d.event_id d.endpoint_id
          w.retries;
  }

  unfoldable pub queue_in : Delivery → World V → World V
  queue_in d w = record w {
    queues = update w.queues d.endpoint_id (enqueue_ordered V.lists d.id (w.queues d.endpoint_id));
  }

  unfoldable pub queue_if : DeliveryOrder → Delivery → Action (World V) (Unit {0})
  queue_if ordered d = command (queue_in d)
  queue_if unordered d = pure tt

  -- The loop of `replay`, over the rows that were dead.
  unfoldable pub requeue : DeliveryOrder → List Delivery → Action (World V) (Unit {0})
  requeue ordering [] = pure tt
  requeue ordering (d ∷ ds) = do
    command (forget_retry d)
    queue_if ordering d
    command (stream_in V stream_shards d)
    requeue ordering ds

  unfoldable pub reset_if : List Delivery → Uuid → Action (World V) (Unit {0})
  reset_if [] endpoint_id = pure tt
  reset_if (d ∷ ds) endpoint_id = command (reset_in V endpoint_id)

  unfoldable pub replay_owned : Uuid → List Uuid → Action (World V) (Reply (List Uuid))
  unfolding requeue reset_if
  replay_owned endpoint_id ids = do
    found ← query (λ w. V.endpoints_table.find endpoint_id w.endpoints)
    endpoint ← one_or_raise V found
    deliveries ← query (replayable endpoint_id ids)
    command (λ w. record w { deliveries = revive_all V deliveries w.deliveries })
    reset_if deliveries endpoint_id
    requeue endpoint.ordering deliveries
    pure (answered (delivery_ids deliveries))

  unfoldable pub replay : Uuid → Uuid → List Uuid → Action (World V) (Reply (List Uuid))
  unfolding replay_owned
  replay tenant endpoint_id ids = do
    owned ← query (owned_endpoint_ids V tenant)
    if contains owned endpoint_id then replay_owned endpoint_id ids else pure (refused 404)
