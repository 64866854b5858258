-- ===== src/Api/Events.antt =====
-- relay/api/routes/events.py: the ingestion of an event, once for each idempotency key, and its
-- fan-out to the endpoints. `race` is what other requests commit between the check of the key and
-- the commit, and between the rollback and the second look.
pub mod Ingest
use web_hooks.Base.{
  ℕ, Bool, true, false, ◌&&◌, ◌||◌, Option, none, some, List, [], ◌∷◌, ◌==◌, if◌then◌else◌,
}
use web_hooks.Db.{Endpoint, Event, Delivery, pending}
use web_hooks.Services.{Services, World}
use web_hooks.RetryQueue.{Text, Uuid}
use web_hooks.Worker.{is_active}
use web_hooks.Worker.Monad.{Action, pure, raise, modify, command, query, exec, ◌>>=◌, ◌>>◌}
use package.web_hooks.Api.{Reply, answered, refused, stream_in}
use package.web_hooks.Api.Dlq.{queue_if}

-- `EventCreate`
pub record Request : Type 0 where
  pub event_type : Text
  pub payload : Text
  pub idempotency_key : Option Text

abbrev pub same_text : Text → Text → Bool
same_text [] [] = true
same_text [] (d ∷ u) = false
same_text (c ∷ t) [] = false
same_text (c ∷ t) (d ∷ u) = (c == d) && same_text t u

-- A column that may be NULL equals a value only if it is not NULL.
abbrev pub equals : Option Text → Text → Bool
equals none key = false
equals (some t) key = same_text t key

abbrev pub has_text : List Text → Text → Bool
has_text [] t = false
has_text (u ∷ us) t = same_text u t || has_text us t

-- `not e.event_types or body.event_type in e.event_types`
abbrev pub subscribed : List Text → Text → Bool
subscribed [] t = true
subscribed (u ∷ us) t = has_text (u ∷ us) t

abbrev pub matching : Text → List Endpoint → List Endpoint
matching t [] = []
matching t (e ∷ es) = if subscribed e.event_types t then e ∷ matching t es else matching t es

-- What the tests for a key say of an event.
abbrev pub has_key : Uuid → Text → Event → Bool
has_key tenant key e = (e.tenant_id == tenant) && equals e.idempotency_key key

module _ (V : Services) (stream_shards : ℕ) (fresh_event : Uuid) (fresh_delivery : Uuid → Uuid)
    (race : World V → World V) where
  -- `scalar_one_or_none`: two rows raise.
  unfoldable pub at_most_one : List Event → Action (World V) (Option Event)
  at_most_one [] = pure none
  at_most_one (e ∷ []) = pure (some e)
  at_most_one (e ∷ f ∷ es) = raise

  unfoldable pub existing_by_idempotency_key : Uuid → Text → Action (World V) (Option Event)
  unfolding at_most_one
  existing_by_idempotency_key tenant key = do
    found ← query (λ w. V.events_table.select (has_key tenant key) w.events)
    at_most_one found

  abbrev pub event_of : Uuid → Request → Event
  event_of tenant body = record {
    id = fresh_event;
    tenant_id = tenant;
    event_type = body.event_type;
    payload = body.payload;
    idempotency_key = body.idempotency_key;
  }

  -- The delivery of the event to an endpoint, with the defaults of its columns.
  abbrev pub delivery_to : Endpoint → Delivery
  delivery_to e = record {
    id = fresh_delivery e.id;
    event_id = fresh_event;
    endpoint_id = e.id;
    status = pending;
    attempt_count = 0;
    next_attempt_at = none;
  }

  unfoldable pub add_deliveries : List Endpoint → V.deliveries_table.Rows → V.deliveries_table.Rows
  add_deliveries [] rows = rows
  add_deliveries (e ∷ es) rows = add_deliveries es (V.deliveries_table.save (delivery_to e) rows)

  unfoldable pub active_endpoints : Uuid → World V → List Endpoint
  active_endpoints tenant w =
      V.endpoints_table.select (λ e. (e.tenant_id == tenant) && is_active e.status) w.endpoints

  -- The unique constraint on (tenant_id, idempotency_key); NULL is never a duplicate.
  unfoldable pub conflicts : Uuid → Option Text → World V → Bool
  conflicts tenant none w = false
  conflicts tenant (some key) w = elim (V.events_table.select (has_key tenant key) w.events) [
    | [] ↦ false
    | e ∷ es ↦ true
  ]

  -- The commit of the event and its deliveries, all of it or nothing: whether it went through.
  unfoldable pub commit : Uuid → Request → List Endpoint → World V → Bool × World V
  commit tenant body endpoints w = if conflicts tenant body.idempotency_key w then (false, w) else (
    true,
    record w {
      events = V.events_table.save (event_of tenant body) w.events;
      deliveries = add_deliveries endpoints w.deliveries;
    },
  )

  -- The loop after the commit: RPUSH before XADD.
  unfoldable pub publish : List Endpoint → Action (World V) (Unit {0})
  publish [] = pure tt
  publish (e ∷ es) = do
    queue_if V stream_shards e.ordering (delivery_to e)
    command (stream_in V stream_shards (delivery_to e))
    publish es

  unfoldable pub or_internal : Option Event → Reply Uuid
  or_internal none = refused 500
  or_internal (some e) = answered e.id

  -- The handler of IntegrityError; without a key the assertion fails.
  unfoldable pub lost_race : Uuid → Option Text → Action (World V) (Reply Uuid)
  unfolding existing_by_idempotency_key or_internal
  lost_race tenant none = raise
  lost_race tenant (some key) = do
    modify race
    existing ← existing_by_idempotency_key tenant key
    pure (or_internal existing)

  unfoldable pub after_commit :
      Bool → Uuid → Request → List Endpoint → Action (World V) (Reply Uuid)
  unfolding lost_race publish
  after_commit false tenant body endpoints = lost_race tenant body.idempotency_key
  after_commit true tenant body endpoints = do publish endpoints; pure (answered fresh_event)

  unfoldable pub insert_event : Uuid → Request → Action (World V) (Reply Uuid)
  unfolding after_commit
  insert_event tenant body = do
    endpoints ← query (active_endpoints tenant)
    modify race
    committed ← exec (commit tenant body (matching body.event_type endpoints))
    after_commit committed tenant body (matching body.event_type endpoints)

  unfoldable pub unless_existing : Option Event → Uuid → Request → Action (World V) (Reply Uuid)
  unfolding insert_event
  unless_existing none tenant body = insert_event tenant body
  unless_existing (some e) tenant body = pure (answered e.id)

  unfoldable pub check_key : Uuid → Option Text → Action (World V) (Option Event)
  unfolding existing_by_idempotency_key
  check_key tenant none = pure none
  check_key tenant (some key) = existing_by_idempotency_key tenant key

  unfoldable pub ingest_event : Uuid → Request → Action (World V) (Reply Uuid)
  unfolding unless_existing check_key
  ingest_event tenant body = do
    existing ← check_key tenant body.idempotency_key
    unless_existing existing tenant body
