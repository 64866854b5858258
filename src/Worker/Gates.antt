-- ===== src/Worker/Gates.antt =====
-- relay/delivery/worker.py: `check_gates`, `deliver_with_gates` and `handle_message`.
use web_hooks.Base.{
  ℕ, Bool, true, false, not, ◌&&◌, Option, none, some, List, [], ◌∷◌, ◌++◌, ◌==◌, if◌then◌else◌,
}
use web_hooks.Db.{Tenant, Endpoint, Delivery, disabled}
use web_hooks.Services.{
  Services, World, GateReason, rate_limited, max_inflight, ordered_wait, endpoint_disabled,
  breaker_state, update,
}
use web_hooks.RetryQueue.{Uuid}
use web_hooks.RateLimit.Bucket.{take_token}
use web_hooks.RateLimit.Slots.{acquire_slot, release_slot}
use web_hooks.Breaker.{
  allow_request, record_outcome_script, trigger, Outcome, Message, should_auto_disable, Decision,
  State, allow, probe, deny,
}
use web_hooks.Ordering.{acquire_lock, release_lock, peek_head, pop_head}
use web_hooks.Worker.Monad.{
  Result, ok, raised, pure, raise, modify, exec, query, command, ◌>>=◌, ◌>>◌,
}
use web_hooks.Worker.{
  Env, Run, or_default, is_delivered, is_settled, is_active, is_ordered, find_delivery,
  find_endpoint, retry_in, process_delivery, rate_limit_retry_delay, concurrency_retry_delay,
  ordered_wait_delay, breaker_recheck_delay,
}

-- `check_gates` returns (True, None, 0.0), or (False, reason, retry_in).
pub data Gate : Type 0 where
  passed : Gate
  blocked : GateReason → ℕ → Gate

module _ (V : Services) (X : Env) where
  open X use {
    settings, now, scheduled_at, recorded_at, locked_at, unlocked_at, lock_token, slot_token,
    member,
  }

  -- `scalar_one`: the row, or NoResultFound.
  unfoldable pub scalar_one : {A : Type 0} → Option A → Run V X A
  scalar_one none = raise
  scalar_one (some a) = pure a

  unfoldable pub find_tenant : Uuid → World V → Option Tenant
  find_tenant k w = V.tenants_table.find k w.tenants

  -- The scripts of the limits and of the breaker, on the keys of the world.
  unfoldable pub ask_breaker : Uuid → World V → (Decision × State) × World V
  ask_breaker k w =
      let (b, decision, state) = allow_request V.sets now (w.breakers k) in
      ((decision, state), record w { breakers = update w.breakers k b })

  unfoldable pub spend_token : Uuid → ℕ → World V → Bool × World V
  spend_token k rate w =
      let (granted, bucket) = take_token rate now (w.buckets k) in
      (granted, record w { buckets = update w.buckets k bucket })

  unfoldable pub reserve_slot : Uuid → ℕ → World V → Option ℕ × World V
  reserve_slot k cap w =
      let (slots, token) = acquire_slot V.sets cap now slot_token (w.slots k) in
      (token, record w { slots = update w.slots k slots })

  unfoldable pub run_outcome : Uuid → Bool → World V → Outcome × World V
  run_outcome k success w =
      let (b, outcome, messages) =
        record_outcome_script V.sets recorded_at success member (w.breakers k) in
      (outcome, record w { breakers = update w.breakers k b; published = w.published ++ messages })

  -- The publication after the script, which is a call of its own.
  unfoldable pub publish_if : List Message → Run V X (Unit {0})
  publish_if [] = pure tt
  publish_if (m ∷ ms) = command (λ w. record w { published = w.published ++ m ∷ ms })

  -- `record_outcome`
  unfoldable pub note_outcome : Uuid → Bool → Run V X (Unit {0})
  unfolding run_outcome publish_if
  note_outcome k success = do
    outcome ← exec (run_outcome k success)
    publish_if (trigger V.sets recorded_at success outcome)

  unfoldable pub take_lock : Uuid → World V → Option ℕ × World V
  take_lock k w =
      let (lock, token) = acquire_lock locked_at lock_token (w.locks k) in
      (token, record w { locks = update w.locks k lock })

  unfoldable pub free_lock : Uuid → ℕ → World V → World V
  free_lock k token w = record w {
    locks = update w.locks k (release_lock unlocked_at token (w.locks k));
  }

  unfoldable pub free_slot : Uuid → ℕ → World V → World V
  free_slot k token w = record w {
    slots = update w.slots k (release_slot V.sets token (w.slots k));
  }

  -- A denied request: after 72 hours the endpoint is disabled.
  unfoldable pub denied : Endpoint → State → Run V X Gate
  denied endpoint state = do
    disable ← query (λ w. should_auto_disable V.sets now (w.breakers endpoint.id))
    if disable
        then (do
          command (λ w. record w {
            endpoints = V.endpoints_table.save (record endpoint { status = disabled }) w.endpoints;
          })
          pure (blocked endpoint_disabled breaker_recheck_delay))
        else pure (blocked (breaker_state state) breaker_recheck_delay)

  unfoldable pub rate_gate : Endpoint → Run V X Gate
  unfolding scalar_one
  rate_gate endpoint = do
    found ← query (find_tenant endpoint.tenant_id)
    tenant ← scalar_one found
    granted ← exec (
        spend_token tenant.id (or_default tenant.rate_per_sec settings.default_tenant_rate_per_sec))
    pure (if granted then passed else blocked rate_limited rate_limit_retry_delay)

  unfoldable pub by_decision : Endpoint → Decision → State → Run V X Gate
  unfolding denied rate_gate
  by_decision endpoint deny state = denied endpoint state
  by_decision endpoint allow state = rate_gate endpoint
  by_decision endpoint probe state = rate_gate endpoint

  unfoldable pub check_gates : Endpoint → Run V X Gate
  unfolding by_decision
  check_gates endpoint = do
    asked ← exec (ask_breaker endpoint.id)
    by_decision endpoint asked.0 asked.1

  -- Count the gate, and put the delivery back on the retry queue without an attempt; the entry may
  -- be acknowledged.
  unfoldable pub defer_delivery : Delivery → GateReason → ℕ → Run V X Bool
  defer_delivery d reason delay = do
    modify (λ w. record w { gated = w.gated ++ reason ∷ [] })
    command (retry_in V X d delay)
    pure true

  -- `if endpoint.ordering == "ordered" and delivery.status in {…}: await pop_head(…)`
  unfoldable pub advance_queue : Endpoint → Delivery → Run V X (Unit {0})
  advance_queue endpoint row =
      if is_ordered endpoint.ordering && is_settled row.status
      then command (λ w. record w {
        queues = update w.queues endpoint.id (pop_head V.lists row.id (w.queues endpoint.id));
      })
      else pure tt

  -- What is done while the slot is held; `session.refresh` raises if the row is gone.
  unfoldable pub in_slot : Delivery → Endpoint → Run V X Bool
  unfolding scalar_one advance_queue note_outcome
  in_slot d endpoint = do
    should_ack ← process_delivery V X d.id
    found ← query (find_delivery V X d.id)
    row ← scalar_one found
    note_outcome endpoint.id (is_delivered row.status)
    advance_queue endpoint row
    pure should_ack

  -- The body of the `try`, with the value of `slot_token` at its end.
  unfoldable pub in_acquired :
      Delivery → Endpoint → Result (Option ℕ) → World V → (Result Bool × Option ℕ) × World V
  unfolding in_slot defer_delivery
  in_acquired d endpoint raised w = ((raised, none), w)
  in_acquired d endpoint (ok none) w =
      let (r, w') = defer_delivery d max_inflight concurrency_retry_delay w in ((r, none), w')
  in_acquired d endpoint (ok (some token)) w =
      let (r, w') = in_slot d endpoint w in ((r, some token), w')

  unfoldable pub acquire : Endpoint → Run V X (Option ℕ)
  unfolding scalar_one
  acquire endpoint = do
    found ← query (find_tenant endpoint.tenant_id)
    tenant ← scalar_one found
    exec (
        reserve_slot tenant.id
          (or_default tenant.max_inflight settings.default_tenant_max_inflight))

  unfoldable pub in_gates :
      Delivery → Endpoint → Result Gate → World V → (Result Bool × Option ℕ) × World V
  unfolding in_acquired acquire defer_delivery
  in_gates d endpoint raised w = ((raised, none), w)
  in_gates d endpoint (ok (blocked reason retry_in)) w =
      let (r, w') = defer_delivery d reason retry_in w in ((r, none), w')
  in_gates d endpoint (ok passed) w =
      let (slot, w') = acquire endpoint w in in_acquired d endpoint slot w'

  unfoldable pub gated_body : Delivery → Endpoint → World V → (Result Bool × Option ℕ) × World V
  unfolding check_gates in_gates
  gated_body d endpoint w = let (gate, w') = check_gates endpoint w in in_gates d endpoint gate w'

  unfoldable pub release_if : (ℕ → World V → World V) → Option ℕ → Run V X (Unit {0})
  release_if free none = pure tt
  release_if free (some token) = command (free token)

  -- `finally`: the slot, then the lock; an error there replaces what the body returned.
  unfoldable pub cleanup : Endpoint → Option ℕ → Option ℕ → Run V X (Unit {0})
  unfolding release_if
  cleanup endpoint slot lock = do
    release_if (free_slot endpoint.tenant_id) slot
    release_if (free_lock endpoint.id) lock

  abbrev pub outcome_of : Result (Unit {0}) → Result Bool → Result Bool
  outcome_of raised r = raised
  outcome_of (ok _) r = r

  unfoldable pub deliver_locked : Delivery → Endpoint → Option ℕ → Run V X Bool
  unfolding gated_body cleanup
  deliver_locked d endpoint lock w =
      let ((r, slot), w') = gated_body d endpoint w in
      let (c, last) = cleanup endpoint slot lock w' in (outcome_of c r, last)

  -- `head is not None and head != delivery.id`
  abbrev pub not_our_turn : Option ℕ → Uuid → Bool
  not_our_turn none k = false
  not_our_turn (some head) k = not (head == k)

  unfoldable pub deliver_holding : Delivery → Endpoint → Option ℕ → Run V X Bool
  unfolding deliver_locked defer_delivery
  deliver_holding d endpoint none = defer_delivery d ordered_wait ordered_wait_delay
  deliver_holding d endpoint (some token) = do
    head ← query (λ w. peek_head V.lists (w.queues endpoint.id))
    if not_our_turn head d.id
        then (do
          command (free_lock endpoint.id token)
          defer_delivery d ordered_wait ordered_wait_delay)
        else deliver_locked d endpoint (some token)

  unfoldable pub deliver_to : Delivery → Option Endpoint → Run V X Bool
  unfolding deliver_holding
  deliver_to d none = pure true
  deliver_to d (some endpoint) =
      if not (is_active endpoint.status)
      then pure true
      else if is_ordered endpoint.ordering
      then (do lock ← exec (take_lock endpoint.id); deliver_holding d endpoint lock)
      else deliver_locked d endpoint none

  unfoldable pub deliver_found : Option Delivery → Run V X Bool
  unfolding deliver_to
  deliver_found none = pure true
  deliver_found (some d) =
      if is_settled d.status
      then pure true
      else do endpoint ← query (find_endpoint V X d.endpoint_id); deliver_to d endpoint

  unfoldable pub deliver_with_gates : Uuid → Run V X Bool
  unfolding deliver_found
  deliver_with_gates delivery_id = do
    found ← query (find_delivery V X delivery_id)
    deliver_found found

  abbrev pub acknowledge : ℕ → Result Bool → Run V X (Unit {0})
  acknowledge message_id raised = pure tt
  acknowledge message_id (ok true) = command (λ w. record w { acked = w.acked ++ message_id ∷ [] })
  acknowledge message_id (ok false) = pure tt

  -- An exception of the delivery is caught, and leaves the entry in the pending list; XACK follows
  -- only a delivery that returned true.
  unfoldable pub handle_message : (message_id : ℕ) (delivery_id : Uuid) → Run V X (Unit {0})
  unfolding deliver_with_gates
  handle_message message_id delivery_id w =
      let (r, w') = deliver_with_gates delivery_id w in acknowledge message_id r w'
