-- ===== src/Worker/Completes/Gated.antt =====
-- Where no call of a service fails, a whole delivery returns, through all its gates.
use web_hooks.Base.{
  ℕ, ◌≡◌, ◌≢◌, refl, Bool, true, Option, none, some, List, [], ◌∷◌, Bool-cases, inl, inr,
}
use web_hooks.Db.{Tenant, Endpoint, Delivery}
use web_hooks.Services.{Services, World}
use web_hooks.RetryQueue.{Uuid}
use web_hooks.Retry.{parsed_nan}
use web_hooks.Breaker.{Message, Decision, State, allow, probe, deny}
use web_hooks.Worker.Monad.{Result, ok, raised}
use web_hooks.Worker.{Env, is_delivered, is_settled, find_delivery, find_endpoint}
use web_hooks.Worker.Gates.{
  Gate, passed, blocked, ask_breaker, spend_token, reserve_slot, run_outcome, publish_if,
  note_outcome, take_lock, free_lock, free_slot, rate_gate, by_decision, check_gates, advance_queue,
  in_slot, in_acquired, acquire, in_gates, gated_body, release_if, cleanup, outcome_of,
  deliver_locked, deliver_holding, deliver_to, deliver_found, deliver_with_gates,
}
use web_hooks.Worker.Completes.Finishes.{
  IsOk, Finishes-bind, Finishes-pure, Finishes-exec, Finishes-query, Finishes-command, Finishes-if,
  Finished-query, IsReady, Finished, Finishes,
}
use web_hooks.Worker.Completes.Steps.{
  Finishes-process_delivery, Finishes-tenant, Finishes-refreshed, Finishes-defer_delivery,
  Finishes-denied,
}

ok_value : {A : Type 0} (r : Result A) → IsOk r → (a : A) × (r ≡ ok a)
ok_value (ok a) h = (a, refl)
ok_value raised h = elim h [ ]

module _ (V : Services) (X : Env) (numbers : (h : X.Header) → X.parse h ≢ parsed_nan)
    (tenant_id delivery_id : Uuid) where
  module _ (endpoint : Endpoint) (own : endpoint.tenant_id ≡ tenant_id) where
    Finishes-rate_gate : Finishes V X tenant_id delivery_id (rate_gate V X endpoint)
    unfolding rate_gate spend_token
    Finishes-rate_gate = rw own (
        Finishes-tenant V X tenant_id delivery_id _ (λ t.
          Finishes-bind V X tenant_id delivery_id _ _
            (Finishes-exec V X tenant_id delivery_id _ (λ w ready. ready))
            (λ granted. Finishes-pure V X tenant_id delivery_id _)))

    Finishes-by_decision :
        (decision : Decision) (state : State)
        → Finishes V X tenant_id delivery_id (by_decision V X endpoint decision state)
    unfolding by_decision
    Finishes-by_decision deny state = Finishes-denied V X tenant_id delivery_id endpoint state
    Finishes-by_decision allow state = Finishes-rate_gate
    Finishes-by_decision probe state = Finishes-rate_gate

    Finishes-check_gates : Finishes V X tenant_id delivery_id (check_gates V X endpoint)
    unfolding check_gates ask_breaker
    Finishes-check_gates =
        Finishes-bind V X tenant_id delivery_id _ _
          (Finishes-exec V X tenant_id delivery_id _ (λ w ready. ready))
          (λ asked. Finishes-by_decision asked.0 asked.1)

    Finishes-acquire : Finishes V X tenant_id delivery_id (acquire V X endpoint)
    unfolding acquire reserve_slot
    Finishes-acquire = rw own (
        Finishes-tenant V X tenant_id delivery_id _
          (λ t. Finishes-exec V X tenant_id delivery_id _ (λ w ready. ready)))

    Finishes-advance_queue :
        (row : Delivery) → Finishes V X tenant_id delivery_id (advance_queue V X endpoint row)
    unfolding advance_queue
    Finishes-advance_queue row =
        Finishes-if V X tenant_id delivery_id _ _ _
          (Finishes-command V X tenant_id delivery_id _ (λ w ready. ready))
          (Finishes-pure V X tenant_id delivery_id tt)

    Finishes-publish_if :
        (ms : List Message) → Finishes V X tenant_id delivery_id (publish_if V X ms)
    unfolding publish_if
    Finishes-publish_if [] = Finishes-pure V X tenant_id delivery_id tt
    Finishes-publish_if (m ∷ ms) = Finishes-command V X tenant_id delivery_id _ (λ w ready. ready)

    Finishes-note_outcome :
        (success : Bool) → Finishes V X tenant_id delivery_id (note_outcome V X endpoint.id success)
    unfolding note_outcome run_outcome
    Finishes-note_outcome success =
        Finishes-bind V X tenant_id delivery_id _ _
          (Finishes-exec V X tenant_id delivery_id _ (λ w ready. ready))
          (λ outcome. Finishes-publish_if _)

    Finishes-in_slot :
        (d : Delivery)
        → d.id ≡ delivery_id
        → Finishes V X tenant_id delivery_id (in_slot V X d endpoint)
    unfolding in_slot
    Finishes-in_slot d e =
        Finishes-bind V X tenant_id delivery_id _ _
          (Finishes-process_delivery V X numbers tenant_id delivery_id _)
          (λ should_ack. rw e (
            Finishes-refreshed V X tenant_id delivery_id _ (λ row.
              Finishes-bind V X tenant_id delivery_id _ _
                (Finishes-note_outcome (is_delivered row.status))
                (λ _.
                  Finishes-bind V X tenant_id delivery_id _ _ (Finishes-advance_queue row)
                    (λ _. Finishes-pure V X tenant_id delivery_id _)))))

    -- What the body of the `try` gives: no exception, and the rows are still there.
    abbrev BodyFinished : (Result Bool × Option ℕ) × World V → Type 0
    BodyFinished r = IsOk r.0.0 × IsReady V X tenant_id delivery_id r.1

    in_acquired-finishes :
        (d : Delivery) (slot : Result (Option ℕ)) (w : World V)
        → d.id ≡ delivery_id
        → Finished V X tenant_id delivery_id (slot, w)
        → BodyFinished (in_acquired V X d endpoint slot w)
    unfolding in_acquired
    in_acquired-finishes d raised w e h = elim h.0 [ ]
    in_acquired-finishes d (ok none) w e h =
        Finishes-defer_delivery V X tenant_id delivery_id d _ _ w h.1
    in_acquired-finishes d (ok (some token)) w e h = Finishes-in_slot d e w h.1

    in_gates-finishes :
        (d : Delivery) (gate : Result Gate) (w : World V)
        → d.id ≡ delivery_id
        → Finished V X tenant_id delivery_id (gate, w)
        → BodyFinished (in_gates V X d endpoint gate w)
    unfolding in_gates
    in_gates-finishes d raised w e h = elim h.0 [ ]
    in_gates-finishes d (ok (blocked reason delay)) w e h =
        Finishes-defer_delivery V X tenant_id delivery_id d _ _ w h.1
    in_gates-finishes d (ok passed) w e h = in_acquired-finishes d _ _ e (Finishes-acquire w h.1)

    gated_body-finishes :
        (d : Delivery) (w : World V)
        → d.id ≡ delivery_id
        → IsReady V X tenant_id delivery_id w
        → BodyFinished (gated_body V X d endpoint w)
    unfolding gated_body
    gated_body-finishes d w e ready = in_gates-finishes d _ _ e (Finishes-check_gates w ready)

    Finishes-release_if :
        (free : ℕ → World V → World V) (o : Option ℕ)
        → ((token : ℕ) (w : World V)
            → IsReady V X tenant_id delivery_id w
            → IsReady V X tenant_id delivery_id (free token w))
        → Finishes V X tenant_id delivery_id (release_if V X free o)
    unfolding release_if
    Finishes-release_if free none h = Finishes-pure V X tenant_id delivery_id tt
    Finishes-release_if free (some token) h = Finishes-command V X tenant_id delivery_id _ (h token)

    Finishes-cleanup :
        (slot lock : Option ℕ) → Finishes V X tenant_id delivery_id (cleanup V X endpoint slot lock)
    unfolding cleanup free_slot free_lock
    Finishes-cleanup slot lock =
        Finishes-bind V X tenant_id delivery_id _ _
          (Finishes-release_if _ slot (λ token w ready. ready))
          (λ _. Finishes-release_if _ lock (λ token w ready. ready))

    outcome-IsOk :
        (c : Result (Unit {0})) (r : Result Bool) → IsOk c → IsOk r → IsOk (outcome_of V X c r)
    outcome-IsOk (ok u) r h k = k
    outcome-IsOk raised r h k = elim h [ ]

    Finishes-deliver_locked :
        (d : Delivery) (lock : Option ℕ)
        → d.id ≡ delivery_id
        → Finishes V X tenant_id delivery_id (deliver_locked V X d endpoint lock)
    unfolding deliver_locked
    Finishes-deliver_locked d lock e w ready =
        let body = gated_body V X d endpoint w in
        let (fine, ready') = gated_body-finishes d w e ready in
        let (clean, last) = Finishes-cleanup body.0.1 lock body.1 ready' in
        (outcome-IsOk (cleanup V X endpoint body.0.1 lock body.1).0 body.0.0 clean fine, last)

    Finishes-deliver_holding :
        (d : Delivery) (lock : Option ℕ)
        → d.id ≡ delivery_id
        → Finishes V X tenant_id delivery_id (deliver_holding V X d endpoint lock)
    unfolding deliver_holding free_lock
    Finishes-deliver_holding d none e = Finishes-defer_delivery V X tenant_id delivery_id d _ _
    Finishes-deliver_holding d (some token) e =
        Finishes-bind V X tenant_id delivery_id _ _ (Finishes-query V X tenant_id delivery_id _)
          (λ head.
            Finishes-if V X tenant_id delivery_id _ _ _
              (Finishes-bind V X tenant_id delivery_id _ _
                (Finishes-command V X tenant_id delivery_id _ (λ w ready. ready))
                (λ _. Finishes-defer_delivery V X tenant_id delivery_id d _ _))
              (Finishes-deliver_locked d (some token) e))

    Finishes-deliver_to :
        (d : Delivery)
        → d.id ≡ delivery_id
        → Finishes V X tenant_id delivery_id (deliver_to V X d (some endpoint))
    unfolding deliver_to take_lock
    Finishes-deliver_to d e =
        Finishes-if V X tenant_id delivery_id _ _ _ (Finishes-pure V X tenant_id delivery_id true) (
          Finishes-if V X tenant_id delivery_id _ _ _
            (Finishes-bind V X tenant_id delivery_id _ _
              (Finishes-exec V X tenant_id delivery_id _ (λ w ready. ready))
              (λ lock. Finishes-deliver_holding d lock e))
            (Finishes-deliver_locked d none e))

module _ (V : Services) (X : Env) where
  -- Where no call of a service fails, no header Retry-After reads as nan, and the delivery, its
  -- endpoint and the endpoint's tenant are on record, `deliver_with_gates` returns: whatever the
  -- gates decide, whatever the receiver answers otherwise, and whatever the state of the keys is, it
  -- raises nothing.
  pub deliver_with_gates_completes :
      (d : Delivery) (endpoint : Endpoint) (tenant : Tenant) (w : World V)
      → ((h : X.Header) → X.parse h ≢ parsed_nan)
      → w.faults ≡ []
      → find_delivery V X d.id w ≡ some d
      → find_endpoint V X d.endpoint_id w ≡ some endpoint
      → V.tenants_table.find endpoint.tenant_id w.tenants ≡ some tenant
      → (ack : Bool) × ((deliver_with_gates V X d.id w).0 ≡ ok ack)
  unfolding deliver_with_gates deliver_found
  deliver_with_gates_completes d endpoint tenant w numbers quiet there e t =
      ok_value _ (completes).0
    where
      ready : IsReady V X endpoint.tenant_id d.id w
      ready = (quiet, (tenant, t), (d, there))

      Done : Result Bool × World V → Type 0
      Done r = Finished V X endpoint.tenant_id d.id r

      found : Done (deliver_found V X (some d) w)
      found = elim (Bool-cases (is_settled d.status)) [
        | inl settled ↦ rw settled (Finishes-pure V X endpoint.tenant_id d.id true w ready)
        | inr open_ ↦ rw open_ (
            Finished-query V X endpoint.tenant_id d.id _ _ w quiet (
              rw e (
                Finishes-deliver_to V X numbers endpoint.tenant_id d.id endpoint refl d refl w
                  ready)))
      ]

      completes : Done (deliver_with_gates V X d.id w)
      completes = Finished-query V X endpoint.tenant_id d.id _ _ w quiet (rw there found)
