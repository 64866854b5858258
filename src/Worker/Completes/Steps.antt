-- ===== src/Worker/Completes/Steps.antt =====
-- Where no call of a service fails: the attempt behind the gates, the rows the gates read, the
-- deferral, and the circuit that is open.
use web_hooks.Base.{ℕ, ◌≢◌, refl, arith, true, Option, none, some}
use web_hooks.Db.{Tenant, Endpoint, Event, Delivery}
use web_hooks.Services.{Services, GateReason}
use web_hooks.RetryQueue.{Uuid}
use web_hooks.Retry.{
  parsed_nan, not_a_number, parse_retry_after, next_delay_seconds, explicit_delay, scheduled_delay,
}
use web_hooks.Sender.{AttemptResult, send_delivery}
use web_hooks.Breaker.{State}
use web_hooks.Worker.Monad.{query, ◌>>=◌}
use web_hooks.Worker.{
  Env, Run, is_delivered, find_delivery, retry_in, settled_row, begun, post_of, schedule_if,
  conclude, attempt, attempt_if, process_found, process_delivery,
}
use web_hooks.Worker.Gates.{scalar_one, find_tenant, denied, defer_delivery}
use web_hooks.Worker.Completes.Finishes.{
  Finishes-bind, Finishes-pure, Finishes-modify, Finishes-query, Finishes-command, Finishes-if,
  saved-IsReady, Finished-query, Finished-scalar_one, Finishes,
}

module _ (V : Services) (X : Env) (tenant_id delivery_id : Uuid) where
  Finishes-schedule_if :
      (row : Delivery) (delay : Option ℕ)
      → Finishes V X tenant_id delivery_id (schedule_if V X row delay)
  unfolding schedule_if retry_in
  Finishes-schedule_if row none = Finishes-pure V X tenant_id delivery_id tt
  Finishes-schedule_if row (some delay) =
      Finishes-command V X tenant_id delivery_id _ (λ w ready. ready)

module _ (V : Services) (X : Env) (numbers : (h : X.Header) → X.parse h ≢ parsed_nan)
    (tenant_id delivery_id : Uuid) where
  parse_retry_after_number :
      (header : Option X.Header) → parse_retry_after X.parse header ≢ some not_a_number
  unfolding parse_retry_after
  parse_retry_after_number none e = cc
  parse_retry_after_number (some h) e = ground (arith, numbers h)

  settled_row-some : (d : Delivery) (r : AttemptResult X.Header) → settled_row V X d r ≢ none
  unfolding settled_row next_delay_seconds explicit_delay scheduled_delay
  settled_row-some d r e = ground (arith, parse_retry_after_number r.retry_after)

  Finishes-conclude :
      (d : Delivery) (endpoint : Endpoint) (r : AttemptResult X.Header)
      (o : Option (Delivery × Option ℕ))
      → o ≢ none
      → Finishes V X tenant_id delivery_id (conclude V X d endpoint r o)
  unfolding conclude
  Finishes-conclude d endpoint r none h = absurd (h refl)
  Finishes-conclude d endpoint r (some (row, delay)) h =
      Finishes-bind V X tenant_id delivery_id _ _
        (Finishes-command V X tenant_id delivery_id _ (saved-IsReady V X tenant_id delivery_id _))
        (λ _.
          Finishes-bind V X tenant_id delivery_id _ _
            (Finishes-schedule_if V X tenant_id delivery_id _ _)
            (λ _.
              Finishes-bind V X tenant_id delivery_id _ _
                (Finishes-modify V X tenant_id delivery_id _ (λ w ready. ready))
                (λ _. Finishes-pure V X tenant_id delivery_id true)))

  Finishes-attempt :
      (d : Delivery) (endpoint : Endpoint) (event : Event)
      → Finishes V X tenant_id delivery_id (attempt V X d endpoint event)
  unfolding attempt
  Finishes-attempt d endpoint event =
      let result = send_delivery (X.client (post_of V X d endpoint event)) X.latency in
      Finishes-bind V X tenant_id delivery_id _ _
        (Finishes-command V X tenant_id delivery_id _ (saved-IsReady V X tenant_id delivery_id _))
        (λ _.
          Finishes-bind V X tenant_id delivery_id _ _
            (Finishes-modify V X tenant_id delivery_id _ (λ w ready. ready))
            (λ _. Finishes-conclude d endpoint result _ (settled_row-some (begun V X d) result)))

  Finishes-attempt_if :
      (d : Delivery) (endpoint : Option Endpoint) (event : Option Event)
      → Finishes V X tenant_id delivery_id (attempt_if V X d endpoint event)
  unfolding attempt_if
  Finishes-attempt_if d none event = Finishes-pure V X tenant_id delivery_id true
  Finishes-attempt_if d (some endpoint) none = Finishes-pure V X tenant_id delivery_id true
  Finishes-attempt_if d (some endpoint) (some event) = Finishes-attempt d endpoint event

  Finishes-process_found :
      (found : Option Delivery) → Finishes V X tenant_id delivery_id (process_found V X found)
  unfolding process_found
  Finishes-process_found none = Finishes-pure V X tenant_id delivery_id true
  Finishes-process_found (some d) =
      Finishes-if V X tenant_id delivery_id (is_delivered d.status) _ _
        (Finishes-pure V X tenant_id delivery_id true)
        (Finishes-bind V X tenant_id delivery_id _ _ (Finishes-query V X tenant_id delivery_id _)
          (λ endpoint.
            Finishes-bind V X tenant_id delivery_id _ _ (Finishes-query V X tenant_id delivery_id _)
              (λ event. Finishes-attempt_if d endpoint event)))

  pub Finishes-process_delivery :
      (j : Uuid) → Finishes V X tenant_id delivery_id (process_delivery V X j)
  unfolding process_delivery
  Finishes-process_delivery j =
      Finishes-bind V X tenant_id delivery_id _ _ (Finishes-query V X tenant_id delivery_id _)
        (λ found. Finishes-process_found found)

module _ (V : Services) (X : Env) (tenant_id delivery_id : Uuid) where
  pub Finishes-tenant :
      {B : Type 0} (g : Tenant → Run V X B)
      → ((t : Tenant) → Finishes V X tenant_id delivery_id (g t))
      → Finishes V X tenant_id delivery_id
          (query (find_tenant V X tenant_id) >>= λ found. scalar_one V X found >>= g)
  unfolding find_tenant
  Finishes-tenant g h w ready =
      let (t, e) = ready.1 in
      Finished-query V X tenant_id delivery_id _ _ w ready.0
        (Finished-scalar_one V X tenant_id delivery_id _ t g w e (h t w ready))

  pub Finishes-refreshed :
      {B : Type 0} (g : Delivery → Run V X B)
      → ((d : Delivery) → Finishes V X tenant_id delivery_id (g d))
      → Finishes V X tenant_id delivery_id
          (query (find_delivery V X delivery_id) >>= λ found. scalar_one V X found >>= g)
  Finishes-refreshed g h w ready =
      let (d, e) = ready.2 in
      Finished-query V X tenant_id delivery_id _ _ w ready.0
        (Finished-scalar_one V X tenant_id delivery_id _ d g w e (h d w ready))

  pub Finishes-defer_delivery :
      (d : Delivery) (reason : GateReason) (delay : ℕ)
      → Finishes V X tenant_id delivery_id (defer_delivery V X d reason delay)
  unfolding defer_delivery retry_in
  Finishes-defer_delivery d reason delay =
      Finishes-bind V X tenant_id delivery_id _ _
        (Finishes-modify V X tenant_id delivery_id _ (λ w ready. ready))
        (λ _.
          Finishes-bind V X tenant_id delivery_id _ _
            (Finishes-command V X tenant_id delivery_id _ (λ w ready. ready))
            (λ _. Finishes-pure V X tenant_id delivery_id true))

  pub Finishes-denied :
      (endpoint : Endpoint) (state : State)
      → Finishes V X tenant_id delivery_id (denied V X endpoint state)
  unfolding denied
  Finishes-denied endpoint state =
      Finishes-bind V X tenant_id delivery_id _ _ (Finishes-query V X tenant_id delivery_id _)
        (λ disable.
          Finishes-if V X tenant_id delivery_id disable _ _
            (Finishes-bind V X tenant_id delivery_id _ _
              (Finishes-command V X tenant_id delivery_id _ (λ w ready. ready))
              (λ _. Finishes-pure V X tenant_id delivery_id _))
            (Finishes-pure V X tenant_id delivery_id _))
