-- ===== src/Worker/Safety/Acknowledged.antt =====
-- A whole run of `deliver_with_gates`, through every gate and the `finally`, and `handle_message`.
use web_hooks.Base.{
  ℕ, ◌≡◌, refl, Bool, true, false, ◌⊎◌, inl, inr, Option, none, some, Bool-cases, arith,
}
use web_hooks.Db.{Endpoint, Event, Delivery}
use web_hooks.Services.{Services, World, max_inflight, ordered_wait}
use web_hooks.Worker.Monad.{
  Result, ok, raised, Returns, Returns-bind, Returns-command, Returns-query, Returns-exec,
  Returns-pure,
}
use web_hooks.Worker.{
  Env, is_settled, is_delivered, is_active, is_ordered, concurrency_retry_delay, ordered_wait_delay,
}
use web_hooks.Worker.Frame.{Same, check_gates-Same, acquire-Same, cleanup-Same}
use web_hooks.Worker.Safety.{
  IsSafe, IsReady, Safely, IsSafe-Same, IsReady-Same, defer_delivery-Safe, in_slot-Safe,
}
use web_hooks.Worker.Gates.{
  Gate, passed, blocked, take_lock, free_lock, in_acquired, in_gates, gated_body, acquire, cleanup,
  check_gates, outcome_of, deliver_locked, not_our_turn, deliver_holding, deliver_to, deliver_found,
  deliver_with_gates, acknowledge, handle_message,
}
use web_hooks.Ordering.{peek_head}

-- The outcome of the body without its slot token.
abbrev body_outcome : {V : Services} → (Result Bool × Option ℕ) × World V → Result Bool × World V
body_outcome ((r, slot), w) = (r, w)

module _ (V : Services) (X : Env) (d : Delivery) (endpoint : Endpoint) (event : Event)
    (unsettled : is_settled d.status ≡ false) where
  not_delivered : is_delivered d.status ≡ false
  not_delivered = ground (arith, unsettled)

  in_acquired-Safe :
      (w : World V) (r : Result (Option ℕ) × World V)
      → IsReady V X d endpoint event w
      → Returns (λ slot w'. Same w w' × (w'.endpoints ≡ w.endpoints)) (λ w'. Same w w') r
      → Safely V X d endpoint event (body_outcome (in_acquired V X d endpoint r.0 r.1))
  unfolding in_acquired
  in_acquired-Safe w (raised, v) ready h = tt
  in_acquired-Safe w (ok none, v) ready h =
      defer_delivery-Safe V X d endpoint event max_inflight concurrency_retry_delay v
        (IsReady-Same V X d endpoint event w v h.0 h.1 ready).0
  in_acquired-Safe w (ok (some token), v) ready h =
      in_slot-Safe V X d endpoint event v (IsReady-Same V X d endpoint event w v h.0 h.1 ready)
        not_delivered

  in_gates-Safe :
      (w : World V) (r : Result Gate × World V)
      → IsReady V X d endpoint event w
      → Returns (λ g w'. Same w w' × (g ≡ passed → w'.endpoints ≡ w.endpoints)) (λ w'. Same w w') r
      → Safely V X d endpoint event (body_outcome (in_gates V X d endpoint r.0 r.1))
  unfolding in_gates
  in_gates-Safe w (raised, v) ready h = tt
  in_gates-Safe w (ok (blocked reason delay), v) ready h =
      defer_delivery-Safe V X d endpoint event reason delay v (rw h.0.0.0 ready.0)
  in_gates-Safe w (ok passed, v) ready h =
      in_acquired-Safe v (acquire V X endpoint v)
        (IsReady-Same V X d endpoint event w v h.0 (h.1 refl) ready)
        (acquire-Same V X endpoint v v ((refl, refl, refl, refl), refl) refl)

  gated_body-Safe :
      (w : World V)
      → IsReady V X d endpoint event w
      → Safely V X d endpoint event (body_outcome (gated_body V X d endpoint w))
  unfolding gated_body
  gated_body-Safe w ready =
      in_gates-Safe w (check_gates V X endpoint w) ready
        (check_gates-Same V X endpoint w w ((refl, refl, refl, refl), refl) refl)

  -- The `finally` either raises or leaves what the body returned.
  outcome-Safe :
      (r : Result Bool × World V) (c : Result (Unit {0}) × World V)
      → Safely V X d endpoint event r
      → Returns (λ a w'. Same r.1 w') (λ w'. Same r.1 w') c
      → Safely V X d endpoint event (outcome_of V X c.0 r.0, c.1)
  outcome-Safe r (raised, v) h k = tt
  outcome-Safe (raised, w) (ok _, v) h k = tt
  outcome-Safe (ok b, w) (ok _, v) h k = IsSafe-Same V X d endpoint event w v k h

  deliver_locked-Safe :
      (lock : Option ℕ) (w : World V)
      → IsReady V X d endpoint event w
      → Safely V X d endpoint event (deliver_locked V X d endpoint lock w)
  unfolding deliver_locked
  deliver_locked-Safe lock w ready =
      let body = gated_body V X d endpoint w in
      outcome-Safe (body.0.0, body.1) (cleanup V X endpoint body.0.1 lock body.1)
        (gated_body-Safe w ready)
        (cleanup-Same V X endpoint body.0.1 lock body.1 body.1 ((refl, refl, refl, refl), refl))

  deliver_holding-Safe :
      (lock : Option ℕ) (w : World V)
      → IsReady V X d endpoint event w
      → Safely V X d endpoint event (deliver_holding V X d endpoint lock w)
  unfolding deliver_holding free_lock
  deliver_holding-Safe none w ready =
      defer_delivery-Safe V X d endpoint event ordered_wait ordered_wait_delay w ready.0
  deliver_holding-Safe (some token) w ready = Returns-bind _ _ _ _ w (
      Returns-query _ _ _ w
        (λ fs.
          elim (Bool-cases (not_our_turn V X (peek_head V.lists (w.queues endpoint.id)) d.id)) [
            | inl e ↦ rw e (
                Returns-bind _ _ _ _ _ (
                  Returns-command _ _ _ _
                    (λ gs.
                      defer_delivery-Safe V X d endpoint event ordered_wait ordered_wait_delay _
                        ready.0)
                    (λ gs. tt)))
            | inr e ↦ rw e (deliver_locked-Safe (some token) _ ready)
          ])
        (λ fs. tt))

  deliver_to-Safe :
      (w : World V)
      → IsReady V X d endpoint event w
      → is_active endpoint.status ≡ true
      → Safely V X d endpoint event (deliver_to V X d (some endpoint) w)
  unfolding deliver_to take_lock
  deliver_to-Safe w ready active_ = rw active_ (elim (Bool-cases (is_ordered endpoint.ordering)) [
    | inl e ↦ rw e (
        Returns-bind _ _ _ _ w
          (Returns-exec _ _ _ w (λ fs. deliver_holding-Safe _ _ ready) (λ fs. tt)))
    | inr e ↦ rw e (deliver_locked-Safe none w ready)
  ])

  -- A delivery that is not settled, with its event and an active endpoint: if a run over it returns,
  -- then whatever gates it has met it is delivered or dead or stands on the retry queue. Nothing is
  -- said of a run that raises, since then the entry is not acknowledged.
  pub deliver_with_gates-Safe :
      (w : World V)
      → IsReady V X d endpoint event w
      → is_active endpoint.status ≡ true
      → Safely V X d endpoint event (deliver_with_gates V X d.id w)
  unfolding deliver_with_gates
  deliver_with_gates-Safe w ready active_ = Returns-bind _ _ _ _ w (
      Returns-query _ _ _ w
        (λ fs.
          rw (ready.0, deliver_found, unsettled)
            (Returns-bind _ _ _ _ _ (
              Returns-query _ _ _ _ (λ gs. rw ready.1 (deliver_to-Safe _ ready active_))
                (λ gs. tt))))
        (λ fs. tt))

  acknowledge-Safe :
      (message_id : ℕ) (r : Result Bool × World V)
      → Safely V X d endpoint event r
      → Returns
          (λ a w'. (w'.acked ≡ r.1.acked) ⊎ IsSafe V X d endpoint event w')
          (λ w'. w'.acked ≡ r.1.acked)
          (acknowledge V X message_id r.0 r.1)
  acknowledge-Safe message_id (raised, w) h = Returns-pure _ _ _ w (inl refl)
  acknowledge-Safe message_id (ok true, w) h = Returns-command _ _ _ w (λ fs. inr h) (λ fs. refl)
  acknowledge-Safe message_id (ok false, w) h = Returns-pure _ _ _ w (inl refl)

  -- At least once, for a delivery that is not settled, with its event and an active endpoint: where
  -- the run over its stream entry returns, either nothing is acknowledged after the delivery's own
  -- part, or the delivery is delivered or dead or stands on the retry queue. Where the XACK fails,
  -- nothing is acknowledged either.
  pub handle_message-Safe :
      (message_id : ℕ) (w : World V)
      → IsReady V X d endpoint event w
      → is_active endpoint.status ≡ true
      → Returns
          (λ a w'.
            (w'.acked ≡ (deliver_with_gates V X d.id w).1.acked) ⊎ IsSafe V X d endpoint event w')
          (λ w'. w'.acked ≡ (deliver_with_gates V X d.id w).1.acked)
          (handle_message V X message_id d.id w)
  unfolding handle_message
  handle_message-Safe message_id w ready active_ =
      acknowledge-Safe message_id (deliver_with_gates V X d.id w)
        (deliver_with_gates-Safe w ready active_)
