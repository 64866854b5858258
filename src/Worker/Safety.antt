-- ===== src/Worker/Safety.antt =====
-- No acknowledged delivery is lost: it is settled or waits on the retry queue. Here the parts of a
-- run; `Acknowledged` puts them together.
pub mod Acknowledged
use web_hooks.Base.{ℕ, ◌≡◌, ◌≢◌, refl, true, false, ◌⊎◌, inl, inr, none, some, List, [], ◌∷◌, Bool}
use web_hooks.Db.{Endpoint, Event, Delivery}
use web_hooks.Services.{Services, World, GateReason}
use web_hooks.RetryQueue.{Uuid, schedule_retry}
use web_hooks.Breaker.{Message}
use web_hooks.Worker.Monad.{
  Result, Returns, Returns-bind, Returns-command, Returns-query, Returns-modify, Returns-pure,
  Returns-mono, Returns-exec,
}
use web_hooks.Worker.{
  Env, retry_in, is_settled, is_delivered, find_delivery, find_endpoint, process_delivery,
}
use web_hooks.Worker.Attempt.{
  member_of, Attempted, Ending, ends_delivered, ends_dead, ends_failed, process_delivery-Returns,
}
use web_hooks.Worker.Frame.{Same, Returns-scalar_one, advance_queue-Same}
use web_hooks.Worker.Gates.{
  advance_queue, run_outcome, publish_if, note_outcome, defer_delivery, in_slot,
}

module _ (V : Services) (X : Env) (d : Delivery) (endpoint : Endpoint) (event : Event) where
  -- The delivery is settled, or its member is on the retry queue.
  abbrev pub IsSafe : World V → Type 0
  IsSafe w =
      (row : Delivery) × (find_delivery V X d.id w ≡ some row)
      × ((is_settled row.status ≡ true) ⊎ (V.text_sets.zscore (member_of V X d) w.retries ≢ none))

  -- The delivery stands as it was read, and what it refers to is there.
  abbrev pub IsReady : World V → Type 0
  IsReady w =
      (find_delivery V X d.id w ≡ some d)
      × (find_endpoint V X d.endpoint_id w ≡ some endpoint)
      × (V.events_table.find d.event_id w.events ≡ some event)

  abbrev pub Safely : {A : Type 0} → Result A × World V → Type 0
  Safely = Returns (λ a w. IsSafe w) (λ w. Unit {0})

  pub IsSafe-Same : (w w' : World V) → Same w w' → IsSafe w → IsSafe w'
  IsSafe-Same w w' h (row, found, state) = (row, rw h.0.0 found, rw h.1 state)

  pub IsReady-Same :
      (w w' : World V) → Same w w' → w'.endpoints ≡ w.endpoints → IsReady w → IsReady w'
  IsReady-Same w w' h e r = (rw h.0.0 r.0, rw e r.1, rw h.0.1 r.2)

  scheduled :
      (due_at : ℕ) (z : V.text_sets.ZSet)
      → V.text_sets.zscore (member_of V X d) (V.text_sets.zadd due_at (member_of V X d) z) ≢ none
  scheduled due_at z e =
      let added = V.text_sets.zscore-zadd_self due_at (member_of V X d) z in cc (added, e)

  settled :
      (w w' : World V) (row : Delivery)
      → Attempted V X d endpoint event w w' row
      → Ending V X d w w' row
      → IsSafe w'
  settled w w' row a (ends_delivered s n k) = (row, a.found, inl (rw s))
  settled w w' row a (ends_dead s n k) = (row, a.found, inl (rw s))
  settled w w' row a (ends_failed due_at s n k) = (row, a.found, inr (λ e. cc (k, e)))

  pub defer_delivery-Safe :
      (reason : GateReason) (delay : ℕ) (w : World V)
      → find_delivery V X d.id w ≡ some d
      → Safely (defer_delivery V X d reason delay w)
  unfolding defer_delivery retry_in schedule_retry
  defer_delivery-Safe reason delay w r = Returns-bind _ _ _ _ w (
      Returns-modify _ _ _ w (
        Returns-bind _ _ _ _ _ (
          Returns-command _ _ _ _ (λ fs. Returns-pure _ _ _ _ (d, r, inr (scheduled _ _)))
            (λ fs. tt))))

  pub process-Safe :
      (w : World V)
      → IsReady w
      → is_delivered d.status ≡ false
      → Safely (process_delivery V X d.id w)
  process-Safe w r open_ =
      Returns-mono _ _ _ _ (process_delivery V X d.id w) (λ a w' h. settled w w' h.1.0 h.1.1 h.1.2)
        (λ w' h. tt) (process_delivery-Returns V X d endpoint event w r.0 r.1 r.2 open_)

  after_attempt :
      (endpoint : Endpoint) (row : Delivery) (w : World V)
      → IsSafe w
      → Safely (advance_queue V X endpoint row w)
  after_attempt endpoint row w h =
      Returns-mono _ _ _ _ (advance_queue V X endpoint row w) (λ a w' k. IsSafe-Same w w' k h)
        (λ w' k. tt) (advance_queue-Same V X endpoint row w w ((refl, refl, refl, refl), refl))

  publish_if-Safe : (ms : List Message) (w : World V) → IsSafe w → Safely (publish_if V X ms w)
  unfolding publish_if
  publish_if-Safe [] w h = Returns-pure _ _ _ w h
  publish_if-Safe (m ∷ ms) w h = Returns-command _ _ _ w (λ fs. h) (λ fs. tt)

  note_outcome-Safe :
      (k : Uuid) (success : Bool) (w : World V) → IsSafe w → Safely (note_outcome V X k success w)
  unfolding note_outcome run_outcome
  note_outcome-Safe k success w h =
      Returns-bind _ _ _ _ w (Returns-exec _ _ _ w (λ fs. publish_if-Safe _ _ h) (λ fs. tt))

  pub in_slot-Safe :
      (w : World V) → IsReady w → is_delivered d.status ≡ false → Safely (in_slot V X d endpoint w)
  unfolding in_slot
  in_slot-Safe w r open_ = Returns-bind _ _ _ _ w (
      Returns-mono _ _ _ _ (process_delivery V X d.id w)
        (λ ack u safe. Returns-bind _ _ _ _ u (
          Returns-query _ _ _ u
            (λ fs. Returns-bind _ _ _ _ _ (
              Returns-scalar_one V X _ _ _ _
                (λ row _. Returns-bind _ _ _ _ _ (
                  Returns-mono _ _ _ _ (note_outcome V X endpoint.id (is_delivered row.status) _)
                    (λ _ v noted. Returns-bind _ _ _ _ v (
                      Returns-mono _ _ _ _ (advance_queue V X endpoint row v)
                        (λ _ x k. Returns-pure _ _ _ x k) (λ x k. k)
                        (after_attempt endpoint row v noted)))
                    (λ v k. k) (note_outcome-Safe endpoint.id _ _ safe)))
                tt))
            (λ fs. tt)))
        (λ u h. tt) (process-Safe w r open_))
