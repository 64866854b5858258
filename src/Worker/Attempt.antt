-- ===== src/Worker/Attempt.antt =====
-- What `process_delivery` leaves: one attempt on record, and a delivery that is settled or waits for
-- its retry.
use web_hooks.Base.{
  ℕ, ◌+◌, ◌≡◌, refl, Bool, true, false, ◌⊎◌, inl, inr, Option, none, some, List, [], ◌∷◌, ◌++◌,
  ◌==◌, arith,
}
use web_hooks.Db.{Endpoint, Event, Delivery, delivered, failed, dead}
use web_hooks.Services.{Services, World}
use web_hooks.RetryQueue.{Uuid, Text, encode_member, schedule_retry}
use web_hooks.Sender.{AttemptResult, send_delivery}
use web_hooks.Worker.Monad.{
  pure, modify, ◌>>◌, Returns, Returns-bind, Returns-command, Returns-query, Returns-modify,
  Returns-pure, Returns-raise,
}
use web_hooks.Worker.{
  Env, begun, post_of, attempt_of, settled_row, schedule_if, conclude, attempt, attempt_if,
  process_found, process_delivery, find_delivery, find_endpoint, is_delivered, retry_in,
}

module _ (V : Services) (X : Env) where
  open X use {settings, Header, client, latency, settled_at, scheduled_at, parse, jitter}

  -- The member of the retry queue that stands for the delivery.
  abbrev pub member_of : Delivery → Text
  member_of d = encode_member V.texts settings.stream_shards d.id d.event_id d.endpoint_id

  abbrev pub result_of : Delivery → Endpoint → Event → AttemptResult Header
  result_of d endpoint event = send_delivery (client (post_of V X d endpoint event)) latency

  -- From `w` to `w'` the delivery `d` was attempted once, and `row` is its row now.
  pub record Attempted (d : Delivery) (endpoint : Endpoint) (event : Event) (w w' : World V)
      (row : Delivery) : Type 0 where
    pub found : find_delivery V X d.id w' ≡ some row
    pub others : (k : Uuid) → (d.id == k) ≡ false → find_delivery V X k w' ≡ find_delivery V X k w
    pub counted : row.attempt_count ≡ d.attempt_count + 1
    pub logged :
        w'.attempts ≡ w.attempts ++ attempt_of V X (begun V X d) (result_of d endpoint event) ∷ []
    pub posted : w'.posts ≡ w.posts ++ post_of V X d endpoint event ∷ []

  -- How the attempt ended: delivered or dead, with the retry queue unchanged, or failed and on the
  -- retry queue: the row names the time after
  -- the delay from when it was settled, the queue the time after the same delay from when the retry
  -- was scheduled.
  pub data Ending (d : Delivery) (w w' : World V) (row : Delivery) : Type 0 where
    ends_delivered :
        row.status ≡ delivered
        → row.next_attempt_at ≡ none
        → w'.retries ≡ w.retries
        → Ending d w w' row
    ends_dead :
        row.status ≡ dead → row.next_attempt_at ≡ none → w'.retries ≡ w.retries → Ending d w w' row
    ends_failed :
        (delay : ℕ)
        → row.status ≡ failed
        → row.next_attempt_at ≡ some (settled_at + delay)
        → V.text_sets.zscore (member_of d) w'.retries ≡ some (scheduled_at + delay)
        → Ending d w w' row

  -- The row and the ending of an attempt, from the row that was begun.
  settled_row-id :
      (d row : Delivery) (r : AttemptResult Header) (delay : Option ℕ)
      → settled_row V X d r ≡ some (row, delay)
      → row.id ≡ d.id
  unfolding settled_row
  settled_row-id d row r delay e = ground arith

  settled_row-attempt_count :
      (d row : Delivery) (r : AttemptResult Header) (delay : Option ℕ)
      → settled_row V X d r ≡ some (row, delay)
      → row.attempt_count ≡ d.attempt_count
  unfolding settled_row
  settled_row-attempt_count d row r delay e = ground arith

  no_retry :
      (d row : Delivery) (r : AttemptResult Header)
      → settled_row V X d r ≡ some (row, none)
      → ((row.status ≡ delivered) ⊎ (row.status ≡ dead)) × (row.next_attempt_at ≡ none)
  unfolding settled_row
  no_retry d row r e = ground arith

  with_retry :
      (d row : Delivery) (r : AttemptResult Header) (delay : ℕ)
      → settled_row V X d r ≡ some (row, some delay)
      → (row.status ≡ failed)
        × (row.next_attempt_at ≡ some (settled_at + delay))
        × (member_of row ≡ member_of d)
  unfolding settled_row
  with_retry d row r delay e = ground arith

  attempted :
      (d : Delivery) (endpoint : Endpoint) (event : Event) (w : World V) (gs : List Bool)
      (row : Delivery) (delay : Option ℕ)
      → settled_row V X (begun V X d) (result_of d endpoint event) ≡ some (row, delay)
      → Attempted d endpoint event w
          (record w {
            deliveries =
                V.deliveries_table.save row (V.deliveries_table.save (begun V X d) w.deliveries);
            attempts = w.attempts ++ attempt_of V X (begun V X d) (result_of d endpoint event) ∷ [];
            posts = w.posts ++ post_of V X d endpoint event ∷ [];
            faults = gs;
          })
          row
  attempted d endpoint event w gs row delay e =
      let result = result_of d endpoint event in
      let rows = V.deliveries_table.save (begun V X d) w.deliveries in
      let same : row.id ≡ d.id = settled_row-id (begun V X d) row result delay e in
      record {
        found = ground (arith, V.deliveries_table.find-save d.id row rows, same);
        others = λ k ne. ground (
          arith,
          V.deliveries_table.find-save k row rows,
          V.deliveries_table.find-save k (begun V X d) w.deliveries,
          same,
          ne,
        );
        counted = settled_row-attempt_count (begun V X d) row result delay e;
        logged = refl;
        posted = refl;
      }

  Done : Delivery → Endpoint → Event → World V → Bool → World V → Type 0
  Done d endpoint event w ack w' =
      (ack ≡ true) × ((row : Delivery) × Attempted d endpoint event w w' row × Ending d w w' row)

  finish :
      (d : Delivery) (endpoint : Endpoint) (event : Event) (w v : World V) (row : Delivery)
      (delay : Option ℕ)
      → settled_row V X (begun V X d) (result_of d endpoint event) ≡ some (row, delay)
      → Attempted d endpoint event w v row
      → v.retries ≡ w.retries
      → Returns
          (Done d endpoint event w)
          (λ w'. Unit)
          ((schedule_if V X row delay
              >> (modify (λ u. record u {
                outcomes = u.outcomes ++ (endpoint.tenant_id, row.status) ∷ [];
              })
                  >> pure true))
            v)
  unfolding schedule_if Done retry_in
  finish d endpoint event w v row none e a same =
      let (status, cleared) = no_retry (begun V X d) row (result_of d endpoint event) e in
      Returns-bind _ _ _ _ v (
        Returns-pure _ _ _ v (
          Returns-bind _ _ _ _ v (
            Returns-modify _ _ _ v (
              Returns-pure _ _ _ _ (
                refl,
                (
                  row,
                  record {
                    found = a.found;
                    others = a.others;
                    counted = a.counted;
                    logged = a.logged;
                    posted = a.posted;
                  },
                  elim status [
                    | inl h ↦ ends_delivered h cleared same
                    | inr h ↦ ends_dead h cleared same
                  ],
                ),
              )))))
  finish d endpoint event w v row (some delay) e a same =
      let (status, due, member) =
        with_retry (begun V X d) row (result_of d endpoint event) delay e in
      Returns-bind _ _ _ _ v (
        Returns-command _ _ _ v
          (λ gs. Returns-bind _ _ _ _ _ (
            Returns-modify _ _ _ _ (
              Returns-pure _ _ _ _ (
                refl,
                (
                  row,
                  record {
                    found = a.found;
                    others = a.others;
                    counted = a.counted;
                    logged = a.logged;
                    posted = a.posted;
                  },
                  ends_failed delay status due (rescheduled gs),
                ),
              ))))
          (λ gs. tt))
    where
      rescheduled :
          (gs : List Bool)
          → V.text_sets.zscore
              (member_of d)
              (retry_in V X row delay (record v { faults = gs })).retries
            ≡ some (scheduled_at + delay)
      rescheduled gs =
          unfold retry_in schedule_retry in
          rw (← (with_retry (begun V X d) row (result_of d endpoint event) delay e).2)
            (V.text_sets.zscore-zadd_self _ _ _)

  conclude-Returns :
      (d : Delivery) (endpoint : Endpoint) (event : Event) (w : World V) (gs : List Bool)
      (o : Option (Delivery × Option ℕ))
      → settled_row V X (begun V X d) (result_of d endpoint event) ≡ o
      → Returns
          (Done d endpoint event w)
          (λ w'. Unit)
          (conclude V X d endpoint (result_of d endpoint event) o (record w {
            deliveries = V.deliveries_table.save (begun V X d) w.deliveries;
            posts = w.posts ++ post_of V X d endpoint event ∷ [];
            faults = gs;
          }))
  unfolding conclude
  conclude-Returns d endpoint event w gs none e = Returns-raise _ _ _ tt
  conclude-Returns d endpoint event w gs (some (row, delay)) e = Returns-bind _ _ _ _ _ (
      Returns-command _ _ _ _
        (λ fs.
          finish d endpoint event w _ row delay e (attempted d endpoint event w fs row delay e)
            refl)
        (λ fs. tt))

  attempt-Returns :
      (d : Delivery) (endpoint : Endpoint) (event : Event) (w : World V) (hs : List Bool)
      → Returns
          (Done d endpoint event w)
          (λ w'. Unit)
          (attempt V X d endpoint event (record w { faults = hs }))
  unfolding attempt
  attempt-Returns d endpoint event w hs = Returns-bind _ _ _ _ _ (
      Returns-command _ _ _ _
        (λ fs.
          Returns-bind _ _ _ _ _
            (Returns-modify _ _ _ _ (conclude-Returns d endpoint event w fs _ refl)))
        (λ fs. tt))

  -- A delivery that is on record with its endpoint and its event and is not delivered yet: if
  -- `process_delivery` returns, then the entry may be
  -- acknowledged, one attempt with the next number is on record, one POST has left, no other delivery
  -- has changed, and the delivery is delivered, or dead, or failed and on the retry queue: its row
  -- and the queue name the times that one delay leads to from their two readings of the clock.
  pub process_delivery-Returns :
      (d : Delivery) (endpoint : Endpoint) (event : Event) (w : World V)
      → find_delivery V X d.id w ≡ some d
      → find_endpoint V X d.endpoint_id w ≡ some endpoint
      → V.events_table.find d.event_id w.events ≡ some event
      → is_delivered d.status ≡ false
      → Returns
          (λ ack w'.
            (ack ≡ true)
            × ((row : Delivery) × Attempted d endpoint event w w' row × Ending d w w' row))
          (λ w'. Unit)
          (process_delivery V X d.id w)
  unfolding process_delivery Done
  process_delivery-Returns d endpoint event w fd fe fv open_ = Returns-bind _ _ _ _ w (
      Returns-query _ _ _ w
        (λ fs.
          rw (fd, process_found, open_)
            (Returns-bind _ _ _ _ _ (
              Returns-query _ _ _ _
                (λ gs. Returns-bind _ _ _ _ _ (
                  Returns-query _ _ _ _
                    (λ hs. rw (fe, fv, attempt_if) (attempt-Returns d endpoint event w hs))
                    (λ hs. tt)))
                (λ gs. tt))))
        (λ fs. tt))
