-- ===== src/Api/Dlq/Replay.antt =====
-- What a replay changes, and that a replayed delivery is under way again.
use web_hooks.Base.{
  ℕ, ◌≡◌, ◌⊎◌, inl, inr, true, ◌&&◌, some, List, [], ◌∷◌, ◌==◌, All, Elem, arith, Bool-cases,
  Option-cases, ap,
}
use web_hooks.Db.{Delivery, DeliveryOrder, ordered, unordered}
use web_hooks.Services.{Services, World}
use web_hooks.RetryQueue.{Uuid}
use web_hooks.Worker.Monad.{
  Returns, Returns-bind, Returns-command, Returns-query, Returns-pure, Returns-raise, Returns-mono,
}
use package.web_hooks.Api.{
  contains, is_dead, revived, owned_endpoint_ids, one_or_raise, revive_all, stream_in, reset_in,
}
use package.web_hooks.Api.Dlq.{
  wanted, replayable, forget_retry, queue_in, queue_if, requeue, reset_if, replay_owned, replay,
}

pub All-mono :
    (P Q : Delivery → Type 0) (ds : List Delivery)
    → ((q : Delivery) → P q → Q q)
    → All P ds
    → All Q ds
All-mono P Q [] f h = tt
All-mono P Q (q ∷ ds) f h = (f q h.0, All-mono P Q ds f h.1)

-- Rows that were selected as dead ones of an endpoint from a table.
abbrev pub Selected : (V : Services) → Uuid → V.deliveries_table.Rows → Delivery → Type 0
Selected V e rows q =
    (is_dead q.status ≡ true) × (q.endpoint_id ≡ e) × (V.deliveries_table.find q.id rows ≡ some q)

-- The row `d` stands as it was, or it was a dead one of the endpoint and is revived.
abbrev pub Stays : (V : Services) → Uuid → Delivery → V.deliveries_table.Rows → Type 0
Stays V e d rows =
    (V.deliveries_table.find d.id rows ≡ some d)
    ⊎ ((V.deliveries_table.find d.id rows ≡ some (revived d))
        × (is_dead d.status ≡ true)
        × (d.endpoint_id ≡ e))

module _ (V : Services) (stream_shards : ℕ) (e : Uuid) (d : Delivery) where
  open V.deliveries_table use {Rows, find, save, find-save}

  revive_one :
      (start rows : Rows) (q : Delivery)
      → find d.id start ≡ some d
      → Selected V e start q
      → Stays V e d rows
      → Stays V e d (save (revived q) rows)
  revive_one start rows q there s h = elim (Bool-cases (q.id == d.id)) [
    | inl same ↦
        let one : q ≡ d = ground (arith, there, s.2, same) in
        inr (
          (ground (arith, find-save d.id (revived q) rows, same, ap revived one)),
          (ground (arith, s.0, one)),
          (ground (arith, s.1, one)),
        )
    | inr other ↦ ground (arith, find-save d.id (revived q) rows, other, h)
  ]

  pub revive_all-Stays :
      (start rows : Rows) (ds : List Delivery)
      → find d.id start ≡ some d
      → All (Selected V e start) ds
      → Stays V e d rows
      → Stays V e d (revive_all V ds rows)
  unfolding revive_all
  revive_all-Stays start rows [] there s h = h
  revive_all-Stays start rows (q ∷ ds) there s h =
      revive_all-Stays start (save (revived q) rows) ds there s.1
        (revive_one start rows q there s.0 h)

  -- A row that is among those of one commit, or that has been revived already, is revived by it.
  pub revive_all-revived :
      (start rows : Rows) (ds : List Delivery)
      → find d.id start ≡ some d
      → All (Selected V e start) ds
      → (find d.id rows ≡ some (revived d)) ⊎ Elem d ds
      → find d.id (revive_all V ds rows) ≡ some (revived d)
  unfolding revive_all
  revive_all-revived start rows [] there s (inl h) = h
  revive_all-revived start rows [] there s (inr h) = absurd h
  revive_all-revived start rows (q ∷ ds) there s h =
      revive_all-revived start (save (revived q) rows) ds there s.1
        (elim (Bool-cases (q.id == d.id)) [
          | inl same ↦
              let one : q ≡ d = ground (arith, there, s.0.2, same) in
              inl (ground (arith, find-save d.id (revived q) rows, same, ap revived one))
          | inr other ↦ elim h [
            | inl done ↦ inl (ground (arith, find-save d.id (revived q) rows, other, done))
            | inr (inl same) ↦ absurd (ground (arith, ap (λ x. x.id) same, other))
            | inr (inr later) ↦ inr later
          ]
        ])

  Kept : World V → Type 0
  Kept w = Stays V e d w.deliveries

  queue_if-Kept :
      (o : DeliveryOrder) (q : Delivery) (w : World V)
      → Kept w
      → Returns (λ _ w'. Kept w') Kept (queue_if V stream_shards o q w)
  unfolding queue_if queue_in Kept
  queue_if-Kept ordered q w h = Returns-command _ _ _ w (λ fs. h) (λ fs. h)
  queue_if-Kept unordered q w h = Returns-pure _ _ _ w h

  requeue-Kept :
      (o : DeliveryOrder) (ds : List Delivery) (w : World V)
      → Kept w
      → Returns (λ _ w'. Kept w') Kept (requeue V stream_shards o ds w)
  unfolding requeue forget_retry stream_in Kept
  requeue-Kept o [] w h = Returns-pure _ _ _ w h
  requeue-Kept o (q ∷ ds) w h = Returns-bind _ _ _ _ w (
      Returns-command _ _ _ w
        (λ fs. Returns-bind _ _ _ _ _ (
          Returns-mono _ _ _ _ (queue_if V stream_shards o q _)
            (λ _ v k.
              Returns-bind _ _ _ _ v
                (Returns-command _ _ _ v (λ gs. requeue-Kept o ds _ k) (λ gs. k)))
            (λ v k. k) (queue_if-Kept o q _ h)))
        (λ fs. h))

  reset_if-Kept :
      (ds : List Delivery) (k : Uuid) (w : World V)
      → Kept w
      → Returns (λ _ w'. Kept w') Kept (reset_if V stream_shards ds k w)
  unfolding reset_if reset_in Kept
  reset_if-Kept [] k w h = Returns-pure _ _ _ w h
  reset_if-Kept (q ∷ ds) k w h = Returns-command _ _ _ w (λ fs. h) (λ fs. h)

  pub replayable-Selected :
      (ids : List Uuid) (w : World V)
      → All (Selected V e w.deliveries) (replayable V stream_shards e ids w)
  unfolding replayable
  replayable-Selected ids w =
      All-mono _ _ _ (λ q h. ((ground (arith, h.0)), (ground (arith, h.0)), h.1))
        (V.deliveries_table.select_sound
          (λ q. (q.endpoint_id == e) && (is_dead q.status && wanted ids q.id)) w.deliveries)

  replay_owned-Kept :
      (ids : List Uuid) (w : World V)
      → find d.id w.deliveries ≡ some d
      → Returns (λ r w'. Kept w') Kept (replay_owned V stream_shards e ids w)
  unfolding replay_owned one_or_raise Kept replayable
  replay_owned-Kept ids w there = Returns-bind _ _ _ _ w (
      Returns-query _ _ _ w
        (λ fs. elim (Option-cases (V.endpoints_table.find e w.endpoints)) [
          | inl gone ↦
              rw (gone, one_or_raise) (Returns-bind _ _ _ _ _ (Returns-raise _ _ _ (inl there)))
          | inr (endpoint, stands) ↦
              rw (stands, one_or_raise)
                (Returns-bind _ _ _ _ _ (
                  Returns-pure _ _ _ _ (
                    Returns-bind _ _ _ _ _ (
                      Returns-query _ _ _ _
                        (λ gs. Returns-bind _ _ _ _ _ (
                          Returns-command _ _ _ _
                            (λ hs.
                              let ds = replayable V stream_shards e ids w in
                              let kept =
                                revive_all-Stays w.deliveries w.deliveries ds there
                                  (replayable-Selected ids w) (inl there) in
                              Returns-bind _ _ _ _ _ (
                                Returns-mono _ _ _ _ (reset_if V stream_shards ds e _)
                                  (λ _ u k. Returns-bind _ _ _ _ u (
                                    Returns-mono _ _ _ _
                                      (requeue V stream_shards endpoint.ordering ds u)
                                      (λ _ v j. Returns-pure _ _ _ v j) (λ v j. j)
                                      (requeue-Kept endpoint.ordering ds u k)))
                                  (λ u k. k) (reset_if-Kept ds e _ kept)))
                            (λ hs. inl there)))
                        (λ gs. inl there)))))
        ])
        (λ fs. inl there))

  -- The row stays, and as it was if the endpoint is not the tenant's.
  abbrev pub OnlyOwn : Uuid → World V → World V → Type 0
  OnlyOwn tenant w w' =
      Stays V e d w'.deliveries
      × ((contains (owned_endpoint_ids V tenant w) e ≡ true) ⊎ (find d.id w'.deliveries ≡ some d))

  -- Whatever a replay of the dead deliveries of an endpoint does, and wherever a call of a service
  -- fails in it, a delivery that is on record stays as it was, unless it was a dead one of that
  -- endpoint and the endpoint is the tenant's: then it may have become pending with no attempts.
  pub replay-Stays :
      (tenant : Uuid) (ids : List Uuid) (w : World V)
      → find d.id w.deliveries ≡ some d
      → Returns
          (λ r w'. OnlyOwn tenant w w')
          (OnlyOwn tenant w)
          (replay V stream_shards tenant e ids w)
  unfolding replay Kept owned_endpoint_ids
  replay-Stays tenant ids w there = Returns-bind _ _ _ _ w (
      Returns-query _ _ _ w
        (λ fs. elim (Bool-cases (contains (owned_endpoint_ids V tenant w) e)) [
          | inl own ↦ rw own (
              Returns-mono _ _ _ _ (replay_owned V stream_shards e ids _) (λ r w' k. (k, inl own))
                (λ w' k. (k, inl own)) (replay_owned-Kept ids _ there))
          | inr foreign ↦ rw foreign (Returns-pure _ _ _ _ (inl there, inr there))
        ])
        (λ fs. (inl there, inr there)))
