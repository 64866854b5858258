-- ===== src/Api/Diagnoses/Executed.antt =====
-- What the execution of an approved action does.
use web_hooks.Base.{
  ℕ, ◌≡◌, refl, ◌⊎◌, inl, inr, Bool, true, false, ◌&&◌, some, List, [], ◌∷◌, ◌++◌, ◌==◌, arith, All,
  Elem, Bool-cases, subst, if◌then◌else◌,
}
use web_hooks.Db.{
  Endpoint, Delivery, AgentAction, ActionKind, pause_endpoint, replay_dlq, approved, paused,
  ActionStatus,
}
use web_hooks.Services.{Services, World}
use web_hooks.RetryQueue.{Uuid, StreamEntry, enqueue_delivery}
use web_hooks.Worker.Monad.{
  Returns, Returns-bind, Returns-command, Returns-query, Returns-pure, Returns-mono,
}
use package.web_hooks.Api.{is_dead, revived, revive_all, stream_in, reset_in}
use package.web_hooks.Api.Dlq.Replay.{Selected, All-mono, revive_all-Stays, revive_all-revived}
use package.web_hooks.Api.Dlq.Underway.{Elem-append_left, Elem-append_last}
use package.web_hooks.Api.Diagnoses.{decided, dead_of, stream_all, restart, execute}

-- Whether a replay of the endpoint's dead deliveries takes the delivery.
abbrev pub is_taken : Uuid → Delivery → Bool
is_taken k d = (d.endpoint_id == k) && is_dead d.status

-- The row of a delivery after an action on the endpoint with the given number.
abbrev pub row_after : ActionKind → Uuid → Delivery → Delivery
row_after pause_endpoint k d = d
row_after replay_dlq k d = if is_taken k d then revived d else d

-- The row of the endpoint after it.
abbrev pub endpoint_after : ActionKind → Endpoint → Endpoint
endpoint_after pause_endpoint endpoint = record endpoint { status = paused }
endpoint_after replay_dlq endpoint = endpoint

module _ (V : Services) (stream_shards now : ℕ) (d : Delivery) where
  abbrev entry : Delivery → StreamEntry
  entry q = enqueue_delivery V.texts stream_shards q.id q.event_id q.endpoint_id

  abbrev OnStream : Bool → List StreamEntry → Type 0
  OnStream true streamed = Elem (entry d) streamed
  OnStream false streamed = Unit {0}

  -- A delivery that is replayed is on its stream.
  abbrev pub Streamed : ActionKind → Uuid → World V → Type 0
  Streamed pause_endpoint k w = Unit {0}
  Streamed replay_dlq k w = OnStream (is_taken k d) w.streamed

  -- The action is stored as approved, the endpoint is paused or as it was, and the delivery is
  -- revived and streamed or as it was.
  abbrev pub Executed : ActionKind → AgentAction → Endpoint → World V → Type 0
  Executed kind a endpoint w =
      (V.actions_table.find a.id w.actions ≡ some (decided V stream_shards now approved a))
      × (V.endpoints_table.find endpoint.id w.endpoints ≡ some (endpoint_after kind endpoint))
      × (V.deliveries_table.find d.id w.deliveries ≡ some (row_after kind endpoint.id d))
      × Streamed kind endpoint.id w

  pub stored :
      (status : ActionStatus) (a : AgentAction) (rows : V.actions_table.Rows)
      → V.actions_table.find a.id (V.actions_table.save (decided V stream_shards now status a) rows)
        ≡ some (decided V stream_shards now status a)
  stored status a rows =
      ground (arith, V.actions_table.find-save a.id (decided V stream_shards now status a) rows)

  -- The tables that the loop after the commit leaves alone.
  record After (actions : V.actions_table.Rows) (endpoints : V.endpoints_table.Rows)
      (deliveries : V.deliveries_table.Rows) (w : World V) : Type 0 where
    same_actions : w.actions ≡ actions
    same_endpoints : w.endpoints ≡ endpoints
    same_deliveries : w.deliveries ≡ deliveries

  abbrev Due : Bool → List Delivery → List StreamEntry → Type 0
  Due true ds streamed = Elem d ds ⊎ Elem (entry d) streamed
  Due false ds streamed = Unit {0}

  loop_ended : (b : Bool) (streamed : List StreamEntry) → Due b [] streamed → OnStream b streamed
  loop_ended true streamed (inl h) = absurd h
  loop_ended true streamed (inr h) = h
  loop_ended false streamed h = tt

  entry_added :
      (b : Bool) (q : Delivery) (ds : List Delivery) (streamed : List StreamEntry)
      → Due b (q ∷ ds) streamed
      → Due b ds (streamed ++ entry q ∷ [])
  entry_added false q ds streamed h = tt
  entry_added true q ds streamed (inl (inr h)) = inl h
  entry_added true q ds streamed (inr h) = inr (Elem-append_left (entry d) streamed _ h)
  entry_added true q ds streamed (inl (inl same)) = inr (
      subst (λ x. Elem (entry x) (streamed ++ entry q ∷ [])) same
        (Elem-append_last (entry q) streamed))

  module _ (actions : V.actions_table.Rows) (endpoints : V.endpoints_table.Rows)
      (deliveries : V.deliveries_table.Rows) (b : Bool) where
    abbrev Done : World V → Type 0
    Done w = After actions endpoints deliveries w × OnStream b w.streamed

    stream_all-Done :
        (ds : List Delivery) (w : World V)
        → After actions endpoints deliveries w
        → Due b ds w.streamed
        → Returns (λ _ w'. Done w') (λ _. Unit {0}) (stream_all V stream_shards now ds w)
    unfolding stream_all stream_in
    stream_all-Done [] w h due = Returns-pure _ _ _ w (h, loop_ended b w.streamed due)
    stream_all-Done (q ∷ ds) w h due = Returns-bind _ _ _ _ w (
        Returns-command _ _ _ w
          (λ fs.
            stream_all-Done ds _
              (record {
                same_actions = h.same_actions;
                same_endpoints = h.same_endpoints;
                same_deliveries = h.same_deliveries;
              })
              (entry_added b q ds w.streamed due))
          (λ fs. tt))

    restart-Done :
        (k : Uuid) (ds : List Delivery) (w : World V)
        → After actions endpoints deliveries w
        → Due b ds w.streamed
        → Returns (λ _ w'. Done w') (λ _. Unit {0}) (restart V stream_shards now k ds w)
    unfolding restart reset_in
    restart-Done k [] w h due = Returns-pure _ _ _ w (h, loop_ended b w.streamed due)
    restart-Done k (q ∷ ds) w h due = Returns-bind _ _ _ _ w (
        Returns-command _ _ _ w
          (λ fs.
            stream_all-Done (q ∷ ds) _
              (record {
                same_actions = h.same_actions;
                same_endpoints = h.same_endpoints;
                same_deliveries = h.same_deliveries;
              })
              due)
          (λ fs. tt))

  dead_of-Selected :
      (k : Uuid) (w : World V) → All (Selected V k w.deliveries) (dead_of V stream_shards now k w)
  unfolding dead_of
  dead_of-Selected k w =
      All-mono _ _ _ (λ q h. ((ground (arith, h.0)), (ground (arith, h.0)), h.1))
        (V.deliveries_table.select_sound (λ q. (q.endpoint_id == k) && is_dead q.status)
          w.deliveries)

  module _ (k : Uuid) (w : World V)
      (there : V.deliveries_table.find d.id w.deliveries ≡ some d) where
    taken-Elem : is_taken k d ≡ true → Elem d (dead_of V stream_shards now k w)
    unfolding dead_of
    taken-Elem h =
        V.deliveries_table.select_complete (λ q. (q.endpoint_id == k) && is_dead q.status) d.id d
          w.deliveries there h

    taken-Due :
        (b : Bool) (streamed : List StreamEntry)
        → is_taken k d ≡ b
        → Due b (dead_of V stream_shards now k w) streamed
    taken-Due true streamed h = inl (taken-Elem h)
    taken-Due false streamed h = tt

    revived_row :
        V.deliveries_table.find d.id (revive_all V (dead_of V stream_shards now k w) w.deliveries)
        ≡ some (row_after replay_dlq k d)
    revived_row = elim (Bool-cases (is_taken k d)) [
      | inl taken ↦ rw taken (
          revive_all-revived V stream_shards k d w.deliveries w.deliveries _ there
            (dead_of-Selected k w) (inr (taken-Elem taken)))
      | inr left ↦
          elim (revive_all-Stays V stream_shards k d w.deliveries w.deliveries _ there
            (dead_of-Selected k w) (inl there)) [
              | inl stays ↦ rw left stays
              | inr (r, dead_, own) ↦ absurd (ground (arith, left, dead_, own))
            ]
    ]

  pub execute-Executed :
      (kind : ActionKind) (a : AgentAction) (endpoint : Endpoint) (w : World V)
      → V.endpoints_table.find endpoint.id w.endpoints ≡ some endpoint
      → V.deliveries_table.find d.id w.deliveries ≡ some d
      → Returns
          (λ _ w'. Executed kind a endpoint w')
          (λ _. Unit {0})
          (execute V stream_shards now kind a endpoint w)
  unfolding execute dead_of
  execute-Executed pause_endpoint a endpoint w stands there =
      let after = endpoint_after pause_endpoint endpoint in
      Returns-command _ _ _ w
        (λ fs. (
          stored approved a _,
          ground (arith, V.endpoints_table.find-save endpoint.id after w.endpoints),
          there,
          tt,
        ))
        (λ fs. tt)
  execute-Executed replay_dlq a endpoint w stands there = Returns-bind _ _ _ _ w (
      Returns-query _ _ _ w
        (λ fs. Returns-bind _ _ _ _ _ (
          Returns-command _ _ _ _
            (λ gs.
              Returns-mono _ _ _ _ (restart V stream_shards now endpoint.id _ _)
                (λ _ w' h.
                  let done : Executed replay_dlq a endpoint w' = (
                    rw h.0.same_actions (stored approved a _),
                    rw h.0.same_endpoints stands,
                    rw h.0.same_deliveries (revived_row endpoint.id w there),
                    h.1,
                  ) in
                  done)
                (λ w' e. tt)
                (restart-Done _ _ _ (is_taken endpoint.id d) endpoint.id _ _
                  (record { same_actions = refl; same_endpoints = refl; same_deliveries = refl })
                  (taken-Due endpoint.id w there _ w.streamed refl)))
            (λ gs. tt)))
        (λ fs. tt))
