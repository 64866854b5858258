-- ===== src/Api/Events/Ingest.antt =====
-- What an accepted event leaves: the event under its number, for its tenant and key, whoever stored
-- it.
use web_hooks.Base.{
  ℕ, ◌≡◌, refl, inl, inr, true, Option, none, some, List, [], ◌∷◌, ◌==◌, All, arith, Bool-cases,
  subst, sym,
}
use web_hooks.Db.{Endpoint, Event, Delivery, DeliveryOrder, ordered, unordered}
use web_hooks.Services.{Services, World}
use web_hooks.RetryQueue.{Text, Uuid}
use web_hooks.Worker.Monad.{
  Returns, Returns-bind, Returns-command, Returns-query, Returns-exec, Returns-modify, Returns-pure,
  Returns-raise, Returns-mono,
}
use package.web_hooks.Api.{Reply, answered, refused, stream_in}
use package.web_hooks.Api.Dlq.{queue_in, queue_if}
use package.web_hooks.Api.Events.{
  Request, same_text, has_key, at_most_one, existing_by_idempotency_key, event_of, conflicts,
  commit, publish, or_internal, lost_race, after_commit, insert_event, unless_existing, check_key,
  ingest_event,
}

module _ (V : Services) (stream_shards : ℕ) (fresh_event : Uuid) (fresh_delivery : Uuid → Uuid)
    (race : World V → World V) where
  -- The event with this number, of the tenant, and with the key if one was given.
  abbrev pub Holds : Uuid → Option Text → Uuid → World V → Type 0
  Holds tenant none k w =
      (e : Event) × (V.events_table.find k w.events ≡ some e) × ((e.tenant_id == tenant) ≡ true)
  Holds tenant (some key) k w =
      (e : Event) × (V.events_table.find k w.events ≡ some e) × (has_key tenant key e ≡ true)

  abbrev pub Accepted : Uuid → Option Text → Reply Uuid → World V → Type 0
  Accepted tenant key (refused n) w = n ≡ 500
  Accepted tenant key (answered k) w = Holds tenant key k w

  -- A key that was looked up.
  FoundBy : Uuid → Text → Option Event → World V → Type 0
  FoundBy tenant key none w = Unit {0}
  FoundBy tenant key (some e) w = Holds tenant (some key) e.id w

  at_most_one-FoundBy :
      (tenant : Uuid) (key : Text) (es : List Event) (w : World V)
      → All (λ e. (has_key tenant key e ≡ true) × (V.events_table.find e.id w.events ≡ some e)) es
      → Returns
          (λ o w'. FoundBy tenant key o w')
          (λ _. Unit {0})
          (at_most_one V stream_shards fresh_event fresh_delivery race es w)
  unfolding at_most_one FoundBy
  at_most_one-FoundBy tenant key [] w h = Returns-pure _ _ _ w tt
  at_most_one-FoundBy tenant key (e ∷ []) w h = Returns-pure _ _ _ w (e, h.0.1, h.0.0)
  at_most_one-FoundBy tenant key (e ∷ f ∷ es) w h = Returns-raise _ _ w tt

  existing-FoundBy :
      (tenant : Uuid) (key : Text) (w : World V)
      → Returns
          (λ o w'. FoundBy tenant key o w')
          (λ _. Unit {0})
          (existing_by_idempotency_key V stream_shards fresh_event fresh_delivery race tenant key w)
  unfolding existing_by_idempotency_key
  existing-FoundBy tenant key w = Returns-bind _ _ _ _ w (
      Returns-query _ _ _ w
        (λ fs.
          at_most_one-FoundBy tenant key _ _
            (V.events_table.select_sound (has_key tenant key) w.events))
        (λ fs. tt))

  publish-events :
      (es : List Endpoint) (w : World V) (rows : V.events_table.Rows)
      → w.events ≡ rows
      → Returns
          (λ _ w'. w'.events ≡ rows)
          (λ _. Unit {0})
          (publish V stream_shards fresh_event fresh_delivery race es w)
  unfolding publish stream_in
  publish-events [] w rows h = Returns-pure _ _ _ w h
  publish-events (e ∷ es) w rows h = Returns-bind _ _ _ _ w (
      Returns-mono _ _ _ _ (queue_if V stream_shards e.ordering _ w)
        (λ _ v k.
          Returns-bind _ _ _ _ v
            (Returns-command _ _ _ v (λ fs. publish-events es _ rows k) (λ fs. tt)))
        (λ v k. tt) (queue_if-events e.ordering _ w h))
    where
      queue_if-events :
          (o : DeliveryOrder) (q : Delivery) (v : World V)
          → v.events ≡ rows
          → Returns (λ _ w'. w'.events ≡ rows) (λ _. Unit {0}) (queue_if V stream_shards o q v)
      queue_if-events ordered q v k =
          unfold queue_if queue_in in Returns-command _ _ _ v (λ fs. k) (λ fs. tt)
      queue_if-events unordered q v k = unfold queue_if in Returns-pure _ _ _ v k

  lost_race-Accepted :
      (tenant : Uuid) (key : Option Text) (w : World V)
      → Returns
          (Accepted tenant key)
          (λ _. Unit {0})
          (lost_race V stream_shards fresh_event fresh_delivery race tenant key w)
  unfolding lost_race or_internal FoundBy
  lost_race-Accepted tenant none w = Returns-raise _ _ w tt
  lost_race-Accepted tenant (some key) w = Returns-bind _ _ _ _ w (
      Returns-modify _ _ _ w (
        Returns-bind _ _ _ _ _ (
          Returns-mono _ _ _ _
            (existing_by_idempotency_key V stream_shards fresh_event fresh_delivery race tenant key
              (race w))
            (λ o v h. Returns-pure _ _ _ v (go o v h)) (λ v h. tt)
            (existing-FoundBy tenant key (race w)))))
    where
      go :
          (o : Option Event) (v : World V)
          → FoundBy tenant key o v
          → Accepted tenant
              (some key)
              (or_internal V stream_shards fresh_event fresh_delivery race o)
              v
      go none v h = refl
      go (some e) v h = h

  same_text_refl : (t : Text) → same_text t t ≡ true
  same_text_refl [] = refl
  same_text_refl (c ∷ t) = ground (arith, same_text_refl t)

  event_of-Holds :
      (tenant : Uuid) (body : Request) (w : World V)
      → V.events_table.find fresh_event w.events
        ≡ some (event_of V stream_shards fresh_event fresh_delivery race tenant body)
      → Holds tenant body.idempotency_key fresh_event w
  event_of-Holds tenant body w h = go body.idempotency_key refl
    where
      go : (key : Option Text) → body.idempotency_key ≡ key → Holds tenant key fresh_event w
      go none e =
          (event_of V stream_shards fresh_event fresh_delivery race tenant body, h, ground arith)
      go (some key) e = (
        event_of V stream_shards fresh_event fresh_delivery race tenant body,
        h,
        ground (arith, e, same_text_refl key),
      )

  insert_event-Accepted :
      (tenant : Uuid) (body : Request) (w : World V)
      → Returns
          (Accepted tenant body.idempotency_key)
          (λ _. Unit {0})
          (insert_event V stream_shards fresh_event fresh_delivery race tenant body w)
  unfolding insert_event commit after_commit
  insert_event-Accepted tenant body w = Returns-bind _ _ _ _ w (
      Returns-query _ _ _ w
        (λ fs. Returns-bind _ _ _ _ _ (
          Returns-modify _ _ _ _
            (Returns-bind _ _ _ _ _ (Returns-exec _ _ _ _ (λ gs. committed _ _) (λ gs. tt)))))
        (λ fs. tt))
    where
      committed :
          (endpoints : List Endpoint) (v : World V)
          → let c =
              commit V stream_shards fresh_event fresh_delivery race tenant body endpoints v in
            Returns
              (Accepted tenant body.idempotency_key)
              (λ _. Unit {0})
              (after_commit V stream_shards fresh_event fresh_delivery race c.0 tenant body
                endpoints c.1)
      committed endpoints v =
          elim (Bool-cases (
            conflicts V stream_shards fresh_event fresh_delivery race tenant body.idempotency_key
              v)) [
                | inl clash ↦
                    unfold commit after_commit in
                    rw (clash) (lost_race-Accepted tenant body.idempotency_key v)
                | inr free ↦
                    unfold commit after_commit in
                    rw (free) (
                      Returns-bind _ _ _ _ _ (
                        Returns-mono _ _ _ _
                          (publish V stream_shards fresh_event fresh_delivery race endpoints _)
                          (λ _ u k.
                            Returns-pure _ _ _ u (event_of-Holds tenant body u (rw k (stored v))))
                          (λ u k. tt) (publish-events endpoints _ _ refl)))
              ]
        where
          stored :
              (u : World V)
              → V.events_table.find fresh_event (
                  V.events_table.save
                    (event_of V stream_shards fresh_event fresh_delivery race tenant body)
                    u.events)
                ≡ some (event_of V stream_shards fresh_event fresh_delivery race tenant body)
          stored u = ground (
            arith,
            V.events_table.find-save fresh_event
                (event_of V stream_shards fresh_event fresh_delivery race tenant body) u.events,
          )

  -- Whatever other requests commit meanwhile: if the ingestion answers with a number, then an event
  -- of the tenant stands under that number when it answers, and it has the request's idempotency key
  -- if there was one; this request has stored it, or another has. The only other answer is 500.
  pub ingest_event-Accepted :
      (tenant : Uuid) (body : Request) (w : World V)
      → Returns
          (Accepted tenant body.idempotency_key)
          (λ _. Unit {0})
          (ingest_event V stream_shards fresh_event fresh_delivery race tenant body w)
  unfolding ingest_event unless_existing check_key FoundBy
  ingest_event-Accepted tenant body w = Returns-bind _ _ _ _ w (
      Returns-mono _ _ _ _
        (check_key V stream_shards fresh_event fresh_delivery race tenant body.idempotency_key w)
        (λ o v h. go o v h) (λ v h. tt) (checked body.idempotency_key refl))
    where
      Known : Option Event → World V → Type 0
      Known none v = Unit {0}
      Known (some e) v = Holds tenant body.idempotency_key e.id v

      checked :
          (key : Option Text)
          → body.idempotency_key ≡ key
          → Returns Known
              (λ _. Unit {0})
              (check_key V stream_shards fresh_event fresh_delivery race tenant key w)
      checked none e = unfold check_key in Returns-pure _ _ _ w tt
      checked (some key) e =
          unfold check_key in
          Returns-mono _ _ _ _
            (existing_by_idempotency_key V stream_shards fresh_event fresh_delivery race tenant key
              w)
            (λ o v h. known key e o v h) (λ v h. tt) (existing-FoundBy tenant key w)
        where
          known :
              (key : Text)
              → body.idempotency_key ≡ some key
              → (o : Option Event) (v : World V) → FoundBy tenant key o v
              → Known o v
          known key e none v h = tt
          known key e (some x) v h = unfold FoundBy in subst (λ k. Holds tenant k x.id v) (sym e) h

      go :
          (o : Option Event) (v : World V)
          → Known o v
          → Returns
              (Accepted tenant body.idempotency_key)
              (λ _. Unit {0})
              (unless_existing V stream_shards fresh_event fresh_delivery race o tenant body v)
      go none v h = unfold unless_existing in insert_event-Accepted tenant body v
      go (some e) v h = unfold unless_existing in Returns-pure _ _ _ v h
