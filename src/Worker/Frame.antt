-- ===== src/Worker/Frame.antt =====
-- What the gates leave alone: the deliveries, the record of attempts, the POSTs and the retry queue.
use web_hooks.Base.{ℕ, ◌≡◌, refl, Option, none, some, ◌&&◌, Bool-cases, inl, inr}
use web_hooks.Db.{Endpoint, Delivery}
use web_hooks.Services.{Services, World}
use web_hooks.Breaker.{Decision, State, should_auto_disable, allow, probe, deny}
use web_hooks.Worker.Monad.{
  Result, Returns, Returns-bind, Returns-command, Returns-query, Returns-exec, Returns-pure,
  Returns-raise, Returns-mono,
}
use web_hooks.Worker.{Env, is_settled, is_ordered}
use web_hooks.Worker.Gates.{
  Gate, passed, scalar_one, ask_breaker, spend_token, reserve_slot, free_lock, free_slot, denied,
  rate_gate, by_decision, check_gates, advance_queue, acquire, release_if, cleanup,
}

module _ {V : Services} where
  abbrev pub Calm : World V → World V → Type 0
  Calm w w' =
      (w'.deliveries ≡ w.deliveries)
      × (w'.events ≡ w.events)
      × (w'.attempts ≡ w.attempts)
      × (w'.posts ≡ w.posts)

  -- The retry queue is left alone too.
  abbrev pub Same : World V → World V → Type 0
  Same w w' = Calm w w' × (w'.retries ≡ w.retries)

module _ (V : Services) (X : Env) where
  -- An action that leaves the state like `w`, however it ends.
  abbrev pub KeepsSame : {A : Type 0} → World V → Result A × World V → Type 0
  KeepsSame w = Returns (λ a w'. Same w w') (λ w'. Same w w')

  pub Returns-scalar_one :
      {A : Type 0} (P : A → World V → Type 0) (Q : World V → Type 0) (o : Option A) (v : World V)
      → ((a : A) → o ≡ some a → P a v)
      → Q v
      → Returns P Q (scalar_one V X o v)
  unfolding scalar_one
  Returns-scalar_one P Q none v p q = Returns-raise _ _ v q
  Returns-scalar_one P Q (some a) v p q = Returns-pure _ _ a v (p a refl)

  -- A gate that lets the delivery pass has not touched the endpoints.
  abbrev pub GateKeeps : World V → Gate → World V → Type 0
  GateKeeps w g w' = Same w w' × (g ≡ passed → w'.endpoints ≡ w.endpoints)

  abbrev KeepsGate : World V → Result Gate × World V → Type 0
  KeepsGate w = Returns (λ g w'. GateKeeps w g w') (λ w'. Same w w')

  denied-Same :
      (endpoint : Endpoint) (s : State) (w v : World V)
      → Same w v
      → KeepsGate w (denied V X endpoint s v)
  unfolding denied
  denied-Same endpoint s w v h = Returns-bind _ _ _ _ v (
      Returns-query _ _ _ v
        (λ fs. elim (Bool-cases (should_auto_disable V.sets X.now (v.breakers endpoint.id))) [
          | inl e ↦ rw e (
              Returns-bind _ _ _ _ _
                (Returns-command _ _ _ _ (λ gs. Returns-pure _ _ _ _ (h, λ p. cc)) (λ gs. h)))
          | inr e ↦ rw e (Returns-pure _ _ _ _ (h, λ p. cc))
        ])
        (λ fs. h))

  rate_gate-Same :
      (endpoint : Endpoint) (w v : World V)
      → Same w v
      → v.endpoints ≡ w.endpoints
      → KeepsGate w (rate_gate V X endpoint v)
  unfolding rate_gate spend_token
  rate_gate-Same endpoint w v h e = Returns-bind _ _ _ _ v (
      Returns-query _ _ _ v
        (λ fs. Returns-bind _ _ _ _ _ (
          Returns-scalar_one _ _ _ _
            (λ tenant _.
              Returns-bind _ _ _ _ _
                (Returns-exec _ _ _ _ (λ gs. Returns-pure _ _ _ _ (h, λ p. e)) (λ gs. h)))
            h))
        (λ fs. h))

  by_decision-Same :
      (endpoint : Endpoint) (decision : Decision) (s : State) (w v : World V)
      → Same w v
      → v.endpoints ≡ w.endpoints
      → KeepsGate w (by_decision V X endpoint decision s v)
  unfolding by_decision
  by_decision-Same endpoint deny s w v h e = denied-Same endpoint s w v h
  by_decision-Same endpoint allow s w v h e = rate_gate-Same endpoint w v h e
  by_decision-Same endpoint probe s w v h e = rate_gate-Same endpoint w v h e

  -- Whatever the gates decide and whatever fails in them.
  pub check_gates-Same :
      (endpoint : Endpoint) (w v : World V)
      → Same w v
      → v.endpoints ≡ w.endpoints
      → KeepsGate w (check_gates V X endpoint v)
  unfolding check_gates ask_breaker
  check_gates-Same endpoint w v h e =
      Returns-bind _ _ _ _ v
        (Returns-exec _ _ _ v (λ fs. by_decision-Same endpoint _ _ w _ h e) (λ fs. h))

  -- Reserving a slot touches the slots alone.
  pub acquire-Same :
      (endpoint : Endpoint) (w v : World V)
      → Same w v
      → v.endpoints ≡ w.endpoints
      → Returns
          (λ slot w'. Same w w' × (w'.endpoints ≡ w.endpoints))
          (λ w'. Same w w')
          (acquire V X endpoint v)
  unfolding acquire reserve_slot
  acquire-Same endpoint w v h e = Returns-bind _ _ _ _ v (
      Returns-query _ _ _ v
        (λ fs. Returns-bind _ _ _ _ _ (
          Returns-scalar_one _ _ _ _ (λ tenant _. Returns-exec _ _ _ _ (λ gs. (h, e)) (λ gs. h)) h))
        (λ fs. h))

  release_if-Same :
      (free : ℕ → World V → World V) (token : Option ℕ) (w v : World V)
      → ((t : ℕ) (u : World V) → Same w u → Same w (free t u))
      → Same w v
      → KeepsSame w (release_if V X free token v)
  unfolding release_if
  release_if-Same free none w v f h = Returns-pure _ _ _ v h
  release_if-Same free (some t) w v f h = Returns-command _ _ _ v (λ fs. f t _ h) (λ fs. h)

  -- So does giving back the slot and the lock.
  pub cleanup-Same :
      (endpoint : Endpoint) (slot lock : Option ℕ) (w v : World V)
      → Same w v
      → KeepsSame w (cleanup V X endpoint slot lock v)
  unfolding cleanup free_slot free_lock
  cleanup-Same endpoint slot lock w v h = Returns-bind _ _ _ _ v (
      Returns-mono _ _ _ _ (release_if V X (free_slot V X endpoint.tenant_id) slot v)
        (λ _ u k. release_if-Same (free_lock V X endpoint.id) lock w u (λ t x y. y) k) (λ u k. k)
        (release_if-Same (free_slot V X endpoint.tenant_id) slot w v (λ t x y. y) h))

  -- What is done after an attempt, with the world after it as `w`.
  pub advance_queue-Same :
      (endpoint : Endpoint) (row : Delivery) (w v : World V)
      → Same w v
      → KeepsSame w (advance_queue V X endpoint row v)
  unfolding advance_queue
  advance_queue-Same endpoint row w v h =
      elim (Bool-cases (is_ordered endpoint.ordering && is_settled row.status)) [
        | inl e ↦ rw e (Returns-command _ _ _ v (λ fs. h) (λ fs. h))
        | inr e ↦ rw e (Returns-pure _ _ _ v h)
      ]
