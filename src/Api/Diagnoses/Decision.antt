-- ===== src/Api/Diagnoses/Decision.antt =====
-- An action is decided once, and only by its tenant.
use web_hooks.Base.{ℕ, ◌≡◌, refl, Bool, true, false, Option, none, some, List}
use web_hooks.Db.{Endpoint, Delivery, AgentAction, approved, rejected}
use web_hooks.Services.{Services, World}
use web_hooks.RetryQueue.{Uuid}
use web_hooks.Worker.Monad.{
  Action, query, ◌>>=◌, Returns, Returns-bind, Returns-query, Returns-pure,
}
use package.web_hooks.Api.{Reply, answered, refused, contains, owned_endpoint_ids}
use package.web_hooks.Api.Diagnoses.Executed.{Executed}
use package.web_hooks.Api.Diagnoses.{
  is_pending, decided, find_action, approve_found, approve_action, reject_found, reject_action,
}

-- A request that was refused with the given status and has changed nothing but the run of faults.
abbrev pub Refused : {V : Services} {A : Type 0} → ℕ → World V → Reply A → World V → Type 0
Refused status w (answered a) w' = ⊥
Refused status w (refused n) w' = (n ≡ status) × (w' ≡ record w { faults = w'.faults })

module _ (V : Services) (stream_shards now : ℕ) where
  -- Both handlers look the action up and pass it on.
  with_action :
      (P : Reply AgentAction → World V → Type 0) (Q : World V → Type 0)
      (f : Option AgentAction → Action (World V) (Reply AgentAction)) (tenant k : Uuid)
      (w : World V)
      → ((fs : List Bool)
          → Returns P Q (
              f
                (find_action V stream_shards now (owned_endpoint_ids V tenant w) k w)
                (record w { faults = fs })))
      → ((fs : List Bool) → Q (record w { faults = fs }))
      → Returns P Q (
          (query (owned_endpoint_ids V tenant) >>= λ owned.
          query (find_action V stream_shards now owned k) >>= f)
            w)
  unfolding find_action owned_endpoint_ids
  with_action P Q f tenant k w h q =
      Returns-bind _ _ _ _ w
        (Returns-query _ _ _ w (λ fs. Returns-bind _ _ _ _ _ (Returns-query _ _ _ _ h q)) q)

  decided_found :
      (owned : List Uuid) (a : AgentAction) (w : World V)
      → V.actions_table.find a.id w.actions ≡ some a
      → contains owned a.endpoint_id ≡ true
      → find_action V stream_shards now owned a.id w ≡ some a
  unfolding find_action
  decided_found owned a w h own = rw (find_action, h, own) refl

  foreign_found :
      (owned : List Uuid) (a : AgentAction) (w : World V)
      → V.actions_table.find a.id w.actions ≡ some a
      → contains owned a.endpoint_id ≡ false
      → find_action V stream_shards now owned a.id w ≡ none
  unfolding find_action
  foreign_found owned a w h own = rw (find_action, h, own) refl

  -- An action of an endpoint of the tenant that has been decided stays as it is: a later approval
  -- of it, and a later rejection, is refused with 409 and changes nothing, or a call of a service
  -- fails and it changes nothing.
  pub decided_action_final :
      (tenant : Uuid) (a : AgentAction) (w : World V)
      → V.actions_table.find a.id w.actions ≡ some a
      → contains (owned_endpoint_ids V tenant w) a.endpoint_id ≡ true
      → is_pending a.status ≡ false
      → Returns
          (Refused 409 w)
          (λ w'. w' ≡ record w { faults = w'.faults })
          (approve_action V stream_shards now tenant a.id w)
        × Returns
            (Refused 409 w)
            (λ w'. w' ≡ record w { faults = w'.faults })
            (reject_action V stream_shards now tenant a.id w)
  unfolding approve_action reject_action
  decided_action_final tenant a w there own done =
      let found = decided_found (owned_endpoint_ids V tenant w) a w there own in
      (
        with_action _ _ _ tenant a.id w
            (λ fs. rw (found, approve_found, done) (Returns-pure _ _ _ _ (refl, refl)))
            (λ fs. refl),
        with_action _ _ _ tenant a.id w
            (λ fs. rw (found, reject_found, done) (Returns-pure _ _ _ _ (refl, refl))) (λ fs. refl),
      )

  -- An action of an endpoint that the tenant does not own is neither approved nor rejected: both
  -- are refused with 404 and change nothing, or a call of a service fails and nothing changes.
  pub foreign_action-Refused :
      (tenant : Uuid) (a : AgentAction) (w : World V)
      → V.actions_table.find a.id w.actions ≡ some a
      → contains (owned_endpoint_ids V tenant w) a.endpoint_id ≡ false
      → Returns
          (Refused 404 w)
          (λ w'. w' ≡ record w { faults = w'.faults })
          (approve_action V stream_shards now tenant a.id w)
        × Returns
            (Refused 404 w)
            (λ w'. w' ≡ record w { faults = w'.faults })
            (reject_action V stream_shards now tenant a.id w)
  unfolding approve_action reject_action
  foreign_action-Refused tenant a w there own =
      let found = foreign_found (owned_endpoint_ids V tenant w) a w there own in
      (
        with_action _ _ _ tenant a.id w
            (λ fs. rw (found, approve_found) (Returns-pure _ _ _ _ (refl, refl))) (λ fs. refl),
        with_action _ _ _ tenant a.id w
            (λ fs. rw (found, reject_found) (Returns-pure _ _ _ _ (refl, refl))) (λ fs. refl),
      )

  -- The answer to an approval: the action with its new status and the time of the decision; and the
  -- action is executed.
  abbrev pub Approved : Delivery → AgentAction → Endpoint → Reply AgentAction → World V → Type 0
  Approved d a endpoint (refused n) w' = ⊥
  Approved d a endpoint (answered b) w' =
      (b ≡ decided V stream_shards now approved a)
      × Executed V stream_shards now d a.action a endpoint w'

  -- The answer to a rejection: the action is stored so, and nothing else has changed.
  abbrev pub Rejected : AgentAction → World V → Reply AgentAction → World V → Type 0
  Rejected a w (refused n) w' = ⊥
  Rejected a w (answered b) w' =
      (b ≡ decided V stream_shards now rejected a)
      × (V.actions_table.find a.id w'.actions ≡ some (decided V stream_shards now rejected a))
      × (w' ≡ record w { actions = w'.actions; faults = w'.faults })
