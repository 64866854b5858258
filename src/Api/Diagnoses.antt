-- ===== src/Api/Diagnoses.antt =====
-- relay/api/routes/diagnoses.py: the decision on an action that the agent proposed.
pub mod Executed
pub mod Decision
use web_hooks.Base.Sequences.{sort_by}
use web_hooks.Base.{
  ℕ, Bool, true, false, ◌&&◌, Option, none, some, List, [], ◌∷◌, ◌==◌, if◌then◌else◌,
}
use web_hooks.Db.{
  Endpoint, Delivery, AgentAction, Diagnosis, acknowledged, ActionKind, ActionStatus,
  pause_endpoint, replay_dlq, pending, approved, rejected, paused,
}
use web_hooks.Services.{Services, World}
use web_hooks.RetryQueue.{Uuid}
use web_hooks.Worker.Monad.{Action, pure, command, query, ◌>>=◌, ◌>>◌}
use package.web_hooks.Api.{
  Reply, answered, refused, contains, is_dead, owned_endpoint_ids, one_or_raise, revive_all,
  stream_in, reset_in,
}

abbrev pub is_pending : ActionStatus → Bool
is_pending ActionStatus.pending = true
is_pending _ = false

module _ (V : Services) (stream_shards now : ℕ) where
  -- The action, if it is there and concerns an endpoint of the tenant.
  unfoldable pub find_action : List Uuid → Uuid → World V → Option AgentAction
  find_action owned k w = elim (V.actions_table.find k w.actions) [
    | none ↦ none
    | some a ↦ if contains owned a.endpoint_id then some a else none
  ]

  abbrev pub save_action : AgentAction → World V → World V
  save_action a w = record w { actions = V.actions_table.save a w.actions }

  abbrev pub decided : ActionStatus → AgentAction → AgentAction
  decided status a = record a { status = status; decided_at = some now }

  unfoldable pub dead_of : Uuid → World V → List Delivery
  dead_of endpoint_id w =
      V.deliveries_table.select (λ d. (d.endpoint_id == endpoint_id) && is_dead d.status)
        w.deliveries

  -- The loop after the commit.
  unfoldable pub stream_all : List Delivery → Action (World V) (Unit {0})
  stream_all [] = pure tt
  stream_all (d ∷ ds) = do command (stream_in V stream_shards d); stream_all ds

  -- `if action.action == "replay_dlq" and replayed: …`
  unfoldable pub restart : Uuid → List Delivery → Action (World V) (Unit {0})
  unfolding stream_all
  restart endpoint_id [] = pure tt
  restart endpoint_id (d ∷ ds) = do command (reset_in V endpoint_id); stream_all (d ∷ ds)

  -- The action is executed, and its decision is in the same commit.
  unfoldable pub execute : ActionKind → AgentAction → Endpoint → Action (World V) (Unit {0})
  unfolding restart
  execute pause_endpoint a endpoint = command (λ w. record w {
    endpoints = V.endpoints_table.save (record endpoint { status = paused }) w.endpoints;
    actions = V.actions_table.save (decided approved a) w.actions;
  })
  execute replay_dlq a endpoint = do
    ds ← query (dead_of endpoint.id)
    command (λ w. record w {
      deliveries = revive_all V ds w.deliveries;
      actions = V.actions_table.save (decided approved a) w.actions;
    })
    restart endpoint.id ds

  unfoldable pub approve_found : Option AgentAction → Action (World V) (Reply AgentAction)
  unfolding execute
  approve_found none = pure (refused 404)
  approve_found (some a) =
      if is_pending a.status
      then (do
        found ← query (λ w. V.endpoints_table.find a.endpoint_id w.endpoints)
        endpoint ← one_or_raise V found
        execute a.action a endpoint
        pure (answered (decided approved a)))
      else pure (refused 409)

  unfoldable pub approve_action : Uuid → Uuid → Action (World V) (Reply AgentAction)
  unfolding approve_found
  approve_action tenant action_id = do
    owned ← query (owned_endpoint_ids V tenant)
    found ← query (find_action owned action_id)
    approve_found found

  unfoldable pub reject_found : Option AgentAction → Action (World V) (Reply AgentAction)
  reject_found none = pure (refused 404)
  reject_found (some a) =
      if is_pending a.status
      then (do command (save_action (decided rejected a)); pure (answered (decided rejected a)))
      else pure (refused 409)

  unfoldable pub reject_action : Uuid → Uuid → Action (World V) (Reply AgentAction)
  unfolding reject_found
  reject_action tenant action_id = do
    owned ← query (owned_endpoint_ids V tenant)
    found ← query (find_action owned action_id)
    reject_found found

  -- `_get_owned`, and what a handler does with the diagnosis.
  unfoldable pub find_diagnosis : List Uuid → Uuid → World V → Option Diagnosis
  find_diagnosis owned k w = elim (V.diagnoses_table.find k w.diagnoses) [
    | none ↦ none
    | some g ↦ if contains owned g.endpoint_id then some g else none
  ]

  unfoldable pub with_diagnosis :
      (Diagnosis → Action (World V) (Reply Diagnosis))
      → Option Diagnosis
      → Action (World V) (Reply Diagnosis)
  with_diagnosis f none = pure (refused 404)
  with_diagnosis f (some g) = f g

  unfoldable pub get_owned :
      Uuid
      → Uuid
      → (Diagnosis → Action (World V) (Reply Diagnosis))
      → Action (World V) (Reply Diagnosis)
  unfolding with_diagnosis
  get_owned tenant k f = do
    owned ← query (owned_endpoint_ids V tenant)
    found ← query (find_diagnosis owned k)
    with_diagnosis f found

  unfoldable pub get_diagnosis : Uuid → Uuid → Action (World V) (Reply Diagnosis)
  unfolding get_owned
  get_diagnosis tenant k = get_owned tenant k (λ g. pure (answered g))

  abbrev pub as_acknowledged : Diagnosis → Diagnosis
  as_acknowledged g = record g { status = acknowledged }

  unfoldable pub acknowledge : Uuid → Uuid → Action (World V) (Reply Diagnosis)
  unfolding get_owned
  acknowledge tenant k = get_owned tenant k (λ g.
      command (λ w. record w { diagnoses = V.diagnoses_table.save (as_acknowledged g) w.diagnoses })
      >> pure (answered (as_acknowledged g)))

  unfoldable pub actions_found :
      (created_at : Uuid → ℕ) → Option Diagnosis → Action (World V) (Reply (List AgentAction))
  unfolding sort_by
  actions_found created_at none = pure (refused 404)
  actions_found created_at (some g) = do
    rows ← query (λ w. V.actions_table.select (λ a. a.diagnosis_id == g.id) w.actions)
    pure (answered (sort_by (λ a. created_at a.id) rows))

  unfoldable pub list_actions :
      (created_at : Uuid → ℕ) → Uuid → Uuid → Action (World V) (Reply (List AgentAction))
  unfolding actions_found
  list_actions created_at tenant k = do
    owned ← query (owned_endpoint_ids V tenant)
    found ← query (find_diagnosis owned k)
    actions_found created_at found
