-- ===== src/Scheduler/Gauges.antt =====
-- relay/delivery/retry_scheduler.py: `refresh_gauges`, and the gauges of relay/metrics.py that it sets. A
-- gauge with a label keeps the value of each label that was ever set.
pub mod Sets
pub mod Active
pub mod Published
use web_hooks.Base.{ℕ, ◌+◌, true, ◌&&◌, Option, some, List, [], ◌∷◌, ◌++◌, ◌==◌, if◌then◌else◌}
use web_hooks.Db.{Endpoint, Delivery}
use web_hooks.Services.{Services, World, update}
use web_hooks.RetryQueue.{Uuid, retry_queue_depth}
use web_hooks.Breaker.{State, closed, half_open, opened, get_state}
use web_hooks.Worker.{is_active}
use web_hooks.Worker.Monad.{Result, Action, pure, modify, query, ◌>>=◌, ◌>>◌}
use web_hooks.Api.{is_dead, endpoint_ids}

pub record Gauges : Type 0 where
  pub retry_queue_depth : ℕ
  pub dlq_size : Uuid → Option ℕ
  pub breaker_state : Uuid → Option ℕ

-- `BREAKER_STATE_VALUES`
abbrev pub breaker_state_value : State → ℕ
breaker_state_value closed = 0
breaker_state_value half_open = 1
breaker_state_value opened = 2

-- `GROUP BY … COUNT`: how often each key occurs.
unfoldable pub tally : Uuid → List (Uuid × ℕ) → List (Uuid × ℕ)
tally k [] = (k, 1) ∷ []
tally k ((j, n) ∷ rows) =
    let rest = tally k rows in if j == k then (j, n + 1) ∷ rows else (j, n) ∷ rest

unfoldable pub group_count : List Uuid → List (Uuid × ℕ)
unfolding tally
group_count [] = []
group_count (k ∷ ks) = tally k (group_count ks)

abbrev pub tenant_for_each : Uuid → List Delivery → List Uuid
tenant_for_each tenant [] = []
tenant_for_each tenant (d ∷ ds) = tenant ∷ tenant_for_each tenant ds

-- The gauges after `labels(…).set(…)` for each row.
unfoldable pub set_sizes : List (Uuid × ℕ) → Gauges → Gauges
set_sizes [] g = g
set_sizes ((k, n) ∷ rows) g = set_sizes rows (record g { dlq_size = update g.dlq_size k (some n) })

unfoldable pub set_breaker : Uuid → State → Gauges → Gauges
set_breaker k closed g = g
set_breaker k half_open g = record g {
  breaker_state = update g.breaker_state k (some (breaker_state_value half_open));
}
set_breaker k opened g = record g {
  breaker_state = update g.breaker_state k (some (breaker_state_value opened));
}

module _ (V : Services) where
  -- The process of the scheduler: the services and its own metrics.
  pub record Process : Type 0 where
    pub world : World V
    pub gauges : Gauges

  abbrev pub lifted : {A : Type 0} → Gauges → Result A × World V → Result A × Process
  lifted g (r, w) = (r, record { world = w; gauges = g })

  unfoldable pub on_world : {A : Type 0} → Action (World V) A → Action Process A
  on_world m p = lifted p.gauges (m p.world)

  unfoldable pub set_gauges : (Gauges → Gauges) → Action Process (Unit {0})
  unfolding modify
  set_gauges f = modify (λ p. record p { gauges = f p.gauges })

  -- The join of the endpoints with their dead deliveries, as the tenant of each row.
  unfoldable pub dead_rows : List Endpoint → V.deliveries_table.Rows → List Uuid
  dead_rows [] rows = []
  dead_rows (e ∷ es) rows =
      tenant_for_each e.tenant_id
        (V.deliveries_table.select (λ d. (d.endpoint_id == e.id) && is_dead d.status) rows)
      ++ dead_rows es rows

  unfoldable pub dead_tenants : World V → List Uuid
  unfolding dead_rows
  dead_tenants w = dead_rows (V.endpoints_table.select (λ e. true) w.endpoints) w.deliveries

  unfoldable pub active_endpoints : World V → List Uuid
  active_endpoints w = endpoint_ids (V.endpoints_table.select (λ e. is_active e.status) w.endpoints)

  unfoldable pub export_breakers : List Uuid → Action Process (Unit {0})
  unfolding on_world set_gauges set_breaker
  export_breakers [] = pure tt
  export_breakers (k ∷ ks) = do
    state ← on_world (query (λ w. get_state V.sets (w.breakers k)))
    set_gauges (set_breaker k state.0)
    export_breakers ks

  unfoldable pub refresh_gauges : Action Process (Unit {0})
  unfolding on_world set_gauges set_sizes group_count export_breakers dead_tenants active_endpoints
  refresh_gauges = do
    depth ← on_world (query (λ w. retry_queue_depth V.texts V.text_sets w.retries))
    set_gauges (λ g. record g { retry_queue_depth = depth })
    rows ← on_world (query (λ w. group_count (dead_tenants w)))
    set_gauges (set_sizes rows)
    endpoints ← on_world (query active_endpoints)
    export_breakers endpoints
