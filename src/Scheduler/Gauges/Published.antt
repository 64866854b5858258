-- ===== src/Scheduler/Gauges/Published.antt =====
-- What a refresh publishes.
use web_hooks.Base.{ℕ, ◌+◌, ◌&&◌, true, ◌==◌, length, ◌≡◌, List, [], ◌∷◌, if◌then◌else◌}
use web_hooks.Db.{Endpoint}
use web_hooks.Services.{Services, World}
use web_hooks.Api.{is_dead}
use web_hooks.RetryQueue.{Uuid, retry_queue_depth}
use web_hooks.Breaker.{State, get_state}
use package.web_hooks.Scheduler.Gauges.Sets.{or_else, counted, exported, set_breakers}
use package.web_hooks.Scheduler.Gauges.{
  Gauges, group_count, set_sizes, dead_tenants, active_endpoints,
}
use package.web_hooks.Scheduler.Gauges.Active.{active_in}

module _ (V : Services) where
  -- Nothing is written.
  abbrev pub Reads : World V → World V → Type 0
  Reads w w' = w' ≡ record w { faults = w'.faults }

  abbrev pub states : World V → Uuid → State
  states w k = (get_state V.sets (w.breakers k)).0

  -- The dead deliveries of an endpoint, and those of a tenant's endpoints, counted.
  abbrev pub dead_count_of : World V → Uuid → ℕ
  dead_count_of w k =
      length
        (V.deliveries_table.select (λ d. (d.endpoint_id == k) && is_dead d.status) w.deliveries)

  abbrev pub dead_count_in : World V → Uuid → List Endpoint → ℕ
  dead_count_in w t [] = 0
  dead_count_in w t (e ∷ es) =
      (if e.tenant_id == t then dead_count_of w e.id else 0) + dead_count_in w t es

  abbrev pub dead_count : World V → Uuid → ℕ
  dead_count w t = dead_count_in w t (V.endpoints_table.select (λ e. true) w.endpoints)

  -- The gauges that a sweep of a world leaves, given those before it.
  abbrev pub IsPublished : World V → Gauges → Gauges → Type 0
  IsPublished w g g' =
      (g'.retry_queue_depth ≡ V.text_sets.zcard w.retries)
      × ((t : Uuid) → g'.dlq_size t ≡ or_else (counted (dead_count w t)) (g.dlq_size t))
      × ((k : Uuid)
          → g'.breaker_state k ≡ (
              if active_in (V.endpoints_table.find k w.endpoints)
              then exported (states w k) (g.breaker_state k)
              else g.breaker_state k))

  -- The gauges before the breakers' are set.
  abbrev sized : World V → Gauges → Gauges
  sized w g =
      set_sizes (group_count (dead_tenants V w))
        (record g { retry_queue_depth = retry_queue_depth V.texts V.text_sets w.retries })

  swept : World V → Gauges → Gauges
  swept w g = set_breakers (states w) (active_endpoints V w) (sized w g)
