-- ===== src/Services/Concrete.antt =====
-- The services by lists, for runs at concrete inputs.
use web_hooks.Base.{none, List, [], ℕ_discrete}
use web_hooks.Redis.Concrete.{lists}
use web_hooks.Redis.Sequence.{queues}
use web_hooks.RetryQueue.Unary.{unary}
use web_hooks.RetryQueue.Moves.{Text-discrete}
use web_hooks.Db.Concrete.{lists as rows}
use web_hooks.Db.{Tenant, Endpoint, Event, Delivery, AgentAction}
use web_hooks.Breaker.{fresh}
use package.web_hooks.Services.{Services, World}

abbrev pub by_lists : Services
by_lists = record {
  texts = unary;
  sets = lists ℕ_discrete;
  text_sets = lists Text-discrete;
  lists = queues;
  tenants_table = rows (λ r. r.id);
  endpoints_table = rows (λ r. r.id);
  events_table = rows (λ r. r.id);
  deliveries_table = rows (λ r. r.id);
  actions_table = rows (λ r. r.id);
  diagnoses_table = rows (λ r. r.id);
}

-- A world of the given rows in which nothing has happened yet.
abbrev pub world :
    List Tenant → List Endpoint → List Event → List Delivery → List AgentAction → World by_lists
world tenants endpoints events deliveries actions = record {
  tenants = tenants;
  endpoints = endpoints;
  events = events;
  deliveries = deliveries;
  actions = actions;
  diagnoses = [];
  attempts = [];
  breakers = λ k. fresh (lists ℕ_discrete);
  published = [];
  buckets = λ k. none;
  slots = λ k. [];
  locks = λ k. none;
  queues = λ k. [];
  retries = [];
  streamed = [];
  gated = [];
  outcomes = [];
  posts = [];
  acked = [];
  faults = [];
}
