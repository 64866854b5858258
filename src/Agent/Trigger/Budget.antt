-- ===== src/Agent/Trigger/Budget.antt =====
-- The budgets bound the runs of the agent, whatever events arrive.
use web_hooks.Base.{
  ◌⊎◌, ℕ, ◌+◌, ◌≤◌, ◌<◌, ◌≡◌, refl, Option, none, some, List, [], ◌∷◌, ◌==◌, if◌then◌else◌, arith,
  length,
}
use web_hooks.Redis.{read}
use web_hooks.RetryQueue.{Uuid}
use web_hooks.Breaker.{Message}
use web_hooks.Agent.Trigger.{Budgets, is_claimed, claim_budget, triggered_by, handle_breaker_event}

-- An event with the clock, the day and the endpoint at which it is handled.
pub record Arrival : Type 0 where
  pub now : ℕ
  pub day : ℕ
  pub endpoint : Uuid
  pub payload : Option Message

module _ (per_day claim_ttl : ℕ) where
  -- Events one after another: how many runs start on the given day.
  unfoldable pub runs_on : ℕ → List Arrival → Budgets → ℕ
  runs_on d [] b = 0
  runs_on d (a ∷ rest) b =
      let (runs, after) =
        handle_breaker_event per_day claim_ttl a.now a.day a.endpoint a.payload b in
      let later = runs_on d rest after in if a.day == d then length runs + later else later

  one_event :
      (d : ℕ) (a : Arrival) (b : Budgets)
      → let r = handle_breaker_event per_day claim_ttl a.now a.day a.endpoint a.payload b in
        (b.used d ≤ r.1.used d)
        × ((if a.day == d then length r.0 else 0) + b.used d ≤ r.1.used d)
        × ((length r.0 ≡ 0) ⊎ (r.1.used a.day ≤ per_day))
  unfolding handle_breaker_event claim_budget is_claimed triggered_by
  one_event d a b = ground arith

  -- Whatever events arrive, for whatever endpoints and in whatever order, no more runs start on a
  -- day than its budget has left, and none if it has nothing left.
  pub runs_on-le-per_day :
      (d : ℕ) (arrivals : List Arrival) (b : Budgets)
      → (runs_on d arrivals b + b.used d ≤ per_day) ⊎ (runs_on d arrivals b ≡ 0)
  unfolding runs_on
  runs_on-le-per_day d [] b = ground arith
  runs_on-le-per_day d (a ∷ rest) b =
      let r = handle_breaker_event per_day claim_ttl a.now a.day a.endpoint a.payload b in
      ground (arith, one_event d a b, runs_on-le-per_day d rest r.1)

  -- After a run for an endpoint, every event of it within the time of the claim starts none, and
  -- leaves the budgets as they are.
  pub claimed_endpoint_waits :
      (now later day later_day : ℕ) (k : Uuid) (message : Option Message) (b : Budgets)
      → (claim_budget per_day claim_ttl now day k b).0 ≡ none
      → later < now + claim_ttl
      → handle_breaker_event per_day claim_ttl later later_day k message
          (claim_budget per_day claim_ttl now day k b).1
        ≡ ([], (claim_budget per_day claim_ttl now day k b).1)
  unfolding handle_breaker_event claim_budget is_claimed triggered_by read
  claimed_endpoint_waits now later day later_day k none b h early = refl
  claimed_endpoint_waits now later day later_day k (some m) b h early = ground (arith, h, early)
