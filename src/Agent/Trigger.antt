-- ===== src/Agent/Trigger.antt =====
-- relay/agent/trigger.py: which breaker events lead to a diagnosis, and the budgets of the agent.
-- Times are milliseconds. A run of the agent is an entry in a list.
pub mod Budget
pub mod Listener
mod Tests
use web_hooks.Base.{
  ℕ, ◌+◌, Bool, true, false, Option, none, some, List, [], ◌∷◌, ltb, if◌then◌else◌,
}
use web_hooks.Redis.{Expiring, read}
use web_hooks.RetryQueue.{Uuid}
use web_hooks.Breaker.{Message, transition, consecutive_failures, closed, opened, half_open}
use web_hooks.Services.{update}

-- The keys of the budgets. The key of a day expires two days after its first use, when no claim of
-- that day can follow, so its expiry is left out.
pub record Budgets : Type 0 where
  pub ran : Uuid → Option (Expiring ℕ)
  pub used : ℕ → ℕ

pub data Denial : Type 0 where
  endpoint_rate_limited daily_budget_exhausted : Denial

-- `settings.agent_max_runs_per_day`, and the milliseconds of `per_hour_seconds`.
module _ (per_day claim_ttl : ℕ) where
  -- `SET … NX EX`: the claim is new if the key is absent or has expired.
  unfoldable pub is_claimed : ℕ → Uuid → Budgets → Bool
  unfolding read
  is_claimed now k b = elim (read now (b.ran k)) [ none ↦ false | some _ ↦ true ]

  -- The reason for a denial, or none, and the keys after it; `day` is the day of the clock.
  unfoldable pub claim_budget : ℕ → ℕ → Uuid → Budgets → Option Denial × Budgets
  unfolding is_claimed
  claim_budget now day k b =
      if is_claimed now k b
      then (some endpoint_rate_limited, b)
      else (let n = b.used day + 1 in
          let counted = update b.used day n in
          if ltb per_day n
          then (some daily_budget_exhausted, record b { ran = update b.ran k none; used = counted })
          else (
            none,
            record b {
              ran = update b.ran k (some (record { value = 1; deadline = now + claim_ttl }));
              used = counted;
            },
          ))

  -- What makes the agent run.
  pub data Cause : Type 0 where
    breaker_open too_many_failures : Cause

  unfoldable pub triggered_by : Message → Option Cause
  triggered_by (transition s opened now n) = some breaker_open
  triggered_by (transition s closed now n) = none
  triggered_by (transition s half_open now n) = none
  triggered_by (consecutive_failures now n) = some too_many_failures

  -- `handle_breaker_event` from the decoded payload: the runs that it starts. A payload that is not
  -- JSON is none.
  unfoldable pub handle_breaker_event :
      ℕ → ℕ → Uuid → Option Message → Budgets → List (Uuid × Cause) × Budgets
  unfolding claim_budget triggered_by
  handle_breaker_event now day k none b = ([], b)
  handle_breaker_event now day k (some m) b = elim (triggered_by m) [
    | none ↦ ([], b)
    | some cause ↦
        let (denial, after) = claim_budget now day k b in
        (elim denial [ none ↦ (k, cause) ∷ [] | some _ ↦ [] ], after)
  ]
