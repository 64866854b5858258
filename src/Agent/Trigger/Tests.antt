-- ===== src/Agent/Trigger/Tests.antt =====
-- The budgets at concrete inputs: ten runs a day, one an hour for each endpoint.
use web_hooks.Base.{◌≡◌, refl, none, some, List, [], ◌∷◌}
use web_hooks.Breaker.{transition, consecutive_failures, closed, opened}
use web_hooks.Agent.Trigger.{Budgets, handle_breaker_event}
use web_hooks.Agent.Trigger.Budget.{Arrival, runs_on}

abbrev unused : Budgets
unused = record { ran = λ k. none; used = λ d. 0 }

-- Five failures of the endpoint 3, and its breaker opening a minute later.
abbrev arrivals : List Arrival
arrivals =
    record { now = 1000; day = 0; endpoint = 3; payload = some (consecutive_failures 1000 5) }
    ∷ record {
      now = 61000;
      day = 0;
      endpoint = 3;
      payload = some (transition closed opened 61000 10);
    }
    ∷ []

-- One run: the second event finds the claim.
one_run : runs_on 10 3600000 0 arrivals unused ≡ 1
unfolding runs_on handle_breaker_event
one_run = refl
