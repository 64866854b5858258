-- ===== src/Agent/Trigger/Listener/Tests.antt =====
-- The trigger at concrete inputs: ten runs a day, one an hour for each endpoint.
use web_hooks.Base.{◌+◌, ◌≤◌, ◌≡◌, ◌⊎◌, refl, true, false, none, some, List, [], ◌∷◌, arith}
use web_hooks.Db.Concrete.{find}
use web_hooks.Api.{one_or_raise}
use web_hooks.Worker.Monad.{◌>>=◌, pure, query, command, modify}
use web_hooks.Agent.Graph.{diagnose_and_record}
use web_hooks.Agent.Graph.Samples.{setting, outside, begin, endpoint}
use package.web_hooks.Agent.Trigger.{is_claimed}
use package.web_hooks.Agent.Trigger.Listener.{
  Trigger, Listener, silent, message, not_json, event, Connection, refused, subscribed,
  left_by_exception, run_trigger, handle_event, not_object,
}
use package.web_hooks.Agent.Trigger.Listener.Bounded.{runs_of, run_trigger-le-per_day}
use package.web_hooks.Agent.Trigger.Listener.Confined.{OnlyAgents, run_trigger-OnlyAgents}
use package.web_hooks.Agent.Trigger.Listener.Diagnosed.{Diagnosed, handle_event-Diagnosed}

abbrev ten_a_day : Trigger
ten_a_day = record {
  setting = setting;
  per_day = 10;
  claim_ttl = 3600000;
  fresh = λ n. 7 + n;
  outside = λ n m. outside;
  llm = λ n. some 0;
}

abbrev idle : Listener ten_a_day
idle = record { world = begin; budgets = record { ran = λ k. none; used = λ d. 0 }; runs = [] }

-- A subscription that breaks, then one with noise, five failures of the endpoint 3, and its breaker
-- opening a minute later.
abbrev heard : List Connection
heard =
    refused true
    ∷ subscribed (
        silent
        ∷ message 0 0 true not_json
        ∷ message 1000 0 true (event false true (some 3))
        ∷ message 61000 0 true (event true false (some 3))
        ∷ [])
    ∷ []

run_trigger-OnlyAgents_example :
    OnlyAgents setting begin (run_trigger ten_a_day heard 1000 idle).1.world
run_trigger-OnlyAgents_example = run_trigger-OnlyAgents ten_a_day heard 1000 idle

run_trigger-le-per_day_example :
    (runs_of 0 (run_trigger ten_a_day heard 1000 idle).1.runs + 0 ≤ 10 + 0)
    ⊎ (runs_of 0 (run_trigger ten_a_day heard 1000 idle).1.runs ≡ 0)
run_trigger-le-per_day_example = run_trigger-le-per_day ten_a_day 0 heard 1000 idle

handle_event-Diagnosed_example :
    Diagnosed ten_a_day 0 3 idle (handle_event ten_a_day 1000 0 (event true false (some 3)) idle)
unfolding is_claimed
handle_event-Diagnosed_example =
    handle_event-Diagnosed ten_a_day 1000 0 true false 3 idle {e = endpoint} refl
      (unfold find in refl) refl refl (omega arith)

-- One run, and the second event finds the claim.
heard_once : runs_of 0 (run_trigger ten_a_day heard 1000 idle).1.runs ≡ 1
unfolding run_trigger ◌>>=◌ pure query diagnose_and_record command one_or_raise modify find
heard_once = refl

-- JSON that is no object ends the trigger.
killed :
    (run_trigger ten_a_day (subscribed (message 0 0 true not_object ∷ []) ∷ []) 1000 idle).0
    ≡ left_by_exception ∷ []
unfolding run_trigger
killed = refl
