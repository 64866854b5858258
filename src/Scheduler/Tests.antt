-- ===== src/Scheduler/Tests.antt =====
-- The scheduler on an empty queue and in an outage.
use web_hooks.Base.{◌<◌, [], ◌∷◌, arith, refl, true, false, none, some, List, if◌then◌else◌, ◌==◌}
use web_hooks.Db.{Endpoint, Delivery, ordered, active, dead}
use web_hooks.Services.Concrete.{by_lists, world}
use web_hooks.Redis.{SortedSets}
use web_hooks.Redis.Concrete.{lists, zcard, zscore}
use web_hooks.RetryQueue.{Text, schedule_retry}
use web_hooks.RetryQueue.Unary.{unary}
use web_hooks.RetryQueue.Moves.{Text-discrete, Decodes, schedule_retry-Decodes}
use web_hooks.Scheduler.{Scheduler, run_until_sleep}
use web_hooks.Scheduler.Gauges.{Process}
use web_hooks.Scheduler.Runner.{Turn, Loop, run_scheduler}
use web_hooks.Scheduler.Runner.Paced.{EndsAs, run_scheduler-EndsAs}
use web_hooks.Scheduler.Drain.{Drained, run_until_sleep-Drained}

abbrev sets : SortedSets Text
sets = lists Text-discrete

nothing-Decodes : Decodes sets []
nothing-Decodes = record { entry = λ t h. absurd (h (unfold zscore in refl)) }

abbrev waiting : SortedSets.ZSet sets
waiting = (schedule_retry unary sets 8 1 2 3 4000 1000 []).0

-- One delivery waits, due at 5000.
abbrev begin : Scheduler sets
begin = record { delay = 500; retries = waiting; added = [] }

one_waits : zcard Text-discrete waiting < 2
unfolding zcard zscore schedule_retry
one_waits = omega arith

run_until_sleep-Drained_example : Drained sets begin (run_until_sleep sets 2 (λ n. 6000) begin)
run_until_sleep-Drained_example =
    run_until_sleep-Drained sets 2 (λ n. 6000) begin
      (schedule_retry-Decodes unary sets 8 1 2 3 4000 1000 [] nothing-Decodes) one_waits

abbrev endpoint : Endpoint
endpoint = record {
  id = 3;
  tenant_id = 4;
  url = [];
  signing_secret = [];
  ordering = ordered;
  status = active;
  event_types = [];
}

abbrev delivery : Delivery
delivery = record {
  id = 1;
  event_id = 2;
  endpoint_id = 3;
  status = dead;
  attempt_count = 7;
  next_attempt_at = none;
}

-- The tenant 9 had two dead deliveries once, and the breaker of the endpoint 3 was open.
abbrev process : Process by_lists
process = record {
  world = world [] (endpoint ∷ []) [] (delivery ∷ []) [];
  gauges = record {
    retry_queue_depth = 5;
    dlq_size = λ t. if t == 9 then some 2 else none;
    breaker_state = λ k. if k == 3 then some 2 else none;
  };
}

-- The second sweep is met by an exception of Postgres.
abbrev turns : List Turn
turns =
    record { now = 0; checked_at = 0; refreshed_at = 1; is_caught = true }
    ∷ record { now = 5001; checked_at = 5001; refreshed_at = 5002; is_caught = false }
    ∷ []

abbrev first_loop : Loop
first_loop = record { delay = 500; next_gauge_refresh = 0 }

run_scheduler-EndsAs_example : EndsAs turns (run_scheduler by_lists turns first_loop process).0
run_scheduler-EndsAs_example =
    run_scheduler-EndsAs by_lists turns first_loop process (omega arith, omega arith)
