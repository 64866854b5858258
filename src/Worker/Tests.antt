-- ===== src/Worker/Tests.antt =====
-- A worker's run at concrete inputs: the delivery 1 of the event 2 to the endpoint 3 of the tenant 4.
use web_hooks.Base.{ℕ, ◌≡◌, ◌⊎◌, Bool, true, false, none, some, [], ◌∷◌, refl, List}
use web_hooks.Db.{Tenant, Endpoint, Event, Delivery, ordered, active, pending}
use web_hooks.Db.Concrete.{find}
use web_hooks.Services.{World}
use web_hooks.Services.Concrete.{by_lists, world}
use web_hooks.Sender.{responded}
use web_hooks.Retry.{Parsed, seconds}
use web_hooks.Worker.{Env, process_delivery}
use web_hooks.Worker.Monad.{Returns, ok}
use web_hooks.Worker.Gates.{deliver_with_gates, handle_message}
use web_hooks.Worker.Attempt.{Attempted, Ending, process_delivery-Returns}
use web_hooks.Worker.Completes.Gated.{deliver_with_gates_completes}
use web_hooks.Worker.Loop.{Round}
use web_hooks.Worker.Safety.{IsSafe}
use web_hooks.Worker.Safety.Acknowledged.{deliver_with_gates-Safe, handle_message-Safe}

abbrev tenant : Tenant
tenant = record { id = 4; name = []; api_key_hash = []; rate_per_sec = some 5; max_inflight = none }

abbrev endpoint : Endpoint
endpoint = record {
  id = 3;
  tenant_id = 4;
  url = [];
  signing_secret = [];
  ordering = ordered;
  status = active;
  event_types = [];
}

abbrev event : Event
event = record { id = 2; tenant_id = 4; event_type = []; payload = []; idempotency_key = none }

abbrev delivery : Delivery
delivery = record {
  id = 1;
  event_id = 2;
  endpoint_id = 3;
  status = pending;
  attempt_count = 0;
  next_attempt_at = none;
}

abbrev parsed : ℕ → Parsed
parsed n = seconds n

-- A receiver that answers 503.
abbrev env : Env
env = record {
  settings = record {
    stream_shards = 8;
    default_tenant_rate_per_sec = 50;
    default_tenant_max_inflight = 20;
    max_attempts = 7;
  };
  Header = ℕ;
  parse = parsed;
  client = λ post. responded (record { status_code = 503; body = []; retry_after_header = none });
  latency = 30;
  jitter = 1000;
  now = 1000;
  settled_at = 1050;
  scheduled_at = 1052;
  recorded_at = 1060;
  stored_at = 1055;
  locked_at = 1000;
  unlocked_at = 1070;
  lock_token = 11;
  slot_token = 12;
  member = 13;
}

abbrev begin : World by_lists
begin = world (tenant ∷ []) (endpoint ∷ []) (event ∷ []) (delivery ∷ []) []

process_delivery-Returns_example :
    Returns
      (λ ack w'.
        (ack ≡ true)
        × ((row : Delivery) × Attempted by_lists env delivery endpoint event begin w' row
            × Ending by_lists env delivery begin w' row))
      (λ w'. Unit {0})
      (process_delivery by_lists env 1 begin)
process_delivery-Returns_example =
    process_delivery-Returns by_lists env delivery endpoint event begin (unfold find in refl)
      (unfold find in refl) (unfold find in refl) refl

deliver_with_gates-Safe_example :
    Returns
      (λ a w. IsSafe by_lists env delivery endpoint event w)
      (λ w. Unit {0})
      (deliver_with_gates by_lists env 1 begin)
deliver_with_gates-Safe_example =
    deliver_with_gates-Safe by_lists env delivery endpoint event refl begin
      ((unfold find in refl), (unfold find in refl), (unfold find in refl)) refl

handle_message-Safe_example :
    Returns
      (λ a w'.
        (w'.acked ≡ (deliver_with_gates by_lists env 1 begin).1.acked)
        ⊎ IsSafe by_lists env delivery endpoint event w')
      (λ w'. w'.acked ≡ (deliver_with_gates by_lists env 1 begin).1.acked)
      (handle_message by_lists env 77 1 begin)
handle_message-Safe_example =
    handle_message-Safe by_lists env delivery endpoint event refl 77 begin
      ((unfold find in refl), (unfold find in refl), (unfold find in refl)) refl

abbrev rounds : List Round
rounds =
    record {
      time = 0;
      reclaimed_at = 10;
      pages = record { is_last = true; entries = [] } ∷ [];
      entries = record { message_id = 77; delivery_id = 1; env = env } ∷ [];
    }
    ∷ record { time = 2000; reclaimed_at = 2010; pages = []; entries = [] }
    ∷ []

-- The first call of Redis fails.
abbrev outage : World by_lists
outage = record begin { faults = true ∷ [] }

deliver_with_gates_completes_example :
    (ack : Bool) × ((deliver_with_gates by_lists env 1 begin).0 ≡ ok ack)
deliver_with_gates_completes_example =
    deliver_with_gates_completes by_lists env delivery endpoint tenant begin (λ h e. cc) refl
      (unfold find in refl) (unfold find in refl) (unfold find in refl)

-- A later call fails, in the slot the delivery acquired.
abbrev outage_in_slot : World by_lists
outage_in_slot = record begin { faults = false ∷ false ∷ false ∷ false ∷ false ∷ true ∷ [] }
