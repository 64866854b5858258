-- ===== src/Api/Tests.antt =====
-- The handlers at concrete inputs: the endpoint 3 of the tenant 4, with the dead delivery 1.
use web_hooks.Base.{◌≡◌, false, none, some, [], ◌∷◌, ◌++◌, refl}
use web_hooks.Db.{
  Tenant, Endpoint, Event, Delivery, AgentAction, ordered, active, dead, replay_dlq, approved,
  ActionStatus,
}
use web_hooks.Db.Concrete.{find, select, without}
use web_hooks.Services.{World}
use web_hooks.Services.Concrete.{by_lists, world}
use web_hooks.RetryQueue.{Text}
use web_hooks.Worker.Monad.{Returns, ok}
use web_hooks.Signing.{compare_digest}
use web_hooks.Api.{answered, contains, is_dead, owned_endpoint_ids}
use web_hooks.Api.Listings.{given, list_deliveries, list_dlq}
use web_hooks.Api.Listings.Isolated.{ShowsPage, meets, listings-ShowsPage}
use web_hooks.Api.Auth.{bearer, require_tenant}
use web_hooks.Api.App.{post_event}
use web_hooks.Api.App.Posted.{Posted, post_event-Posted}
use web_hooks.Api.Tenants.{TenantCreate, create_tenant, new_tenant, generate_api_key}
use web_hooks.Api.Tenants.Admits.{create_tenant-Admits}
use web_hooks.Api.Dlq.{replay}
use web_hooks.Api.Dlq.Replay.{OnlyOwn, replay-Stays}
use web_hooks.Api.Endpoints.{Patch}
use web_hooks.Api.Events.{Request, ingest_event}
use web_hooks.Api.Events.Ingest.{Accepted, ingest_event-Accepted}

abbrev tenant : Tenant
tenant = record {
  id = 4;
  name = [];
  api_key_hash = b'k' ∷ [];
  rate_per_sec = none;
  max_inflight = none;
}

abbrev endpoint : Endpoint
endpoint = record {
  id = 3;
  tenant_id = 4;
  url = [];
  signing_secret = [];
  ordering = ordered;
  status = active;
  event_types = [];
}

abbrev event : Event
event = record { id = 2; tenant_id = 4; event_type = []; payload = []; idempotency_key = none }

abbrev delivery : Delivery
delivery = record {
  id = 1;
  event_id = 2;
  endpoint_id = 3;
  status = dead;
  attempt_count = 7;
  next_attempt_at = none;
}

abbrev proposed : AgentAction
proposed = record {
  id = 9;
  diagnosis_id = 8;
  endpoint_id = 3;
  action = replay_dlq;
  reason = [];
  status = ActionStatus.pending;
  decided_at = none;
}

abbrev settled : AgentAction
settled = record proposed { status = approved; decided_at = some 500 }

abbrev begin : AgentAction → World by_lists
begin a = world (tenant ∷ []) (endpoint ∷ []) (event ∷ []) (delivery ∷ []) (a ∷ [])

abbrev key : Text
key = b'k' ∷ []

abbrev body : Request
body = record { event_type = b'e' ∷ []; payload = []; idempotency_key = some key }

abbrev no_patch : Patch
no_patch = record { url = none; status = none; event_types = none }

foreign : (a : AgentAction) → contains (owned_endpoint_ids by_lists 5 (begin a)) 3 ≡ false
unfolding contains owned_endpoint_ids select without
foreign a = refl

post_event-Posted_example :
    Returns
      (Posted by_lists
        (λ t. t)
        8
        20
        (λ k. 21)
        (λ w. w)
        (some (bearer ++ key))
        body
        (begin proposed))
      (λ w. Unit {0})
      (post_event by_lists
        (λ t. t)
        8
        20
        (λ k. 21)
        (λ w. w)
        (some (bearer ++ key))
        body
        (begin proposed))
post_event-Posted_example =
    post_event-Posted by_lists (λ t. t) 8 20 (λ k. 21) (λ w. w) (some (bearer ++ key)) body
      (begin proposed)

replay-Stays_example :
    Returns
      (λ r w'. OnlyOwn by_lists 8 3 delivery 4 (begin proposed) w')
      (OnlyOwn by_lists 8 3 delivery 4 (begin proposed))
      (replay by_lists 8 4 3 [] (begin proposed))
replay-Stays_example =
    replay-Stays by_lists 8 3 delivery 4 [] (begin proposed) (unfold find in refl)

ingest_event-Accepted_example :
    Returns
      (Accepted by_lists 8 20 (λ k. 21) (λ w. w) 4 (some key))
      (λ w. Unit {0})
      (ingest_event by_lists 8 20 (λ k. 21) (λ w. w) 4 body (begin proposed))
ingest_event-Accepted_example =
    ingest_event-Accepted by_lists 8 20 (λ k. 21) (λ w. w) 4 body (begin proposed)

listings-ShowsPage_example :
    ShowsPage by_lists 4 50
      (meets by_lists (λ k. k) (λ k. k) (given dead))
      (begin proposed)
      (list_deliveries by_lists (λ k. k) (λ k. k) 4 (some 3) (given dead) 50 0)
    × ShowsPage by_lists 4 50
        (λ d. is_dead d.status)
        (begin proposed)
        (list_dlq by_lists (λ k. k) (λ k. k) 4 (some 3) 50 0)
listings-ShowsPage_example =
    listings-ShowsPage by_lists (λ k. k) (λ k. k) 4 (some 3) (given dead) 50 0 (begin proposed)

abbrev customer : TenantCreate
customer = record { name = b'n' ∷ []; rate_per_sec = some 10; max_inflight = none }

abbrev admin : Text
admin = b'a' ∷ []

create_tenant-Admits_example :
    let t = new_tenant by_lists (λ t. t) 9 (generate_api_key (b'x' ∷ [])) customer in
    let w' : World by_lists = record (begin proposed) {
      tenants = by_lists.tenants_table.save t (begin proposed).tenants;
    } in
    (create_tenant by_lists
        (λ t. t)
        admin
        (some (bearer ++ admin))
        9
        (b'x' ∷ [])
        customer
        (begin proposed)
      ≡ (
        ok (
            answered
              (record { id = 9; name = b'n' ∷ []; api_key = b'r' ∷ b'k' ∷ b'_' ∷ b'x' ∷ [] })),
        w',
      ))
    × Returns
        (λ r _. r ≡ answered t)
        (λ _. Unit {0})
        (require_tenant by_lists (λ t. t) (some (bearer ++ generate_api_key (b'x' ∷ []))) w')
create_tenant-Admits_example =
    create_tenant-Admits by_lists (λ t. t) admin 9 (b'x' ∷ []) customer (begin proposed) refl refl
      (unfold select in unfold without in unfold compare_digest in refl) refl
