-- ===== src/Api/App.antt =====
-- relay/api/main.py: what stands around the handlers, an error's answer and the health check, and the request of
-- `POST /v1/events` from its header to its handler.
pub mod Posted
use web_hooks.Base.{ℕ, Bool, true, false, ◌&&◌, Option, none, some, leb, length, if◌then◌else◌}
use web_hooks.Db.{Tenant}
use web_hooks.Services.{Services, World}
use web_hooks.RetryQueue.{Text, Uuid}
use web_hooks.Worker.Monad.{Result, ok, raised, Action, pure, query, ◌>>=◌}
use package.web_hooks.Api.{Reply, answered, refused}
use package.web_hooks.Api.Auth.{require_tenant}
use package.web_hooks.Api.Events.{Request, ingest_event}

-- What a client gets: the status, and the body of an answer. The code and the message of an error are left out.
pub data Response (A : Type 0) : Type 0 where
  success : ℕ → A → Response A
  error : ℕ → Response A

-- The exception handlers; an exception without one is an internal error.
abbrev pub response_of : {A : Type 0} → (status : ℕ) → Result (Reply A) → Response A
response_of status (ok (answered a)) = success status a
response_of status (ok (refused n)) = error n
response_of status raised = error 500

-- `EventCreate`: the lengths of its fields.
abbrev pub is_short : Option Text → Bool
is_short none = true
is_short (some key) = leb (length key) 200

abbrev pub is_event : Request → Bool
is_event body =
    leb 1 (length body.event_type)
    && leb (length body.event_type) 200
    && is_short body.idempotency_key

pub record Health : Type 0 where
  pub healthy : Bool
  pub postgres : Bool
  pub redis : Bool

-- A check is true if its call returns a true value.
abbrev pub check_of : Result Bool → Bool
check_of (ok b) = b
check_of raised = false

abbrev pub healthz_response : (postgres redis : Bool) → Response Health
healthz_response postgres redis =
    success (if postgres && redis then 200 else 503)
      (record { healthy = postgres && redis; postgres = postgres; redis = redis })

module _ (V : Services) where
  -- Both services are asked, the second also where the first does not answer.
  unfoldable pub healthz : World V → Response Health × World V
  healthz w =
      let (postgres, w') = query {V = V} (λ v. true) w in
      let (redis, w'') = query {V = V} (λ v. true) w' in
      (healthz_response (check_of postgres) (check_of redis), w'')

module _ (V : Services) (hash_api_key : Text → Text) (stream_shards : ℕ) (fresh_event : Uuid)
    (fresh_delivery : Uuid → Uuid) (race : World V → World V) where
  unfoldable pub by_tenant : Request → Reply Tenant → Action (World V) (Reply Uuid)
  by_tenant body (refused n) = pure (refused n)
  by_tenant body (answered t) =
      if is_event body
      then ingest_event V stream_shards fresh_event fresh_delivery race t.id body
      else pure (refused 422)

  -- The tenant is found before the body is looked at.
  unfoldable pub post_event : Option Text → Request → Action (World V) (Reply Uuid)
  unfolding by_tenant
  post_event authorization body = do
    tenant ← require_tenant V hash_api_key authorization
    by_tenant body tenant
