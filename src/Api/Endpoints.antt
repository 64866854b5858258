-- ===== src/Api/Endpoints.antt =====
-- relay/api/routes/endpoints.py: the operations on one endpoint of a tenant. The deletion, which the
-- tables here do not have, and the listing are left out.
pub mod Owned
use web_hooks.Base.{ℕ, Option, none, some, List, ◌==◌, if◌then◌else◌}
use web_hooks.Db.{Endpoint, EndpointStatus, DeliveryOrder, active}
use web_hooks.Services.{Services, World}
use web_hooks.RetryQueue.{Text, Uuid}
use web_hooks.Breaker.{State, get_state}
use web_hooks.Worker.Monad.{Action, pure, command, query, ◌>>=◌, ◌>>◌}
use package.web_hooks.Api.{Reply, answered, refused, reset_in}

-- `EndpointCreate` and `EndpointPatch`
pub record Create : Type 0 where
  pub url : Text
  pub ordering : DeliveryOrder
  pub event_types : List Text

pub record Patch : Type 0 where
  pub url : Option Text
  pub status : Option EndpointStatus
  pub event_types : Option (List Text)

abbrev pub or_kept : {A : Type 0} → Option A → A → A
or_kept none a = a
or_kept (some b) a = b

-- The loop over the fields of a patch.
unfoldable pub patched : Patch → Endpoint → Endpoint
patched body e = record e {
  url = or_kept body.url e.url;
  status = or_kept body.status e.status;
  event_types = or_kept body.event_types e.event_types;
}

module _ (V : Services) where
  abbrev pub owned : Uuid → Option Endpoint → Option Endpoint
  owned tenant none = none
  owned tenant (some e) = if e.tenant_id == tenant then some e else none

  -- `_get_owned`, and what a handler does with the endpoint that it finds.
  unfoldable pub with_found :
      {A : Type 0}
      → (Endpoint → Action (World V) (Reply A))
      → Option Endpoint
      → Action (World V) (Reply A)
  with_found f none = pure (refused 404)
  with_found f (some e) = f e

  unfoldable pub with_owned :
      {A : Type 0}
      → Uuid
      → Uuid
      → (Endpoint → Action (World V) (Reply A))
      → Action (World V) (Reply A)
  unfolding with_found
  with_owned tenant k f = do
    found ← query (λ w. owned tenant (V.endpoints_table.find k w.endpoints))
    with_found f found

  abbrev pub save_endpoint : Endpoint → World V → World V
  save_endpoint e w = record w { endpoints = V.endpoints_table.save e w.endpoints }

  -- `fresh` is the new number, `signing_secret` the generated secret.
  unfoldable pub create_endpoint : Uuid → Text → Uuid → Create → Action (World V) (Reply Endpoint)
  create_endpoint fresh signing_secret tenant body = do
    let e : Endpoint = record {
      id = fresh;
      tenant_id = tenant;
      url = body.url;
      signing_secret = signing_secret;
      ordering = body.ordering;
      status = active;
      event_types = body.event_types;
    }
    command (save_endpoint e)
    pure (answered e)

  unfoldable pub get_endpoint : Uuid → Uuid → Action (World V) (Reply Endpoint)
  unfolding with_owned
  get_endpoint tenant k = with_owned tenant k (λ e. pure (answered e))

  unfoldable pub patch_endpoint : Uuid → Uuid → Patch → Action (World V) (Reply Endpoint)
  unfolding with_owned patched
  patch_endpoint tenant k body =
      with_owned tenant k
        (λ e. command (save_endpoint (patched body e)) >> pure (answered (patched body e)))

  unfoldable pub get_breaker :
      Uuid → Uuid → Action (World V) (Reply (State × ℕ × Option ℕ × Option ℕ))
  unfolding with_owned
  get_breaker tenant k =
      with_owned tenant k (λ e. query (λ w. answered (get_state V.sets (w.breakers k))))

  unfoldable pub reset_breaker_endpoint : Uuid → Uuid → Action (World V) (Reply (Unit {0}))
  unfolding with_owned
  reset_breaker_endpoint tenant k =
      with_owned tenant k (λ e. command (reset_in V k) >> pure (answered tt))
