-- ===== src/Api/Endpoints/Owned.antt =====
-- Tenants do not see or change each other's endpoints.
use web_hooks.Base.{◌≡◌, refl, none}
use web_hooks.Db.{Endpoint}
use web_hooks.Services.{Services, World}
use web_hooks.RetryQueue.{Uuid}
use web_hooks.Worker.Monad.{Action, Returns, Returns-bind, Returns-query, Returns-pure}
use package.web_hooks.Api.{Reply, answered, refused}
use package.web_hooks.Api.Endpoints.{
  Patch, owned, with_found, with_owned, get_endpoint, patch_endpoint, get_breaker,
  reset_breaker_endpoint,
}

-- Refused with 404, with nothing changed but the run of faults.
abbrev pub NotFound : {V : Services} {A : Type 0} → World V → Reply A → World V → Type 0
NotFound w (answered a) w' = ⊥
NotFound w (refused n) w' = (n ≡ 404) × (w' ≡ record w { faults = w'.faults })

module _ (V : Services) where
  abbrev pub Unchanged : World V → World V → Type 0
  Unchanged w w' = w' ≡ record w { faults = w'.faults }

  with_owned-NotFound :
      {A : Type 0} (tenant k : Uuid) (f : Endpoint → Action (World V) (Reply A)) (w : World V)
      → owned V tenant (V.endpoints_table.find k w.endpoints) ≡ none
      → Returns (NotFound w) (Unchanged w) (with_owned V tenant k f w)
  unfolding with_owned with_found
  with_owned-NotFound tenant k f w h = Returns-bind _ _ _ _ w (
      Returns-query _ _ _ w (λ fs. rw (h, with_found) (Returns-pure _ _ _ _ (refl, refl)))
        (λ fs. refl))

  -- An endpoint that is not the tenant's, and one that is not there, is answered alike: each of
  -- the four handlers refuses with 404 and changes nothing, or a call of a service fails and
  -- nothing changes.
  pub foreign_endpoint-NotFound :
      (tenant k : Uuid) (body : Patch) (w : World V)
      → owned V tenant (V.endpoints_table.find k w.endpoints) ≡ none
      → Returns (NotFound w) (Unchanged w) (get_endpoint V tenant k w)
        × Returns (NotFound w) (Unchanged w) (patch_endpoint V tenant k body w)
        × Returns (NotFound w) (Unchanged w) (get_breaker V tenant k w)
        × Returns (NotFound w) (Unchanged w) (reset_breaker_endpoint V tenant k w)
  unfolding get_endpoint patch_endpoint get_breaker reset_breaker_endpoint
  foreign_endpoint-NotFound tenant k body w h = (
    with_owned-NotFound tenant k _ w h,
    with_owned-NotFound tenant k _ w h,
    with_owned-NotFound tenant k _ w h,
    with_owned-NotFound tenant k _ w h,
  )
