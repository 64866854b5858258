-- ===== src/Worker/Released.antt =====
-- What the `finally` of `deliver_with_gates` gives back.
use web_hooks.Base.{ℕ, ◌≡◌, ◌≢◌, Option, none, some}
use web_hooks.Db.{Endpoint}
use web_hooks.Redis.{read}
use web_hooks.Services.{Services, World}
use package.web_hooks.Worker.{Env}

module _ (V : Services) (X : Env) where
  -- The slot of the token is free, and no lock is held under the other token.
  abbrev pub SlotFree : Endpoint → Option ℕ → World V → Type 0
  SlotFree endpoint none w = Unit {0}
  SlotFree endpoint (some token) w = V.sets.zscore token (w.slots endpoint.tenant_id) ≡ none

  abbrev pub LockFree : Endpoint → Option ℕ → World V → Type 0
  LockFree endpoint none w = Unit {0}
  LockFree endpoint (some token) w = read X.unlocked_at (w.locks endpoint.id) ≢ some token
