-- ===== src/Api/Tenants.antt =====
-- relay/api/routes/tenants.py: the creation of a tenant. Its id and the random text of its key are
-- parameters, as is the hash of a key.
pub mod Admits
use web_hooks.Base.{
  ℕ, Bool, true, false, ◌&&◌, ◌||◌, Option, none, some, List, [], ◌∷◌, leb, length, ◌==◌,
  if◌then◌else◌,
}
use web_hooks.Db.{Tenant}
use web_hooks.Services.{Services, World}
use web_hooks.RetryQueue.{Text, Uuid}
use web_hooks.Signing.{compare_digest}
use web_hooks.Worker.Monad.{Action, pure, raise, exec, ◌>>=◌, ◌>>◌}
use package.web_hooks.Api.{Reply, answered, refused}
use package.web_hooks.Api.Auth.{Admission, admits, turns_away, type_error, require_admin}

-- `TenantCreate` and `TenantCreated`
pub record TenantCreate : Type 0 where
  pub name : Text
  pub rate_per_sec : Option ℕ
  pub max_inflight : Option ℕ

pub record TenantCreated : Type 0 where
  pub id : Uuid
  pub name : Text
  pub api_key : Text

-- `Field(default=None, ge=1, le=…)`
abbrev pub is_field : (le : ℕ) → Option ℕ → Bool
is_field le none = true
is_field le (some n) = leb 1 n && leb n le

abbrev pub is_valid : TenantCreate → Bool
is_valid body =
    leb 1 (length body.name)
    && leb (length body.name) 200
    && is_field 10000 body.rate_per_sec
    && is_field 1000 body.max_inflight

-- "rk_" and a random text.
abbrev pub generate_api_key : Text → Text
generate_api_key random = b'r' ∷ b'k' ∷ b'_' ∷ random

-- A row with the primary key or the unique hash of another.
abbrev pub clashes : Tenant → Tenant → Bool
clashes t u = (u.id == t.id) || compare_digest u.api_key_hash t.api_key_hash

abbrev pub is_nil : {A : Type 0} → List A → Bool
is_nil [] = true
is_nil (x ∷ xs) = false

module _ (V : Services) (hash_api_key : Text → Text) where
  -- The commit writes the row, or raises IntegrityError.
  abbrev pub insert_if : Tenant → World V → Bool → Bool × World V
  insert_if t w true = (true, record w { tenants = V.tenants_table.save t w.tenants })
  insert_if t w false = (false, w)

  unfoldable pub insert : Tenant → World V → Bool × World V
  insert t w = insert_if t w (is_nil (V.tenants_table.select (clashes t) w.tenants))

  abbrev pub new_tenant : Uuid → Text → TenantCreate → Tenant
  new_tenant id api_key body = record {
    id = id;
    name = body.name;
    api_key_hash = hash_api_key api_key;
    rate_per_sec = body.rate_per_sec;
    max_inflight = body.max_inflight;
  }

  unfoldable pub created : Tenant → Text → Bool → Action (World V) (Reply TenantCreated)
  created t api_key true = pure (answered (record { id = t.id; name = t.name; api_key = api_key }))
  created t api_key false = raise

  unfoldable pub insert_tenant : Tenant → Text → Action (World V) (Reply TenantCreated)
  unfolding insert created
  insert_tenant t api_key = do inserted ← exec (insert t); created t api_key inserted

  abbrev pub if_admitted :
      Admission → Action (World V) (Reply TenantCreated) → Action (World V) (Reply TenantCreated)
  if_admitted admits m = m
  if_admitted (turns_away n) m = pure (refused n)
  if_admitted type_error m = raise

  unfoldable pub create_tenant :
      (admin_token : Text)
      → Option Text
      → Uuid
      → (random : Text) → TenantCreate
      → Action (World V) (Reply TenantCreated)
  unfolding insert_tenant
  create_tenant admin_token authorization id random body =
      if_admitted (require_admin admin_token authorization) (
        if is_valid body
        then insert_tenant (new_tenant id (generate_api_key random) body) (generate_api_key random)
        else pure (refused 422))
