-- ===== src/Api/Auth.antt =====
-- relay/api/auth.py: who a request comes from. The hash of a key is a parameter.
pub mod Admitted
use web_hooks.Base.{ℕ, Bool, true, false, Option, none, some, List, [], ◌∷◌, ◌==◌, if◌then◌else◌}
use web_hooks.Db.{Tenant}
use web_hooks.Services.{Services, World}
use web_hooks.RetryQueue.{Text}
use web_hooks.Signing.{compare_digest, compare_texts}
use web_hooks.Worker.Monad.{Action, pure, raise, query, ◌>>=◌, ◌>>◌}
use package.web_hooks.Api.{Reply, answered, refused}

-- "Bearer " as code points.
abbrev pub bearer : Text
bearer = b'B' ∷ b'e' ∷ b'a' ∷ b'r' ∷ b'e' ∷ b'r' ∷ b' ' ∷ []

-- What follows the prefix, if the text starts with it.
unfoldable pub remove_prefix : Text → Text → Option Text
remove_prefix [] t = some t
remove_prefix (c ∷ p) [] = none
remove_prefix (c ∷ p) (d ∷ t) = let rest = remove_prefix p t in if c == d then rest else none

-- `_bearer_token`: an absent header, and one of another scheme, is unauthorized.
unfoldable pub bearer_token : Option Text → Option Text
bearer_token none = none
bearer_token (some authorization) = remove_prefix bearer authorization

module _ (V : Services) (hash_api_key : Text → Text) where
  -- `scalar_one_or_none`, and the answer to a key that no tenant has.
  unfoldable pub only_tenant : List Tenant → Action (World V) (Reply Tenant)
  only_tenant [] = pure (refused 401)
  only_tenant (t ∷ []) = pure (answered t)
  only_tenant (t ∷ u ∷ ts) = raise

  unfoldable pub tenant_of : Option Text → Action (World V) (Reply Tenant)
  unfolding only_tenant
  tenant_of none = pure (refused 401)
  tenant_of (some key) = do
    found ← query (λ w.
        V.tenants_table.select (λ t. compare_digest t.api_key_hash (hash_api_key key)) w.tenants)
    only_tenant found

  unfoldable pub require_tenant : Option Text → Action (World V) (Reply Tenant)
  unfolding tenant_of
  require_tenant authorization = tenant_of (bearer_token authorization)

-- `require_admin` returns, refuses with a status, or raises.
pub data Admission : Type 0 where
  admits : Admission
  turns_away : ℕ → Admission
  type_error : Admission

abbrev pub by_comparison : Option Bool → Admission
by_comparison none = type_error
by_comparison (some true) = admits
by_comparison (some false) = turns_away 401

unfoldable pub require_admin : (admin_token : Text) → Option Text → Admission
unfolding bearer_token compare_texts
require_admin admin_token authorization = elim (bearer_token authorization) [
  | none ↦ turns_away 401
  | some token ↦ by_comparison (compare_texts token admin_token)
]
