-- ===== src/Api/Auth/Admitted.antt =====
-- Only the holder of a tenant's key acts as the tenant.
use web_hooks.Base.{
  ◌≡◌, ◌↔◌, refl, Bool, true, false, Option, none, some, List, [], ◌∷◌, ◌++◌, All, arith,
  Option-cases, inl, inr,
}
use web_hooks.Db.{Tenant}
use web_hooks.Services.{Services, World}
use web_hooks.RetryQueue.{Text}
use web_hooks.Signing.{is_ascii, compare_digest, compare_texts}
use web_hooks.Signing.Verify.{compare_digest_sound, compare_digest_refl}
use web_hooks.Worker.Monad.{Returns, Returns-bind, Returns-query, Returns-pure, Returns-raise}
use package.web_hooks.Api.{Reply, answered, refused}
use package.web_hooks.Api.Auth.{
  bearer, remove_prefix, bearer_token, only_tenant, tenant_of, require_tenant, admits,
  by_comparison, require_admin,
}

remove_prefix_sound : (p t rest : Text) → remove_prefix p t ≡ some rest → t ≡ p ++ rest
unfolding remove_prefix
remove_prefix_sound [] t rest h = ground arith
remove_prefix_sound (c ∷ p) [] rest h = absurd (cc)
remove_prefix_sound (c ∷ p) (d ∷ t) rest h = ground (arith, remove_prefix_sound p t rest)

pub remove_prefix_append : (p rest : Text) → remove_prefix p (p ++ rest) ≡ some rest
unfolding remove_prefix
remove_prefix_append [] rest = refl
remove_prefix_append (c ∷ p) rest = ground (arith, remove_prefix_append p rest)

bearer_token_sound :
    (header : Option Text) (key : Text)
    → bearer_token header ≡ some key
    → header ≡ some (bearer ++ key)
unfolding bearer_token
bearer_token_sound none key h = absurd (cc)
bearer_token_sound (some t) key h = rw (remove_prefix_sound bearer t key h) refl

module _ (V : Services) (hash_api_key : Text → Text) where
  -- The header carries a key of which the tenant's row has the hash.
  abbrev pub Admitted : Option Text → Reply Tenant → World V → Type 0
  Admitted header (refused n) w = n ≡ 401
  Admitted header (answered t) w =
      (key : Text) × (header ≡ some (bearer ++ key))
      × (t.api_key_hash ≡ hash_api_key key)
      × (V.tenants_table.find t.id w.tenants ≡ some t)

  only_tenant-Admitted :
      (header : Option Text) (key : Text) (ts : List Tenant) (w : World V)
      → header ≡ some (bearer ++ key)
      → All
          (λ t.
            (compare_digest t.api_key_hash (hash_api_key key) ≡ true)
            × (V.tenants_table.find t.id w.tenants ≡ some t))
          ts
      → Returns (Admitted header) (λ _. Unit {0}) (only_tenant V hash_api_key ts w)
  unfolding only_tenant
  only_tenant-Admitted header key [] w e h = Returns-pure _ _ _ w refl
  only_tenant-Admitted header key (t ∷ []) w e h =
      Returns-pure _ _ _ w
        (key, e, compare_digest_sound t.api_key_hash (hash_api_key key) h.0.0, h.0.1)
  only_tenant-Admitted header key (t ∷ u ∷ ts) w e h = Returns-raise _ _ w tt

  -- A request is taken to come from a tenant only if its header is "Bearer " and a key of which that
  -- tenant's row has the hash; the only other answer is 401.
  pub require_tenant-Admitted :
      (header : Option Text) (w : World V)
      → Returns (Admitted header) (λ _. Unit {0}) (require_tenant V hash_api_key header w)
  unfolding require_tenant tenant_of
  require_tenant-Admitted header w = elim (Option-cases (bearer_token header)) [
    | inl absent ↦ rw (absent, tenant_of) (Returns-pure _ _ _ w refl)
    | inr (key, given) ↦
        rw (given, tenant_of)
          (Returns-bind _ _ _ _ w (
            Returns-query _ _ _ w
              (λ fs. only_tenant-Admitted header key _ _ (bearer_token_sound header key given) (
                V.tenants_table.select_sound (λ t. compare_digest t.api_key_hash (hash_api_key key))
                  w.tenants))
              (λ fs. tt)))
  ]

compare_texts_iff : (t u : Text) → (compare_texts t u ≡ some true) ↔ ((t ≡ u) × (is_ascii u ≡ true))
unfolding compare_texts
compare_texts_iff t u = ground (arith, compare_digest_sound t u, compare_digest_refl u)

by_comparison_iff : (o : Option Bool) → (by_comparison o ≡ admits) ↔ (o ≡ some true)
by_comparison_iff none = (λ h. cc, λ h. cc)
by_comparison_iff (some true) = (λ h. refl, λ h. refl)
by_comparison_iff (some false) = (λ h. cc, λ h. cc)

-- The admin token, and nothing else, passes; and it does only if it is ASCII.
pub require_admin_iff :
    (admin_token : Text) (header : Option Text)
    → (require_admin admin_token header ≡ admits)
      ↔ ((header ≡ some (bearer ++ admin_token)) × (is_ascii admin_token ≡ true))
unfolding require_admin
require_admin_iff admin_token header = (passes, passed)
  where
    passes :
        require_admin admin_token header ≡ admits
        → (header ≡ some (bearer ++ admin_token)) × (is_ascii admin_token ≡ true)
    passes h = elim (Option-cases (bearer_token header)) [
      | inl absent ↦ absurd (ground (arith, h, absent))
      | inr (key, given) ↦
          let (same, ascii) =
            (compare_texts_iff key admin_token).0
              ((by_comparison_iff (compare_texts key admin_token)).0 (ground (arith, h, given))) in
          (rw (← same) (bearer_token_sound header key given), ascii)
    ]

    passed :
        (header ≡ some (bearer ++ admin_token)) × (is_ascii admin_token ≡ true)
        → require_admin admin_token header ≡ admits
    passed h =
        let given : bearer_token header ≡ some admin_token =
          rw (h.0) (unfold bearer_token in remove_prefix_append bearer admin_token) in
        let equal : compare_texts admin_token admin_token ≡ some true =
          (compare_texts_iff admin_token admin_token).1 (refl, h.1) in
        rw (given, require_admin, equal) refl
