-- ===== src/Api/Tenants/Admits.antt =====
-- A new tenant's key is its alone.
use web_hooks.Base.{
  ap, sym, ◌∙◌, ◌≡◌, refl, true, some, List, [], ◌∷◌, ◌++◌, All, Elem, arith, inl, inr, Bool-cases,
  ◌==◌,
}
use web_hooks.Db.{Tenant}
use web_hooks.Services.{Services, World}
use web_hooks.RetryQueue.{Text, Uuid}
use web_hooks.Signing.{is_ascii, compare_digest}
use web_hooks.Signing.Verify.{compare_digest_sound, compare_digest_refl}
use web_hooks.Worker.Monad.{
  ok, exec, pure, ◌>>=◌, Returns, Returns-bind, Returns-query, Returns-pure, Returns-raise,
}
use package.web_hooks.Api.{answered}
use package.web_hooks.Api.Auth.{bearer, bearer_token, only_tenant, tenant_of, require_tenant}
use package.web_hooks.Api.Auth.Admitted.{remove_prefix_append, require_admin_iff}
use package.web_hooks.Api.Tenants.{
  TenantCreate, is_valid, clashes, generate_api_key, is_nil, insert, new_tenant, created,
  insert_tenant, create_tenant,
}

All-map :
    {A : Type 0} (P Q : A → Type 0) (xs : List A) → ((x : A) → P x → Q x) → All P xs → All Q xs
All-map P Q [] f h = tt
All-map P Q (x ∷ xs) f h = (f x h.0, All-map P Q xs f h.1)

is_nil-none : {A : Type 0} (a : A) (xs : List A) → is_nil xs ≡ true → Elem a xs → ⊥
is_nil-none a [] h e = e
is_nil-none a (x ∷ xs) h e = absurd (cc)

bearer_token-bearer : (key : Text) → bearer_token (some (bearer ++ key)) ≡ some key
unfolding bearer_token
bearer_token-bearer key = remove_prefix_append bearer key

module _ (V : Services) (hash_api_key : Text → Text) where
  -- The table has the row, and no other with its hash.
  abbrev pub Alone : Tenant → World V → Type 0
  Alone t w =
      (V.tenants_table.find t.id w.tenants ≡ some t)
      × ((k : Uuid) (u : Tenant)
          → V.tenants_table.find k w.tenants ≡ some u
          → u.api_key_hash ≡ t.api_key_hash
          → u ≡ t)

  clash : (t u : Tenant) → u.api_key_hash ≡ t.api_key_hash → clashes t u ≡ true
  clash t u same =
      let equal : compare_digest u.api_key_hash t.api_key_hash ≡ true =
        rw same (compare_digest_refl t.api_key_hash) in
      ground (arith, equal)

  inserted-Alone :
      (t : Tenant) (w : World V)
      → is_nil (V.tenants_table.select (clashes t) w.tenants) ≡ true
      → Alone t (record w { tenants = V.tenants_table.save t w.tenants })
  inserted-Alone t w free = (
    ground (arith, V.tenants_table.find-save t.id t w.tenants),
    λ k u there same. elim (Bool-cases (t.id == k)) [
      | inl own ↦ ground (arith, V.tenants_table.find-save k t w.tenants, there, own)
      | inr other ↦ absurd (
          is_nil-none u _ free (
            V.tenants_table.select_complete (clashes t) k u w.tenants
              (ground (arith, V.tenants_table.find-save k t w.tenants, there, other))
              (clash t u same)))
    ],
  )

  only_tenant-Alone :
      (t : Tenant) (ts : List Tenant) (w : World V)
      → All (λ u. u ≡ t) ts
      → Elem t ts
      → Returns (λ r _. r ≡ answered t) (λ _. Unit {0}) (only_tenant V hash_api_key ts w)
  unfolding only_tenant
  only_tenant-Alone t [] w h e = absurd e
  only_tenant-Alone t (u ∷ []) w h e = Returns-pure _ _ _ w (ap answered h.0)
  only_tenant-Alone t (u ∷ v ∷ ts) w h e = Returns-raise _ _ w tt

  require_tenant-Alone :
      (t : Tenant) (key : Text) (w : World V)
      → t.api_key_hash ≡ hash_api_key key
      → Alone t w
      → Returns
          (λ r _. r ≡ answered t)
          (λ _. Unit {0})
          (require_tenant V hash_api_key (some (bearer ++ key)) w)
  unfolding require_tenant tenant_of
  require_tenant-Alone t key w own alone =
      rw (bearer_token-bearer key, tenant_of)
        (Returns-bind _ _ _ _ w (
          Returns-query _ _ _ w
            (λ fs.
              only_tenant-Alone t _ _
                (All-map _ _ _
                  (λ u h.
                    alone.1 u.id u h.1
                      (compare_digest_sound u.api_key_hash (hash_api_key key) h.0 ∙ sym own))
                  (V.tenants_table.select_sound _ w.tenants))
                (V.tenants_table.select_complete _ t.id t w.tenants alone.0
                  (rw own (compare_digest_refl (hash_api_key key)))))
            (λ fs. tt)))

  -- Where the administrator's token is ASCII and the administrator creates a tenant with a good body,
  -- no row has its id or its key's hash and no call fails, the row is written and the key is answered; and a request with that key is then taken to
  -- come from that tenant, unless it raises.
  pub create_tenant-Admits :
      (admin_token : Text) (id : Uuid) (random : Text) (body : TenantCreate) (w : World V)
      → is_ascii admin_token ≡ true
      → is_valid body ≡ true
      → is_nil (
          V.tenants_table.select
            (clashes (new_tenant V hash_api_key id (generate_api_key random) body))
            w.tenants)
        ≡ true
      → w.faults ≡ []
      → let key = generate_api_key random in
        let t = new_tenant V hash_api_key id key body in
        let w' : World V = record w { tenants = V.tenants_table.save t w.tenants } in
        (create_tenant V hash_api_key admin_token (some (bearer ++ admin_token)) id random body w
          ≡ (ok (answered (record { id = id; name = body.name; api_key = key })), w'))
        × Returns
            (λ r _. r ≡ answered t)
            (λ _. Unit {0})
            (require_tenant V hash_api_key (some (bearer ++ key)) w')
  unfolding create_tenant insert_tenant insert created ◌>>=◌ exec pure
  create_tenant-Admits admin_token id random body w ascii good free calm = (
    rw
        (
          (require_admin_iff admin_token (some (bearer ++ admin_token))).1 (refl, ascii),
          good,
          calm,
          free,
        )
        refl,
    require_tenant-Alone _ _ _ refl (inserted-Alone _ w free),
  )
