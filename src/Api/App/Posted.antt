-- ===== src/Api/App/Posted.antt =====
-- Who a posted event belongs to.
use web_hooks.Base.{
  ℕ, ◌≡◌, refl, subst, true, false, Option, some, List, [], ◌∷◌, ◌++◌, ◌⊎◌, inl, inr, Option-cases,
}
use web_hooks.Db.{Tenant}
use web_hooks.Services.{Services, World}
use web_hooks.RetryQueue.{Text, Uuid}
use web_hooks.Worker.Monad.{
  Result, ok, raised, Returns, Returns-bind, Returns-query, Returns-pure, Returns-raise,
  Returns-mono, Returns-if,
}
use package.web_hooks.Api.{Reply, answered, refused}
use package.web_hooks.Api.Auth.{bearer, bearer_token, only_tenant, tenant_of, require_tenant}
use package.web_hooks.Api.Auth.Admitted.{Admitted, require_tenant-Admitted}
use package.web_hooks.Api.Events.{Request, ingest_event}
use package.web_hooks.Api.Events.Ingest.{Holds, Accepted, ingest_event-Accepted}
use package.web_hooks.Api.App.{is_event, by_tenant, post_event}

Returns-both :
    {S A : Type 0} (P P' : A → S → Type 0) (Q Q' : S → Type 0) (r : Result A × S)
    → Returns P Q r
    → Returns P' Q' r
    → Returns (λ a s. P a s × P' a s) (λ s. Q s × Q' s) r
Returns-both P P' Q Q' (ok a, s) h k = (h, k)
Returns-both P P' Q Q' (raised, s) h k = (h, k)

module _ (V : Services) (hash_api_key : Text → Text) where
  -- The tenants are as they were.
  abbrev SameTenants : World V → World V → Type 0
  SameTenants w w' = w'.tenants ≡ w.tenants

  only_tenant-SameTenants :
      (ts : List Tenant) (w w' : World V)
      → SameTenants w w'
      → Returns (λ _. SameTenants w) (SameTenants w) (only_tenant V hash_api_key ts w')
  unfolding only_tenant
  only_tenant-SameTenants [] w w' h = Returns-pure _ _ _ w' h
  only_tenant-SameTenants (t ∷ []) w w' h = Returns-pure _ _ _ w' h
  only_tenant-SameTenants (t ∷ u ∷ ts) w w' h = Returns-raise _ _ w' h

  require_tenant-SameTenants :
      (header : Option Text) (w : World V)
      → Returns (λ _. SameTenants w) (SameTenants w) (require_tenant V hash_api_key header w)
  unfolding require_tenant tenant_of
  require_tenant-SameTenants header w = elim (Option-cases (bearer_token header)) [
    | inl absent ↦ rw (absent, tenant_of) (Returns-pure _ _ _ w refl)
    | inr (key, given) ↦
        rw (given, tenant_of)
          (Returns-bind _ _ _ _ w
            (Returns-query _ _ _ w (λ fs. only_tenant-SameTenants _ w _ refl) (λ fs. refl)))
  ]

module _ (V : Services) (hash_api_key : Text → Text) (stream_shards : ℕ) (fresh_event : Uuid)
    (fresh_delivery : Uuid → Uuid) (race : World V → World V) where
  -- The request carries the key of a tenant, under whom the event is held.
  abbrev pub Posted : Option Text → Request → World V → Reply Uuid → World V → Type 0
  Posted header body w (refused n) w' =
      (n ≡ 401) ⊎ ((n ≡ 422) × (is_event body ≡ false)) ⊎ (n ≡ 500)
  Posted header body w (answered k) w' =
      (t : Tenant) × (key : Text) × (header ≡ some (bearer ++ key))
      × (t.api_key_hash ≡ hash_api_key key)
      × (V.tenants_table.find t.id w.tenants ≡ some t)
      × (is_event body ≡ true)
      × Holds V stream_shards fresh_event fresh_delivery race t.id body.idempotency_key k w'

  by_tenant-Posted :
      (header : Option Text) (body : Request) (w v : World V) (r : Reply Tenant)
      → Admitted V hash_api_key header r v
      → v.tenants ≡ w.tenants
      → Returns
          (Posted header body w)
          (λ _. Unit {0})
          (by_tenant V hash_api_key stream_shards fresh_event fresh_delivery race body r v)
  unfolding by_tenant
  by_tenant-Posted header body w v (refused n) h same = Returns-pure _ _ _ v (inl h)
  by_tenant-Posted header body w v (answered t) (key, given, hashed, found) same =
      Returns-if _ _ (is_event body) _ _ v
        (λ good.
          Returns-mono _ _ _ _
            (ingest_event V stream_shards fresh_event fresh_delivery race t.id body v) (posted good)
            (λ _ _. tt)
            (ingest_event-Accepted V stream_shards fresh_event fresh_delivery race t.id body v))
        (λ bad. Returns-pure _ _ _ v (inr (inl (refl, bad))))
    where
      posted :
          is_event body ≡ true
          → (r : Reply Uuid) (w' : World V)
          → Accepted V stream_shards fresh_event fresh_delivery race t.id body.idempotency_key r w'
          → Posted header body w r w'
      posted good (refused n) w' a = inr (inr a)
      posted good (answered k) w' a = (
        t,
        key,
        given,
        hashed,
        subst (λ ts. V.tenants_table.find t.id ts ≡ some t) same found,
        good,
        a,
      )

  -- An event is accepted only from a request that carries the key of a tenant that there is, with fields that are not
  -- too long, and it is held under that tenant with the request's idempotency key. Every other answer is 401, 422 for such
  -- fields, or 500, or a call of a service fails.
  pub post_event-Posted :
      (header : Option Text) (body : Request) (w : World V)
      → Returns
          (Posted header body w)
          (λ _. Unit {0})
          (post_event V hash_api_key stream_shards fresh_event fresh_delivery race header body w)
  unfolding post_event
  post_event-Posted header body w = Returns-bind _ _ (require_tenant V hash_api_key header) _ w (
      Returns-mono _ _ _ _ (require_tenant V hash_api_key header w)
        (λ r v h. by_tenant-Posted header body w v r h.0 h.1) (λ _ _. tt)
        (Returns-both _ _ _ _ (require_tenant V hash_api_key header w)
          (require_tenant-Admitted V hash_api_key header w)
          (require_tenant-SameTenants V hash_api_key header w)))
