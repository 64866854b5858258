-- ===== src/Api/Listings/Isolated.antt =====
-- A listing shows a tenant its own rows only, and no more than a page of them.
use web_hooks.Base.Sequences.{drop}
use web_hooks.Base.{
  ℕ, zero, suc, ◌≤◌, ◌≡◌, refl, Bool, true, false, ◌&&◌, ◌⊎◌, inl, inr, Option, none, some, List,
  [], ◌∷◌, length, length-take, take, All, All-append, ◌==◌, ==_iff, Bool-cases, arith, subst, sym,
  ap, ◌∙◌,
}
use web_hooks.Db.{Endpoint, Delivery, DeliveryStatus}
use web_hooks.Services.{Services, World}
use web_hooks.RetryQueue.{Uuid}
use web_hooks.Worker.Monad.{Action, Returns, Returns-bind, Returns-query, Returns-pure}
use web_hooks.Base.Sequences.Sorted.{All-sort_by}
use package.web_hooks.Api.{
  Reply, answered, refused, contains, is_dead, endpoint_ids, owned_endpoint_ids,
}
use package.web_hooks.Api.Listings.{
  Given, absent, invalid, given, same_status, reverse, page, is_limit, narrowed, deliveries_in,
  list_from, list_owned, list_deliveries, list_dlq,
}

All-take : {A : Type 0} (P : A → Type 0) (n : ℕ) (xs : List A) → All P xs → All P (take n xs)
All-take P zero xs h = tt
All-take P (suc n) [] h = tt
All-take P (suc n) (x ∷ xs) (p, h) = (p, All-take P n xs h)

All-drop : {A : Type 0} (P : A → Type 0) (n : ℕ) (xs : List A) → All P xs → All P (drop n xs)
unfolding drop
All-drop P zero xs h = h
All-drop P (suc n) [] h = tt
All-drop P (suc n) (x ∷ xs) (p, h) = All-drop P n xs h

All-reverse : {A : Type 0} (P : A → Type 0) (xs : List A) → All P xs → All P (reverse xs)
unfolding reverse
All-reverse P [] h = tt
All-reverse P (x ∷ xs) (p, h) = All-append P (reverse xs) (x ∷ []) (All-reverse P xs h) (p, tt)

All-page :
    {A : Type 0} (P : A → Type 0) (key : A → ℕ) (limit offset : ℕ) (xs : List A)
    → All P xs
    → All P (page key limit offset xs)
unfolding page
All-page P key limit offset xs h =
    All-take P limit _ (All-drop P offset _ (All-reverse P _ (All-sort_by key P xs h)))

length-page :
    {A : Type 0} (key : A → ℕ) (limit offset : ℕ) (xs : List A)
    → length (page key limit offset xs) ≤ limit
unfolding page
length-page key limit offset xs = length-take limit _

All-weaken :
    {A : Type 0} (P Q : A → Type 0) (xs : List A) → ((a : A) → P a → Q a) → All P xs → All Q xs
All-weaken P Q [] f h = tt
All-weaken P Q (x ∷ xs) f (p, h) = (f x p, All-weaken P Q xs f h)

-- Whoever is among the narrowed endpoints is among the owned ones.
narrowed_sound :
    (owned : List Uuid) (endpoint_id : Option Uuid) (ks : List Uuid) (k : Uuid)
    → narrowed owned endpoint_id ≡ some ks
    → contains ks k ≡ true
    → contains owned k ≡ true
unfolding narrowed contains
narrowed_sound owned none ks k e h = let same : owned ≡ ks = cc in rw same h
narrowed_sound owned (some j) ks k e h = elim (Bool-cases (contains owned j)) [
  | inl there ↦
      let chosen : some (j ∷ []) ≡ some ks = sym (rw (there, narrowed) refl) ∙ e in
      let same : ks ≡ j ∷ [] = cc in
      let only : contains (j ∷ []) k ≡ true = subst (λ x. contains x k ≡ true) same h in
      let equal : j ≡ k = ground (arith, only) in subst (λ x. contains owned x ≡ true) equal there
  | inr not_there ↦
      let none_ : none ≡ some ks = sym (rw (not_there, narrowed) refl) ∙ e in absurd (cc)
]

module _ (V : Services) where
  -- The endpoint with the number is one of the tenant.
  abbrev pub IsOf : Uuid → World V → Uuid → Type 0
  IsOf tenant w k =
      (e : Endpoint) × (V.endpoints_table.find k w.endpoints ≡ some e) × (e.tenant_id ≡ tenant)

  owned_among :
      (tenant : Uuid) (w : World V) (es : List Endpoint) (k : Uuid)
      → All
          (λ e.
            ((e.tenant_id == tenant) ≡ true) × (V.endpoints_table.find e.id w.endpoints ≡ some e))
          es
      → contains (endpoint_ids es) k ≡ true
      → IsOf tenant w k
  unfolding contains
  owned_among tenant w [] k h c = absurd (cc)
  owned_among tenant w (e ∷ es) k ((t, f), h) c = elim (Bool-cases (e.id == k)) [
    | inl same ↦ (
      e,
      subst (λ x. V.endpoints_table.find x w.endpoints ≡ some e) ((==_iff e.id k).0 same) f,
      (==_iff e.tenant_id tenant).0 t,
    )
    | inr other ↦ owned_among tenant w es k h (ground (arith, c, other))
  ]

  owned_sound :
      (tenant : Uuid) (w : World V) (k : Uuid)
      → contains (owned_endpoint_ids V tenant w) k ≡ true
      → IsOf tenant w k
  unfolding owned_endpoint_ids
  owned_sound tenant w k c =
      owned_among tenant w _ k
        (V.endpoints_table.select_sound (λ e. e.tenant_id == tenant) w.endpoints) c

  -- Nothing is written.
  abbrev pub Reads : World V → World V → Type 0
  Reads w w' = w' ≡ record w { faults = w'.faults }

  -- The answer to a listing: a refusal, or at most a page of deliveries with `p`, each of an
  -- endpoint of the tenant.
  abbrev pub Page : Uuid → ℕ → (Delivery → Bool) → World V → Reply (List Delivery) → Type 0
  Page tenant limit p w (refused n) = (n ≡ 404) ⊎ (n ≡ 422)
  Page tenant limit p w (answered ds) =
      (length ds ≤ limit) × (limit ≤ 200) × All (λ d. IsOf tenant w d.endpoint_id × (p d ≡ true)) ds

  abbrev pub ShowsPage :
      Uuid → ℕ → (Delivery → Bool) → World V → Action (World V) (Reply (List Delivery)) → Type 0
  ShowsPage tenant limit p w m =
      Returns (λ r w'. Page tenant limit p w r × Reads w w') (Reads w) (m w)

  module _ (created_at updated_at : Uuid → ℕ) where
    selected_page :
        (p : Delivery → Bool) (tenant : Uuid) (endpoint_id : Option Uuid) (ks : List Uuid)
        (w : World V) (d : Delivery)
        → narrowed (owned_endpoint_ids V tenant w) endpoint_id ≡ some ks
        → (contains ks d.endpoint_id && p d) ≡ true
        → IsOf tenant w d.endpoint_id × (p d ≡ true)
    selected_page p tenant endpoint_id ks w d e h = (
      owned_sound tenant w d.endpoint_id
          (narrowed_sound _ endpoint_id ks d.endpoint_id e (ground (arith, h))),
      ground (arith, h),
    )

    list_from-Page :
        (p : Delivery → Bool) (key : Delivery → ℕ) (tenant : Uuid) (endpoint_id : Option Uuid)
        (limit offset : ℕ) (w v : World V) (o : Option (List Uuid))
        → narrowed (owned_endpoint_ids V tenant w) endpoint_id ≡ o
        → limit ≤ 200
        → v ≡ record w { faults = v.faults }
        → Returns
            (λ r w'. Page tenant limit p w r × Reads w w')
            (Reads w)
            (list_from V created_at updated_at p key limit offset o v)
    unfolding list_from deliveries_in
    list_from-Page p key tenant endpoint_id limit offset w v none e le same =
        Returns-pure _ _ _ v (inl refl, same)
    list_from-Page p key tenant endpoint_id limit offset w v (some ks) e le same =
        Returns-bind _ _ _ _ v (
          Returns-query _ _ _ v
            (λ fs. Returns-pure _ _ _ _ (
              (
                length-page key limit offset
                    (deliveries_in V created_at updated_at p ks (record v { faults = fs })),
                le,
                All-page _ key limit offset
                    (deliveries_in V created_at updated_at p ks (record v { faults = fs }))
                    (All-weaken _ _ _ (λ d h. selected_page p tenant endpoint_id ks w d e h.0)
                      (V.deliveries_table.select_sound (λ d. contains ks d.endpoint_id && p d)
                        v.deliveries)),
              ),
              ap {B = World V} (λ x. record x { faults = fs }) same,
            ))
            (λ fs. ap {B = World V} (λ x. record x { faults = fs }) same))

    list_owned-Page :
        (p : Delivery → Bool) (key : Delivery → ℕ) (tenant : Uuid) (endpoint_id : Option Uuid)
        (limit offset : ℕ) (w : World V)
        → ShowsPage tenant limit p w
            (list_owned V created_at updated_at p key tenant endpoint_id limit offset)
    unfolding list_owned owned_endpoint_ids
    list_owned-Page p key tenant endpoint_id limit offset w = elim (Bool-cases (is_limit limit)) [
      | inr bad ↦ rw (bad, list_owned) (Returns-pure _ _ _ w (inr refl, refl))
      | inl fine ↦
          rw (fine, list_owned)
            (Returns-bind _ _ _ _ w (
              Returns-query _ _ _ w
                (λ fs.
                  list_from-Page p key tenant endpoint_id limit offset w _ _ refl
                    (ground (arith, fine)) refl)
                (λ fs. refl)))
    ]

    -- What the parameter asks of a delivery.
    abbrev pub meets : Given DeliveryStatus → Delivery → Bool
    meets absent d = true
    meets invalid d = false
    meets (given s) d = same_status d.status s

    -- Both listings of deliveries, with any parameters, show a tenant at most the page that it asks
    -- for, at most 200 deliveries, each of an endpoint of the tenant; those of the wanted status, or
    -- of the dead ones for the dead letter queue. Otherwise they refuse with 404 or 422, or a call
    -- of a service fails. In every case nothing is written.
    pub listings-ShowsPage :
        (tenant : Uuid) (endpoint_id : Option Uuid) (status : Given DeliveryStatus)
        (limit offset : ℕ) (w : World V)
        → ShowsPage tenant limit
            (meets status)
            w
            (list_deliveries V created_at updated_at tenant endpoint_id status limit offset)
          × ShowsPage tenant limit
              (λ d. is_dead d.status)
              w
              (list_dlq V created_at updated_at tenant endpoint_id limit offset)
    unfolding list_deliveries list_dlq
    listings-ShowsPage tenant endpoint_id absent limit offset w = (
      list_owned-Page _ _ tenant endpoint_id limit offset w,
      list_owned-Page _ _ tenant endpoint_id limit offset w,
    )
    listings-ShowsPage tenant endpoint_id invalid limit offset w = (
      Returns-pure _ _ _ w (inr refl, refl),
      list_owned-Page _ _ tenant endpoint_id limit offset w,
    )
    listings-ShowsPage tenant endpoint_id (given s) limit offset w = (
      list_owned-Page _ _ tenant endpoint_id limit offset w,
      list_owned-Page _ _ tenant endpoint_id limit offset w,
    )
