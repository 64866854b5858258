-- ===== src/Scheduler/Gauges/Active.antt =====
-- Which endpoints the sweep of the circuits reads.
use web_hooks.Base.{
  ◌≡◌, refl, sym, Bool, true, false, Option, none, some, List, [], ◌∷◌, ◌==◌, arith, All, Elem, inl,
  inr, Bool-cases, ==_iff, subst,
}
use web_hooks.Db.{Endpoint}
use web_hooks.Services.{Services, World}
use web_hooks.RetryQueue.{Uuid}
use web_hooks.Worker.{is_active}
use web_hooks.Api.{contains, endpoint_ids}
use package.web_hooks.Scheduler.Gauges.{active_endpoints}

-- Whether the endpoint exists and is active.
abbrev pub active_in : Option Endpoint → Bool
active_in none = false
active_in (some e) = is_active e.status

contains_some :
    (e : Endpoint) (es : List Endpoint) → Elem e es → contains (endpoint_ids es) e.id ≡ true
unfolding contains
contains_some e [] h = absurd h
contains_some e (x ∷ es) (inl h) = rw h (ground arith)
contains_some e (x ∷ es) (inr h) = ground (arith, contains_some e es h)

module _ (V : Services) where
  contains_none :
      (p : Endpoint → Bool) (w : World V) (es : List Endpoint) (k : Uuid)
      → All (λ e. (p e ≡ true) × (V.endpoints_table.find e.id w.endpoints ≡ some e)) es
      → contains (endpoint_ids es) k ≡ true
      → (e : Endpoint) × (V.endpoints_table.find k w.endpoints ≡ some e) × (p e ≡ true)
  unfolding contains
  contains_none p w [] k h c = absurd (cc)
  contains_none p w (e ∷ es) k h c = elim (Bool-cases (e.id == k)) [
    | inl same ↦ (
      e,
      subst (λ x. V.endpoints_table.find x w.endpoints ≡ some e) ((==_iff e.id k).0 same) h.0.1,
      h.0.0,
    )
    | inr other ↦ contains_none p w es k h.1 (ground (arith, c, other))
  ]

  pub contains_active :
      (w : World V) (k : Uuid)
      → contains (active_endpoints V w) k ≡ active_in (V.endpoints_table.find k w.endpoints)
  unfolding active_endpoints
  contains_active w k =
      elim (Bool-cases (
        contains (endpoint_ids (V.endpoints_table.select (λ e. is_active e.status) w.endpoints))
          k)) [
            | inl there ↦
                let (e, found, active) =
                  contains_none (λ e. is_active e.status) w _ k
                    (V.endpoints_table.select_sound _ w.endpoints) there in
                rw there (rw found (sym active))
            | inr absent ↦ rw absent (not_active (V.endpoints_table.find k w.endpoints) refl absent)
          ]
    where
      not_active :
          (o : Option Endpoint)
          → V.endpoints_table.find k w.endpoints ≡ o
          → contains
              (endpoint_ids (V.endpoints_table.select (λ e. is_active e.status) w.endpoints))
              k
            ≡ false
          → false ≡ active_in o
      not_active none found absent = refl
      not_active (some e) found absent = elim (Bool-cases (is_active e.status)) [
        | inl active ↦
            let there = contains_some e _ (
              V.endpoints_table.select_complete (λ e. is_active e.status) k e w.endpoints found
                active) in
            absurd (
              ground (
                arith,
                absent,
                subst
                    (λ x.
                      contains
                        (endpoint_ids
                          (V.endpoints_table.select (λ e. is_active e.status) w.endpoints))
                        x
                      ≡ true)
                    (V.endpoints_table.find_key k e w.endpoints found) there,
              ))
        | inr passive ↦ sym passive
      ]
