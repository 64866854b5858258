-- ===== src/Worker/Completes/Finishes.antt =====
-- Actions that return where no call of a service fails: what they are composed of.
use web_hooks.Base.{
  ◌≡◌, refl, Bool, true, false, Option, some, List, [], ◌∷◌, ◌==◌, if◌then◌else◌, arith,
}
use web_hooks.Db.{Tenant, Delivery}
use web_hooks.Services.{Services, World}
use web_hooks.RetryQueue.{Uuid}
use web_hooks.Worker.Monad.{
  Result, ok, raised, continue, pure, modify, exec, exec_with, query, command, ◌>>=◌,
}
use web_hooks.Worker.{Env, Run, find_delivery, save_delivery}
use web_hooks.Worker.Gates.{scalar_one}

abbrev pub IsOk : {A : Type 0} → Result A → Type 0
IsOk (ok a) = Unit {0}
IsOk raised = ⊥

module _ (V : Services) (X : Env) (tenant_id delivery_id : Uuid) where
  -- No call will fail, and the rows of the tenant and of the delivery are there.
  abbrev pub IsReady : World V → Type 0
  IsReady w =
      (w.faults ≡ [])
      × ((t : Tenant) × (V.tenants_table.find tenant_id w.tenants ≡ some t))
      × ((d : Delivery) × (find_delivery V X delivery_id w ≡ some d))

  abbrev pub Finished : {A : Type 0} → Result A × World V → Type 0
  Finished r = IsOk r.0 × IsReady r.1

  abbrev pub Finishes : {A : Type 0} → Run V X A → Type 0
  Finishes m = (w : World V) → IsReady w → Finished (m w)

  pub Finished-bind :
      {A B : Type 0} (m : Run V X A) (f : A → Run V X B) (w : World V)
      → Finished (m w)
      → ((a : A) → Finishes (f a))
      → Finished ((m >>= f) w)
  unfolding ◌>>=◌
  Finished-bind {A = A} {B = B} m f w h k = go (m w).0 (m w).1 h
    where
      go : (r : Result A) (t : World V) → Finished (r, t) → Finished (continue r f t)
      go (ok a) t (u, ready) = k a t ready
      go raised t (absurd_, ready) = elim absurd_ [ ]

  pub Finishes-bind :
      {A B : Type 0} (m : Run V X A) (f : A → Run V X B)
      → Finishes m
      → ((a : A) → Finishes (f a))
      → Finishes (m >>= f)
  Finishes-bind m f h k w ready = Finished-bind m f w (h w ready) k

  pub Finishes-pure : {A : Type 0} (a : A) → Finishes (pure a)
  unfolding pure
  Finishes-pure a w ready = (tt, ready)

  pub Finishes-modify :
      (f : World V → World V) → ((w : World V) → IsReady w → IsReady (f w)) → Finishes (modify f)
  unfolding modify
  Finishes-modify f h w ready = (tt, h w ready)

  pub Finishes-exec :
      {A : Type 0} (f : World V → A × World V)
      → ((w : World V) → IsReady w → IsReady (f w).1)
      → Finishes (exec f)
  unfolding exec
  Finishes-exec f h w ready = go w.faults ready.0
    where
      go : (fs : List Bool) → fs ≡ [] → Finished (exec_with fs f w)
      go [] e = (tt, h w ready)
      go (b ∷ fs) e = absurd (cc)

  pub Finishes-query : {A : Type 0} (f : World V → A) → Finishes (query f)
  unfolding query
  Finishes-query f = Finishes-exec (λ v. (f v, v)) (λ w ready. ready)

  pub Finishes-command :
      (f : World V → World V) → ((w : World V) → IsReady w → IsReady (f w)) → Finishes (command f)
  unfolding command
  Finishes-command f h = Finishes-exec (λ v. (tt, f v)) h

  pub Finishes-if :
      {A : Type 0} (b : Bool) (m n : Run V X A)
      → Finishes m
      → Finishes n
      → Finishes (if b then m else n)
  Finishes-if true m n h k = h
  Finishes-if false m n h k = k

  -- Where a row is written, the row of the delivery is still there.
  pub saved-IsReady : (d : Delivery) (w : World V) → IsReady w → IsReady (save_delivery V X d w)
  saved-IsReady d w (f, t, (row, e)) = (f, t, go (d.id == delivery_id) refl)
    where
      go :
          (b : Bool)
          → (d.id == delivery_id) ≡ b
          → (r : Delivery) × (find_delivery V X delivery_id (save_delivery V X d w) ≡ some r)
      go true same =
          (d, ground (arith, V.deliveries_table.find-save delivery_id d w.deliveries, same))
      go false other =
          (row, ground (arith, V.deliveries_table.find-save delivery_id d w.deliveries, other, e))

  pub Finished-query :
      {A B : Type 0} (f : World V → A) (g : A → Run V X B) (w : World V)
      → w.faults ≡ []
      → Finished (g (f w) w)
      → Finished ((query f >>= g) w)
  unfolding query exec ◌>>=◌
  Finished-query {A = A} {B = B} f g w e h = go w.faults e
    where
      go :
          (fs : List Bool)
          → fs ≡ []
          → Finished
              (continue (exec_with fs (λ v. (f v, v)) w).0 g (exec_with fs (λ v. (f v, v)) w).1)
      go [] e = h
      go (b ∷ fs) e = absurd (cc)

  pub Finished-scalar_one :
      {A B : Type 0} (o : Option A) (a : A) (g : A → Run V X B) (w : World V)
      → o ≡ some a
      → Finished (g a w)
      → Finished ((scalar_one V X o >>= g) w)
  unfolding scalar_one ◌>>=◌ pure
  Finished-scalar_one o a g w e h = rw e h
