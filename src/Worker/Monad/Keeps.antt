-- ===== src/Worker/Monad/Keeps.antt =====
-- A relation between the state before and the state after that every step of an action keeps, whether
-- the action returns or raises.
use web_hooks.Base.{Bool, true, false, List, [], ◌∷◌, if◌then◌else◌}
use web_hooks.Services.{Services, World}
use package.web_hooks.Worker.Monad.{
  Result, ok, raised, Action, continue, pure, raise, modify, exec, exec_with, query, command, ◌>>=◌,
}

pub record Preorder (S : Type 0) : Type 1 where
  pub Related : S → S → Type 0
  pub itself : (s : S) → Related s s
  pub then_ : (s t u : S) → Related s t → Related t u → Related s u

module _ {S : Type 0} (P : Preorder S) where
  abbrev pub Keeps : {A : Type 0} → Action S A → Type 0
  Keeps m = (s : S) → P.Related s (m s).1

  pub Keeps-pure : {A : Type 0} (a : A) → Keeps (pure a)
  unfolding pure
  Keeps-pure a s = P.itself s

  pub Keeps-raise : (A : Type 0) → Keeps (raise {A = A})
  unfolding raise
  Keeps-raise A s = P.itself s

  pub Keeps-modify : (f : S → S) → ((s : S) → P.Related s (f s)) → Keeps (modify f)
  unfolding modify
  Keeps-modify f h s = h s

  continue-related :
      {A B : Type 0} (f : A → Action S B) (s t : S) (r : Result A)
      → P.Related s t
      → ((a : A) → Keeps (f a))
      → P.Related s (continue r f t).1
  continue-related f s t (ok a) h k = P.then_ s t _ h (k a t)
  continue-related f s t raised h k = h

  pub Keeps-bind :
      {A B : Type 0} (m : Action S A) (f : A → Action S B)
      → Keeps m
      → ((a : A) → Keeps (f a))
      → Keeps (m >>= f)
  unfolding ◌>>=◌
  Keeps-bind m f h k s = continue-related f s (m s).1 (m s).0 (h s) k

  pub Keeps-if :
      {A : Type 0} (b : Bool) (m n : Action S A) → Keeps m → Keeps n → Keeps (if b then m else n)
  Keeps-if true m n hm hn = hm
  Keeps-if false m n hm hn = hn

module _ {V : Services} (P : Preorder (World V))
    (faults_free : (w : World V) (fs : List Bool) → P.Related w (record w { faults = fs })) where
  pub Keeps-exec :
      {A : Type 0} (f : World V → A × World V)
      → ((w : World V) → P.Related w (f w).1)
      → Keeps P (exec f)
  unfolding exec
  Keeps-exec f h w = go w.faults
    where
      go : (fs : List Bool) → P.Related w (exec_with fs f w).1
      go [] = h w
      go (true ∷ fs) = faults_free w fs
      go (false ∷ fs) = P.then_ w _ _ (faults_free w fs) (h (record w { faults = fs }))

  pub Keeps-query : {A : Type 0} (f : World V → A) → Keeps P (query f)
  unfolding query
  Keeps-query f = Keeps-exec (λ w. (f w, w)) (λ w. P.itself w)

  pub Keeps-command :
      (f : World V → World V) → ((w : World V) → P.Related w (f w)) → Keeps P (command f)
  unfolding command
  Keeps-command f h = Keeps-exec (λ w. (tt, f w)) h
