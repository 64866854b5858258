-- ===== src/Worker/Monad.antt =====
-- Code that calls Redis and Postgres and may raise: what was written before a raise stays written,
-- so the state comes back beside the error too. `Returns` states what holds when an action
-- returns and what holds when it raises.
pub mod Keeps
use web_hooks.Base.{Bool, true, false, List, [], ◌∷◌, ◌≡◌, refl, if◌then◌else◌}
use web_hooks.Services.{Services, World}

pub data Result (A : Type 0) : Type 0 where
  ok : A → Result A
  raised : Result A

abbrev pub Action : Type 0 → Type 0 → Type 0
Action S A = S → Result A × S

abbrev pub continue : {S A B : Type 0} → Result A → (A → Action S B) → Action S B
continue (ok a) f s = f a s
continue raised f s = (raised, s)

infixl 10 ◌>>=◌ ◌>>◌
unfoldable pub ◌>>=◌ : {S A B : Type 0} → Action S A → (A → Action S B) → Action S B
◌>>=◌ m f s = let (r, s') = m s in continue r f s'

abbrev pub ◌>>◌ : {S A B : Type 0} → Action S A → Action S B → Action S B
m >> n = m >>= λ _. n

unfoldable pub pure : {S A : Type 0} → A → Action S A
pure a s = (ok a, s)

unfoldable pub raise : {S A : Type 0} → Action S A
raise s = (raised, s)

-- A counter or a local value: no call of a service, so it cannot fail.
unfoldable pub modify : {S : Type 0} → (S → S) → Action S (Unit {0})
modify f s = (ok tt, f s)

module _ {V : Services} where
  -- One call of Redis or Postgres, which fails before it has an effect or has its effect.
  abbrev pub exec_with : {A : Type 0} → List Bool → (World V → A × World V) → Action (World V) A
  exec_with [] f w = let (a, w') = f w in (ok a, w')
  exec_with (true ∷ rest) f w = (raised, record w { faults = rest })
  exec_with (false ∷ rest) f w = let (a, w') = f (record w { faults = rest }) in (ok a, w')

  unfoldable pub exec : {A : Type 0} → (World V → A × World V) → Action (World V) A
  exec f w = exec_with w.faults f w

  unfoldable pub query : {A : Type 0} → (World V → A) → Action (World V) A
  unfolding exec
  query f = exec (λ w. (f w, w))

  unfoldable pub command : (World V → World V) → Action (World V) (Unit {0})
  unfolding exec
  command f = exec (λ w. (tt, f w))

-- `P` of what an action returns and of the state then; `Q` of the state where it raises.
abbrev pub Returns : {S A : Type 0} → (A → S → Type 0) → (S → Type 0) → Result A × S → Type 0
Returns P Q (ok a, s) = P a s
Returns P Q (raised, s) = Q s

module _ {S A B : Type 0} where
  pub Returns-bind :
      (P : B → S → Type 0) (Q : S → Type 0) (m : Action S A) (f : A → Action S B) (s : S)
      → Returns (λ a s'. Returns P Q (f a s')) Q (m s)
      → Returns P Q ((m >>= f) s)
  unfolding ◌>>=◌
  Returns-bind P Q m f s h = go (m s) h
    where
      go :
          (r : Result A × S)
          → Returns (λ a s'. Returns P Q (f a s')) Q r
          → Returns P Q (continue r.0 f r.1)
      go (ok a, s') k = k
      go (raised, s') k = k

module _ {V : Services} {A : Type 0} where
  pub Returns-exec :
      (P : A → World V → Type 0) (Q : World V → Type 0) (f : World V → A × World V) (w : World V)
      → ((fs : List Bool) → P (f (record w { faults = fs })).0 (f (record w { faults = fs })).1)
      → ((fs : List Bool) → Q (record w { faults = fs }))
      → Returns P Q (exec f w)
  unfolding exec
  Returns-exec P Q f w p q = go w.faults (p w.faults)
    where
      go : (fs : List Bool) → P (f w).0 (f w).1 → Returns P Q (exec_with fs f w)
      go [] h = h
      go (true ∷ fs) h = q fs
      go (false ∷ fs) h = p fs

module _ {V : Services} {A : Type 0} where
  pub Returns-query :
      (P : A → World V → Type 0) (Q : World V → Type 0) (f : World V → A) (w : World V)
      → ((fs : List Bool) → P (f (record w { faults = fs })) (record w { faults = fs }))
      → ((fs : List Bool) → Q (record w { faults = fs }))
      → Returns P Q (query f w)
  unfolding query
  Returns-query P Q f w p q = Returns-exec P Q (λ v. (f v, v)) w p q

module _ {V : Services} where
  pub Returns-command :
      (P : Unit {0} → World V → Type 0) (Q : World V → Type 0) (f : World V → World V) (w : World V)
      → ((fs : List Bool) → P tt (f (record w { faults = fs })))
      → ((fs : List Bool) → Q (record w { faults = fs }))
      → Returns P Q (command f w)
  unfolding command
  Returns-command P Q f w p q = Returns-exec P Q (λ v. (tt, f v)) w p q

module _ {S : Type 0} where
  pub Returns-modify :
      (P : Unit {0} → S → Type 0) (Q : S → Type 0) (f : S → S) (s : S)
      → P tt (f s)
      → Returns P Q (modify f s)
  unfolding modify
  Returns-modify P Q f s h = h

  pub Returns-pure :
      {A : Type 0} (P : A → S → Type 0) (Q : S → Type 0) (a : A) (s : S)
      → P a s
      → Returns P Q (pure a s)
  unfolding pure
  Returns-pure P Q a s h = h

  pub Returns-raise :
      {A : Type 0} (P : A → S → Type 0) (Q : S → Type 0) (s : S)
      → Q s
      → Returns P Q (raise {A = A} s)
  unfolding raise
  Returns-raise P Q s h = h

  pub Returns-if :
      {A : Type 0} (P : A → S → Type 0) (Q : S → Type 0) (b : Bool) (m n : Action S A) (s : S)
      → (b ≡ true → Returns P Q (m s))
      → (b ≡ false → Returns P Q (n s))
      → Returns P Q ((if b then m else n) s)
  Returns-if P Q true m n s hm hn = hm refl
  Returns-if P Q false m n s hm hn = hn refl

  -- A weaker postcondition.
  pub Returns-mono :
      {A : Type 0} (P P' : A → S → Type 0) (Q Q' : S → Type 0) (r : Result A × S)
      → ((a : A) (s : S) → P a s → P' a s)
      → ((s : S) → Q s → Q' s)
      → Returns P Q r
      → Returns P' Q' r
  Returns-mono P P' Q Q' (ok a, s) f g h = f a s h
  Returns-mono P P' Q Q' (raised, s) f g h = g s h

-- What holds of the state where an action returns and where it raises holds of the state after it.
pub Returns-state :
    {S A : Type 0} (P : S → Type 0) (r : Result A × S) → Returns (λ a. P) P r → P r.1
Returns-state P (ok a, s) h = h
Returns-state P (raised, s) h = h

module _ {V : Services} where
  -- Where no call fails.
  pub exec-quiet :
      {A : Type 0} (f : World V → A × World V) (w : World V)
      → w.faults ≡ []
      → exec f w ≡ (ok (f w).0, (f w).1)
  unfolding exec
  exec-quiet f w quiet = rw quiet refl

  pub command-bind-quiet :
      {B : Type 0} (f : World V → World V) (g : Unit {0} → Action (World V) B) (w : World V)
      → w.faults ≡ []
      → (command f >>= g) w ≡ g tt (f w)
  unfolding ◌>>=◌ command
  command-bind-quiet f g w quiet = rw (exec-quiet (λ v. (tt, f v)) w quiet) refl
