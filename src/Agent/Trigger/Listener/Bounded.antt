-- ===== src/Agent/Trigger/Listener/Bounded.antt =====
-- The budget of a day bounds the runs of the trigger, whatever call of Redis fails.
use web_hooks.Base.{
  ℕ, ◌+◌, ◌≤◌, ◌≡◌, ◌⊎◌, inl, inr, refl, ap, Bool, true, false, Option, none, some, List, [], ◌∷◌,
  ◌++◌, ◌==◌, ltb, if◌then◌else◌, arith, Bool-cases,
}
use web_hooks.Services.{World}
use web_hooks.RetryQueue.{Uuid, Text}
use web_hooks.Worker.Monad.{
  Result, ok, raised, query, Returns, Returns-bind, Returns-query, Returns-pure, Returns-if,
  Returns-mono, Action, pure, ◌>>=◌,
}
use web_hooks.Worker.Monad.Keeps.{Preorder}
use package.web_hooks.Agent.Trigger.{
  Budgets, Denial, is_claimed, endpoint_rate_limited, daily_budget_exhausted,
}
use package.web_hooks.Agent.Trigger.Listener.Traversal.{run_trigger-Related}
use package.web_hooks.Agent.Trigger.Listener.{
  Trigger, Payload, not_json, not_object, event, trigger_text, Connection, Run, Listener, called,
  call, set_claim, count_run, drop_claim, expire_first, within_day, after_set, claim, diagnose,
  after_claim, handle_trigger, handle_event, run_trigger,
}

-- The runs that were started on a day.
abbrev pub runs_of : ℕ → List Run → ℕ
runs_of d [] = 0
runs_of d (r ∷ rs) = (if r.day == d then 1 else 0) + runs_of d rs

runs_of-append :
    (d : ℕ) (rs : List Run) (r : Run)
    → runs_of d (rs ++ r ∷ []) ≡ runs_of d rs + (if r.day == d then 1 else 0)
runs_of-append d [] r = omega arith
runs_of-append d (q ∷ rs) r = omega (arith, runs_of-append d rs r)

set_claim-used :
    (G : Trigger) (now : ℕ) (k : Uuid) (b : Budgets) → (set_claim G now k b).1.used ≡ b.used
unfolding set_claim
set_claim-used G now k b = elim (Bool-cases (is_claimed G.per_day G.claim_ttl now k b)) [
  | inl held ↦ rw held refl
  | inr free ↦ rw free refl
]

module _ (G : Trigger) (d : ℕ) where
  open G use {setting, per_day}
  open setting use {services}

  -- A call that fails leaves the budgets.
  Returns-call :
      {A : Type 0} (P : A → Listener G → Type 0) (Q : Listener G → Type 0)
      (f : Budgets → A × Budgets) (s : Listener G)
      → ((w : World services)
          → P (f s.budgets).0 (record s { world = w; budgets = (f s.budgets).1 }))
      → ((w : World services) → Q (record s { world = w }))
      → Returns P Q (call G f s)
  unfolding call
  Returns-call P Q f s p q =
      go (query (λ w. tt) s.world)
        (Returns-query (λ u w. Unit {0}) (λ w. Unit {0}) _ s.world (λ fs. tt) (λ fs. tt))
    where
      go :
          (r : Result (Unit {0}) × World services)
          → Returns (λ u w. Unit {0}) (λ w. Unit {0}) r
          → Returns P Q (called G f s r)
      go (ok u, w) h = p w
      go (raised, w) h = q w

  -- A call, and what follows it where it does not fail.
  Returns-call-bind :
      {A B : Type 0} (P : B → Listener G → Type 0) (Q : Listener G → Type 0)
      (f : Budgets → A × Budgets) (g : A → Action (Listener G) B) (s : Listener G)
      → ((w : World services)
          → Returns P Q (g (f s.budgets).0 (record s { world = w; budgets = (f s.budgets).1 })))
      → ((w : World services) → Q (record s { world = w }))
      → Returns P Q ((call G f >>= g) s)
  Returns-call-bind P Q f g s p q =
      Returns-bind P Q (call G f) g s (Returns-call (λ a t. Returns P Q (g a t)) Q f s p q)

  -- No run has started, and the count of the day has not gone back.
  abbrev Denied : Listener G → Listener G → Type 0
  Denied s t = (t.runs ≡ s.runs) × (s.budgets.used d ≤ t.budgets.used d)

  -- Besides, if the claim is of the day, it is counted, and the count is `n`.
  abbrev CountedAs : ℕ → ℕ → Listener G → Listener G → Type 0
  CountedAs day n s t =
      Denied s t
      × ((day == d) ≡ true → (s.budgets.used d + 1 ≤ t.budgets.used d) × (t.budgets.used d ≤ n))

  abbrev Claimed : ℕ → Listener G → Option Denial → Listener G → Type 0
  Claimed day s none t = CountedAs day per_day s t
  Claimed day s (some denial) t = Denied s t

  within_day-Claimed :
      (day : ℕ) (k : Uuid) (used : ℕ) (s t : Listener G)
      → CountedAs day used s t
      → Returns (Claimed day s) (Denied s) (within_day G day k used t)
  unfolding within_day drop_claim
  within_day-Claimed day k used s t h =
      Returns-if (Claimed day s) (Denied s) (ltb per_day used) _ _ t
        (λ over.
          Returns-call-bind (Claimed day s) (Denied s) (drop_claim G k)
            (λ u. pure (some daily_budget_exhausted)) t
            (λ w. Returns-pure (Claimed day s) (Denied s) (some daily_budget_exhausted) _ h.0)
            (λ w. h.0))
        (λ fits.
          Returns-pure (Claimed day s) (Denied s) none t
            (h.0, λ e. let (a, b) = h.1 e in (a, ground arith)))

  expire_first-CountedAs :
      (day used : ℕ) (s t : Listener G)
      → CountedAs day used s t
      → Returns (λ u t'. CountedAs day used s t') (Denied s) (expire_first G used t)
  unfolding expire_first
  expire_first-CountedAs day used s t h =
      Returns-if (λ u. CountedAs day used s) (Denied s) (used == 1) _ _ t
        (λ e.
          Returns-call (λ u. CountedAs day used s) (Denied s) (λ b. (tt, b)) t (λ w. h) (λ w. h.0))
        (λ e. Returns-pure (λ u. CountedAs day used s) (Denied s) tt t h)

  counted-CountedAs :
      (day : ℕ) (s t : Listener G) (w : World services)
      → t.runs ≡ s.runs
      → t.budgets.used ≡ s.budgets.used
      → CountedAs day
          (count_run G day t.budgets).0
          s
          (record t { world = w; budgets = (count_run G day t.budgets).1 })
  unfolding count_run
  counted-CountedAs day s t w same used =
      rw used ((same, ground arith), λ e. (ground arith, ground arith))

  after_set-Claimed :
      (day : ℕ) (k : Uuid) (is_new : Bool) (s t : Listener G)
      → t.runs ≡ s.runs
      → t.budgets.used ≡ s.budgets.used
      → Returns (Claimed day s) (Denied s) (after_set G day k is_new t)
  unfolding after_set
  after_set-Claimed day k false s t same used =
      Returns-pure (Claimed day s) (Denied s) (some endpoint_rate_limited) t
        (same, omega (arith, ap (λ f. f d) used))
  after_set-Claimed day k true s t same used =
      Returns-call-bind (Claimed day s) (Denied s) (count_run G day) _ t
        (λ w. Returns-bind (Claimed day s) (Denied s) (expire_first G _) _ _ (
          Returns-mono (λ u. CountedAs day _ s) _ (Denied s) (Denied s) (expire_first G _ _)
            (λ u v h. within_day-Claimed day k _ s v h) (λ v h. h)
            (expire_first-CountedAs day _ s _ (counted-CountedAs day s t w same used))))
        (λ w. (same, omega (arith, ap (λ f. f d) used)))

  claim-Claimed :
      (now day : ℕ) (k : Uuid) (s : Listener G)
      → Returns (Claimed day s) (Denied s) (claim G now day k s)
  unfolding claim
  claim-Claimed now day k s =
      Returns-call-bind (Claimed day s) (Denied s) (set_claim G now k) _ s
        (λ w. after_set-Claimed day k _ s _ refl (set_claim-used G now k s.budgets))
        (λ w. (refl, omega arith))

  -- From `s` to `t` no more runs of the day have started than were counted, and none that the
  -- budget does not allow.
  abbrev Spends : Listener G → Listener G → Type 0
  Spends s t =
      (s.budgets.used d ≤ t.budgets.used d)
      × (runs_of d t.runs + s.budgets.used d ≤ runs_of d s.runs + t.budgets.used d)
      × ((runs_of d t.runs ≡ runs_of d s.runs)
          ⊎ (runs_of d t.runs + s.budgets.used d ≤ per_day + runs_of d s.runs))

  Spends-itself : (s : Listener G) → Spends s s
  Spends-itself s = ground arith

  Spends-then : (s t u : Listener G) → Spends s t → Spends t u → Spends s u
  Spends-then s t u g h = ground arith

  abbrev spending : Preorder (Listener G)
  spending = record { Related = Spends; itself = Spends-itself; then_ = Spends-then }

  Denied-Spends : (s t : Listener G) → Denied s t → Spends s t
  Denied-Spends s t (same, grown) = rw same (grown, omega arith, inl refl)

  diagnose-Spends :
      (day : ℕ) (k : Uuid) (cause : Text) (s t : Listener G)
      → CountedAs day per_day s t
      → Spends s (diagnose G day k cause t)
  unfolding diagnose
  diagnose-Spends day k cause s t ((same, grown), counted) =
      rw same (rw (runs_of-append d) (ground (arith, counted)))

  handle_trigger-Spends :
      (now day : ℕ) (cause : Option Text) (k : Option Uuid) (s : Listener G)
      → Spends s (handle_trigger G now day cause k s).1
  unfolding handle_trigger
  handle_trigger-Spends now day none k s = Spends-itself s
  handle_trigger-Spends now day (some cause) none s = Spends-itself s
  handle_trigger-Spends now day (some cause) (some k) s =
      go (claim G now day k s) (claim-Claimed now day k s)
    where
      go :
          (r : Result (Option Denial) × Listener G)
          → Returns (Claimed day s) (Denied s) r
          → Spends s (after_claim G day k cause r).1
      go (raised, t) h = Denied-Spends s t h
      go (ok (some denial), t) h = Denied-Spends s t h
      go (ok none, t) h = diagnose-Spends day k cause s t h

  handle_event-Spends :
      (now day : ℕ) (payload : Payload) (s : Listener G)
      → Spends s (handle_event G now day payload s).1
  unfolding handle_event
  handle_event-Spends now day not_json s = Spends-itself s
  handle_event-Spends now day not_object s = Spends-itself s
  handle_event-Spends now day (event to_open is_failures k) s =
      handle_trigger-Spends now day (trigger_text to_open is_failures) k s

  -- Whatever the trigger hears, and whatever call of Redis or of a run fails on the way: the runs that
  -- it starts for a day are at most what the budget of the day has left, and none if nothing is left.
  pub run_trigger-le-per_day :
      (cs : List Connection) (delay : ℕ) (s : Listener G)
      → (runs_of d (run_trigger G cs delay s).1.runs + s.budgets.used d
          ≤ per_day + runs_of d s.runs)
        ⊎ (runs_of d (run_trigger G cs delay s).1.runs ≡ runs_of d s.runs)
  run_trigger-le-per_day cs delay s =
      elim (run_trigger-Related G spending handle_event-Spends cs delay s).2 [
        | inl e ↦ inr e
        | inr h ↦ inl h
      ]
