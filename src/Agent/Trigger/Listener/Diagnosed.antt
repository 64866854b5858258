-- ===== src/Agent/Trigger/Listener/Diagnosed.antt =====
-- Where no call fails, the calls of `claim_budget` come to the atomic claim, and the breaker that opens
-- is diagnosed.
use web_hooks.Base.{
  ℕ, ◌+◌, ◌<◌, ◌≡◌, refl, ap, fun_ext, ◌∙◌, Bool, true, false, ◌||◌, none, some, [], ◌∷◌, ◌++◌,
  ◌==◌, ltb, length, if◌then◌else◌, arith, Bool-cases, inl, inr,
}
use web_hooks.Db.{Endpoint, Diagnosis}
use web_hooks.Services.{update}
use web_hooks.RetryQueue.{Uuid, Text}
use web_hooks.Worker.Monad.{ok, Action, pure, query, exec-quiet, ◌>>=◌}
use web_hooks.Agent.Graph.{diagnose_and_record}
use web_hooks.Agent.Graph.Checked.{IsOnRecord, run_diagnosis-IsOnRecord}
use package.web_hooks.Agent.Trigger.{Budgets, is_claimed, claim_budget, daily_budget_exhausted}
use package.web_hooks.Agent.Trigger.Listener.{
  Trigger, event, trigger_text, Handled, handled, Run, Listener, call, set_claim, count_run,
  drop_claim, expire_first, within_day, after_set, claim, setting_of, diagnose, handle_trigger,
  handle_event,
}

update_twice : {A : Type 0} (f : ℕ → A) (k : ℕ) (a b : A) → update (update f k a) k b ≡ update f k b
update_twice f k a b =
    fun_ext λ j. elim (Bool-cases (k == j)) [ inl here ↦ rw here refl | inr away ↦ rw away refl ]

claim_budget-granted :
    (per_day ttl now day : ℕ) (k : Uuid) (b : Budgets)
    → is_claimed per_day ttl now k b ≡ false
    → b.used day < per_day
    → (claim_budget per_day ttl now day k b).0 ≡ none
unfolding claim_budget
claim_budget-granted per_day ttl now day k b free left = rw free (ground (arith, left))

module _ (G : Trigger) where
  open G use {setting, per_day, claim_ttl, fresh}
  open setting use {services}

  call-quiet :
      {A : Type 0} (f : Budgets → A × Budgets) (s : Listener G)
      → s.world.faults ≡ []
      → call G f s ≡ (ok (f s.budgets).0, record s { budgets = (f s.budgets).1 })
  unfolding call query
  call-quiet f s quiet = rw (exec-quiet (λ w. (tt, w)) s.world quiet) refl

  call-bind-quiet :
      {A B : Type 0} (f : Budgets → A × Budgets) (g : A → Action (Listener G) B) (s : Listener G)
      → s.world.faults ≡ []
      → (call G f >>= g) s ≡ g (f s.budgets).0 (record s { budgets = (f s.budgets).1 })
  unfolding ◌>>=◌
  call-bind-quiet f g s quiet = rw (call-quiet f s quiet) refl

  expire_first-bind-quiet :
      {B : Type 0} (used : ℕ) (g : Unit {0} → Action (Listener G) B) (s : Listener G)
      → s.world.faults ≡ []
      → (expire_first G used >>= g) s ≡ g tt s
  unfolding expire_first ◌>>=◌ pure
  expire_first-bind-quiet used g s quiet = elim (Bool-cases (used == 1)) [
    | inl first ↦ rw first (call-bind-quiet (λ b. (tt, b)) g s quiet)
    | inr later ↦ rw later refl
  ]

  within_day-quiet :
      (day : ℕ) (k : Uuid) (used : ℕ) (s : Listener G)
      → s.world.faults ≡ []
      → within_day G day k used s ≡ (
          if ltb per_day used
          then (
            ok (some daily_budget_exhausted),
            record s { budgets = (drop_claim G k s.budgets).1 },
          )
          else (ok none, s))
  unfolding within_day pure
  within_day-quiet day k used s quiet = elim (Bool-cases (ltb per_day used)) [
    | inl over ↦ rw over (call-bind-quiet (drop_claim G k) (λ u. pure _) s quiet)
    | inr fits ↦ rw fits refl
  ]

  -- The count, its expiry and the test of the day.
  after_set-quiet :
      (day : ℕ) (k : Uuid) (s : Listener G)
      → s.world.faults ≡ []
      → let (n, after) = count_run G day s.budgets in
        after_set G day k true s ≡ within_day G day k n (record s { budgets = after })
  unfolding after_set
  after_set-quiet day k s quiet =
      call-bind-quiet (count_run G day) _ s quiet ∙ expire_first-bind-quiet _ _ _ quiet

  -- The calls one after another, none of which fails, answer and leave what the atomic claim does.
  pub claim-agrees :
      (now day : ℕ) (k : Uuid) (s : Listener G)
      → s.world.faults ≡ []
      → let (denial, after) = claim_budget per_day claim_ttl now day k s.budgets in
        claim G now day k s ≡ (ok denial, record s { budgets = after })
  unfolding claim claim_budget set_claim
  claim-agrees now day k s quiet =
      call-bind-quiet (set_claim G now k) (after_set G day k) s quiet
      ∙ elim (Bool-cases (is_claimed per_day claim_ttl now k s.budgets)) [
        | inl held ↦ rw held (unfold after_set pure in refl)
        | inr free ↦ rw free (
            after_set-quiet day k _ quiet
            ∙ within_day-quiet day k _ _ quiet
            ∙ unfold count_run drop_claim in
              elim (Bool-cases (ltb per_day (s.budgets.used day + 1))) [
                | inl over ↦ rw over (
                    ap
                      (λ ran. (
                        ok (some daily_budget_exhausted),
                        record s {
                          budgets = record s.budgets {
                            ran = ran;
                            used = update s.budgets.used day (s.budgets.used day + 1);
                          };
                        },
                      ))
                      (update_twice s.budgets.ran k _ none))
                | inr fits ↦ rw fits refl
              ])
      ]

  diagnose-IsOnRecord :
      (day : ℕ) (k : Uuid) (cause : Text) (s : Listener G) {e : Endpoint}
      → s.world.faults ≡ []
      → services.endpoints_table.find k s.world.endpoints ≡ some e
      → IsOnRecord (setting_of G (length s.runs) k cause) (diagnose G day k cause s).world
  unfolding diagnose diagnose_and_record
  diagnose-IsOnRecord day k cause s quiet stands =
      run_diagnosis-IsOnRecord (setting_of G (length s.runs) k cause) (G.llm (length s.runs))
        s.world quiet stands

  -- What a trigger that is granted leaves.
  abbrev pub Diagnosed : ℕ → Uuid → Listener G → Handled × Listener G → Type 0
  Diagnosed day k s (r, t) =
      (r ≡ handled)
      × ((run : Run) × (t.runs ≡ s.runs ++ run ∷ []) × (run.endpoint ≡ k) × (run.day ≡ day))
      × ((g : Diagnosis) × (services.diagnoses_table.find (fresh (length s.runs)) t.world.diagnoses
            ≡ some g))

  diagnose-Diagnosed :
      (day : ℕ) (k : Uuid) (cause : Text) (s : Listener G) (b : Budgets) {e : Endpoint}
      → s.world.faults ≡ []
      → services.endpoints_table.find k s.world.endpoints ≡ some e
      → Diagnosed day k s (handled, diagnose G day k cause (record s { budgets = b }))
  unfolding diagnose
  diagnose-Diagnosed day k cause s b quiet stands = (
    refl,
    (_, refl, refl, refl),
    diagnose-IsOnRecord day k cause (record s { budgets = b }) quiet stands,
  )

  handle_trigger-Diagnosed :
      (now day : ℕ) (cause : Text) (k : Uuid) (s : Listener G) {e : Endpoint}
      → s.world.faults ≡ []
      → services.endpoints_table.find k s.world.endpoints ≡ some e
      → is_claimed per_day claim_ttl now k s.budgets ≡ false
      → s.budgets.used day < per_day
      → Diagnosed day k s (handle_trigger G now day (some cause) (some k) s)
  unfolding handle_trigger
  handle_trigger-Diagnosed now day cause k s quiet stands free left =
      rw (claim-agrees now day k s quiet, granted)
        (diagnose-Diagnosed day k cause s (claim_budget per_day claim_ttl now day k s.budgets).1
          quiet stands)
    where
      granted : (claim_budget per_day claim_ttl now day k s.budgets).0 ≡ none
      granted = claim_budget-granted per_day claim_ttl now day k s.budgets free left

  -- Where no call fails, an event that a breaker has opened, or that five deliveries in a row have
  -- failed, for an endpoint that is on record and has no claim, on a day that has a run left: the handler raises nothing,
  -- one run starts, of that endpoint and on that day, and a diagnosis stands under the run's own id,
  -- whatever the model and the tools do and whether the run succeeds or not.
  pub handle_event-Diagnosed :
      (now day : ℕ) (to_open is_failures : Bool) (k : Uuid) (s : Listener G) {e : Endpoint}
      → s.world.faults ≡ []
      → services.endpoints_table.find k s.world.endpoints ≡ some e
      → (to_open || is_failures) ≡ true
      → is_claimed per_day claim_ttl now k s.budgets ≡ false
      → s.budgets.used day < per_day
      → Diagnosed day k s (handle_event G now day (event to_open is_failures (some k)) s)
  unfolding handle_event trigger_text
  handle_event-Diagnosed now day true is_failures k s quiet stands trigger free left =
      handle_trigger-Diagnosed now day _ k s quiet stands free left
  handle_event-Diagnosed now day false true k s quiet stands trigger free left =
      handle_trigger-Diagnosed now day _ k s quiet stands free left
  handle_event-Diagnosed now day false false k s quiet stands trigger free left = absurd (cc)
