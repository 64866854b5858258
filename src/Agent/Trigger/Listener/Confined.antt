-- ===== src/Agent/Trigger/Listener/Confined.antt =====
-- Whatever the trigger hears and whatever fails, the rows and keys of the deliveries stay as they are.
use web_hooks.Base.{
  ℕ, ◌≡◌, ◌⊎◌, inl, inr, ◌++◌, append_nil, append_assoc, refl, Bool, true, false, ◌==◌, Option,
  none, some, List, [], length, ltb, ap, sym, ◌∙◌, subst,
}
use web_hooks.Db.{AgentAction, ActionStatus}
use web_hooks.Services.{World, Post}
use web_hooks.RetryQueue.{Uuid, Text}
use web_hooks.Worker.Monad.{Result, ok, raised, query}
use web_hooks.Worker.Monad.Keeps.{Preorder, Keeps, Keeps-pure, Keeps-bind, Keeps-if, Keeps-query}
use web_hooks.Agent.State.{Setting}
use web_hooks.Agent.Graph.Confined.{diagnose_and_record-Confined}
use package.web_hooks.Agent.Trigger.{Budgets, Denial}
use package.web_hooks.Agent.Trigger.Listener.Traversal.{run_trigger-Related}
use package.web_hooks.Agent.Trigger.Listener.{
  Trigger, Payload, not_json, not_object, event, trigger_text, Connection, Listener, called, call,
  expire_first, within_day, after_set, claim, diagnose, after_claim, handle_trigger, handle_event,
  run_trigger, setting_of,
}

module _ (T : Setting) where
  open T use {services}

  -- Only what is the agent's has changed: its diagnoses, its actions, of which each that is new or has
  -- changed waits for a human, the POSTs that it has added, and the faults that are used up.
  pub record OnlyAgents (w w' : World services) : Type 0 where
    pub untouched : w' ≡ record w {
      faults = w'.faults;
      posts = w'.posts;
      actions = w'.actions;
      diagnoses = w'.diagnoses;
    }
    pub waiting :
        (j : Uuid)
        → (services.actions_table.find j w'.actions ≡ services.actions_table.find j w.actions)
          ⊎ ((a : AgentAction) × (services.actions_table.find j w'.actions ≡ some a)
              × (a.status ≡ ActionStatus.pending))
    pub sent : List Post
    pub posted : w'.posts ≡ w.posts ++ sent

  faults-OnlyAgents :
      (w : World services) (fs : List Bool) → OnlyAgents w (record w { faults = fs })
  faults-OnlyAgents w fs = record {
    untouched = refl;
    waiting = λ j. inl refl;
    sent = [];
    posted = sym (append_nil w.posts);
  }

  OnlyAgents-then : (w v u : World services) → OnlyAgents w v → OnlyAgents v u → OnlyAgents w u
  OnlyAgents-then w v u g h = record {
    untouched =
        h.untouched
        ∙ ap {B = World services}
            (λ x. record x {
              faults = u.faults;
              posts = u.posts;
              actions = u.actions;
              diagnoses = u.diagnoses;
            })
            g.untouched;
    waiting = λ j. elim (h.waiting j) [
      | inl e ↦ elim (g.waiting j) [ inl e' ↦ inl (e ∙ e') | inr (a, e', p) ↦ inr (a, e ∙ e', p) ]
      | inr q ↦ inr q
    ];
    sent = g.sent ++ h.sent;
    posted = h.posted ∙ ap (λ xs. xs ++ h.sent) g.posted ∙ append_assoc w.posts g.sent h.sent;
  }

  itself : (w : World services) → OnlyAgents w w
  itself w = faults-OnlyAgents w w.faults

  abbrev agents : Preorder (World services)
  agents = record { Related = OnlyAgents; itself = itself; then_ = OnlyAgents-then }

module _ (G : Trigger) where
  open G use {setting, per_day, claim_ttl, fresh, outside, llm}
  open setting use {services}

  abbrev Here : Type 0
  Here = Listener G

  abbrev listening : Preorder Here
  listening = record {
    Related = λ s t. OnlyAgents setting s.world t.world;
    itself = λ s. itself setting s.world;
    then_ = λ s t u. OnlyAgents-then setting s.world t.world u.world;
  }

  called-world :
      {A : Type 0} (f : Budgets → A × Budgets) (s : Here) (r : Result (Unit {0}) × World services)
      → (called G f s r).1.world ≡ r.1
  called-world f s (ok u, w) = refl
  called-world f s (raised, w) = refl

  Keeps-call : {A : Type 0} (f : Budgets → A × Budgets) → Keeps listening (call G f)
  unfolding call
  Keeps-call f s =
      subst (OnlyAgents setting s.world) (sym (called-world f s (query (λ w. tt) s.world)))
        (Keeps-query (agents setting) (faults-OnlyAgents setting) (λ w. tt) s.world)

  Keeps-claim : (now day : ℕ) (k : Uuid) → Keeps listening (claim G now day k)
  unfolding claim after_set expire_first within_day
  Keeps-claim now day k = Keeps-bind listening _ _ (Keeps-call _) after
    where
      after : (is_new : Bool) → Keeps listening (after_set G day k is_new)
      after false = Keeps-pure listening _
      after true = Keeps-bind listening _ _ (Keeps-call _) (λ used.
          Keeps-bind listening _ _
            (Keeps-if listening (used == 1) _ _ (Keeps-call _) (Keeps-pure listening tt))
            (λ u.
              Keeps-if listening (ltb per_day used) _ _
                (Keeps-bind listening _ _ (Keeps-call _) (λ v. Keeps-pure listening _))
                (Keeps-pure listening _)))

  diagnose-OnlyAgents :
      (day : ℕ) (k : Uuid) (cause : Text) (s : Here)
      → OnlyAgents setting s.world (diagnose G day k cause s).world
  unfolding diagnose
  diagnose-OnlyAgents day k cause s =
      let n = length s.runs in
      let c = diagnose_and_record-Confined (setting_of G n k cause) (llm n) s.world in
      record {
        untouched = c.untouched;
        waiting = λ j. elim (c.proposals j) [ inl e ↦ inl e | inr (a, e, p) ↦ inr (a, e, p.0) ];
        sent = c.sent;
        posted = c.posted;
      }

  handle_trigger-OnlyAgents :
      (now day : ℕ) (cause : Option Text) (k : Option Uuid) (s : Here)
      → OnlyAgents setting s.world (handle_trigger G now day cause k s).1.world
  unfolding handle_trigger
  handle_trigger-OnlyAgents now day none k s = itself setting s.world
  handle_trigger-OnlyAgents now day (some cause) none s = itself setting s.world
  handle_trigger-OnlyAgents now day (some cause) (some k) s =
      go (claim G now day k s) (Keeps-claim now day k s)
    where
      go :
          (r : Result (Option Denial) × Here)
          → OnlyAgents setting s.world r.1.world
          → OnlyAgents setting s.world (after_claim G day k cause r).1.world
      go (raised, t) h = h
      go (ok (some denial), t) h = h
      go (ok none, t) h =
          OnlyAgents-then setting s.world t.world _ h (diagnose-OnlyAgents day k cause t)

  handle_event-OnlyAgents :
      (now day : ℕ) (payload : Payload) (s : Here)
      → OnlyAgents setting s.world (handle_event G now day payload s).1.world
  unfolding handle_event
  handle_event-OnlyAgents now day not_json s = itself setting s.world
  handle_event-OnlyAgents now day not_object s = itself setting s.world
  handle_event-OnlyAgents now day (event to_open is_failures k) s =
      handle_trigger-OnlyAgents now day (trigger_text to_open is_failures) k s

  -- Whatever the trigger of the agent hears, however often its subscription breaks, whatever fails and
  -- whatever its runs do: no row and no key of a delivery, an endpoint or a tenant changes. What does
  -- change are diagnoses, actions, of which each that is new or has changed is pending, and POSTs that
  -- are added.
  pub run_trigger-OnlyAgents :
      (cs : List Connection) (delay : ℕ) (s : Here)
      → OnlyAgents setting s.world (run_trigger G cs delay s).1.world
  run_trigger-OnlyAgents = run_trigger-Related G listening handle_event-OnlyAgents
