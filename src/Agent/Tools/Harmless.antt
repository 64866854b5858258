-- ===== src/Agent/Tools/Harmless.antt =====
-- What a tool can change: it adds proposals that wait for a human, and it sends POSTs to the endpoint
-- that is diagnosed.
use web_hooks.Base.{
  ◌≡◌, refl, Bool, ◌⊎◌, inl, inr, Option, none, some, List, [], ◌∷◌, ◌++◌, ◌==◌, All, All-append,
  append_nil, append_assoc, Bool-cases, ap, sym, ◌∙◌, subst,
}
use web_hooks.Db.{Endpoint, DeliveryAttempt, AgentAction, ActionStatus, ActionKind}
use web_hooks.Services.{Services, World, Post}
use web_hooks.RetryQueue.{Uuid, Text}
use web_hooks.Api.{one_or_raise}
use web_hooks.Worker.Monad.{
  query, Returns, Returns-state, Returns-bind, Returns-query, Returns-modify, Returns-pure,
  Returns-raise, Returns-mono,
}
use web_hooks.Worker.Monad.Keeps.{
  Preorder, Keeps, Keeps-pure, Keeps-raise, Keeps-bind, Keeps-query, Keeps-command,
}
use web_hooks.Agent.Chat.{
  Tool, query_attempts, get_endpoint_config, probe_endpoint, check_dns_tls, pause_endpoint,
  replay_dlq, submit_diagnosis, unlisted, Value, string, integer, Input,
}
use web_hooks.Agent.Statistics.{Statistics, statistics, Minutes}
use web_hooks.Agent.Findings.{Outside, Url, Resolved, addresses, gaierror, resolver_failed}
use package.web_hooks.Agent.Tools.{
  endpoint_or_raise, finding_of, aggregate, query_history, endpoint_config, checked, check_url,
  dns_tls, proposal, request_mutation, request_with, with_window, probe, probe_post, routed,
  dispatch,
}

module _ (V : Services) (k diagnosis : Uuid) where
  -- The action waits for a decision, and it is of the endpoint and the diagnosis.
  abbrev pub Proposed : AgentAction → Type 0
  Proposed a =
      (a.status ≡ ActionStatus.pending) × (a.endpoint_id ≡ k) × (a.diagnosis_id ≡ diagnosis)

  -- The POST goes to the URL of the endpoint.
  abbrev pub GoesTo : World V → Post → Type 0
  GoesTo w p = (e : Endpoint) × (V.endpoints_table.find k w.endpoints ≡ some e) × (p.url ≡ e.url)

  pub record Harmless (w w' : World V) : Type 0 where
    pub untouched : w' ≡ record w { faults = w'.faults; posts = w'.posts; actions = w'.actions }
    pub proposals :
        (j : Uuid)
        → (V.actions_table.find j w'.actions ≡ V.actions_table.find j w.actions)
          ⊎ ((a : AgentAction) × (V.actions_table.find j w'.actions ≡ some a) × Proposed a)
    pub sent : List Post
    pub posted : w'.posts ≡ w.posts ++ sent
    pub to_endpoint : All (GoesTo w) sent

  pub Harmless-itself : (w : World V) → Harmless w w
  Harmless-itself w = record {
    untouched = refl;
    proposals = λ j. inl refl;
    sent = [];
    posted = sym (append_nil w.posts);
    to_endpoint = tt;
  }

  pub Harmless-then : (w v u : World V) → Harmless w v → Harmless v u → Harmless w u
  Harmless-then w v u g h = record {
    untouched =
        h.untouched
        ∙ ap {B = World V}
            (λ x. record x { faults = u.faults; posts = u.posts; actions = u.actions }) g.untouched;
    proposals = λ j. elim (h.proposals j) [
      | inl e ↦ elim (g.proposals j) [ inl e' ↦ inl (e ∙ e') | inr (a, e', p) ↦ inr (a, e ∙ e', p) ]
      | inr q ↦ inr q
    ];
    sent = g.sent ++ h.sent;
    posted = h.posted ∙ ap (λ xs. xs ++ h.sent) g.posted ∙ append_assoc w.posts g.sent h.sent;
    to_endpoint = All-append _ g.sent h.sent g.to_endpoint (
        subst
          (λ rows.
            All (λ p. (e : Endpoint) × (V.endpoints_table.find k rows ≡ some e) × (p.url ≡ e.url))
              h.sent)
          (ap (λ x. x.endpoints) g.untouched) h.to_endpoint);
  }

  abbrev pub harmless : Preorder (World V)
  harmless = record { Related = Harmless; itself = Harmless-itself; then_ = Harmless-then }

  faults-Harmless : (w : World V) (fs : List Bool) → Harmless w (record w { faults = fs })
  faults-Harmless w fs = record {
    untouched = refl;
    proposals = λ j. inl refl;
    sent = [];
    posted = sym (append_nil w.posts);
    to_endpoint = tt;
  }

  Keeps-read : {A : Type 0} (f : World V → A) → Keeps harmless (query f)
  Keeps-read f = Keeps-query harmless faults-Harmless f

  Keeps-one_or_raise : {A : Type 0} (o : Option A) → Keeps harmless (one_or_raise V o)
  unfolding one_or_raise
  Keeps-one_or_raise none = Keeps-raise harmless _
  Keeps-one_or_raise (some a) = Keeps-pure harmless a

  Keeps-endpoint_or_raise : Keeps harmless (endpoint_or_raise V k)
  unfolding endpoint_or_raise
  Keeps-endpoint_or_raise =
      Keeps-bind harmless _ _ (Keeps-read _) (λ found. Keeps-one_or_raise found)

  posted-Harmless :
      (p : Post) (w : World V) → GoesTo w p → Harmless w (record w { posts = w.posts ++ p ∷ [] })
  posted-Harmless p w h = record {
    untouched = refl;
    proposals = λ j. inl refl;
    sent = p ∷ [];
    posted = refl;
    to_endpoint = (h, tt);
  }

  one_or_raise-found :
      (o : Option Endpoint) (w t : World V)
      → V.endpoints_table.find k t.endpoints ≡ o
      → Harmless w t
      → Returns
          (λ e t'. Harmless w t' × (V.endpoints_table.find k t'.endpoints ≡ some e))
          (Harmless w)
          (one_or_raise V o t)
  unfolding one_or_raise
  one_or_raise-found none w t e h = Returns-raise _ _ t h
  one_or_raise-found (some r) w t e h = Returns-pure _ _ r t (h, e)

  -- The endpoint that a tool goes on with is the row that is stored then.
  endpoint_or_raise-found :
      (w : World V)
      → Returns
          (λ e t. Harmless w t × (V.endpoints_table.find k t.endpoints ≡ some e))
          (Harmless w)
          (endpoint_or_raise V k w)
  unfolding endpoint_or_raise
  endpoint_or_raise-found w = Returns-bind _ _ _ _ w (
      Returns-query _ _ _ w (λ fs. one_or_raise-found _ w _ refl (faults-Harmless w fs))
        (λ fs. faults-Harmless w fs))

  module _ (O : Outside) where
    open O use {client, latency, urlparse, getaddrinfo}

    Keeps-finding_of : (o : Option Statistics) → Keeps harmless (finding_of V O o)
    Keeps-finding_of none = Keeps-raise harmless _
    Keeps-finding_of (some s) = Keeps-pure harmless _

    Keeps-aggregate : (rows : List DeliveryAttempt) → Keeps harmless (aggregate V O rows)
    unfolding aggregate
    Keeps-aggregate [] = Keeps-pure harmless _
    Keeps-aggregate (a ∷ rows) = Keeps-finding_of (statistics (a ∷ rows))

    Keeps-query_history : (minutes : Minutes) → Keeps harmless (query_history V O k minutes)
    unfolding query_history
    Keeps-query_history minutes =
        Keeps-bind harmless _ _ (Keeps-read _) (λ rows. Keeps-aggregate rows)

    Keeps-endpoint_config : Keeps harmless (endpoint_config V O k)
    unfolding endpoint_config
    Keeps-endpoint_config = Keeps-bind harmless _ _ Keeps-endpoint_or_raise (λ e.
        Keeps-bind harmless _ _ (Keeps-read _)
          (λ dead. Keeps-bind harmless _ _ (Keeps-read _) (λ breaker. Keeps-pure harmless _)))

    Keeps-checked : (u : Url) (r : Resolved) → Keeps harmless (checked V O u r)
    unfolding checked
    Keeps-checked u (gaierror t) = Keeps-pure harmless _
    Keeps-checked u resolver_failed = Keeps-raise harmless _
    Keeps-checked u (addresses as_) = Keeps-pure harmless _

    Keeps-check_url : (u : Option Url) → Keeps harmless (check_url V O u)
    Keeps-check_url none = Keeps-raise harmless _
    Keeps-check_url (some u) = Keeps-checked u _

    Keeps-dns_tls : Keeps harmless (dns_tls V O k)
    unfolding dns_tls
    Keeps-dns_tls =
        Keeps-bind harmless _ _ Keeps-endpoint_or_raise (λ e. Keeps-check_url (urlparse e.url))

    Proposed-Harmless :
        (a : AgentAction) (w : World V)
        → Proposed a
        → Harmless w (record w { actions = V.actions_table.save a w.actions })
    Proposed-Harmless a w p = record {
      untouched = refl;
      proposals = λ j. elim (Bool-cases (a.id == j)) [
        | inl e ↦ inr (a, V.actions_table.find-save j a w.actions ∙ rw e refl, p)
        | inr e ↦ inl (V.actions_table.find-save j a w.actions ∙ rw e refl)
      ];
      sent = [];
      posted = sym (append_nil w.posts);
      to_endpoint = tt;
    }

    Keeps-request_mutation :
        (action : ActionKind) (reason : Text)
        → Keeps harmless (request_mutation V O k diagnosis action reason)
    unfolding request_mutation
    Keeps-request_mutation action reason =
        Keeps-bind harmless _ _
          (Keeps-command harmless faults-Harmless _
            (λ w. Proposed-Harmless (proposal V O k diagnosis action reason) w (refl, refl, refl)))
          (λ u. Keeps-pure harmless _)

    Keeps-request_with :
        (action : ActionKind) (v : Option Value)
        → Keeps harmless (request_with V O k diagnosis action v)
    unfolding request_with
    Keeps-request_with action none = Keeps-request_mutation action []
    Keeps-request_with action (some (string t)) = Keeps-request_mutation action t
    Keeps-request_with action (some (integer n)) = Keeps-raise harmless _
    Keeps-request_with action (some (Value.other t)) = Keeps-raise harmless _

    Keeps-with_window : (o : Option Minutes) → Keeps harmless (with_window V O k o)
    Keeps-with_window none = Keeps-raise harmless _
    Keeps-with_window (some minutes) = Keeps-query_history minutes

    Keeps-probe : Keeps harmless (probe V O k)
    unfolding probe
    Keeps-probe w = Returns-state (Harmless w) (probe V O k w) (
        Returns-bind _ _ (endpoint_or_raise V k) _ w (
          Returns-mono _ _ _ _ (endpoint_or_raise V k w)
            (λ e t (h, found). Returns-bind _ _ _ _ t (
              Returns-modify _ _ _ t (
                Returns-pure _ _ _ _
                  (Harmless-then w t _ h (posted-Harmless (probe_post V O e) t (e, found, refl))))))
            (λ t h. h) (endpoint_or_raise-found w)))

    Keeps-routed :
        (name : Tool) (input : Input) → Keeps harmless (routed V O k diagnosis name input)
    unfolding routed
    Keeps-routed query_attempts input = Keeps-with_window _
    Keeps-routed get_endpoint_config input = Keeps-endpoint_config
    Keeps-routed probe_endpoint input = Keeps-probe
    Keeps-routed check_dns_tls input = Keeps-dns_tls
    Keeps-routed pause_endpoint input = Keeps-request_with _ _
    Keeps-routed replay_dlq input = Keeps-request_with _ _
    Keeps-routed submit_diagnosis input = Keeps-pure harmless _
    Keeps-routed (unlisted t) input = Keeps-pure harmless _

    -- A tool call, whatever its name and its input, changes nothing but this: it may add actions,
    -- each pending and of the endpoint and the diagnosis of the run, and POSTs, each to the URL of
    -- that endpoint; and it uses up faults.
    pub dispatch-Harmless :
        (name : Tool) (input : Input) (w : World V)
        → Harmless w (dispatch V O k diagnosis name input w).1
    unfolding dispatch
    dispatch-Harmless name input w = Keeps-routed name input w
