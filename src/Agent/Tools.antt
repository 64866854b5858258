-- ===== src/Agent/Tools.antt =====
-- relay/agent/tools.py: the tools of the agent and `dispatch`. What a tool reads of the outside is
-- its `Outside`, one for each call.
pub mod Schemas
pub mod Harmless
use web_hooks.Base.Sequences.{sort_by, filter}
use web_hooks.Base.{
  ◌+◌, Bool, false, ◌&&◌, Option, none, some, List, [], ◌∷◌, ◌++◌, length, take, ◌==◌,
  if◌then◌else◌,
}
use web_hooks.Db.{Endpoint, DeliveryAttempt, AgentAction, ActionKind, ActionStatus}
use web_hooks.Services.{Services, World, Post}
use web_hooks.RetryQueue.{Text, Uuid}
use web_hooks.Sender.{AttemptResult, send_delivery, succeeded}
use web_hooks.Breaker.{get_state}
use web_hooks.Api.{one_or_raise, is_dead}
use web_hooks.Worker.Monad.{
  Result, ok, raised, Action, pure, raise, command, query, modify, ◌>>=◌, ◌>>◌,
}
use web_hooks.Agent.Chat.{
  Tool, query_attempts, get_endpoint_config, probe_endpoint, check_dns_tls, pause_endpoint,
  replay_dlq, submit_diagnosis, unlisted, Value, string, integer, Input,
}
use web_hooks.Agent.Statistics.{Minutes, Statistics, statistics, is_since}
use web_hooks.Agent.Findings.{
  Outside, Finding, Probe, Url, Resolved, default_window, host_of, port_of, sorted_set, tls_of,
  no_attempts, attempts, config, probed, unresolved, resolved, pending_human_approval, unknown_tool,
  tool_failed, addresses, gaierror, resolver_failed, not_applicable,
}

module _ (V : Services) where
  abbrev pub Run : Type 0 → Type 0
  Run A = Action (World V) A

  -- Whether the attempt is of a delivery of the endpoint.
  unfoldable pub is_of : Uuid → World V → DeliveryAttempt → Bool
  is_of k w a = elim (V.deliveries_table.find a.delivery_id w.deliveries) [
    | none ↦ false
    | some d ↦ d.endpoint_id == k
  ]

  -- The endpoint's row, exactly one.
  unfoldable pub endpoint_or_raise : Uuid → Run Endpoint
  endpoint_or_raise k = do
    found ← query (λ w. V.endpoints_table.find k w.endpoints)
    one_or_raise V found

  module _ (O : Outside) where
    open O use {
      now, Header, client, latency, delivery_id, event_id, action_id, probe_payload, int, urlparse,
      getaddrinfo, handshake,
    }

    abbrev pub finding_of : Option Statistics → Run Finding
    finding_of none = raise
    finding_of (some s) = pure (attempts s)

    unfoldable pub aggregate : List DeliveryAttempt → Run Finding
    unfolding statistics
    aggregate [] = pure no_attempts
    aggregate (a ∷ rows) = finding_of (statistics (a ∷ rows))

    -- `query_attempts`
    unfoldable pub query_history : Uuid → Minutes → Run Finding
    unfolding aggregate is_of is_since sort_by filter
    query_history k minutes = do
      rows ← query (λ w.
          sort_by (λ a. a.started_at)
            (filter (λ a. is_of k w a && is_since now minutes a) w.attempts))
      aggregate rows

    -- `get_endpoint_config`
    unfoldable pub endpoint_config : Uuid → Run Finding
    unfolding endpoint_or_raise
    endpoint_config k = do
      endpoint ← endpoint_or_raise k
      dead ← query (λ w.
          V.deliveries_table.select (λ d. (d.endpoint_id == k) && is_dead d.status) w.deliveries)
      breaker ← query (λ w. get_state V.sets (w.breakers k))
      pure (
          config (record {
            url = endpoint.url;
            ordering = endpoint.ordering;
            status = endpoint.status;
            event_types = endpoint.event_types;
            breaker = breaker;
            dead_letter_count = length dead;
          }))

    abbrev pub probe_post : Endpoint → Post
    probe_post endpoint = record {
      url = endpoint.url;
      secret = endpoint.signing_secret;
      delivery_id = delivery_id;
      event_id = event_id;
      payload = probe_payload now;
    }

    -- `(result.response_snippet or "")[:300]`
    abbrev pub short_snippet : Option Text → Text
    short_snippet none = []
    short_snippet (some t) = take 300 t

    abbrev pub probe_of : Endpoint → AttemptResult Header → Probe
    probe_of endpoint result = record {
      probed_url = endpoint.url;
      http_status = result.http_status;
      latency_ms = result.latency_ms;
      error_class = result.error_class;
      succeeded = succeeded result;
      response_snippet = short_snippet result.response_snippet;
    }

    -- `probe_endpoint`: one POST leaves.
    unfoldable pub probe : Uuid → Run Finding
    unfolding endpoint_or_raise
    probe k = do
      endpoint ← endpoint_or_raise k
      modify (λ w. record w { posts = w.posts ++ probe_post endpoint ∷ [] })
      pure (probed (probe_of endpoint (send_delivery (client (probe_post endpoint)) latency)))

    unfoldable pub checked : Url → Resolved → Run Finding
    unfolding tls_of sorted_set port_of
    checked u (gaierror t) = pure (unresolved (host_of u) (port_of u) u.is_https t)
    checked u resolver_failed = raise
    checked u (addresses as_) = pure (
        resolved (host_of u) (port_of u) u.is_https (sorted_set as_)
          (if u.is_https then tls_of now (handshake (host_of u) (port_of u)) else not_applicable))

    abbrev pub check_url : Option Url → Run Finding
    check_url none = raise
    check_url (some u) = checked u (getaddrinfo (host_of u) (port_of u))

    -- `check_dns_tls`
    unfoldable pub dns_tls : Uuid → Run Finding
    unfolding endpoint_or_raise checked
    dns_tls k = do endpoint ← endpoint_or_raise k; check_url (urlparse endpoint.url)

    abbrev pub proposal : Uuid → Uuid → ActionKind → Text → AgentAction
    proposal k diagnosis action reason = record {
      id = action_id;
      diagnosis_id = diagnosis;
      endpoint_id = k;
      action = action;
      reason = reason;
      status = ActionStatus.pending;
      decided_at = none;
    }

    unfoldable pub request_mutation : Uuid → Uuid → ActionKind → Text → Run Finding
    request_mutation k diagnosis action reason = do
      command (λ w. record w {
        actions = V.actions_table.save (proposal k diagnosis action reason) w.actions;
      })
      pure (pending_human_approval action_id action)

    -- `tool_input.get("reason", "")`. What is not a text is refused by the column.
    unfoldable pub request_with : Uuid → Uuid → ActionKind → Option Value → Run Finding
    unfolding request_mutation
    request_with k diagnosis action none = request_mutation k diagnosis action []
    request_with k diagnosis action (some (string t)) = request_mutation k diagnosis action t
    request_with k diagnosis action (some (integer n)) = raise
    request_with k diagnosis action (some (Value.other t)) = raise

    abbrev pub with_window : Uuid → Option Minutes → Run Finding
    with_window k none = raise
    with_window k (some minutes) = query_history k minutes

    -- `int(tool_input.get("window_minutes", 60))`
    abbrev pub window_of : Option Value → Option Minutes
    window_of none = some default_window
    window_of (some v) = int v

    unfoldable pub routed : Uuid → Uuid → Tool → Input → Run Finding
    unfolding query_history endpoint_config probe dns_tls request_with
    routed k diagnosis query_attempts input = with_window k (window_of input.window_minutes)
    routed k diagnosis get_endpoint_config input = endpoint_config k
    routed k diagnosis probe_endpoint input = probe k
    routed k diagnosis check_dns_tls input = dns_tls k
    routed k diagnosis pause_endpoint input =
        request_with k diagnosis ActionKind.pause_endpoint input.reason
    routed k diagnosis replay_dlq input =
        request_with k diagnosis ActionKind.replay_dlq input.reason
    routed k diagnosis submit_diagnosis input = pure (unknown_tool submit_diagnosis)
    routed k diagnosis (unlisted t) input = pure (unknown_tool (unlisted t))

    -- Every exception becomes a result.
    abbrev pub finding_or_failed : Result Finding → Finding
    finding_or_failed (ok f) = f
    finding_or_failed raised = tool_failed

    unfoldable pub dispatch : Uuid → Uuid → Tool → Input → World V → Finding × World V
    unfolding routed
    dispatch k diagnosis name input w =
        let (r, w') = routed k diagnosis name input w in (finding_or_failed r, w')
