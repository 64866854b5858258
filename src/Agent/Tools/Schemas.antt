-- ===== src/Agent/Tools/Schemas.antt =====
-- relay/agent/tools.py: the schemas of the tools, as the model is told of them.
use web_hooks.Base.{List, [], ◌∷◌, Bool, true, false}
use web_hooks.Agent.Chat.{
  codes, join, Tool, query_attempts, get_endpoint_config, probe_endpoint, check_dns_tls,
  pause_endpoint, replay_dlq, Schema,
}

abbrev pub query_attempts_schema : Schema
query_attempts_schema = record {
  name = query_attempts;
  description = join [] (
      codes "Aggregated delivery-attempt history for the endpoint: counts by "
      ∷ codes "error class and HTTP status, latency percentiles, when failures "
      ∷ codes "started, and sample response snippets. Call this FIRST on every "
      ∷ codes "investigation — it is the cheapest way to see the failure shape "
      ∷ codes "before probing anything."
      ∷ []);
  properties =
      record {
        key = codes "window_minutes";
        kind = codes "integer";
        choices = [];
        description = codes "How far back to aggregate. Default 60.";
      }
      ∷ [];
  required = [];
}

abbrev pub get_endpoint_config_schema : Schema
get_endpoint_config_schema = record {
  name = get_endpoint_config;
  description = join [] (
      codes "The endpoint's URL, ordering mode, status, and current "
      ∷ codes "circuit-breaker state. Call this when you need to know whether "
      ∷ codes "the endpoint is paused/disabled or the breaker is open, or to see "
      ∷ codes "the URL before checking DNS/TLS."
      ∷ []);
  properties = [];
  required = [];
}

abbrev pub probe_endpoint_schema : Schema
probe_endpoint_schema = record {
  name = probe_endpoint;
  description = join [] (
      codes "Send a real signed test delivery to the endpoint right now and "
      ∷ codes "report status, latency, and error. Marked with \"relay_probe\": "
      ∷ codes "true so the receiver can ignore it. Call this to VERIFY a "
      ∷ codes "hypothesis against live behavior — a diagnosis that was never "
      ∷ codes "tested against a probe or a DNS/TLS check is downgraded to low "
      ∷ codes "confidence."
      ∷ []);
  properties = [];
  required = [];
}

abbrev pub check_dns_tls_schema : Schema
check_dns_tls_schema = record {
  name = check_dns_tls;
  description = join [] (
      codes "Resolve the endpoint's hostname and inspect its TLS certificate: "
      ∷ codes "expiry, hostname match, chain validity. Call this when attempts "
      ∷ codes "show dns or tls error classes, or when connections fail before "
      ∷ codes "any HTTP status is returned."
      ∷ []);
  properties = [];
  required = [];
}

abbrev pub pause_endpoint_schema : Schema
pause_endpoint_schema = record {
  name = pause_endpoint;
  description = join [] (
      codes "MUTATING — REQUIRES HUMAN APPROVAL. Does not pause anything. "
      ∷ codes "Records a pending request for an operator to approve. Call this "
      ∷ codes "only when the endpoint is persistently broken and continued "
      ∷ codes "delivery attempts are pure waste."
      ∷ []);
  properties =
      record {
        key = codes "reason";
        kind = codes "string";
        choices = [];
        description = codes "Why pausing is warranted, for the operator reviewing it.";
      }
      ∷ [];
  required = (codes "reason" ∷ []);
}

abbrev pub replay_dlq_schema : Schema
replay_dlq_schema = record {
  name = replay_dlq;
  description = join [] (
      codes "MUTATING — REQUIRES HUMAN APPROVAL. Does not replay anything. "
      ∷ codes "Records a pending request for an operator to approve. Call this "
      ∷ codes "only when the underlying fault is resolved and dead deliveries "
      ∷ codes "should be retried."
      ∷ []);
  properties =
      record {
        key = codes "reason";
        kind = codes "string";
        choices = [];
        description = codes "Why replaying is safe now, for the operator reviewing it.";
      }
      ∷ [];
  required = (codes "reason" ∷ []);
}

abbrev pub tool_schemas : List Schema
tool_schemas =
    query_attempts_schema ∷ get_endpoint_config_schema ∷ probe_endpoint_schema
    ∷ check_dns_tls_schema ∷ pause_endpoint_schema ∷ replay_dlq_schema ∷ []

-- `VERIFICATION_TOOLS`
abbrev pub is_verification : Tool → Bool
is_verification probe_endpoint = true
is_verification check_dns_tls = true
is_verification _ = false
