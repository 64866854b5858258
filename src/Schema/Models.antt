-- ===== src/Schema/Models.antt =====
-- relay/db/models.py: the tables as they are declared, with their columns in that order.
use web_hooks.Base.{true, List, [], ◌∷◌}
use package.web_hooks.Schema.{
  text, integer, big_integer, timestamp, jsonb, text_array, numeric_10_6, Table, required, optional,
  defaulting, uuid_key, foreign, created,
}

abbrev pub tenant_model : Table
tenant_model = record {
  name = "tenants";
  columns =
      uuid_key
      ∷ required "name" text
      ∷ record (required "api_key_hash" text) { unique = true }
      ∷ optional "rate_per_sec" integer
      ∷ optional "max_inflight" integer
      ∷ created "created_at"
      ∷ [];
  checks = [];
  uniques = [];
  indexes = [];
}

abbrev pub endpoint_model : Table
endpoint_model = record {
  name = "endpoints";
  checks =
      record {
        name = "ck_endpoints_ordering";
        column = "ordering";
        values = "ordered" ∷ "unordered" ∷ [];
      }
      ∷ record {
        name = "ck_endpoints_status";
        column = "status";
        values = "active" ∷ "paused" ∷ "disabled" ∷ [];
      }
      ∷ [];
  columns =
      uuid_key
      ∷ foreign "tenant_id" "tenants"
      ∷ required "url" text
      ∷ required "signing_secret" text
      ∷ defaulting "ordering" text "'unordered'"
      ∷ defaulting "status" text "'active'"
      ∷ defaulting "event_types" text_array "'{}'"
      ∷ created "created_at"
      ∷ [];
  uniques = [];
  indexes = [];
}

abbrev pub event_model : Table
event_model = record {
  name = "events";
  checks = [];
  uniques =
      record {
        name = "uq_events_tenant_idempotency";
        columns = "tenant_id" ∷ "idempotency_key" ∷ [];
      }
      ∷ [];
  indexes =
      record { name = "ix_events_tenant_created"; columns = "tenant_id" ∷ "created_at" ∷ [] } ∷ [];
  columns =
      uuid_key
      ∷ foreign "tenant_id" "tenants"
      ∷ required "event_type" text
      ∷ required "payload" jsonb
      ∷ optional "idempotency_key" text
      ∷ created "created_at"
      ∷ [];
}

abbrev pub delivery_model : Table
delivery_model = record {
  name = "deliveries";
  checks =
      record {
        name = "ck_deliveries_status";
        column = "status";
        values = "pending" ∷ "delivering" ∷ "delivered" ∷ "failed" ∷ "dead" ∷ [];
      }
      ∷ [];
  uniques = [];
  indexes =
      record { name = "ix_deliveries_endpoint_status"; columns = "endpoint_id" ∷ "status" ∷ [] }
      ∷ [];
  columns =
      uuid_key
      ∷ foreign "event_id" "events"
      ∷ foreign "endpoint_id" "endpoints"
      ∷ defaulting "status" text "'pending'"
      ∷ defaulting "attempt_count" integer "0"
      ∷ optional "next_attempt_at" timestamp
      ∷ created "created_at"
      ∷ created "updated_at"
      ∷ [];
}

abbrev pub diagnosis_model : Table
diagnosis_model = record {
  name = "diagnoses";
  checks =
      record {
        name = "ck_diagnoses_confidence";
        column = "confidence";
        values = "low" ∷ "medium" ∷ "high" ∷ [];
      }
      ∷ record {
        name = "ck_diagnoses_status";
        column = "status";
        values = "open" ∷ "acknowledged" ∷ "resolved" ∷ [];
      }
      ∷ [];
  uniques = [];
  indexes =
      record { name = "ix_diagnoses_endpoint_created"; columns = "endpoint_id" ∷ "created_at" ∷ [] }
      ∷ [];
  columns =
      uuid_key
      ∷ foreign "endpoint_id" "endpoints"
      ∷ required "triggered_by" text
      ∷ required "root_cause" text
      ∷ required "confidence" text
      ∷ required "evidence" jsonb
      ∷ required "recommendation" text
      ∷ required "draft_email" text
      ∷ defaulting "status" text "'open'"
      ∷ defaulting "cost_usd" numeric_10_6 "0"
      ∷ created "created_at"
      ∷ [];
}

abbrev pub agent_action_model : Table
agent_action_model = record {
  name = "agent_actions";
  checks =
      record {
        name = "ck_agent_actions_action";
        column = "action";
        values = "pause_endpoint" ∷ "replay_dlq" ∷ [];
      }
      ∷ record {
        name = "ck_agent_actions_status";
        column = "status";
        values = "pending" ∷ "approved" ∷ "rejected" ∷ [];
      }
      ∷ [];
  uniques = [];
  indexes = record { name = "ix_agent_actions_status"; columns = "status" ∷ [] } ∷ [];
  columns =
      uuid_key
      ∷ foreign "diagnosis_id" "diagnoses"
      ∷ foreign "endpoint_id" "endpoints"
      ∷ required "action" text
      ∷ required "reason" text
      ∷ defaulting "status" text "'pending'"
      ∷ optional "decided_at" timestamp
      ∷ created "created_at"
      ∷ [];
}

abbrev pub delivery_attempt_model : Table
delivery_attempt_model = record {
  name = "delivery_attempts";
  checks = [];
  uniques = [];
  indexes =
      record {
        name = "ix_delivery_attempts_delivery_number";
        columns = "delivery_id" ∷ "attempt_number" ∷ [];
      }
      ∷ [];
  columns =
      record (required "id" big_integer) { identity = true; primary_key = true }
      ∷ foreign "delivery_id" "deliveries"
      ∷ required "attempt_number" integer
      ∷ created "started_at"
      ∷ required "latency_ms" integer
      ∷ optional "http_status" integer
      ∷ optional "error_class" text
      ∷ optional "response_snippet" text
      ∷ [];
}

-- `Base.metadata`
abbrev pub models : List Table
models =
    tenant_model ∷ endpoint_model ∷ event_model ∷ delivery_model ∷ diagnosis_model
    ∷ agent_action_model ∷ delivery_attempt_model ∷ []
