-- ===== src/Schema/Tables.antt =====
-- alembic/versions: the tables that the revisions create, without their indexes.
use web_hooks.Base.{true, [], ◌∷◌}
use package.web_hooks.Schema.{
  text, integer, big_integer, timestamp, jsonb, text_array, numeric_10_6, Table, required, optional,
  defaulting, uuid_key, foreign, created,
}

abbrev pub tenants : Table
tenants = record {
  name = "tenants";
  columns =
      uuid_key
      ∷ required "name" text
      ∷ record (required "api_key_hash" text) { unique = true }
      ∷ created "created_at"
      ∷ [];
  checks = [];
  uniques = [];
  indexes = [];
}

abbrev pub endpoints : Table
endpoints = record {
  name = "endpoints";
  columns =
      uuid_key
      ∷ foreign "tenant_id" "tenants"
      ∷ required "url" text
      ∷ required "signing_secret" text
      ∷ defaulting "ordering" text "'unordered'"
      ∷ defaulting "status" text "'active'"
      ∷ defaulting "event_types" text_array "'{}'"
      ∷ created "created_at"
      ∷ [];
  checks =
      record {
        name = "ck_endpoints_ordering";
        column = "ordering";
        values = "ordered" ∷ "unordered" ∷ [];
      }
      ∷ record {
        name = "ck_endpoints_status";
        column = "status";
        values = "active" ∷ "paused" ∷ "disabled" ∷ [];
      }
      ∷ [];
  uniques = [];
  indexes = [];
}

abbrev pub events : Table
events = record {
  name = "events";
  columns =
      uuid_key
      ∷ foreign "tenant_id" "tenants"
      ∷ required "event_type" text
      ∷ required "payload" jsonb
      ∷ optional "idempotency_key" text
      ∷ created "created_at"
      ∷ [];
  checks = [];
  uniques =
      record {
        name = "uq_events_tenant_idempotency";
        columns = "tenant_id" ∷ "idempotency_key" ∷ [];
      }
      ∷ [];
  indexes = [];
}

abbrev pub deliveries : Table
deliveries = record {
  name = "deliveries";
  columns =
      uuid_key
      ∷ foreign "event_id" "events"
      ∷ foreign "endpoint_id" "endpoints"
      ∷ defaulting "status" text "'pending'"
      ∷ defaulting "attempt_count" integer "0"
      ∷ optional "next_attempt_at" timestamp
      ∷ created "created_at"
      ∷ created "updated_at"
      ∷ [];
  checks =
      record {
        name = "ck_deliveries_status";
        column = "status";
        values = "pending" ∷ "delivering" ∷ "delivered" ∷ "failed" ∷ "dead" ∷ [];
      }
      ∷ [];
  uniques = [];
  indexes = [];
}

abbrev pub delivery_attempts : Table
delivery_attempts = record {
  name = "delivery_attempts";
  columns =
      record (required "id" big_integer) { identity = true; primary_key = true }
      ∷ foreign "delivery_id" "deliveries"
      ∷ required "attempt_number" integer
      ∷ created "started_at"
      ∷ required "latency_ms" integer
      ∷ optional "http_status" integer
      ∷ optional "error_class" text
      ∷ optional "response_snippet" text
      ∷ [];
  checks = [];
  uniques = [];
  indexes = [];
}

abbrev pub diagnoses : Table
diagnoses = record {
  name = "diagnoses";
  columns =
      uuid_key
      ∷ foreign "endpoint_id" "endpoints"
      ∷ required "triggered_by" text
      ∷ required "root_cause" text
      ∷ required "confidence" text
      ∷ required "evidence" jsonb
      ∷ required "recommendation" text
      ∷ required "draft_email" text
      ∷ defaulting "status" text "'open'"
      ∷ defaulting "cost_usd" numeric_10_6 "0"
      ∷ created "created_at"
      ∷ [];
  checks =
      record {
        name = "ck_diagnoses_confidence";
        column = "confidence";
        values = "low" ∷ "medium" ∷ "high" ∷ [];
      }
      ∷ record {
        name = "ck_diagnoses_status";
        column = "status";
        values = "open" ∷ "acknowledged" ∷ "resolved" ∷ [];
      }
      ∷ [];
  uniques = [];
  indexes = [];
}

abbrev pub agent_actions : Table
agent_actions = record {
  name = "agent_actions";
  columns =
      uuid_key
      ∷ foreign "diagnosis_id" "diagnoses"
      ∷ foreign "endpoint_id" "endpoints"
      ∷ required "action" text
      ∷ required "reason" text
      ∷ defaulting "status" text "'pending'"
      ∷ optional "decided_at" timestamp
      ∷ created "created_at"
      ∷ [];
  checks =
      record {
        name = "ck_agent_actions_action";
        column = "action";
        values = "pause_endpoint" ∷ "replay_dlq" ∷ [];
      }
      ∷ record {
        name = "ck_agent_actions_status";
        column = "status";
        values = "pending" ∷ "approved" ∷ "rejected" ∷ [];
      }
      ∷ [];
  uniques = [];
  indexes = [];
}
