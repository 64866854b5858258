-- ===== src/Schema/Revisions.antt =====
-- alembic/versions: the four revisions.
use web_hooks.Base.{none, some, List, [], ◌∷◌}
use package.web_hooks.Schema.Tables.{
  tenants, endpoints, events, deliveries, delivery_attempts, diagnoses, agent_actions,
}
use package.web_hooks.Schema.{
  integer, optional, create_table, drop_table, add_column, drop_column, create_index, Revision,
}

abbrev pub ingestion : Revision
ingestion = record {
  revision = "0001";
  down_revision = none;
  upgrade =
      create_table tenants
      ∷ create_table endpoints
      ∷ create_table events
      ∷ create_index "events"
          (record { name = "ix_events_tenant_created"; columns = "tenant_id" ∷ "created_at" ∷ [] })
      ∷ create_table deliveries
      ∷ create_index "deliveries" (record {
        name = "ix_deliveries_endpoint_status";
        columns = "endpoint_id" ∷ "status" ∷ [];
      })
      ∷ [];
  downgrade =
      drop_table "deliveries"
      ∷ drop_table "events"
      ∷ drop_table "endpoints"
      ∷ drop_table "tenants"
      ∷ [];
}

abbrev pub attempts : Revision
attempts = record {
  revision = "0002";
  down_revision = some "0001";
  upgrade =
      create_table delivery_attempts
      ∷ create_index "delivery_attempts" (record {
        name = "ix_delivery_attempts_delivery_number";
        columns = "delivery_id" ∷ "attempt_number" ∷ [];
      })
      ∷ [];
  downgrade = drop_table "delivery_attempts" ∷ [];
}

abbrev pub tenant_limits : Revision
tenant_limits = record {
  revision = "0003";
  down_revision = some "0002";
  upgrade =
      add_column "tenants" (optional "rate_per_sec" integer)
      ∷ add_column "tenants" (optional "max_inflight" integer)
      ∷ [];
  downgrade = drop_column "tenants" "max_inflight" ∷ drop_column "tenants" "rate_per_sec" ∷ [];
}

abbrev pub diagnosing : Revision
diagnosing = record {
  revision = "0004";
  down_revision = some "0003";
  upgrade =
      create_table diagnoses
      ∷ create_index "diagnoses" (record {
        name = "ix_diagnoses_endpoint_created";
        columns = "endpoint_id" ∷ "created_at" ∷ [];
      })
      ∷ create_table agent_actions
      ∷ create_index "agent_actions"
          (record { name = "ix_agent_actions_status"; columns = "status" ∷ [] })
      ∷ [];
  downgrade = drop_table "agent_actions" ∷ drop_table "diagnoses" ∷ [];
}

-- The revisions in the order of their `down_revision`.
abbrev pub revisions : List Revision
revisions = ingestion ∷ attempts ∷ tenant_limits ∷ diagnosing ∷ []
