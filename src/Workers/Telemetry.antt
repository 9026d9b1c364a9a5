-- ===== src/Workers/Telemetry.antt =====
-- `TelemetryWorker` of internal/workers/telemetry.go: which connections a tick collects from, and
-- what is done for one of them. The ticker, the timeout, the logger and the goroutines, of which
-- there is one for each connection, are left out.
use capcom.Prelude.{
  ℕ, ◌-◌, ◌*◌, ◌%◌, String, Bool, false, not, ◌&&◌, ◌||◌, ◌==◌, if◌then◌else◌, Option, none, some,
  List, ◌∷◌,
}
use capcom.Errors.{Error, Result, ok, err}
use capcom.Domain.Runtime.{Time, RuntimeKind, RuntimeConnection, kind_gantry, status_disabled}
use capcom.Domain.Telemetry.{
  UsageSource, UsageQuery, TelemetryIngestionRun, source_gantry_native, source_lang_smith,
}
use capcom.Telemetry.Normalize.{Env}
use capcom.Telemetry.Service.{Stored, Upsert, Ingested, ingest}

-- `telemetrySchemaVersion`, `window` and `overlap`
abbrev pub schema_version : String
schema_version = "usage-v1"

abbrev pub window : ℕ
window = 5 * 60 * 1000000000

abbrev pub overlap : ℕ
overlap = 60 * 1000000000

unfoldable pub source_for_runtime : RuntimeKind → UsageSource
source_for_runtime kind = if kind == kind_gantry then source_gantry_native else source_lang_smith

-- The reader of a kind says whether it is configured for a connection, if it can say so.
unfoldable pub is_collected :
    (RuntimeKind → Option (RuntimeConnection → Bool)) → RuntimeConnection → Bool
is_collected readers conn = elim (readers conn.kind) [
  | none ↦ false
  | some is_configured ↦
      not (not conn.sync_enabled || conn.status == status_disabled) && is_configured conn
]

-- `now.Truncate(window)` and the query of a collection.
unfoldable pub query_of : Time → RuntimeConnection → UsageQuery
query_of now conn =
    let to = now - now % window in
    record {
      from = to - window - overlap;
      to = to;
      interval = window;
      runtime_connection_id = conn.id;
      agent_id = "";
      runtime_agent_id = "";
      runtime_execution_id = "";
      runtime_job_id = "";
      grouping_dimension = "";
      model = "";
      source = "";
    }

pub data Event : Type 0 where
  created : TelemetryIngestionRun → Event
  queried : UsageQuery → Event
  -- the error that FinishIngestionRun was given, and the one that it returned
  finished : TelemetryIngestionRun → Option Error → Option Error → Event

module _ (env : Env) where
  -- The calls of the run repository and the reader, and the observations handed to the store.
  pub record World : Type 0 where
    pub log : List Event
    pub stored : Stored env

  -- The run repository, the reader, the store and the printing of times.
  pub record Services : Type 0 where
    pub create_ingestion_run : World → TelemetryIngestionRun → Result TelemetryIngestionRun
    pub finish_ingestion_run : World → TelemetryIngestionRun → Option Error → Option Error
    pub query_usage : World → RuntimeConnection → UsageQuery → Result (Stored env)
    pub upsert : Upsert env
    pub format : Time → String

  abbrev pub new_run : Services → RuntimeConnection → TelemetryIngestionRun
  new_run services conn = record {
    id = "";
    runtime_connection_id = conn.id;
    source = source_for_runtime conn.kind;
    status = "";
    cursor = services.format (query_of env.now conn).to;
    schema_version = schema_version;
    started_at = env.now;
    finished_at = none;
    last_successful_at = none;
    accepted = 0;
    rejected = 0;
    deduplicated = 0;
    last_error = "";
  }

  abbrev pub counted : Ingested → TelemetryIngestionRun → TelemetryIngestionRun
  counted c run = record run {
    accepted = c.accepted;
    rejected = c.rejected;
    deduplicated = c.deduplicated;
  }

  -- An error of FinishIngestionRun is logged and not returned.
  abbrev pub finish : Services → TelemetryIngestionRun → Option Error → World → World
  finish services run error w = record w {
    log = finished run error (services.finish_ingestion_run w run error) ∷ w.log;
  }

  -- The run was created.
  unfoldable pub collect_run : Services → RuntimeConnection → TelemetryIngestionRun → World → World
  unfolding query_of ingest
  collect_run services conn run w =
      let query = query_of env.now conn in
      let asked = record w { log = queried query ∷ w.log } in
      elim (services.query_usage w conn query) [
        | err e ↦ finish services run (some e) asked
        | ok observations ↦
            let result = ingest env services.upsert observations w.stored in
            finish services (counted result.0 run) result.0.error
              (record asked { stored = result.1 })
      ]

  unfoldable pub collect_one : Services → RuntimeConnection → World → World
  unfolding collect_run source_for_runtime query_of
  collect_one services conn w = elim (services.create_ingestion_run w (new_run services conn)) [
    | err _ ↦ w
    | ok run ↦ collect_run services conn run (record w { log = created run ∷ w.log })
  ]
