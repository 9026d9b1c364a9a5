-- ===== src/Snapshots/Runs.antt =====
-- `CreateRun` and `FailRun` of internal/store/sync_repository.go.
use capcom.Prelude.{String, Bool, ◌&&◌, ◌||◌, ◌==◌, if◌then◌else◌, nat_eq, some, ◌∷◌}
use capcom.Prelude.Rows.{any, update_where}
use capcom.Errors.{Result, ok}
use capcom.Effects.{Effect, ◌>>=◌, ◌>>◌, try, write, done, read, transaction}
use capcom.Tenant.{Context, organization_id}
use capcom.Domain.Snapshot.{RuntimeSyncRun, running, failed}
use capcom.Snapshots.Tables.{ConnectionRow, World, Env}
use capcom.Snapshots.Upserts.{at}

abbrev is_connection : String → String → ConnectionRow → Bool
is_connection org id c = c.id == id && (org == "" || c.organization_id == org)

module _ (env : Env) (ctx : Context) where
  -- `INSERT … SELECT` adds no row for a connection that is not visible. The time zero is Go's.
  unfoldable pub create_run : RuntimeSyncRun → Effect World RuntimeSyncRun
  create_run given = do
    id ← read (λ w. if given.id == "" then env.new_id w else ok given.id)
    run ← read (λ w. ok (record given {
      id = id;
      started_at = if nat_eq given.started_at 0 then env.now w else given.started_at;
      status = running;
    }))
    try (at env "create sync run" run.id)
    write (λ w. record w {
      runs =
          if any (is_connection (organization_id ctx) run.runtime_connection_id) w.connections
          then run ∷ w.runs
          else w.runs;
    })
    try (at env "mark runtime syncing" run.runtime_connection_id)
    write (λ w. record w {
      connections =
          update_where (λ c. c.id == run.runtime_connection_id)
            (λ c. record c {
              last_sync_status = "running";
              last_sync_started_at = some run.started_at;
            })
            w.connections;
    })
    done run

  unfoldable pub failed_run : RuntimeSyncRun → String → String → World → RuntimeSyncRun
  failed_run run code text w =
      let finished = env.now w in
      record run {
        status = failed;
        finished_at = some finished;
        duration_ms = env.milliseconds finished run.started_at;
        error_code = code;
        error_message = text;
      }

  abbrev marked : RuntimeSyncRun → RuntimeSyncRun → RuntimeSyncRun
  marked run r = record r {
    status = failed;
    finished_at = run.finished_at;
    duration_ms = run.duration_ms;
    error_code = run.error_code;
    error_message = run.error_message;
  }

  abbrev degraded : RuntimeSyncRun → ConnectionRow → ConnectionRow
  degraded run c = record c {
    status = "degraded";
    last_sync_status = "failed";
    last_sync_finished_at = run.finished_at;
    last_sync_duration_ms = run.duration_ms;
    last_error = run.error_message;
  }

  abbrev write_failure : RuntimeSyncRun → World → Result (Unit {0}) × World
  write_failure run = transaction do
    try (at env "begin failed sync update" run.id)
    try (at env "fail sync run" run.id)
    write (λ w. record w { runs = update_where (λ r. r.id == run.id) (marked run) w.runs })
    try (at env "degrade runtime" run.runtime_connection_id)
    write (λ w. record w {
      connections =
          update_where (λ c. c.id == run.runtime_connection_id) (degraded run) w.connections;
    })
    try (at env "commit failed sync update" run.id)

  -- The run comes back as failed, also beside an error.
  unfoldable pub fail_run :
      RuntimeSyncRun → String → String → World → RuntimeSyncRun × Result (Unit {0}) × World
  fail_run given code text w =
      let run = failed_run given code text w in let (r, w') = write_failure run w in (run, r, w')
