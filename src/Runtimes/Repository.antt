-- ===== src/Runtimes/Repository.antt =====
-- `RuntimeConnectionRepository` of internal/store/repositories.go.
use capcom.Prelude.{String, Bool, true, ◌==◌, if◌then◌else◌, Option, none, some, [], ◌∷◌}
use capcom.Errors.{Error, sentinel, wrap, no_rows, unique_violation, Result, ok, err}
use capcom.Effects.{Effect, ◌>>=◌, ◌>>◌, failed, try, write, done, read, transaction}
use capcom.Tenant.{Context, organization_id, organization_id_for_write}
use capcom.Domain.Runtime.{Time, RuntimeEndpoint, RuntimeConnection}
use capcom.Prelude.Rows.{any}
use capcom.Runtimes.Table.{
  World, Env, Statement, find_visible, is_taken, has_route, canonical, endpoints_of,
}
use capcom.Runtimes.Table.Statement.{
  begin, commit, marshal, select_runtime, list_endpoints, insert_runtime, insert_endpoint,
}

abbrev or_else : String → String → String
or_else s d = if s == "" then d else s

abbrev found : String → Option RuntimeConnection → Result RuntimeConnection
found t none = err (wrap t (sentinel no_rows))
found t (some c) = ok c

abbrev unless : Bool → Error → World → Option Error
unless b e w = if b then some e else none

-- The fault of a statement, as the method wraps it.
abbrev pub at : Env → String → Statement → World → Option Error
at env t s w = failed t (env.fault w s)

-- The columns that the statement does not list have their defaults.
unfoldable pub inserted : (Time → Time) → RuntimeConnection → RuntimeConnection
inserted column_time conn = record conn {
  created_at = column_time conn.created_at;
  updated_at = column_time conn.updated_at;
  last_synced_at = none;
  sync_enabled = true;
  sync_interval_seconds = 60;
  last_sync_status = "";
  last_sync_started_at = none;
  last_sync_finished_at = none;
  last_sync_duration_ms = 0;
  last_error = "";
  endpoints = [];
}

-- The times of a route, as its row keeps them.
abbrev pub in_columns : (Time → Time) → RuntimeEndpoint → RuntimeEndpoint
in_columns column_time e = record e {
  created_at = column_time e.created_at;
  updated_at = column_time e.updated_at;
}

module _ (env : Env) (ctx : Context) where
  unfoldable pub get : String → Effect World RuntimeConnection
  get id = do
    try (at env "get runtime connection" (select_runtime id))
    conn ←
        read
          (λ w. found "get runtime connection" (find_visible (organization_id ctx) id w.runtimes))
    try (at env "list runtime endpoints" (list_endpoints id))
    read (λ w. ok (record conn { endpoints = endpoints_of conn.id w.endpoints }))

  -- `INSERT INTO runtime_connections`, with the unique indexes
  unfoldable pub insert : RuntimeConnection → Effect World (Unit {0})
  insert conn = do
    try (at env "create runtime connection" (insert_runtime conn.id))
    try (λ w.
        unless (any (is_taken env conn) w.runtimes)
          (wrap "create runtime connection" (sentinel unique_violation)) w)
    write (λ w. record w {
      runtimes = record { conn = inserted env.column_time conn; archived = none } ∷ w.runtimes;
    })

  -- `INSERT INTO runtime_connection_endpoints`
  unfoldable pub insert_route : String → String → String → RuntimeEndpoint → Effect World (Unit {0})
  insert_route t by reason e = do
    try (at env t (insert_endpoint e.url))
    try (λ w.
        unless (any (has_route env e.runtime_connection_id e.url) w.endpoints)
          (wrap t (sentinel unique_violation)) w)
    write (λ w. record w {
      endpoints = record { endpoint = e; created_by = by; reason = reason } ∷ w.endpoints;
    })

  unfoldable pub create : RuntimeConnection → Effect World RuntimeConnection
  create given = do
    id ← read (λ w. if given.id == "" then env.new_id w else ok given.id)
    now ← read (λ w. ok (env.now w))
    let conn : RuntimeConnection = record given {
      id = id;
      created_at = now;
      updated_at = now;
      display_name = or_else given.display_name given.name;
      environment = or_else given.environment "unspecified";
      organization_id = organization_id_for_write ctx;
    }
    try (at env "marshal runtime metadata" (marshal "metadata"))
    try (at env "marshal runtime labels" (marshal "labels"))
    transaction do
      try (at env "begin runtime connection creation" (begin id))
      insert conn
      endpoint_id ← read env.new_endpoint_id
      let route : RuntimeEndpoint = record {
        id = endpoint_id;
        runtime_connection_id = id;
        url = conn.base_url;
        kind = canonical;
        auth_ref = conn.auth_ref;
        source_runtime_connection_id = "";
        created_at = now;
        updated_at = now;
      }
      insert_route "create canonical runtime endpoint" "system"
          "Canonical endpoint created with runtime instance" (in_columns env.column_time route)
      try (at env "commit runtime connection creation" (commit id))
      done (record conn { endpoints = route ∷ [] })
