-- ===== src/Runtimes/Changes.antt =====
-- `RuntimeConnectionRepository.UpdateSettings`, `Archive` and `ConsolidateEndpoint` of
-- internal/store/repositories.go.
use capcom.Prelude.{String, Bool, false, not, ◌&&◌, ◌==◌, if◌then◌else◌, Option, none, some}
use capcom.Errors.{Error, sentinel, message, wrap, no_rows, unique_violation, Result, ok, err}
use capcom.Effects.{Effect, ◌>>=◌, ◌>>◌, try, require, write, read, transaction}
use capcom.Tenant.{Context, organization_id}
use capcom.Domain.Runtime.{Time, RuntimeConnection, RuntimeEndpointKind, status_disabled}
use capcom.Prelude.Rows.{any, update_where}
use capcom.Runtimes.Table.{
  Archive, RuntimeRow, EndpointRow, World, Env, is_visible, find_visible, is_taken, has_route,
  is_canonical,
}
use capcom.Runtimes.Table.Statement.{
  begin, commit, marshal, lock_runtime, update_runtime, archive_runtime, update_endpoint,
  rows_affected,
}
use capcom.Runtimes.Repository.{at, get, insert_route}

-- `SET display_name=$2, …, updated_at=now()`
unfoldable pub with_settings : RuntimeConnection → Time → RuntimeRow → RuntimeRow
with_settings conn now r = record r {
  conn = record r.conn {
    display_name = conn.display_name;
    environment = conn.environment;
    labels = conn.labels;
    mode = conn.mode;
    base_url = conn.base_url;
    auth_ref = conn.auth_ref;
    metadata = conn.metadata;
    sync_enabled = conn.sync_enabled;
    sync_interval_seconds = conn.sync_interval_seconds;
    updated_at = now;
  };
}

-- `SET endpoint=$2, auth_ref=NULLIF($3, ''), updated_at=now()`
unfoldable pub with_route : RuntimeConnection → Time → EndpointRow → EndpointRow
with_route conn now r = record r {
  endpoint = record r.endpoint { url = conn.base_url; auth_ref = conn.auth_ref; updated_at = now };
}

-- `SET archived_at=now(), …, sync_enabled=false, status='disabled', updated_at=now()`
unfoldable pub archived_row : Archive → Time → RuntimeRow → RuntimeRow
archived_row a now r = record r {
  conn = record r.conn { sync_enabled = false; status = status_disabled; updated_at = now };
  archived = some a;
}

abbrev is_other_route : Env → String → String → EndpointRow → Bool
is_other_route env id url r = not (is_canonical id r) && has_route env id url r

-- `Scan` of one row, which is there
abbrev scanned : String → Option RuntimeConnection → Result RuntimeConnection
scanned t none = err (wrap t (sentinel no_rows))
scanned t (some c) = ok c

abbrev when : Bool → Error → World → Option Error
when b e w = if b then some e else none

module _ (env : Env) (ctx : Context) where
  -- Neither statement looks at how many rows it changed. The row that is updated keeps its name,
  -- kind and organization, so that only its endpoint can break a unique index.
  unfoldable pub write_settings : RuntimeConnection → Effect World (Unit {0})
  write_settings conn = transaction do
    try (at env "begin runtime settings update" (begin conn.id))
    try (at env "update runtime instance settings" (update_runtime conn.id))
    try (λ w.
        when
          (any (is_visible (organization_id ctx) conn.id) w.runtimes
            && any (is_taken env conn) w.runtimes)
          (wrap "update runtime instance settings" (sentinel unique_violation)) w)
    write (λ w. record w {
      runtimes =
          update_where (is_visible (organization_id ctx) conn.id) (with_settings conn (env.now w))
            w.runtimes;
    })
    try (at env "update canonical runtime endpoint" (update_endpoint conn.id))
    try (λ w.
        when
          (any (is_canonical conn.id) w.endpoints
            && any (is_other_route env conn.id conn.base_url) w.endpoints)
          (wrap "update canonical runtime endpoint" (sentinel unique_violation)) w)
    write (λ w. record w {
      endpoints = update_where (is_canonical conn.id) (with_route conn (env.now w)) w.endpoints;
    })
    try (at env "commit runtime settings update" (commit conn.id))

  unfoldable pub update_settings : RuntimeConnection → Effect World RuntimeConnection
  update_settings conn = do
    try (at env "marshal runtime labels" (marshal "labels"))
    try (at env "marshal runtime metadata" (marshal "metadata"))
    write_settings conn
    get env ctx conn.id

  unfoldable pub archive : String → String → String → Effect World (Unit {0})
  archive id actor reason = do
    try (at env "archive runtime connection" (archive_runtime id))
    affected ← read (λ w. ok (any (is_visible (organization_id ctx) id) w.runtimes))
    write (λ w. record w {
      runtimes =
          update_where (is_visible (organization_id ctx) id)
            (archived_row
              (record { by = actor; reason = reason; kind = "removed"; merged_into = none })
              (env.now w))
            w.runtimes;
    })
    try (at env "archive runtime connection rows affected" (rows_affected id))
    require affected (wrap "archive runtime connection" (sentinel no_rows))

  -- `SELECT … FOR UPDATE`
  unfoldable pub locked : String → String → Effect World RuntimeConnection
  locked t id = do
    try (at env t (lock_runtime id))
    read (λ w. scanned t (find_visible (organization_id ctx) id w.runtimes))

  unfoldable pub consolidate_endpoint :
      String → String → RuntimeEndpointKind → String → String → Effect World (Unit {0})
  consolidate_endpoint canonical_id duplicate_id kind actor reason = transaction do
    try (at env "begin endpoint consolidation" (begin canonical_id))
    c ← locked "get canonical runtime connection" canonical_id
    d ← locked "get duplicate runtime connection" duplicate_id
    require (c.kind == d.kind) (message "runtime types must match")
    endpoint_id ← read env.new_endpoint_id
    now ← read (λ w. ok (env.now w))
    insert_route env ctx "create runtime endpoint alias" actor reason (record {
      id = endpoint_id;
      runtime_connection_id = canonical_id;
      url = d.base_url;
      kind = kind;
      auth_ref = d.auth_ref;
      source_runtime_connection_id = duplicate_id;
      created_at = now;
      updated_at = now;
    })
    try (at env "archive duplicate runtime connection" (archive_runtime duplicate_id))
    affected ← read (λ w. ok (any (is_visible "" duplicate_id) w.runtimes))
    write (λ w. record w {
      runtimes =
          update_where (is_visible "" duplicate_id)
            (archived_row
              (record { by = actor; reason = reason; kind = kind; merged_into = some canonical_id })
              (env.now w))
            w.runtimes;
    })
    try (at env "archive duplicate runtime connection rows affected" (rows_affected duplicate_id))
    require affected (wrap "archive duplicate runtime connection" (sentinel no_rows))
    try (at env "commit endpoint consolidation" (commit canonical_id))
