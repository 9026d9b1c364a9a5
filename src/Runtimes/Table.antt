-- ===== src/Runtimes/Table.antt =====
-- The tables `runtime_connections` and `runtime_connection_endpoints` (migrations 011 to 013), and
-- the statements over them.
use capcom.Prelude.{
  ℕ, String, Bool, true, false, not, ◌&&◌, ◌||◌, ◌==◌, leb, ltb, if◌then◌else◌, Option, none, some,
  List, [], ◌∷◌,
}
use capcom.Errors.{Error, Result}
use capcom.Domain.Runtime.{Time, RuntimeEndpoint, RuntimeConnection, RuntimeEndpointKind}
use capcom.Domain.Control.{AuditEvent}
use capcom.Runtimes.Input.{Texts}

-- `archived_by`, `archive_reason`, `archive_kind` and `merged_into_runtime_connection_id`
pub record Archive : Type 0 where
  pub by : String
  pub reason : String
  pub kind : String
  pub merged_into : Option String

-- The column `endpoints` of the connection is not used: they are rows of their own.
pub record RuntimeRow : Type 0 where
  pub conn : RuntimeConnection
  pub archived : Option Archive

pub record EndpointRow : Type 0 where
  pub endpoint : RuntimeEndpoint
  pub created_by : String
  pub reason : String

pub record World : Type 0 where
  pub runtimes : List RuntimeRow
  pub endpoints : List EndpointRow
  pub audits : List AuditEvent

-- Where the database, or the encoding of a column, can fail.
pub data Statement : Type 0 where
  begin commit : String → Statement
  marshal : String → Statement
  select_runtime lock_runtime list_endpoints : String → Statement
  insert_runtime update_runtime archive_runtime : String → Statement
  insert_endpoint update_endpoint : String → Statement
  -- `result.RowsAffected()` of the update that archives
  rows_affected : String → Statement
  insert_audit : AuditEvent → Statement

pub record Env : Type 0 where
  pub fault : World → Statement → Option Error
  pub now : World → Time
  -- what a column of type timestamptz keeps of a time
  pub column_time : Time → Time
  pub new_id : World → Result String
  pub new_endpoint_id : World → Result String
  pub texts : Texts
  -- `lower(rtrim(endpoint, '/'))` of the unique indexes
  pub endpoint_key : String → String
  -- what the service was given
  pub runtimes : Bool
  pub secrets : Bool
  pub audits : Bool
  pub resolve : World → String → Result String

abbrev is_active : Option Archive → Bool
is_active none = true
is_active (some _) = false

-- `id = $1 AND archived_at IS NULL AND ($2 = '' OR organization_id = $2)`
unfoldable pub is_visible : String → String → RuntimeRow → Bool
is_visible org id r =
    r.conn.id == id && is_active r.archived && (org == "" || r.conn.organization_id == org)

unfoldable pub find_visible : String → String → List RuntimeRow → Option RuntimeConnection
unfolding is_visible
find_visible org id [] = none
find_visible org id (r ∷ rows) =
    let rest = find_visible org id rows in if is_visible org id r then some r.conn else rest

-- The unique indexes on the active rows of an organization: another one has the name, or the
-- endpoint for the same kind of runtime.
unfoldable pub is_taken : Env → RuntimeConnection → RuntimeRow → Bool
is_taken env c r =
    is_active r.archived
    && not (r.conn.id == c.id)
    && r.conn.organization_id == c.organization_id
    && (r.conn.name == c.name
        || (r.conn.kind == c.kind
            && env.endpoint_key r.conn.base_url == env.endpoint_key c.base_url))

-- The unique index on the routes of a runtime.
unfoldable pub has_route : Env → String → String → EndpointRow → Bool
has_route env id url r =
    r.endpoint.runtime_connection_id == id
    && env.endpoint_key r.endpoint.url == env.endpoint_key url

abbrev pub canonical : RuntimeEndpointKind
canonical = "canonical"

unfoldable pub is_canonical : String → EndpointRow → Bool
is_canonical id r = r.endpoint.runtime_connection_id == id && r.endpoint.kind == canonical

abbrev kind_rank : RuntimeEndpointKind → ℕ
kind_rank k = if k == "canonical" then 0 else if k == "alias" then 1 else 2

-- `ORDER BY CASE kind … END, created_at`
abbrev precedes : RuntimeEndpoint → RuntimeEndpoint → Bool
precedes a b =
    ltb (kind_rank a.kind) (kind_rank b.kind)
    || (leb (kind_rank a.kind) (kind_rank b.kind) && leb a.created_at b.created_at)

insert_endpoint_by : RuntimeEndpoint → List RuntimeEndpoint → List RuntimeEndpoint
insert_endpoint_by e [] = e ∷ []
insert_endpoint_by e (f ∷ l) =
    let rest = insert_endpoint_by e l in if precedes e f then e ∷ f ∷ l else f ∷ rest

unfoldable pub endpoints_of : String → List EndpointRow → List RuntimeEndpoint
unfolding insert_endpoint_by
endpoints_of id [] = []
endpoints_of id (r ∷ rows) =
    let rest = endpoints_of id rows in
    if r.endpoint.runtime_connection_id == id then insert_endpoint_by r.endpoint rest else rest
