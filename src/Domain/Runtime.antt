-- ===== src/Domain/Runtime.antt =====
-- internal/domain/runtime.go. A Go string type with constants is a text with constants: a value
-- that comes from a request or a column can be any text. A time is a number of nanoseconds since
-- Go's zero time, and a `*time.Time` is an option.
use capcom.Prelude.{ℕ, String, Bool, Option, List}
use capcom.Domain.Values.{Fields}

abbrev pub Time : Type 0
Time = ℕ

abbrev pub RuntimeKind : Type 0
RuntimeKind = String

abbrev pub kind_gantry : RuntimeKind
kind_gantry = "gantry"

abbrev pub kind_langgraph : RuntimeKind
kind_langgraph = "langgraph"

abbrev pub RuntimeMode : Type 0
RuntimeMode = String

abbrev pub mode_read_only : RuntimeMode
mode_read_only = "read_only"

abbrev pub mode_control_enabled : RuntimeMode
mode_control_enabled = "control_enabled"

abbrev pub RuntimeStatus : Type 0
RuntimeStatus = String

abbrev pub status_pending : RuntimeStatus
status_pending = "pending"

abbrev pub status_disabled : RuntimeStatus
status_disabled = "disabled"

abbrev pub status_active : RuntimeStatus
status_active = "active"

abbrev pub status_degraded : RuntimeStatus
status_degraded = "degraded"

abbrev pub status_failed : RuntimeStatus
status_failed = "failed"

abbrev pub RuntimeEndpointKind : Type 0
RuntimeEndpointKind = String

pub record RuntimeEndpoint : Type 0 where
  pub id : String
  pub runtime_connection_id : String
  pub url : String
  pub kind : RuntimeEndpointKind
  pub auth_ref : String
  pub source_runtime_connection_id : String
  pub created_at : Time
  pub updated_at : Time

pub record RuntimeConnection : Type 0 where
  pub id : String
  pub organization_id : String
  pub name : String
  pub display_name : String
  pub environment : String
  pub kind : RuntimeKind
  pub mode : RuntimeMode
  pub status : RuntimeStatus
  pub base_url : String
  pub auth_ref : String
  pub metadata : Fields
  pub labels : List (String × String)
  pub created_at : Time
  pub updated_at : Time
  pub last_synced_at : Option Time
  pub sync_enabled : Bool
  pub sync_interval_seconds : ℕ
  pub last_sync_status : String
  pub last_sync_started_at : Option Time
  pub last_sync_finished_at : Option Time
  pub last_sync_duration_ms : ℕ
  pub last_error : String
  pub endpoints : List RuntimeEndpoint
