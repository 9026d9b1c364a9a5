-- ===== src/Domain/Telemetry.antt =====
-- internal/domain/telemetry.go: usage observations and queries. An int64 is the number of its 64
-- bits, so that the negative ones are those from 2^63 on.
use capcom.Prelude.{ℕ, String, Bool, leb, nat_eq, ◌+◌, ◌%◌, ◌^◌, not, ◌&&◌, Option}
use capcom.Domain.Values.{Fields}
use capcom.Domain.Runtime.{Time}

abbrev pub Int64 : Type 0
Int64 = ℕ

abbrev pub is_negative : Int64 → Bool
is_negative n = leb (2 ^ 63) n

abbrev pub is_positive : Int64 → Bool
is_positive n = not (nat_eq n 0) && not (is_negative n)

-- `a + b`
abbrev pub add64 : Int64 → Int64 → Int64
add64 a b = (a + b) % (2 ^ 64)

abbrev pub UsageSource : Type 0
UsageSource = String

-- A decimal numeral.
abbrev pub Decimal : Type 0
Decimal = String

-- `Float` stands for Go's float64.
pub record UsageObservation (Float : Type 0) : Type 0 where
  pub source : UsageSource
  pub source_observation_id : String
  pub runtime_connection_id : String
  pub runtime_agent_id : String
  pub runtime_execution_id : String
  pub parent_execution_id : String
  pub thread_id : String
  pub model : String
  pub provider : String
  pub request_count : Int64
  pub input_tokens : Int64
  pub output_tokens : Int64
  pub cached_input_tokens : Int64
  pub cache_creation_tokens : Int64
  pub reasoning_tokens : Int64
  pub total_tokens : Int64
  pub context_window_tokens : Option Int64
  pub context_utilization : Option Float
  pub input_cost_usd : Option Decimal
  pub output_cost_usd : Option Decimal
  pub total_cost_usd : Option Decimal
  pub duration_ms : Option Int64
  pub time_to_first_token_ms : Option Int64
  pub error_count : Int64
  pub started_at : Option Time
  pub ended_at : Option Time
  pub observed_at : Time
  pub model_metadata_version : String
  pub attributes : Option Fields

pub record UsageQuery : Type 0 where
  pub from : Time
  pub to : Time
  pub interval : Int64
  pub runtime_connection_id : String
  pub agent_id : String
  pub runtime_agent_id : String
  pub runtime_execution_id : String
  pub runtime_job_id : String
  pub grouping_dimension : String
  pub model : String
  pub source : UsageSource

abbrev pub source_gantry_native : UsageSource
source_gantry_native = "gantry_native"

abbrev pub source_lang_smith : UsageSource
source_lang_smith = "langsmith"

-- The status is a column that only the repository writes.
pub record TelemetryIngestionRun : Type 0 where
  pub id : String
  pub runtime_connection_id : String
  pub source : UsageSource
  pub status : String
  pub cursor : String
  pub schema_version : String
  pub started_at : Time
  pub finished_at : Option Time
  pub last_successful_at : Option Time
  pub accepted : Int64
  pub rejected : Int64
  pub deduplicated : Int64
  pub last_error : String
