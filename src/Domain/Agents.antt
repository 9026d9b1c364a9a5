-- ===== src/Domain/Agents.antt =====
-- internal/domain/agent.go, access.go, and the persisted agents of sync.go.
use capcom.Prelude.{String, Bool, Option, List}
use capcom.Domain.Values.{Fields}
use capcom.Domain.Runtime.{Time, RuntimeStatus}

abbrev pub AgentStatus : Type 0
AgentStatus = String

abbrev pub status_enabled : AgentStatus
status_enabled = "enabled"

abbrev pub status_disabled : AgentStatus
status_disabled = "disabled"

abbrev pub status_unknown : AgentStatus
status_unknown = "unknown"

abbrev pub AgentKind : Type 0
AgentKind = String

abbrev pub kind_main : AgentKind
kind_main = "main"

abbrev pub kind_registered : AgentKind
kind_registered = "registered"

abbrev pub kind_subagent : AgentKind
kind_subagent = "subagent"

pub record Agent : Type 0 where
  pub id : String
  pub name : String
  pub status : AgentStatus
  pub metadata : Fields
  pub created_at : Time
  pub updated_at : Time

pub record AgentSnapshot : Type 0 where
  pub runtime_agent_id : String
  pub parent_runtime_agent_id : String
  pub kind : AgentKind
  pub name : String
  pub status : AgentStatus
  pub metadata : Fields
  pub observed_at : Time

pub record AgentSkillSnapshot : Type 0 where
  pub runtime_skill_id : String
  pub name : String
  pub description : String
  pub source : String
  pub status : String
  pub version : String
  pub tool_ids : List String
  pub workflow_refs : List String
  pub metadata : Fields
  pub observed_at : Time

pub record AccessSelection : Type 0 where
  pub kind : String
  pub id : String
  pub name : String
  pub allowed : Bool
  pub attributes : Option Fields

-- A nil slice is `none`; a loop over it is a loop over the empty list.
pub record AccessDocument : Type 0 where
  pub agent_id : String
  pub selections : Option (List AccessSelection)
  pub raw : Option Fields
  pub observed_at : Time
  pub desired_at : Option Time
  pub source : String
  pub source_ref : String
  pub source_sha256 : String

-- The embedded `Agent` is the field `agent`, whose fields are promoted.
pub record PersistedAgent : Type 0 where
  pub agent : Agent
  pub open agent use {id, name, status, metadata}
  pub runtime_connection_id : String
  pub runtime_agent_id : String
  pub parent_runtime_agent_id : String
  pub kind : AgentKind
  pub freshness : String
  pub observed_at : Time
  pub last_successful_sync_at : Option Time
  pub runtime_status : RuntimeStatus

pub record PersistedAgentDetail : Type 0 where
  pub agent : PersistedAgent
  pub skills : List AgentSkillSnapshot
  pub access : AccessDocument
