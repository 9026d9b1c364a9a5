-- ===== src/Domain/Snapshot.antt =====
-- internal/domain/sync.go and runtime_inventory.go: what an adapter observes of a runtime.
use capcom.Prelude.{ℕ, String, Bool, Option, List}
use capcom.Domain.Values.{Fields}
use capcom.Domain.Runtime.{Time}
use capcom.Domain.Agents.{AgentSnapshot, AgentSkillSnapshot, AccessDocument}

pub record RuntimeDiagnosticSnapshot : Type 0 where
  pub check_id : String
  pub status : String
  pub message : String
  pub observed_at : Time
  pub metadata : Fields
  pub raw : Fields

pub record RuntimeInventorySnapshot : Type 0 where
  pub runtime_item_id : String
  pub kind : String
  pub name : String
  pub status : String
  pub provider : String
  pub source : String
  pub observed_at : Time
  pub metadata : Fields
  pub raw : Fields

pub record RuntimeCapabilitySnapshot : Type 0 where
  pub runtime_capability_id : String
  pub version : String
  pub name : String
  pub category : String
  pub risk : String
  pub can : String
  pub cannot : String
  pub source : String
  pub observed_at : Time
  pub metadata : Fields
  pub raw : Fields

pub record AgentDelegationSnapshot : Type 0 where
  pub orchestrator_runtime_agent_id : String
  pub delegate_runtime_agent_id : String
  pub delegate_ref : String
  pub tool_name : String
  pub display_name : String
  pub persona : String
  pub configured : Bool
  pub resolved : Bool
  pub revision : ℕ
  pub status : String
  pub observed_at : Time
  pub metadata : Fields
  pub raw : Fields

pub record RuntimeExecutionSnapshot : Type 0 where
  pub runtime_execution_id : String
  pub parent_runtime_execution_id : String
  pub runtime_agent_id : String
  pub kind : String
  pub status : String
  pub started_at : Option Time
  pub ended_at : Option Time
  pub observed_at : Time
  pub metadata : Fields
  pub raw : Fields

-- The embedded snapshot is the field `snapshot`, whose fields are promoted.
pub record PersistedRuntimeExecution : Type 0 where
  pub id : String
  pub runtime_connection_id : String
  pub snapshot : RuntimeExecutionSnapshot
  pub open snapshot use {
    runtime_execution_id, parent_runtime_execution_id, runtime_agent_id, kind, status,
  }

pub record SubagentExecutionSnapshot : Type 0 where
  pub runtime_execution_id : String
  pub parent_run_id : String
  pub runtime_agent_id : String
  pub subagent_type : String
  pub status : String
  pub description : String
  pub summary : String
  pub started_at : Option Time
  pub ended_at : Option Time
  pub observed_at : Time
  pub metadata : Fields
  pub raw : Fields

pub record SnapshotAgent : Type 0 where
  pub agent : AgentSnapshot
  pub skills : List AgentSkillSnapshot
  pub access : AccessDocument

pub record RuntimeSnapshot : Type 0 where
  pub observed_at : Time
  pub agents : List SnapshotAgent
  pub diagnostics : List RuntimeDiagnosticSnapshot
  pub inventory : List RuntimeInventorySnapshot
  pub capability_catalog : List RuntimeCapabilitySnapshot
  pub agent_delegations : List AgentDelegationSnapshot
  pub executions : List RuntimeExecutionSnapshot
  pub subagent_executions : List SubagentExecutionSnapshot
  pub metadata : Fields
  pub capabilities : List (String × Bool)

abbrev pub SyncTrigger : Type 0
SyncTrigger = String

abbrev pub trigger_manual : SyncTrigger
trigger_manual = "manual"

abbrev pub trigger_scheduled : SyncTrigger
trigger_scheduled = "scheduled"

abbrev pub trigger_post_action : SyncTrigger
trigger_post_action = "post_action"

-- `unset` is the zero value, of a run that no repository has seen.
pub data SyncStatus : Type 0 where
  unset running succeeded failed skipped : SyncStatus

pub record RuntimeSyncRun : Type 0 where
  pub id : String
  pub runtime_connection_id : String
  pub trigger : SyncTrigger
  pub status : SyncStatus
  pub started_at : Time
  pub finished_at : Option Time
  pub duration_ms : ℕ
  pub agents_seen : ℕ
  pub skills_seen : ℕ
  pub bindings_seen : ℕ
  pub access_documents_seen : ℕ
  pub executions_seen : ℕ
  pub diagnostics_seen : ℕ
  pub inventory_seen : ℕ
  pub capabilities_seen : ℕ
  pub delegations_seen : ℕ
  pub error_code : String
  pub error_message : String
  pub metadata : Option Fields
