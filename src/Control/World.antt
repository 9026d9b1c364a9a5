-- ===== src/Control/World.antt =====
-- What a control action reads and writes. The tables `runtime_connections`, `control_actions` and
-- `audit_events` are lists; `log` holds every effect in the order in which it took place, the
-- latest first. What the program does not implement is `Env`: the faults of the database, the
-- clock, the random ids, the agents and executions that a sync has stored, and the answers of the
-- runtimes. Each may depend on all that has happened so far.
use capcom.Prelude.{String, Bool, Option, List}
use capcom.Errors.{Error, Result}
use capcom.Domain.Values.{Fields}
use capcom.Domain.Runtime.{Time, RuntimeKind, RuntimeConnection}
use capcom.Domain.Agents.{AgentStatus, AgentSnapshot, AccessDocument, PersistedAgent}
use capcom.Domain.Agents.{PersistedAgentDetail}
use capcom.Domain.Snapshot.{SyncTrigger, RuntimeExecutionSnapshot, PersistedRuntimeExecution}
use capcom.Domain.Control.{ControlActionStatus, ControlAction, AuditEvent}

-- A row of `runtime_connections`; `archived` is `archived_at IS NOT NULL`.
pub record RuntimeRow : Type 0 where
  pub conn : RuntimeConnection
  pub archived : Bool

-- A row of `control_actions`. A JSON column that holds `null` is `none`.
pub record ActionRow : Type 0 where
  pub id : String
  pub organization_id : String
  pub runtime_connection_id : String
  pub agent_id : String
  pub action_type : String
  pub requested_by : String
  pub reason : String
  pub idempotency_key : String
  pub parameters : Option Fields
  pub status : ControlActionStatus
  pub request : Option Fields
  pub response : Option Fields
  pub error : String
  pub created_at : Time
  pub updated_at : Time
  pub finished_at : Option Time

-- The part of `runtimeadapter.Capabilities` that the services read.
pub record Capabilities : Type 0 where
  pub replace_agent_access : Bool
  pub set_agent_status : Bool
  pub delete_agent : Bool
  pub cancel_execution : Bool

-- The calls of an adapter that change the runtime.
pub data Call : Type 0 where
  replace_access : String → AccessDocument → Call
  set_status : String → AgentStatus → Call
  delete : String → Call
  cancel : RuntimeExecutionSnapshot → Call

pub record SyncRuntimeInput : Type 0 where
  pub runtime_connection_id : String
  pub trigger : SyncTrigger
  pub actor : String
  pub reason : String

pub data Event : Type 0 where
  created : ActionRow → Event
  updated : ActionRow → Event
  audited : AuditEvent → Event
  checked : RuntimeConnection → Event
  called : RuntimeConnection → Call → Event
  marked_deleted : String → Event
  synced : SyncRuntimeInput → Event

pub record World : Type 0 where
  pub runtimes : List RuntimeRow
  pub actions : List ActionRow
  pub audits : List AuditEvent
  pub log : List Event

-- The statements at which the database can fail.
pub data Statement : Type 0 where
  select_runtime : String → Statement
  insert_action : ControlAction → Statement
  select_action : String → Statement
  update_action : ControlAction → Statement
  insert_audit : AuditEvent → Statement

-- An adapter of `internal/adapters/runtime`, as a control action uses it.
pub record Adapter : Type 0 where
  pub check : World → RuntimeConnection → Result Capabilities
  pub replace_agent_access :
      World → RuntimeConnection → String → AccessDocument → Result AccessDocument
  pub set_agent_status : World → RuntimeConnection → String → AgentStatus → Result AgentSnapshot
  pub delete_agent : World → RuntimeConnection → String → Option Error
  pub cancel_execution : World → RuntimeConnection → RuntimeExecutionSnapshot → Option Error

pub record Env : Type 0 where
  pub fault : World → Statement → Option Error
  pub now : World → Time
  -- which of its rows a query gives that asks for one in no order
  pub any_row : List ActionRow → Option ActionRow
  pub new_id : World → Result String
  pub format_time : Time → String
  pub get_persisted_agent : World → String → Result PersistedAgentDetail
  pub list_persisted_agents : World → String → Result (List PersistedAgent)
  pub get_runtime_execution : World → String → Result PersistedRuntimeExecution
  pub mark_agent_deleted : World → String → Option Error
  -- the map `adapters` of the service
  pub adapters : RuntimeKind → Option Adapter
  -- `none` where the service has no syncer; else how a verification sync ends
  pub syncer : Option (World → SyncRuntimeInput → Option Error)
  -- whether the service has an audit repository
  pub audits : Bool
