-- ===== src/Snapshots/Tables.antt =====
-- The tables of the snapshots (migrations 001 to 009). A row of a snapshot's own kind is that
-- value, the connection it belongs to, and the columns that the store adds.
use capcom.Prelude.{
  ℕ, suc, String, Bool, false, not, ◌==◌, leb, if◌then◌else◌, Option, none, some, List,
}
use capcom.Errors.{Error, Result}
use capcom.Domain.Values.{Fields}
use capcom.Domain.Runtime.{Time, RuntimeStatus}
use capcom.Domain.Agents.{AgentStatus, AgentKind, AgentSkillSnapshot, AccessDocument}
use capcom.Domain.Snapshot.{
  RuntimeSyncRun, RuntimeDiagnosticSnapshot, RuntimeInventorySnapshot, RuntimeCapabilitySnapshot,
  AgentDelegationSnapshot, RuntimeExecutionSnapshot, SubagentExecutionSnapshot,
}

-- `agents`
pub record AgentRow : Type 0 where
  pub id : String
  pub organization_id : String
  pub name : String
  pub status : AgentStatus
  pub metadata : Fields

-- `last_seen_sync_run_id` and `missing_successful_syncs`
pub record Seen : Type 0 where
  pub run : Option String
  pub missing : ℕ

-- `agent_runtime_bindings`
pub record BindingRow : Type 0 where
  pub agent_id : String
  pub runtime_connection_id : String
  pub runtime_agent_id : String
  pub kind : AgentKind
  pub parent_runtime_agent_id : String
  pub last_seen_at : Time
  pub seen : Seen
  pub raw : Fields

-- `runtime_skills`, whose status is that of the snapshot
pub record SkillRow : Type 0 where
  pub id : String
  pub runtime_connection_id : String
  pub skill : AgentSkillSnapshot
  pub seen : Seen

-- `agent_skill_bindings`
pub record SkillBindingRow : Type 0 where
  pub agent_id : String
  pub runtime_skill_id : String
  pub status : String
  pub observed_at : Time
  pub seen : Seen

-- `access_actual_state`
pub record AccessRow : Type 0 where
  pub agent_id : String
  pub runtime_connection_id : String
  pub runtime_status : String
  pub access : AccessDocument
  pub last_seen_run : String
  pub freshness_status : String

-- `agent_delegations`. The column `status` is the row's, and the snapshot's own is not stored.
pub record DelegationRow : Type 0 where
  pub runtime_connection_id : String
  pub delegate_key : String
  pub delegation : AgentDelegationSnapshot
  pub status : String
  pub seen : Seen

-- A row that has no column of the store's own but its connection.
pub record Owned (A : Type 0) : Type 0 where
  pub runtime_connection_id : String
  pub item : A

-- The columns of `runtime_connections` that a synchronization reads and writes.
pub record ConnectionRow : Type 0 where
  pub id : String
  pub organization_id : String
  pub status : RuntimeStatus
  pub last_sync_status : String
  pub last_sync_started_at : Option Time
  pub last_sync_finished_at : Option Time
  pub last_sync_at : Option Time
  pub last_sync_duration_ms : ℕ
  pub last_error : String

pub record World : Type 0 where
  pub connections : List ConnectionRow
  pub runs : List RuntimeSyncRun
  pub agents : List AgentRow
  pub bindings : List BindingRow
  pub skills : List SkillRow
  pub skill_bindings : List SkillBindingRow
  pub access : List AccessRow
  pub executions : List (Owned RuntimeExecutionSnapshot)
  pub diagnostics : List (Owned RuntimeDiagnosticSnapshot)
  pub inventory : List (Owned RuntimeInventorySnapshot)
  pub capabilities : List (Owned RuntimeCapabilitySnapshot)
  pub delegations : List DelegationRow
  pub subagents : List (Owned SubagentExecutionSnapshot)

-- The database's faults are told apart by the words that the program puts before them, and by what
-- the statement is about.
pub record Env : Type 0 where
  pub fault : World → String → String → Option Error
  pub new_id : World → Result String
  pub now : World → Time
  -- `finished.Sub(started).Milliseconds()`
  pub milliseconds : Time → Time → ℕ
  -- of a binding whose agent is not there
  pub foreign_key : Error

abbrev is_run : String → Option String → Bool
is_run id none = false
is_run id (some r) = r == id

-- `last_seen_sync_run_id IS NULL OR last_seen_sync_run_id <> $2`
unfoldable pub is_missed : String → Seen → Bool
is_missed run s = not (is_run run s.run)

abbrev pub seen_in : String → Seen
seen_in run = record { run = some run; missing = 0 }

abbrev pub missed : Seen → Seen
missed s = record s { missing = suc s.missing }

-- `CASE WHEN missing_successful_syncs + 1 >= $3 THEN 'stale' ELSE status END`
abbrev pub status_after : ℕ → Seen → String → String
status_after threshold s status = if leb threshold (suc s.missing) then "stale" else status
