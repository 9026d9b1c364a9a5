-- ===== src/Adapters/Checked.antt =====
-- `CheckResult` and `Capabilities` of internal/adapters/runtime/runtime.go.
use capcom.Prelude.{String, Bool, false, List}
use capcom.Domain.Values.{Fields}
use capcom.Domain.Runtime.{RuntimeStatus}
use capcom.Domain.Snapshot.{RuntimeDiagnosticSnapshot}

pub record Capabilities : Type 0 where
  pub read_agents : Bool
  pub read_agent_hierarchy : Bool
  pub read_agent_delegates : Bool
  pub read_agent_skills : Bool
  pub read_agent_access : Bool
  pub replace_agent_access : Bool
  pub read_subagent_executions : Bool
  pub read_executions : Bool
  pub read_diagnostics : Bool
  pub read_inventory : Bool
  pub read_capability_catalog : Bool
  pub set_agent_status : Bool
  pub delete_agent : Bool
  pub cancel_execution : Bool

-- The zero value, in which nothing is supported.
abbrev pub no_capabilities : Capabilities
no_capabilities = record {
  read_agents = false;
  read_agent_hierarchy = false;
  read_agent_delegates = false;
  read_agent_skills = false;
  read_agent_access = false;
  replace_agent_access = false;
  read_subagent_executions = false;
  read_executions = false;
  read_diagnostics = false;
  read_inventory = false;
  read_capability_catalog = false;
  set_agent_status = false;
  delete_agent = false;
  cancel_execution = false;
}

pub record CheckResult : Type 0 where
  pub status : RuntimeStatus
  pub message : String
  pub capabilities : Capabilities
  pub metadata : Fields
  pub diagnostics : List RuntimeDiagnosticSnapshot
