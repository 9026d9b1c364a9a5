-- ===== src/Control/Status.antt =====
-- `SetAgentStatus`: enable or disable an agent.
use capcom.Prelude.{String, Bool, true, ◌||◌, none, some, if◌then◌else◌, ◌<>◌, ◌==◌}
use capcom.Prelude.Text.{trim_space}
use capcom.Errors.{message, sanitize_runtime_error}
use capcom.Domain.Values.{text, flag, Fields, end, field}
use capcom.Domain.Runtime.{RuntimeConnection, mode_control_enabled}
use capcom.Domain.Agents.{AgentStatus, AgentSnapshot, status_enabled, status_disabled}
use capcom.Domain.Control.{ControlAction, no_action, queued, rejected}
use capcom.Control.World.{Env, Adapter, checked, set_status}
use capcom.Control.Repository.{Outcome, create, update, get_runtime}
use capcom.Control.Exec.{
  Exec, ◌>>=◌, ◌>>◌, finish, require, read, returning, ignoring, effect, unless_found,
  unless_failed,
}
use capcom.Control.Audit.{all_given, one, audit_status_action, replay}
use capcom.Control.Protocol.{Plan, perform, map_result}

pub record SetAgentStatusInput : Type 0 where
  pub agent_id : String
  pub status : AgentStatus
  pub actor : String
  pub reason : String
  pub idempotency_key : String
  pub dry_run : Bool

-- `map[string]any{"status": observed.Status, "runtime_agent_id": observed.RuntimeAgentID}`
abbrev pub status_result : AgentSnapshot → Fields
status_result observed =
    field "status" (text observed.status)
      (field "runtime_agent_id" (text observed.runtime_agent_id) end)

module _ (env : Env) (org : String) where
  unfoldable pub reject_status_action :
      ControlAction → Fields → Fields → String → String → Exec Outcome
  reject_status_action action before after said reason = do
    let action : ControlAction = record action { status = rejected }
    -- the action that goes back is not the one that `Create` returned
    created ← returning (λ e. (action, some e)) (create env org action)
    created ← ignoring (update env org created (some after) none said)
    audit_status_action env created "control_action.rejected" "rejected" before after
        (some (one "reason" reason))
    finish (created, some (message said))

  abbrev pub status_plan :
      SetAgentStatusInput → String → RuntimeConnection → Adapter → Fields → Fields → Plan
  status_plan input runtime_agent_id conn adapter before after = record {
    target_type = "agent_status";
    target_id = input.agent_id;
    before = before;
    after = after;
    dry_run = input.dry_run;
    dry_result =
        field "dry_run" (flag true)
          (field "validated" (flag true) (field "status" (text input.status) end));
    conn = conn;
    call = set_status runtime_agent_id input.status;
    answer = λ w.
        map_result status_result (adapter.set_agent_status w conn runtime_agent_id input.status);
    prefix = "set runtime agent status";
    tombstone = none;
    actor = input.actor;
    sync_reason = "verify agent status change: " <> input.reason;
  }

  unfoldable pub admit_status :
      SetAgentStatusInput
      → String
      → RuntimeConnection
      → ControlAction
      → Fields
      → Fields
      → Exec Outcome
  admit_status input runtime_agent_id conn action before after =
      if conn.mode == mode_control_enabled
      then unless_found (env.adapters conn.kind)
          (reject_status_action action before after "runtime adapter is not registered"
            "adapter_unavailable")
          (λ adapter.
            effect (checked conn) (λ w. adapter.check w conn)
            >>= unless_failed
                (λ e.
                  reject_status_action action before after (sanitize_runtime_error e)
                    "adapter_check_failed")
                (λ capabilities.
                  if capabilities.set_agent_status
                  then perform env org
                      (status_plan input runtime_agent_id conn adapter before after) action
                  else reject_status_action action before after
                      "runtime adapter does not support agent status control" "unsupported_action"))
      else reject_status_action action before after "runtime connection is read-only"
          "read_only_runtime"

  unfoldable pub set_agent_status : SetAgentStatusInput → Exec Outcome
  set_agent_status input = do
    require (all_given input.agent_id input.actor input.reason input.idempotency_key)
        (message "agent id, actor, reason, and idempotency_key are required")
    require (input.status == status_enabled || input.status == status_disabled)
        (message "status must be \"enabled\" or \"disabled\"")
    replay env org input.idempotency_key
    detail ← read (λ w. env.get_persisted_agent w input.agent_id)
    conn ← read (get_runtime env org detail.agent.runtime_connection_id)
    let before : Fields = field "status" (text detail.agent.status) end
    let after : Fields = field "status" (text input.status) end
    admit_status input detail.agent.runtime_agent_id conn
        (record no_action {
          runtime_connection_id = conn.id;
          agent_id = input.agent_id;
          action_type = if input.status == status_disabled then "disable_agent" else "enable_agent";
          status = queued;
          actor = trim_space input.actor;
          reason = trim_space input.reason;
          idempotency_key = trim_space input.idempotency_key;
          before = some before;
          after = some after;
        })
        before after
