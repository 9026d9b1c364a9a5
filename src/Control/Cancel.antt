-- ===== src/Control/Cancel.antt =====
-- `CancelExecution`: interrupt a run.
use capcom.Prelude.{String, Bool, true, ◌||◌, some, none, List, [], ◌∷◌, if◌then◌else◌, ◌<>◌, ◌==◌}
use capcom.Prelude.Text.{trim_space}
use capcom.Prelude.Text.Quote.{quote}
use capcom.Errors.{message, Result, ok, err}
use capcom.Domain.Values.{text, flag, Fields, end, field}
use capcom.Domain.Runtime.{RuntimeConnection}
use capcom.Domain.Agents.{PersistedAgent}
use capcom.Domain.Snapshot.{PersistedRuntimeExecution}
use capcom.Domain.Control.{no_action, queued}
use capcom.Control.World.{World, Env, Adapter, cancel}
use capcom.Control.Repository.{Outcome, get_runtime}
use capcom.Control.Exec.{next, Exec, ◌>>=◌, ◌>>◌, require, read}
use capcom.Control.Audit.{all_given, replay}
use capcom.Control.Protocol.{Plan, perform, unless_error}
use capcom.Control.Reject.{Subject, reject_control_action, validate_capability}

pub record CancelExecutionInput : Type 0 where
  pub execution_id : String
  pub actor : String
  pub reason : String
  pub idempotency_key : String
  pub dry_run : Bool

agent_of : String → List PersistedAgent → String
agent_of runtime_agent_id [] = ""
agent_of runtime_agent_id (a ∷ agents) =
    if a.runtime_agent_id == runtime_agent_id then a.id else agent_of runtime_agent_id agents

abbrev agent_found : String → Result (List PersistedAgent) → String
agent_found runtime_agent_id (err e) = ""
agent_found runtime_agent_id (ok agents) = agent_of runtime_agent_id agents

module _ (env : Env) where
  unfoldable pub find_execution_agent_id : PersistedRuntimeExecution → World → String
  unfolding agent_of
  find_execution_agent_id execution w =
      agent_found execution.runtime_agent_id
        (env.list_persisted_agents w execution.runtime_connection_id)

module _ (env : Env) (org : String) where
  abbrev pub cancel_plan :
      CancelExecutionInput
      → PersistedRuntimeExecution
      → RuntimeConnection
      → Fields
      → Fields
      → Adapter
      → Plan
  cancel_plan input execution conn before after adapter = record {
    target_type = "runtime_execution";
    target_id = input.execution_id;
    before = before;
    after = after;
    dry_run = input.dry_run;
    dry_result = field "dry_run" (flag true) (
        field "validated" (flag true)
          (field "runtime_execution_id" (text execution.runtime_execution_id) end));
    conn = conn;
    call = cancel execution.snapshot;
    answer = λ w.
        unless_error
          (field "status" (text "interrupted")
            (field "runtime_execution_id" (text execution.runtime_execution_id) end))
          (adapter.cancel_execution w conn execution.snapshot);
    prefix = "cancel runtime execution";
    tombstone = none;
    actor = input.actor;
    sync_reason = "verify execution cancellation: " <> input.reason;
  }

  unfoldable pub admit_cancel :
      CancelExecutionInput → PersistedRuntimeExecution → RuntimeConnection → Subject → Exec Outcome
  admit_cancel input execution conn subject =
      if execution.kind == "run"
      then (if execution.status == "pending" || execution.status == "running"
          then validate_capability env org conn subject (λ c. c.cancel_execution)
              "runtime adapter does not support execution cancellation"
              (λ adapter.
                perform env org
                  (cancel_plan input execution conn subject.before subject.after adapter)
                  subject.action)
          else reject_control_action env org subject
              ("execution status " <> (quote execution.status <> " cannot be cancelled"))
              "invalid_execution_status")
      else reject_control_action env org subject "only run executions can be cancelled"
          "invalid_execution_kind"

  unfoldable pub cancel_execution : CancelExecutionInput → Exec Outcome
  cancel_execution input = do
    require (all_given input.execution_id input.actor input.reason input.idempotency_key)
        (message "execution id, actor, reason, and idempotency_key are required")
    replay env org input.idempotency_key
    execution ← read (λ w. env.get_runtime_execution w input.execution_id)
    conn ← read (get_runtime env org execution.runtime_connection_id)
    agent_id ← λ w. (next (find_execution_agent_id env execution w), w)
    let before : Fields = field "runtime_execution_id" (text execution.runtime_execution_id) (
        field "thread_id" (text execution.parent_runtime_execution_id)
          (field "status" (text execution.status) end))
    let after : Fields = field "status" (text "interrupted") end
    admit_cancel input execution conn (record {
      action = record no_action {
        runtime_connection_id = conn.id;
        agent_id = agent_id;
        action_type = "cancel_execution";
        status = queued;
        actor = trim_space input.actor;
        reason = trim_space input.reason;
        idempotency_key = trim_space input.idempotency_key;
        before = some before;
        after = some after;
      };
      target_type = "runtime_execution";
      target_id = input.execution_id;
      before = before;
      after = after;
    })
