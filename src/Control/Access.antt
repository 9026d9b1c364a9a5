-- ===== src/Control/Access.antt =====
-- `ReconcileAccess`: replace what an agent may use.
use capcom.Prelude.{String, Bool, true, not, ◌&&◌, Option, none, some, List, [], ◌∷◌}
use capcom.Prelude.{if◌then◌else◌, ◌<>◌, ◌==◌}
use capcom.Prelude.Text.{trim_space, blank}
use capcom.Prelude.Text.Quote.{quote}
use capcom.Errors.{Error, message}
use capcom.Domain.Values.{Value, null, text, flag, arr, obj, Items, nil, cons, Fields, end, field}
use capcom.Domain.Runtime.{Time, RuntimeConnection, mode_control_enabled}
use capcom.Domain.Agents.{AccessSelection, AccessDocument}
use capcom.Domain.Control.{ControlAction, no_action, queued, rejected}
use capcom.Control.World.{Env, Adapter, replace_access}
use capcom.Control.Repository.{Outcome, create, update, get_runtime}
use capcom.Control.Exec.{
  Exec, ◌>>=◌, ◌>>◌, finish, require, read, or_return, ignoring, unless_found,
}
use capcom.Control.Audit.{all_given, one, audit_action, replay}
use capcom.Control.Protocol.{Plan, perform, map_result}

pub record ReconcileAccessInput : Type 0 where
  pub agent_id : String
  pub access : AccessDocument
  pub actor : String
  pub reason : String
  pub idempotency_key : String
  pub dry_run : Bool

abbrev pub items : Option (List AccessSelection) → List AccessSelection
items none = []
items (some l) = l

unfoldable pub all_identified : List AccessSelection → Bool
unfolding trim_space
all_identified [] = true
all_identified (s ∷ l) = not (blank s.id) && all_identified l

optional_map : Option Fields → Value
optional_map none = null
optional_map (some m) = obj m

optional_text : Option String → Value
optional_text none = null
optional_text (some t) = text t

selection_map : AccessSelection → Value
unfolding optional_map
selection_map s = obj (
    field "Kind" (text s.kind) (
      field "ID" (text s.id) (
        field "Name" (text s.name)
          (field "Allowed" (flag s.allowed) (field "Attributes" (optional_map s.attributes) end)))))

selection_items : List AccessSelection → Items
selection_items [] = nil
selection_items (s ∷ l) = cons (selection_map s) (selection_items l)

selections_value : Option (List AccessSelection) → Value
selections_value none = null
selections_value (some l) = arr (selection_items l)

format_optional : (Time → String) → Option Time → Option String
format_optional f none = none
format_optional f (some t) = some (f t)

-- The document through `json.Marshal` and `json.Unmarshal`: its Go field names, in order.
unfoldable pub access_map : Env → AccessDocument → Fields
unfolding selection_map selection_items selections_value optional_map optional_text format_optional
access_map env a = field "AgentID" (text a.agent_id) (
    field "Selections" (selections_value a.selections) (
      field "Raw" (optional_map a.raw) (
        field "ObservedAt" (text (env.format_time a.observed_at)) (
          field "DesiredAt" (optional_text (format_optional env.format_time a.desired_at)) (
            field "Source" (text a.source) (
              field "SourceRef" (text a.source_ref)
                (field "SourceSHA256" (text a.source_sha256) end)))))))

module _ (env : Env) (org : String) where
  -- A refusal is stored and audited.
  unfoldable pub refuse_access :
      ControlAction → Fields → Fields → String → String → Error → Exec Outcome
  refuse_access action before requested said reason error = do
    action ← or_return (create env org (record action { status = rejected }))
    action ← ignoring (update env org action (some requested) none said)
    audit_action env action "control_action.rejected" "rejected" before requested
        (some (one "reason" reason))
    finish (action, some error)

  abbrev pub access_plan :
      ReconcileAccessInput → String → RuntimeConnection → Adapter → Fields → Fields → Plan
  access_plan input runtime_agent_id conn adapter before requested = record {
    target_type = "agent_access";
    target_id = input.agent_id;
    before = before;
    after = requested;
    dry_run = input.dry_run;
    dry_result = field "dry_run" (flag true) (field "validated" (flag true) end);
    conn = conn;
    call = replace_access runtime_agent_id input.access;
    answer = λ w.
        map_result (access_map env)
          (adapter.replace_agent_access w conn runtime_agent_id input.access);
    prefix = "replace runtime access";
    tombstone = none;
    actor = input.actor;
    sync_reason = "verify access reconciliation: " <> input.reason;
  }

  -- The guards on the connection and its adapter.
  unfoldable pub admit_access :
      ReconcileAccessInput
      → String
      → RuntimeConnection
      → ControlAction
      → Fields
      → Fields
      → Exec Outcome
  admit_access input runtime_agent_id conn action before requested =
      if conn.mode == mode_control_enabled
      then unless_found (env.adapters conn.kind)
          (refuse_access action before requested "runtime adapter is not registered"
            "adapter_unavailable"
            (message ("runtime adapter " <> (quote conn.kind <> " is not registered"))))
          (λ adapter.
            perform env org (access_plan input runtime_agent_id conn adapter before requested)
              action)
      else refuse_access action before requested "runtime connection is read-only"
          "read_only_runtime" (message "runtime connection is read-only")

  unfoldable pub reconcile_access : ReconcileAccessInput → Exec Outcome
  reconcile_access input = do
    require (all_given input.agent_id input.actor input.reason input.idempotency_key)
        (message "agent id, actor, reason, and idempotency_key are required")
    require (all_identified (items input.access.selections))
        (message "every access selection requires an id")
    replay env org input.idempotency_key
    detail ← read (λ w. env.get_persisted_agent w input.agent_id)
    conn ← read (get_runtime env org detail.agent.runtime_connection_id)
    let before : Fields = access_map env detail.access
    let requested : Fields = access_map env input.access
    admit_access input detail.agent.runtime_agent_id conn
        (record no_action {
          runtime_connection_id = conn.id;
          agent_id = input.agent_id;
          action_type = "replace_agent_access";
          status = queued;
          actor = trim_space input.actor;
          reason = trim_space input.reason;
          idempotency_key = trim_space input.idempotency_key;
          before = some before;
          after = some requested;
        })
        before requested
