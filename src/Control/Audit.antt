-- ===== src/Control/Audit.antt =====
-- The audit trail of the control actions, and what their methods share.
use capcom.Prelude.{String, Bool, not, ◌||◌, Option, none, some, ◌∷◌, if◌then◌else◌}
use capcom.Prelude.Text.{trim_space, blank}
use capcom.Errors.{Error, is_exactly, no_rows, sanitize_runtime_error, ok, err}
use capcom.Domain.Values.{Fields, text, field, end, put}
use capcom.Domain.Snapshot.{trigger_post_action}
use capcom.Domain.Control.{ControlAction, no_action, AuditEvent}
use capcom.Control.World.{World, Env, audited, insert_audit, synced, SyncRuntimeInput}
use capcom.Control.Repository.{find_by_idempotency_key}
use capcom.Control.Exec.{next, return, Exec}

-- What `strings.TrimSpace` leaves of the inputs that every action needs.
unfoldable pub all_given : String → String → String → String → Bool
unfolding trim_space
all_given id actor reason key = not (blank id || blank actor || blank reason || blank key)

-- `map[string]any{"reason": reason}` and `map[string]any{"error": text}`
abbrev pub one : String → String → Fields
one key value = field key (text value) end

-- `result["verification_sync_error"] = …`
abbrev sync_result : Fields → Option Error → Fields
sync_result result none = result
sync_result result (some e) = put "verification_sync_error" (text (sanitize_runtime_error e)) result

-- The map that comes back is the one that `Update` put into the action: the key that is added here
-- shows in the caller's map and in the action.
abbrev pub verify :
    Option (World → SyncRuntimeInput → Option Error) → SyncRuntimeInput → Fields → Exec Fields
verify none input result w = (next result, w)
verify (some sync) input result w =
    (next (sync_result result (sync w input)), record w { log = synced input ∷ w.log })

module _ (env : Env) where
  -- `_, _ = s.audit.Create(ctx, event)`, and nothing where there is no audit repository.
  unfoldable pub write_audit : AuditEvent → Exec (Unit {0})
  write_audit event w =
      if env.audits
      then (elim (env.fault w (insert_audit event)) [
        | some _ ↦ (next tt, w)
        | none ↦ (next tt, record w { audits = event ∷ w.audits; log = audited event ∷ w.log })
      ])
      else (next tt, w)

  unfoldable pub audit_control_action :
      ControlAction
      → String
      → String
      → String
      → String
      → Fields
      → Fields
      → Option Fields
      → Exec (Unit {0})
  unfolding write_audit
  audit_control_action action event_type result target_type target_id before after metadata =
      write_audit (record {
        runtime_connection_id = action.runtime_connection_id;
        agent_id = action.agent_id;
        control_action_id = action.id;
        actor = action.actor;
        event_type = event_type;
        target_type = target_type;
        target_id = target_id;
        reason = action.reason;
        before = some before;
        after = some after;
        result = result;
        metadata = metadata;
      })

  unfoldable pub audit_action :
      ControlAction → String → String → Fields → Fields → Option Fields → Exec (Unit {0})
  unfolding audit_control_action
  audit_action action event_type result =
      audit_control_action action event_type result "agent_access" action.agent_id

  unfoldable pub audit_status_action :
      ControlAction → String → String → Fields → Fields → Option Fields → Exec (Unit {0})
  unfolding audit_control_action
  audit_status_action action event_type result =
      audit_control_action action event_type result "agent_status" action.agent_id

  unfoldable pub run_verification_sync : String → String → String → Fields → Exec Fields
  run_verification_sync runtime_id actor reason = verify env.syncer (record {
    runtime_connection_id = runtime_id;
    trigger = trigger_post_action;
    actor = actor;
    reason = reason;
  })

module _ (env : Env) (org : String) where
  -- The lookup by key: an action that is found is the answer.
  unfoldable pub replay : String → Exec (Unit {0})
  unfolding find_by_idempotency_key
  replay key w = elim (find_by_idempotency_key env org key w) [
    | ok existing ↦ (return (existing, none), w)
    | err e ↦ if is_exactly no_rows e then (next tt, w) else (return (no_action, some e), w)
  ]
