-- ===== src/Control/Reject.antt =====
-- `rejectControlAction`, `actionFromError` and `validateCapability`, which `DeleteAgent` and
-- `CancelExecution` share.
use capcom.Prelude.{String, Bool, none, some, if◌then◌else◌, ◌==◌}
use capcom.Errors.{Error, message, rejected_action, as_rejected, sanitize_runtime_error}
use capcom.Domain.Values.{Fields}
use capcom.Domain.Runtime.{RuntimeConnection, mode_control_enabled}
use capcom.Domain.Control.{ControlAction, rejected}
use capcom.Control.World.{Env, Adapter, Capabilities, checked}
use capcom.Control.Repository.{Outcome, create, update}
use capcom.Control.Exec.{
  Exec, ◌>>=◌, ◌>>◌, returning, ignoring, effect, finish, unless_found, unless_failed,
}
use capcom.Control.Audit.{one, audit_control_action}

-- `actionFromError(err, fallback)`
unfoldable pub action_from_error : Error → ControlAction → ControlAction
unfolding as_rejected
action_from_error e fallback = elim (as_rejected e) [ some a ↦ a | none ↦ fallback ]

-- What an action is about: the target of its audit events and its two states.
pub record Subject : Type 0 where
  pub action : ControlAction
  pub target_type : String
  pub target_id : String
  pub before : Fields
  pub after : Fields

-- `return actionFromError(rejectErr, action), rejectErr`
abbrev pub rejection : ControlAction → Error → Outcome
rejection action e = (action_from_error e action, some e)

module _ (env : Env) (org : String) where
  -- The error of the creation, or the error that carries the created action, goes through
  -- `actionFromError`.
  unfoldable pub reject_control_action : Subject → String → String → Exec Outcome
  unfolding action_from_error
  reject_control_action s said reason = do
    created ←
        returning (rejection s.action) (create env org (record s.action { status = rejected }))
    created ← ignoring (update env org created (some s.after) none said)
    audit_control_action env created "control_action.rejected" "rejected" s.target_type s.target_id
        s.before s.after (some (one "reason" reason))
    finish (rejection s.action (rejected_action created (message said)))

  -- `go` is the rest of the method, for the adapter that is found.
  unfoldable pub validate_capability :
      RuntimeConnection
      → Subject
      → (Capabilities → Bool)
      → String
      → (Adapter → Exec Outcome)
      → Exec Outcome
  validate_capability conn s supported unsupported go =
      if conn.mode == mode_control_enabled
      then unless_found (env.adapters conn.kind)
          (reject_control_action s "runtime adapter is not registered" "adapter_unavailable")
          (λ adapter.
            effect (checked conn) (λ w. adapter.check w conn)
            >>= unless_failed
                (λ e. reject_control_action s (sanitize_runtime_error e) "adapter_check_failed")
                (λ capabilities.
                  if supported capabilities
                  then go adapter
                  else reject_control_action s unsupported "unsupported_action"))
      else reject_control_action s "runtime connection is read-only" "read_only_runtime"
