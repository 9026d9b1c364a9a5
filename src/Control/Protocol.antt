-- ===== src/Control/Protocol.antt =====
-- The part that `ReconcileAccess`, `SetAgentStatus`, `DeleteAgent` and `CancelExecution` have in
-- common, from the creation of the admitted action to its last audit event. The methods differ in
-- the data of a `Plan`.
use capcom.Prelude.{String, Bool, Option, none, some, ◌∷◌, if◌then◌else◌}
use capcom.Errors.{Error, wrap, sanitize_runtime_error, Result, ok, err}
use capcom.Domain.Values.{Fields, text, put}
use capcom.Domain.Runtime.{RuntimeConnection}
use capcom.Domain.Control.{ControlAction, running, succeeded, failed}
use capcom.Control.World.{World, Env, Call, called}
use capcom.Control.World.{marked_deleted as tombstoned}
use capcom.Control.Repository.{Outcome, create, update}
use capcom.Control.Exec.{next, Exec, ◌>>=◌, ◌>>◌, finish, or_return, ignoring, both, effect}
use capcom.Control.Audit.{one, audit_control_action, run_verification_sync}

pub record Plan : Type 0 where
  -- the target of the audit events
  pub target_type : String
  pub target_id : String
  pub before : Fields
  pub after : Fields
  pub dry_run : Bool
  pub dry_result : Fields
  -- the call of the adapter, and the result map or the error that it leads to
  pub conn : RuntimeConnection
  pub call : Call
  pub answer : World → Result Fields
  pub prefix : String
  -- the agent that `MarkAgentDeleted` is called for
  pub tombstone : Option String
  pub actor : String
  pub sync_reason : String

abbrev pub map_result {ℓ κ} : {A : Type ℓ} {B : Type κ} → (A → B) → Result A → Result B
map_result f (ok a) = ok (f a)
map_result f (err e) = err e

abbrev pub unless_error : Fields → Option Error → Result Fields
unless_error m none = ok m
unless_error m (some e) = err e

-- `result["local_tombstone_error"] = …`
abbrev tombstone_result : Fields → Option Error → Fields
tombstone_result result none = result
tombstone_result result (some e) =
    put "local_tombstone_error" (text (sanitize_runtime_error e)) result

module _ (env : Env) where
  unfoldable pub mark_deleted : Option String → Fields → Exec Fields
  mark_deleted none result w = (next result, w)
  mark_deleted (some id) result w = (
    next (tombstone_result result (env.mark_agent_deleted w id)),
    record w { log = tombstoned id ∷ w.log },
  )

module _ (env : Env) (org : String) where
  unfoldable pub dry_run_action : Plan → ControlAction → Exec Outcome
  dry_run_action p action = do
    o ← both (
        update env org (record action { status = succeeded }) (some p.after) (some p.dry_result) "")
    audit_control_action env o.0 "control_action.dry_run_succeeded" "succeeded" p.target_type
        p.target_id p.before p.after (some p.dry_result)
    finish o

  -- `failControlAction`
  unfoldable pub fail_control_action : Plan → ControlAction → Error → Exec Outcome
  fail_control_action p action e = do
    action ← ignoring (
        update env org (record action { status = failed }) (some p.after) none
          (sanitize_runtime_error e))
    audit_control_action env action "control_action.failed" "failed" p.target_type p.target_id
        p.before p.after (some (one "error" (sanitize_runtime_error e)))
    finish (action, some (wrap p.prefix e))

  unfoldable pub complete : Plan → ControlAction → Fields → Exec Outcome
  complete p action result = do
    result ← mark_deleted env p.tombstone result
    action ←
        or_return
          (update env org (record action { status = succeeded }) (some p.after) (some result) "")
    result ← run_verification_sync env p.conn.id p.actor p.sync_reason result
    audit_control_action env action "control_action.succeeded" "succeeded" p.target_type p.target_id
        p.before p.after (some result)
    finish (record action { result = some result }, none)

  abbrev pub settle : Plan → ControlAction → Result Fields → Exec Outcome
  settle p action (err e) = fail_control_action p action e
  settle p action (ok result) = complete p action result

  unfoldable pub execute : Plan → ControlAction → Exec Outcome
  execute p action = do
    action ← or_return (update env org (record action { status = running }) (some p.after) none "")
    observed ← effect (called p.conn p.call) p.answer
    settle p action observed

  unfoldable pub perform : Plan → ControlAction → Exec Outcome
  perform p action = do
    action ← or_return (create env org action)
    audit_control_action env action "control_action.requested" "succeeded" p.target_type p.target_id
        p.before p.after none
    if p.dry_run then dry_run_action p action else execute p action
