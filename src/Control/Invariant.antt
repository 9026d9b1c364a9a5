-- ===== src/Control/Invariant.antt =====
-- An invariant of the primitive effects is an invariant of every control action.
use capcom.Prelude.{String, Bool, true, false, ◌≡◌, Option, none, some, List, ◌∷◌, arith}
use capcom.Prelude.{◌==◌, eq_iff, sym, ◌∙◌}
use capcom.Errors.{Error, Result, ok, err}
use capcom.Domain.Values.{Fields}
use capcom.Domain.Runtime.{RuntimeConnection, mode_control_enabled}
use capcom.Domain.Agents.{PersistedAgentDetail}
use capcom.Domain.Snapshot.{PersistedRuntimeExecution}
use capcom.Domain.Control.{ControlAction, AuditEvent, running}
use capcom.Control.World.{World, Env, Event, updated, called, Call, Adapter, Capabilities}
use capcom.Control.World.{checked, marked_deleted, synced, SyncRuntimeInput}
use capcom.Control.Repository.{Outcome, create, update}
use capcom.Control.Exec.{Exec, ◌>>=◌, effect}
use capcom.Control.Audit.{
  write_audit, audit_control_action, audit_action, audit_status_action, run_verification_sync,
  verify, replay,
}
use capcom.Control.Protocol
use capcom.Control.Protocol.{
  Plan, dry_run_action, fail_control_action, complete, settle, execute, perform,
}
use capcom.Control.Access.{ReconcileAccessInput, refuse_access, admit_access, reconcile_access}
use capcom.Control.Status.{
  SetAgentStatusInput, reject_status_action, admit_status, set_agent_status,
}
use capcom.Control.Reject.{Subject, reject_control_action, validate_capability}
use capcom.Control.Delete.{DeleteAgentInput, admit_delete, delete_agent}
use capcom.Control.Cancel.{CancelExecutionInput, admit_cancel, cancel_execution}
use capcom.Control.Requests.{Request, access, status, removal, cancellation, method, is_dry}
use capcom.Control.Keeps.{Keeps, KeepsCall, keeps_rules, Keeps-or_return-bind}

-- The latest event has stored an action as running.
abbrev pub IsAnnounced : List Event → Type 0
IsAnnounced (updated row ∷ rest) = row.status ≡ running
IsAnnounced _ = ⊥

-- The events that are no write of a table and no call that changes a runtime.
abbrev pub IsQuiet : Event → Type 0
IsQuiet (checked conn) = Unit
IsQuiet (marked_deleted id) = Unit
IsQuiet (synced input) = Unit
IsQuiet _ = ⊥

abbrev pub add_event : Event → World → World
add_event e w = record w { log = e ∷ w.log }

-- What an invariant has to allow. A call may be added only right after an action was stored as
-- running, on a connection in control mode, by a request that is no dry run.
pub record Primitives (env : Env) (org : String) (dry : Bool) (P : World → Type 0) : Type 0 where
  pub on_create : (a : ControlAction) → KeepsCall P (create env org a)
  pub on_update :
      (a : ControlAction) (request response : Option Fields) (error : String)
      → KeepsCall P (update env org a request response error)
  pub on_audit : (event : AuditEvent) → Keeps P (write_audit env event)
  pub on_quiet : (e : Event) → IsQuiet e → (w : World) → P w → P (add_event e w)
  pub on_call :
      (conn : RuntimeConnection) (call : Call) (w : World)
      → dry ≡ false
      → conn.mode ≡ mode_control_enabled
      → IsAnnounced w.log
      → P w
      → P (add_event (called conn call) w)

module _ (env : Env) (org : String) (dry : Bool) {P : World → Type 0}
    (prim : Primitives env org dry P) where
  open prim use {on_create, on_update, on_audit, on_quiet, on_call}

  on_audit_control :
      (a : ControlAction) (event_type result target_type target_id : String) (before after : Fields)
      (metadata : Option Fields)
      → Keeps P
          (audit_control_action env a event_type result target_type target_id before after metadata)
  unfolding audit_control_action
  on_audit_control a _ _ _ _ _ _ _ = on_audit _

  on_verify :
      (sync : Option (World → SyncRuntimeInput → Option Error)) (input : SyncRuntimeInput)
      (result : Fields)
      → Keeps P (verify sync input result)
  on_verify none input result = record { at = λ w h. h }
  on_verify (some sync) input result = record { at = on_quiet (synced input) tt }

  on_sync :
      (id actor reason : String) (result : Fields)
      → Keeps P (run_verification_sync env id actor reason result)
  unfolding run_verification_sync
  on_sync id actor reason result = on_verify env.syncer _ result

  on_mark : (id : Option String) (result : Fields) → Keeps P (Protocol.mark_deleted env id result)
  unfolding Protocol.mark_deleted
  on_mark none result = record { at = λ w h. h }
  on_mark (some id) result = record { at = on_quiet (marked_deleted id) tt }

  on_dry_run : (p : Plan) (a : ControlAction) → Keeps P (dry_run_action env org p a)
  unfolding dry_run_action
  on_dry_run p a = search (keeps_rules, on_update, on_audit_control)

  on_fail : (p : Plan) (a : ControlAction) (e : Error) → Keeps P (fail_control_action env org p a e)
  unfolding fail_control_action
  on_fail p a e = search (keeps_rules, on_update, on_audit_control)

  on_complete : (p : Plan) (a : ControlAction) (m : Fields) → Keeps P (complete env org p a m)
  unfolding complete
  on_complete p a m = search (keeps_rules, on_mark, on_update, on_sync, on_audit_control)

  on_settle : (p : Plan) (a : ControlAction) (r : Result Fields) → Keeps P (settle env org p a r)
  on_settle p a (err e) = on_fail p a e
  on_settle p a (ok m) = on_complete p a m

  -- After an update to `running` that went through, the log says so.
  update_announces :
      (a : ControlAction) (request : Option Fields) (w : World)
      → let (o, w') = update env org (record a { status = running }) request none "" w in
        (o.1 ≡ none) → IsAnnounced w'.log
  unfolding update
  update_announces a request w h = ground arith

  on_called :
      (p : Plan) (a : ControlAction)
      → dry ≡ false
      → p.conn.mode ≡ mode_control_enabled
      → (w : World) → IsAnnounced w.log
      → P w
      → P ((effect (called p.conn p.call) p.answer >>= settle env org p a) w).1
  on_called p a live mode w said h =
      (on_settle p a (p.answer w)).at (add_event (called p.conn p.call) w)
        (on_call p.conn p.call w live mode said h)

  on_execute :
      (p : Plan) (a : ControlAction)
      → dry ≡ false
      → p.conn.mode ≡ mode_control_enabled
      → Keeps P (execute env org p a)
  unfolding execute
  on_execute p a live mode =
      Keeps-or_return-bind {Q = λ w. IsAnnounced w.log} _ _ (on_update _ _ _ _)
        (update_announces a (some p.after)) (λ b. on_called p b live mode)

  on_perform :
      (p : Plan) (a : ControlAction)
      → p.dry_run ≡ dry
      → p.conn.mode ≡ mode_control_enabled
      → Keeps P (perform env org p a)
  unfolding perform
  on_perform p a same mode = search (
    keeps_rules,
    on_create,
    on_audit_control,
    on_dry_run,
    λ (b : ControlAction) (e : p.dry_run ≡ false). on_execute p b (sym same ∙ e) mode,
  )

  on_replay : (key : String) → Keeps P (replay env org key)
  unfolding replay
  on_replay key = record { at = λ w h. ground arith }

  on_refuse :
      (a : ControlAction) (before requested : Fields) (said reason : String) (e : Error)
      → Keeps P (refuse_access env org a before requested said reason e)
  unfolding refuse_access audit_action
  on_refuse a before requested said reason e =
      search (keeps_rules, on_create, on_update, on_audit_control)

  on_reject_status :
      (a : ControlAction) (before after : Fields) (said reason : String)
      → Keeps P (reject_status_action env org a before after said reason)
  unfolding reject_status_action audit_status_action
  on_reject_status a before after said reason =
      search (keeps_rules, on_create, on_update, on_audit_control)

  on_reject_control :
      (s : Subject) (said reason : String) → Keeps P (reject_control_action env org s said reason)
  unfolding reject_control_action
  on_reject_control s said reason = search (keeps_rules, on_create, on_update, on_audit_control)

  on_checked :
      (conn : RuntimeConnection) (w : World) → P w → P (record w { log = checked conn ∷ w.log })
  on_checked conn = on_quiet (checked conn) tt

  on_validate :
      (conn : RuntimeConnection) (s : Subject) (supported : Capabilities → Bool)
      (unsupported : String) (go : Adapter → Exec Outcome)
      → (conn.mode ≡ mode_control_enabled → (a : Adapter) → Keeps P (go a))
      → Keeps P (validate_capability env org conn s supported unsupported go)
  unfolding validate_capability
  on_validate conn s supported unsupported go keep =
      search
        (
          keeps_rules,
          on_checked,
          on_reject_control,
          keep,
          (eq_iff conn.mode mode_control_enabled).0,
        )
        depth 8

  -- The mode test, as the equation that `on_perform` wants.
  in_control :
      (conn : RuntimeConnection)
      → (conn.mode == mode_control_enabled) ≡ true
      → conn.mode ≡ mode_control_enabled
  in_control conn = (eq_iff conn.mode mode_control_enabled).0

  on_admit_access :
      (input : ReconcileAccessInput) (same : input.dry_run ≡ dry) (id : String)
      (conn : RuntimeConnection) (a : ControlAction) (before requested : Fields)
      → Keeps P (admit_access env org input id conn a before requested)
  unfolding admit_access
  on_admit_access input same id conn a before requested =
      search (keeps_rules, on_refuse, on_perform, in_control) depth 8

  on_access :
      (input : ReconcileAccessInput)
      → input.dry_run ≡ dry
      → Keeps P (reconcile_access env org input)
  unfolding reconcile_access
  on_access input same = search (keeps_rules, on_replay, on_admit_access) depth 12

  on_admit_status :
      (input : SetAgentStatusInput) (same : input.dry_run ≡ dry) (id : String)
      (conn : RuntimeConnection) (a : ControlAction) (before after : Fields)
      → Keeps P (admit_status env org input id conn a before after)
  unfolding admit_status
  on_admit_status input same id conn a before after =
      search (keeps_rules, on_checked, on_reject_status, on_perform, in_control) depth 9

  on_status :
      (input : SetAgentStatusInput) → input.dry_run ≡ dry → Keeps P (set_agent_status env org input)
  unfolding set_agent_status
  on_status input same = search (keeps_rules, on_replay, on_admit_status) depth 12

  on_admit_delete :
      (input : DeleteAgentInput) (same : input.dry_run ≡ dry) (d : PersistedAgentDetail)
      (conn : RuntimeConnection) (s : Subject)
      → Keeps P (admit_delete env org input d conn s)
  unfolding admit_delete
  on_admit_delete input same d conn s =
      search (keeps_rules, on_validate, on_reject_control, on_perform) depth 8

  on_delete :
      (input : DeleteAgentInput) → input.dry_run ≡ dry → Keeps P (delete_agent env org input)
  unfolding delete_agent
  on_delete input same = search (keeps_rules, on_replay, on_admit_delete) depth 12

  on_admit_cancel :
      (input : CancelExecutionInput) (same : input.dry_run ≡ dry) (x : PersistedRuntimeExecution)
      (conn : RuntimeConnection) (s : Subject)
      → Keeps P (admit_cancel env org input x conn s)
  unfolding admit_cancel
  on_admit_cancel input same x conn s =
      search (keeps_rules, on_validate, on_reject_control, on_perform) depth 8

  on_cancel :
      (input : CancelExecutionInput)
      → input.dry_run ≡ dry
      → Keeps P (cancel_execution env org input)
  unfolding cancel_execution
  on_cancel input same = search (keeps_rules, on_replay, on_admit_cancel) depth 12

  pub method-Keeps : (r : Request) → is_dry r ≡ dry → Keeps P (method env org r)
  method-Keeps (access input) same = on_access input same
  method-Keeps (status input) same = on_status input same
  method-Keeps (removal input) same = on_delete input same
  method-Keeps (cancellation input) same = on_cancel input same
