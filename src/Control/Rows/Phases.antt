-- ===== src/Control/Rows/Phases.antt =====
-- The phases of a control action, from its creation or its refusal to its end.
use capcom.Prelude.{String, ◌≡◌, refl, none, some, List}
use capcom.Errors.{Error, wrap, sanitize_runtime_error, Result, ok, err}
use capcom.Domain.Values.{Fields}
use capcom.Domain.Snapshot.{trigger_post_action}
use capcom.Domain.Control.{ControlAction, ControlActionStatus, succeeded, running, failed}
use capcom.Control.World.{World, Env, RuntimeRow, ActionRow, called}
use capcom.Control.Repository.{Outcome, update}
use capcom.Control.Audit.{one, run_verification_sync}
use capcom.Control.Protocol.{
  Plan, dry_run_action, fail_control_action, complete, settle, execute, perform,
}
use capcom.Control.Triple.{
  Triple, Triple-bind, Triple-finish, Triple-ignoring, Triple-both, Triple-if,
}
use capcom.Control.Rows.Stages.{IsReliable, IsStored-map}
use capcom.Control.Rows.Settled.{
  Tables, On, Ready, Stored, Ending, IsSettled, stored, create_step, update_step, written,
  both_settled, audit_steady, verify_steady, mark_steady, effect_steady,
}

module _ (env : Env) (org : String) (actions : List ActionRow) (runtimes : List RuntimeRow)
    (key : String) (IsAnswer : ControlAction → Type 0) where
  abbrev Has : (ControlActionStatus → Type 0) → String → Tables
  Has = Stored env org actions runtimes key IsAnswer

  abbrev Settles : Outcome → World → Type 0
  Settles = IsSettled env org actions runtimes key IsAnswer

  abbrev End : Outcome → ControlActionStatus → Type 0
  End = Ending env org actions runtimes key IsAnswer

  dry_run-Settles :
      (S : ControlActionStatus → Type 0) (p : Plan) (a : ControlAction)
      → Triple (On (Has S a.id)) (dry_run_action env org p a) (λ _ _. ⊥) Settles
  unfolding dry_run_action
  dry_run-Settles S p a =
      Triple-bind {Q = λ o. On (Has (End o) o.0.id)}
        (Triple-both
          (update env org (record a { status = succeeded }) (some p.after) (some p.dry_result) "")
          (λ w h.
            both_settled env org actions runtimes key IsAnswer S (record a { status = succeeded })
              (some p.after) (some p.dry_result) "" w refl h))
        (λ o.
          Triple-bind {Q = λ _. On (Has (End o) o.0.id)}
            (audit_steady env (Has (End o) o.0.id) Settles o.0 "control_action.dry_run_succeeded"
              "succeeded" p.target_type p.target_id p.before p.after (some p.dry_result))
            (λ _. Triple-finish o (λ w h. stored h)))

  failure-Settles :
      (S : ControlActionStatus → Type 0) (p : Plan) (a : ControlAction) (e : Error)
      → Triple (On (Has S a.id)) (fail_control_action env org p a e) (λ _ _. ⊥) Settles
  unfolding fail_control_action
  failure-Settles S p a e =
      Triple-bind {Q = λ b. On (Has (λ s. IsReliable env → s ≡ failed) b.id)}
        (Triple-ignoring
          (update env org (record a { status = failed }) (some p.after) none
            (sanitize_runtime_error e))
          (λ w h.
            written env org actions runtimes key IsAnswer S (record a { status = failed })
              (some p.after) none (sanitize_runtime_error e) w h))
        (λ b.
          Triple-bind {Q = λ _. On (Has (λ s. IsReliable env → s ≡ failed) b.id)}
            (audit_steady env (Has (λ s. IsReliable env → s ≡ failed) b.id) Settles b
              "control_action.failed" "failed" p.target_type p.target_id p.before p.after
              (some (one "error" (sanitize_runtime_error e))))
            (λ _.
              Triple-finish (b, some (wrap p.prefix e))
                (λ w h. stored (
                  IsStored-map env org actions runtimes key
                    (λ s k. ((λ went. cc), λ sound. rw (k sound) refl)) h))))

  completion-Settles :
      (S : ControlActionStatus → Type 0) (p : Plan) (a : ControlAction) (m : Fields)
      → Triple (On (Has S a.id)) (complete env org p a m) (λ _ _. ⊥) Settles
  unfolding complete run_verification_sync
  completion-Settles S p a m =
      Triple-bind {Q = λ _. On (Has S a.id)} (mark_steady env (Has S a.id) Settles p.tombstone m)
        (λ m.
          Triple-bind {Q = λ b. On (Has (λ s. s ≡ succeeded) b.id)}
            (update_step env org actions runtimes key IsAnswer S (record a { status = succeeded })
              (some p.after) (some m) "")
            (λ b.
              Triple-bind {Q = λ _. On (Has (λ s. s ≡ succeeded) b.id)}
                (verify_steady env (Has (λ s. s ≡ succeeded) b.id) Settles env.syncer
                  (record {
                    runtime_connection_id = p.conn.id;
                    trigger = trigger_post_action;
                    actor = p.actor;
                    reason = p.sync_reason;
                  })
                  m)
                (λ m.
                  Triple-bind {Q = λ _. On (Has (λ s. s ≡ succeeded) b.id)}
                    (audit_steady env (Has (λ s. s ≡ succeeded) b.id) Settles b
                      "control_action.succeeded" "succeeded" p.target_type p.target_id p.before
                      p.after (some m))
                    (λ _.
                      Triple-finish (record b { result = some m }, none)
                        (λ w h. stored (
                          IsStored-map env org actions runtimes key
                            (λ s k. ((λ _. k), λ _. rw k refl)) h))))))

  settle-Settles :
      (S : ControlActionStatus → Type 0) (p : Plan) (a : ControlAction) (r : Result Fields)
      → Triple (On (Has S a.id)) (settle env org p a r) (λ _ _. ⊥) Settles
  settle-Settles S p a (ok m) = completion-Settles S p a m
  settle-Settles S p a (err e) = failure-Settles S p a e

  execute-Settles :
      (S : ControlActionStatus → Type 0) (p : Plan) (a : ControlAction)
      → Triple (On (Has S a.id)) (execute env org p a) (λ _ _. ⊥) Settles
  unfolding execute
  execute-Settles S p a =
      Triple-bind {Q = λ b. On (Has (λ s. s ≡ running) b.id)}
        (update_step env org actions runtimes key IsAnswer S (record a { status = running })
          (some p.after) none "")
        (λ b.
          Triple-bind {Q = λ _. On (Has (λ s. s ≡ running) b.id)}
            (effect_steady env (Has (λ s. s ≡ running) b.id) Settles (called p.conn p.call)
              p.answer)
            (λ r. settle-Settles (λ s. s ≡ running) p b r))

  pub perform-Settles :
      (p : Plan) (a : ControlAction)
      → Triple
          (On (Ready env org actions runtimes key IsAnswer a))
          (perform env org p a)
          (λ _ _. ⊥)
          Settles
  unfolding perform
  perform-Settles p a =
      Triple-bind {Q = λ b. On (Has (λ s. s ≡ a.status) b.id)}
        (create_step env org actions runtimes key IsAnswer a)
        (λ b.
          Triple-bind {Q = λ _. On (Has (λ s. s ≡ a.status) b.id)}
            (audit_steady env (Has (λ s. s ≡ a.status) b.id) Settles b "control_action.requested"
              "succeeded" p.target_type p.target_id p.before p.after none)
            (λ _.
              Triple-if p.dry_run (dry_run_action env org p b) (execute env org p b)
                (dry_run-Settles (λ s. s ≡ a.status) p b)
                (execute-Settles (λ s. s ≡ a.status) p b)))
