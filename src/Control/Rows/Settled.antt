-- ===== src/Control/Rows/Settled.antt =====
-- How the table stands when a control action returns.
use capcom.Prelude.{String, true, ◌≡◌, refl, ◌∙◌, inl, inr, Option, none, some}
use capcom.Prelude.{List, arith, Option-cases}
use capcom.Errors.{Error}
use capcom.Domain.Values.{Fields}
use capcom.Domain.Control.{ControlAction, ControlActionStatus, succeeded}
use capcom.Control.World.{World, Env, Event, RuntimeRow, ActionRow, SyncRuntimeInput}
use capcom.Control.Repository.{Outcome, create, update, is_final}
use capcom.Control.Exec.{or_return, effect}
use capcom.Control.Audit.{audit_control_action, verify}
use capcom.Control.Protocol
use capcom.Control.Protocol.{
  Plan, dry_run_action, fail_control_action, complete, settle, execute, perform,
}
use capcom.Control.Triple.{Triple, Triple-or_return}
use capcom.Control.Rows.Stages.{
  IsReliable, IsReady, IsStored, create_stores, create_fails, update_stores, update_fails,
  update_reliable, IsStored-map,
}

-- A predicate of the two tables.
abbrev pub Tables : Type 1
Tables = List ActionRow → List RuntimeRow → Type 0

abbrev pub On : Tables → World → Type 0
On T w = T w.actions w.runtimes

module _ (env : Env) where
  -- Audit events, syncs and tombstones leave the two tables alone, and never return early.
  pub audit_steady :
      (T : Tables) (R : Outcome → World → Type 0) (a : ControlAction)
      (event_type result target_type target_id : String) (before after : Fields)
      (metadata : Option Fields)
      → Triple
          (On T)
          (audit_control_action env a event_type result target_type target_id before after metadata)
          (λ _. On T)
          R
  unfolding audit_control_action
  audit_steady T R a _ _ _ _ _ _ _ = record { at = λ w h. ground arith }

  pub verify_steady :
      (T : Tables) (R : Outcome → World → Type 0)
      (sync : Option (World → SyncRuntimeInput → Option Error)) (input : SyncRuntimeInput)
      (m : Fields)
      → Triple (On T) (verify sync input m) (λ _. On T) R
  verify_steady T R none input m = record { at = λ w h. h }
  verify_steady T R (some sync) input m = record { at = λ w h. h }

  pub mark_steady :
      (T : Tables) (R : Outcome → World → Type 0) (id : Option String) (m : Fields)
      → Triple (On T) (Protocol.mark_deleted env id m) (λ _. On T) R
  unfolding Protocol.mark_deleted
  mark_steady T R none m = record { at = λ w h. h }
  mark_steady T R (some id) m = record { at = λ w h. h }

  pub effect_steady {ℓ} :
      {A : Type ℓ} (T : Tables) (R : Outcome → World → Type 0) (e : Event) (f : World → A)
      → Triple (On T) (effect e f) (λ _. On T) R
  effect_steady T R e f = record { at = λ w h. h }

-- `IsAnswer` tells which action a repeated request gets.
module _ (env : Env) (org : String) (actions : List ActionRow) (runtimes : List RuntimeRow)
    (key : String) (IsAnswer : ControlAction → Type 0) where
  abbrev pub Ready : ControlAction → Tables
  Ready = IsReady env org actions runtimes key

  abbrev pub Stored : (ControlActionStatus → Type 0) → String → Tables
  Stored = IsStored env org actions runtimes key

  -- The status of the row when the method returns `o`.
  abbrev pub Ending : Outcome → ControlActionStatus → Type 0
  Ending o s = (o.1 ≡ none → s ≡ succeeded) × (IsReliable env → is_final s ≡ true)

  -- Either the table is as it was, and a method that went through has given an earlier answer; or
  -- it has one more row.
  pub data IsSettled (o : Outcome) (w : World) : Type 0 where
    unstored : w.actions ≡ actions → (o.1 ≡ none → IsAnswer o.0) → IsSettled o w
    stored : On (Stored (Ending o) o.0.id) w → IsSettled o w

  pub create_step :
      (a : ControlAction)
      → Triple
          (On (Ready a))
          (or_return (create env org a))
          (λ b. On (Stored (λ s. s ≡ a.status) b.id))
          IsSettled
  create_step a =
      Triple-or_return (create env org a) (λ w h. create_stores env org actions runtimes key a w h)
        (λ w e h failed.
          unstored (create_fails env org actions runtimes key a w e h failed).same (λ went. cc))

  -- A call that failed left the row with the status that it had, on a database that can fail.
  pub broke :
      (S T : ControlActionStatus → Type 0) (a : ControlAction) (request response : Option Fields)
      (text : String) (w : World) (e : Error)
      → On (Stored S a.id) w
      → (update env org a request response text w).0.1 ≡ some e
      → (¬ (IsReliable env) → (s : ControlActionStatus) → S s → T s)
      → On
          (Stored T (update env org a request response text w).0.0.id)
          (update env org a request response text w).1
  broke S T a request response text w e h fault k =
      IsStored-map env org actions runtimes key
        (k (λ sound. cc (
          update_reliable env org actions runtimes key {S = S} a request response text w sound h,
          fault,
        )))
        (update_fails env org actions runtimes key {S = S} a request response text w e h fault)

  pub update_step :
      (S : ControlActionStatus → Type 0) (a : ControlAction) (request response : Option Fields)
      (text : String)
      → Triple
          (On (Stored S a.id))
          (or_return (update env org a request response text))
          (λ b. On (Stored (λ s. s ≡ a.status) b.id))
          IsSettled
  update_step S a request response text =
      Triple-or_return (update env org a request response text)
        (update_stores env org actions runtimes key {S = S} a request response text)
        (λ w e h fault. stored (
          broke S _ a request response text w e h fault
            (λ unsound s _. ((λ went. cc), λ sound. absurd (unsound sound)))))

  -- `action, _ = Update(…)`: the status is written if the database is reliable.
  pub written :
      (S : ControlActionStatus → Type 0) (a : ControlAction) (request response : Option Fields)
      (text : String) (w : World)
      → On (Stored S a.id) w
      → On
          (Stored
            (λ s. IsReliable env → s ≡ a.status)
            (update env org a request response text w).0.0.id)
          (update env org a request response text w).1
  written S a request response text w h =
      elim (Option-cases (update env org a request response text w).0.1) [
        | inl went ↦
            IsStored-map env org actions runtimes key (λ s e _. e)
              (update_stores env org actions runtimes key {S = S} a request response text w h went)
        | inr (e, fault) ↦
            broke S _ a request response text w e h fault
              (λ unsound s _ sound. absurd (unsound sound))
      ]

  -- The dry run's update, whose error goes back with the action.
  pub both_settled :
      (S : ControlActionStatus → Type 0) (a : ControlAction) (request response : Option Fields)
      (text : String) (w : World)
      → a.status ≡ succeeded
      → On (Stored S a.id) w
      → let (o, w') = update env org a request response text w in On (Stored (Ending o) o.0.id) w'
  both_settled S a request response text w done h =
      elim (Option-cases (update env org a request response text w).0.1) [
        | inl went ↦
            IsStored-map env org actions runtimes key
              (λ s e. ((λ _. e ∙ done), λ _. rw (e ∙ done) refl))
              (update_stores env org actions runtimes key {S = S} a request response text w h went)
        | inr (e, fault) ↦
            broke S _ a request response text w e h fault
              (λ unsound s _. ((λ went. cc), λ sound. absurd (unsound sound)))
      ]
