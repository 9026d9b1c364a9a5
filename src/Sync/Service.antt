-- ===== src/Sync/Service.antt =====
-- `RuntimeSyncService` of internal/services/runtime_sync.go. Its repositories and adapters are
-- interfaces: `Env` has their answers, each of which may depend on all that has happened so far,
-- and `World` is the list of what has happened, the latest first.
use capcom.Prelude.{
  ℕ, zero, suc, String, ◌<>◌, Bool, true, false, ◌&&◌, ◌||◌, not, Option, none, some, List, ◌∷◌,
  ◌==◌, if◌then◌else◌,
}
use capcom.Prelude.Text.{trim_space, blank}
use capcom.Prelude.Text.Quote.{quote}
use capcom.Errors.{
  Error, sync_conflict, sentinel, message, wrap, join, error_text, sanitize_runtime_error, Result,
  ok, err,
}
use capcom.Domain.Runtime.{RuntimeKind, RuntimeConnection}
use capcom.Domain.Agents.{PersistedAgentDetail}
use capcom.Domain.Snapshot.{RuntimeSnapshot, RuntimeSyncRun, SyncTrigger, trigger_manual}
use capcom.Control.World.{SyncRuntimeInput}
use capcom.Sync.Validate.{validate_runtime_snapshot}

pub record SyncAudit : Type 0 where
  pub runtime_connection_id : String
  pub actor : String
  pub event_type : String
  pub target_type : String
  pub target_id : String
  pub reason : String
  pub result : String
  -- the metadata are fields of the run
  pub run : RuntimeSyncRun

pub data Event : Type 0 where
  locked : String → Event
  refused : String → Event
  released : String → Event
  run_created : RuntimeSyncRun → Event
  collected : RuntimeConnection → Event
  run_failed : RuntimeSyncRun → String → String → Event
  persisted : RuntimeSyncRun → RuntimeSnapshot → ℕ → Event
  audited : SyncAudit → Event

abbrev pub World : Type 0
World = List Event

-- The answer of a call that changes the database: what is returned, and whether it was carried out.
pub record Env : Type 0 where
  pub get : World → String → Result RuntimeConnection
  -- the keys of `adapters`, each with its `CollectSnapshot`
  pub adapters : RuntimeKind → Option (World → RuntimeConnection → Result RuntimeSnapshot)
  pub try_lock : World → String → Result Bool
  pub create_run : World → String → SyncTrigger → Result RuntimeSyncRun
  pub fail_run : World → RuntimeSyncRun → String → String → RuntimeSyncRun × Option Error
  pub persist_snapshot : World → RuntimeSyncRun → RuntimeSnapshot → ℕ → Result RuntimeSyncRun
  pub get_persisted_agent : World → String → Result PersistedAgentDetail
  -- whether the service has an audit repository
  pub audits : Bool
  -- `missingThreshold`, as the service was given it
  pub missing_threshold : ℕ
  -- `domain.RuntimeSyncRun{}`
  pub no_run : RuntimeSyncRun

abbrev pub Outcome : Type 0
Outcome = RuntimeSyncRun × Option Error

-- `NewRuntimeSyncService`
abbrev pub threshold : Env → ℕ
threshold env = elim env.missing_threshold [ zero ↦ 3 | suc n ↦ suc n ]

module _ (env : Env) where
  unfoldable pub audit_sync : RuntimeSyncRun → SyncRuntimeInput → String → String → World → World
  audit_sync run input event_type result w =
      if env.audits
      then audited (record {
        runtime_connection_id = run.runtime_connection_id;
        actor = if blank input.actor then "capcom-sync-worker" else trim_space input.actor;
        event_type = event_type;
        target_type = "runtime_sync_run";
        target_id = run.id;
        reason =
            if blank input.reason
            then "scheduled runtime synchronization"
            else trim_space input.reason;
        result = result;
        run = run;
      })
        ∷ w
      else w

  -- `FailRun`, `auditSync`, and the error: `back` where the run was marked, the two joined else.
  unfoldable pub fail_sync :
      SyncRuntimeInput → RuntimeSyncRun → String → String → Error → Error → World → Outcome × World
  unfolding audit_sync
  fail_sync input run code said cause back w =
      let (failed, fault) = env.fail_run w run code said in
      (
        (failed, some (elim fault [ none ↦ back | some e ↦ join cause e ])),
        audit_sync failed input "runtime.sync_failed" "failed"
            (elim fault [ none ↦ run_failed run code said ∷ w | some _ ↦ w ]),
      )

  -- What follows the collection of a snapshot.
  unfoldable pub persist_sync :
      SyncRuntimeInput → RuntimeSyncRun → RuntimeSnapshot → World → Outcome × World
  unfolding fail_sync
  persist_sync input run snapshot w = elim (validate_runtime_snapshot snapshot) [
    | some e ↦ fail_sync input run "invalid_snapshot" (error_text e) e e w
    | none ↦
        let w' : World = persisted run snapshot (threshold env) ∷ w in
        elim (env.persist_snapshot w run snapshot (threshold env)) [
          | err e ↦ fail_sync input run "persistence_error" (sanitize_runtime_error e) e e w'
          | ok completed ↦ (
            (completed, none),
            audit_sync completed input "runtime.sync_succeeded" "succeeded" w',
          )
        ]
  ]

  -- Between the lock and its release.
  unfoldable pub locked_sync :
      SyncRuntimeInput
      → RuntimeConnection
      → (World → RuntimeConnection → Result RuntimeSnapshot)
      → World
      → Outcome × World
  unfolding fail_sync persist_sync
  locked_sync input conn collect w = elim (env.create_run w conn.id input.trigger) [
    | err e ↦ ((env.no_run, some e), w)
    | ok run ↦
        let w1 : World = run_created run ∷ w in
        let w2 : World = collected conn ∷ w1 in
        elim (collect w1 conn) [
          | err e ↦
              fail_sync input run "adapter_error" (sanitize_runtime_error e) e
                (wrap "collect runtime snapshot" e) w2
          | ok snapshot ↦ persist_sync input run snapshot w2
        ]
  ]

  -- `defer release()`
  abbrev pub release : String → Outcome × World → Outcome × World
  release id (o, w) = (o, released id ∷ w)

  unfoldable pub with_lock :
      SyncRuntimeInput
      → RuntimeConnection
      → (World → RuntimeConnection → Result RuntimeSnapshot)
      → World
      → Outcome × World
  unfolding locked_sync
  with_lock input conn collect w = elim (env.try_lock w conn.id) [
    | err e ↦ ((env.no_run, some e), refused conn.id ∷ w)
    | ok false ↦ ((env.no_run, some (sentinel sync_conflict)), refused conn.id ∷ w)
    | ok true ↦ release conn.id (locked_sync input conn collect (locked conn.id ∷ w))
  ]

  abbrev pub defaulted : SyncRuntimeInput → SyncRuntimeInput
  defaulted input = if input.trigger == "" then record input { trigger = trigger_manual } else input

  unfoldable pub admitted_sync : SyncRuntimeInput → World → Outcome × World
  unfolding with_lock
  admitted_sync input w =
      if input.trigger == trigger_manual && (blank input.actor || blank input.reason)
      then ((env.no_run, some (message "actor and reason are required")), w)
      else elim (env.get w input.runtime_connection_id) [
        | err e ↦ ((env.no_run, some e), w)
        | ok conn ↦ elim (env.adapters conn.kind) [
          | none ↦ (
            (
              env.no_run,
              some (message ("runtime adapter " <> (quote conn.kind <> " is not registered"))),
            ),
            w,
          )
          | some collect ↦ with_lock input conn collect w
        ]
      ]

  unfoldable pub sync : SyncRuntimeInput → World → Outcome × World
  unfolding admitted_sync
  sync input w =
      if blank input.runtime_connection_id
      then ((env.no_run, some (message "runtime connection id is required")), w)
      else admitted_sync (defaulted input) w

  unfoldable pub get_agent : String → World → Result PersistedAgentDetail
  get_agent id w =
      if blank id then err (message "agent id is required") else env.get_persisted_agent w id

  -- The two arguments with which `ListAgentDelegations` asks the store.
  unfoldable pub delegations_query : String → String → World → Result (String × String)
  unfolding get_agent
  delegations_query runtime_id agent_id w =
      if blank agent_id then ok (runtime_id, "") else elim (get_agent agent_id w) [
        | err e ↦ err e
        | ok detail ↦
            if not (runtime_id == "") && not (detail.agent.runtime_connection_id == runtime_id)
            then err (message "agent does not belong to runtime instance")
            else ok (detail.agent.runtime_connection_id, detail.agent.runtime_agent_id)
      ]
