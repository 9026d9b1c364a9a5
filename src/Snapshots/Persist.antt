-- ===== src/Snapshots/Persist.antt =====
-- `PersistSnapshot` of internal/store/sync_repository.go.
use capcom.Prelude.{
  ℕ, suc, ◌+◌, String, Bool, not, ◌&&◌, ◌==◌, leb, if◌then◌else◌, some, List, [], ◌∷◌,
}
use capcom.Prelude.Bytes.{length}
use capcom.Prelude.Rows.{any, update_where}
use capcom.Errors.{ok}
use capcom.Effects.{Effect, ◌>>=◌, ◌>>◌, try, write, done, read, transaction}
use capcom.Tenant.{Context}
use capcom.Domain.Agents.{AgentSkillSnapshot}
use capcom.Domain.Snapshot.{RuntimeSyncRun, RuntimeSnapshot, SnapshotAgent, succeeded}
use capcom.Snapshots.Tables.{
  AgentRow, BindingRow, SkillRow, SkillBindingRow, DelegationRow, World, Env, is_missed, missed,
  status_after,
}
use capcom.Snapshots.Upserts.{
  at, upsert_runtime_execution, upsert_subagent_execution, upsert_runtime_diagnostic,
  upsert_runtime_inventory, upsert_runtime_capability, upsert_agent_delegation,
}
use capcom.Snapshots.Agents.{upsert_snapshot_agent, upsert_snapshot_skill, upsert_actual_access}

-- `for _, item := range items { if err := f(item); err != nil { return … } }`
unfoldable pub each {ℓ} :
    {A : Type ℓ} → (A → Effect World (Unit {0})) → List A → Effect World (Unit {0})
each f [] = done tt
each f (a ∷ l) = f a >> each f l

abbrev has_access : SnapshotAgent → Bool
has_access i = not (i.access.source == "")

-- `skillCount` and `bindingCount`, which the inner loop counts up for each skill that it stored.
pub record Counters : Type 0 where
  pub skill_count : ℕ
  pub binding_count : ℕ

unfoldable pub counted_skills : List AgentSkillSnapshot → Counters → Counters
counted_skills [] c = c
counted_skills (_ ∷ l) c =
    counted_skills l record { skill_count = c.skill_count + 1; binding_count = c.binding_count + 1 }

unfoldable pub counted_agents : List SnapshotAgent → Counters → Counters
unfolding counted_skills
counted_agents [] c = c
counted_agents (i ∷ l) c = counted_agents l (counted_skills i.skills c)

abbrev pub counters : RuntimeSnapshot → Counters
counters snapshot = counted_agents snapshot.agents record { skill_count = 0; binding_count = 0 }

unfoldable pub count_access : List SnapshotAgent → ℕ
count_access [] = 0
count_access (i ∷ l) = let rest = count_access l in if has_access i then suc rest else rest

-- The fields that the run has when the snapshot is stored.
unfoldable pub completed : Env → RuntimeSyncRun → RuntimeSnapshot → World → RuntimeSyncRun
completed env run snapshot w =
    let finished = env.now w in
    record run {
      status = succeeded;
      finished_at = some finished;
      duration_ms = env.milliseconds finished run.started_at;
      agents_seen = length snapshot.agents;
      skills_seen = (counters snapshot).skill_count;
      bindings_seen = (counters snapshot).binding_count;
      access_documents_seen = run.access_documents_seen + count_access snapshot.agents;
      executions_seen = length snapshot.executions;
      diagnostics_seen = length snapshot.diagnostics;
      inventory_seen = length snapshot.inventory;
      capabilities_seen = length snapshot.capability_catalog;
      delegations_seen = length snapshot.agent_delegations;
    }

-- The agents of the bindings that were missed too often.
unfoldable pub is_lost : String → ℕ → List BindingRow → AgentRow → Bool
is_lost id threshold bindings a =
    any (λ b. b.agent_id == a.id && b.runtime_connection_id == id && leb threshold b.seen.missing)
      bindings

-- The skill of a binding belongs to the connection.
unfoldable pub is_skill_of : String → List SkillRow → SkillBindingRow → Bool
is_skill_of id skills b =
    any (λ s. s.id == b.runtime_skill_id && s.runtime_connection_id == id) skills

unfoldable pub advance_delegation : ℕ → DelegationRow → DelegationRow
advance_delegation threshold r = record r {
  seen = missed r.seen;
  status = status_after threshold r.seen r.status;
}

module _ (env : Env) (ctx : Context) (run : RuntimeSyncRun) where
  unfoldable pub persist_agent : SnapshotAgent → Effect World (Unit {0})
  persist_agent item = do
    id ← upsert_snapshot_agent env ctx run item.agent
    each (upsert_snapshot_skill env ctx run id) item.skills
    (λ w.
        let r = upsert_actual_access env ctx run id item.access w in
        if has_access item then r else (ok tt, w))

  unfoldable pub persist_items : RuntimeSnapshot → Effect World (Unit {0})
  persist_items snapshot = do
    each persist_agent snapshot.agents
    each (upsert_runtime_execution env run.runtime_connection_id) snapshot.executions
    each (upsert_runtime_diagnostic env run.runtime_connection_id) snapshot.diagnostics
    each (upsert_runtime_inventory env run.runtime_connection_id) snapshot.inventory
    each (upsert_runtime_capability env run.runtime_connection_id) snapshot.capability_catalog
    each (upsert_agent_delegation env run) snapshot.agent_delegations
    each (upsert_subagent_execution env run.runtime_connection_id) snapshot.subagent_executions

  unfoldable pub is_own_delegation : DelegationRow → Bool
  is_own_delegation r =
      r.runtime_connection_id == run.runtime_connection_id && is_missed run.id r.seen

  -- The five updates of what the snapshot did not have.
  unfoldable pub advance_missing : ℕ → Effect World (Unit {0})
  advance_missing threshold = do
    try (at env "advance missing agents" run.id)
    write (λ w. record w {
      bindings =
          update_where
            (λ b. b.runtime_connection_id == run.runtime_connection_id && is_missed run.id b.seen)
            (λ b. record b { seen = missed b.seen }) w.bindings;
    })
    try (at env "mark missing agents stale" run.id)
    write (λ w. record w {
      agents =
          update_where (is_lost run.runtime_connection_id threshold w.bindings)
            (λ a. record a { status = "stale" }) w.agents;
    })
    try (at env "advance missing skill bindings" run.id)
    write (λ w. record w {
      skill_bindings =
          update_where
            (λ b. is_skill_of run.runtime_connection_id w.skills b && is_missed run.id b.seen)
            (λ b. record b {
              seen = missed b.seen;
              status = status_after threshold b.seen b.status;
            })
            w.skill_bindings;
    })
    try (at env "advance missing runtime skills" run.id)
    write (λ w. record w {
      skills =
          update_where
            (λ s. s.runtime_connection_id == run.runtime_connection_id && is_missed run.id s.seen)
            (λ s. record s {
              seen = missed s.seen;
              skill = record s.skill { status = status_after threshold s.seen s.skill.status };
            })
            w.skills;
    })
    try (at env "advance missing agent delegations" run.id)
    write (λ w. record w {
      delegations = update_where is_own_delegation (advance_delegation threshold) w.delegations;
    })

  unfoldable pub complete_run : RuntimeSnapshot → Effect World RuntimeSyncRun
  complete_run snapshot = do
    finished ← read (λ w. ok (completed env run snapshot w))
    try (at env "complete sync run" run.id)
    write (λ w. record w {
      runs =
          update_where (λ r. r.id == run.id)
            (λ r. record finished {
              id = r.id;
              runtime_connection_id = r.runtime_connection_id;
              trigger = r.trigger;
              started_at = r.started_at;
              error_code = r.error_code;
              error_message = r.error_message;
              metadata = r.metadata;
            })
            w.runs;
    })
    try (at env "activate synced runtime" run.runtime_connection_id)
    write (λ w. record w {
      connections =
          update_where (λ c. c.id == run.runtime_connection_id)
            (λ c. record c {
              status = "active";
              last_sync_status = "succeeded";
              last_sync_at = finished.finished_at;
              last_sync_finished_at = finished.finished_at;
              last_sync_duration_ms = finished.duration_ms;
              last_error = "";
            })
            w.connections;
    })
    try (at env "commit runtime snapshot" run.id)
    done finished

  -- On an error the run comes back as well, as it is then; nobody reads it.
  unfoldable pub persist_snapshot : RuntimeSnapshot → ℕ → Effect World RuntimeSyncRun
  persist_snapshot snapshot threshold = transaction do
    try (at env "begin persist runtime snapshot" run.id)
    persist_items snapshot
    advance_missing threshold
    complete_run snapshot
