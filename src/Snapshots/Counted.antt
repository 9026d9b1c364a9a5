-- ===== src/Snapshots/Counted.antt =====
-- The result of `PersistSnapshot` of internal/store/sync_repository.go.
use capcom.Prelude.{
  ℕ, ◌+◌, String, ◌==◌, ◌≡◌, ap, ◌∙◌, if◌then◌else◌, some, List, [], ◌∷◌, ◌++◌, arith, eq_iff,
  eq_refl,
}
use capcom.Prelude.Bytes.{length}
use capcom.Prelude.Rows.{update_where}
use capcom.Errors.{ok}
use capcom.Effects.{transaction}
use capcom.Tenant.{Context}
use capcom.Domain.Agents.{AgentSkillSnapshot}
use capcom.Domain.Snapshot.{
  RuntimeSyncRun, RuntimeSnapshot, AgentDelegationSnapshot, SnapshotAgent, succeeded,
}
use capcom.Snapshots.Tables.{World, Env, is_missed, seen_in}
use capcom.Snapshots.Persist.{
  persist_items, advance_missing, persist_snapshot, advance_delegation, is_own_delegation, Counters,
  count_access,
}
use capcom.Snapshots.Missed.{State, state_of, mentions, later, state_of-advance}
use capcom.Snapshots.Stored.{
  upsert_rows, state_of-upserts, persist_items-delegations, advance_missing-delegations,
  complete_run-delegations,
}

-- All skills of the agents.
abbrev pub all_skills : List SnapshotAgent → List AgentSkillSnapshot
all_skills [] = []
all_skills (i ∷ l) = i.skills ++ all_skills l

-- What the run says that came back.
pub record IsComplete (given : RuntimeSyncRun) (s : RuntimeSnapshot) (run : RuntimeSyncRun)
    : Type 0 where
  pub id : run.id ≡ given.id
  pub status : run.status ≡ succeeded
  pub agents : run.agents_seen ≡ length s.agents
  pub skills : run.skills_seen ≡ length (all_skills s.agents)
  pub bindings : run.bindings_seen ≡ length (all_skills s.agents)
  pub access : run.access_documents_seen ≡ given.access_documents_seen + count_access s.agents
  pub executions : run.executions_seen ≡ length s.executions
  pub diagnostics : run.diagnostics_seen ≡ length s.diagnostics
  pub inventory : run.inventory_seen ≡ length s.inventory
  pub capabilities : run.capabilities_seen ≡ length s.capability_catalog
  pub delegations : run.delegations_seen ≡ length s.agent_delegations

record AreCounted (n : ℕ) (c c' : Counters) : Type 0 where
  skills : c'.skill_count ≡ c.skill_count + n
  bindings : c'.binding_count ≡ c.binding_count + n

stored_delegations :
    (env : Env) (ctx : Context) (given : RuntimeSyncRun) (s : RuntimeSnapshot) (threshold : ℕ)
    (w : World) (run : RuntimeSyncRun)
    → (persist_snapshot env ctx given s threshold w).0 ≡ ok run
    → (persist_snapshot env ctx given s threshold w).1.delegations
      ≡ update_where
          (is_own_delegation env ctx given)
          (advance_delegation threshold)
          (upsert_rows given s.agent_delegations w.delegations)
unfolding persist_snapshot transaction
stored_delegations env ctx given s threshold w run e =
    let w1 = (persist_items env ctx given s w).1 in
    let w2 = (advance_missing env ctx given threshold w1).1 in
    let p1 = persist_items-delegations env ctx given s w in
    let p2 = advance_missing-delegations env ctx given threshold w1 in
    let p3 = complete_run-delegations env ctx given s w2 in ground (arith, e, p1, p2, p3)

-- What becomes of the delegation under a key.
abbrev pub outlook :
    RuntimeSyncRun → List AgentDelegationSnapshot → ℕ → String → String → String → State → State
outlook run ds threshold id o k before =
    if id == run.runtime_connection_id
    then (if mentions o k ds then some ("active", seen_in run.id) else later run threshold before)
    else before

-- If a snapshot is stored, then under each key of each runtime: a delegation of the snapshot is
-- active, has been seen in this run, and has been missed no times; another delegation of the same
-- runtime that this run did not see has been missed once more, and is stale if that makes the
-- threshold; and the delegations of the other runtimes are as they were.
pub persist_snapshot-outlook :
    (env : Env) (ctx : Context) (given : RuntimeSyncRun) (s : RuntimeSnapshot) (threshold : ℕ)
    (w : World) (run : RuntimeSyncRun) (id o k : String)
    → (persist_snapshot env ctx given s threshold w).0 ≡ ok run
    → state_of id o k (persist_snapshot env ctx given s threshold w).1.delegations
      ≡ outlook given s.agent_delegations threshold id o k (state_of id o k w.delegations)
unfolding later is_missed
persist_snapshot-outlook env ctx given s threshold w run id o k e =
    let rows = upsert_rows given s.agent_delegations w.delegations in
    let stored = stored_delegations env ctx given s threshold w run e in
    let advanced = state_of-advance env ctx given threshold id o k rows in
    let upserted = state_of-upserts given id o k s.agent_delegations w.delegations in
    let swap = eq_iff id given.runtime_connection_id in
    let swap' = eq_iff given.runtime_connection_id id in
    ap (state_of id o k) stored ∙ ground (arith, advanced, upserted, swap, swap', eq_refl given.id)
