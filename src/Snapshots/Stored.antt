-- ===== src/Snapshots/Stored.antt =====
-- What `PersistSnapshot` leaves in the table of the delegations.
use capcom.Prelude.{
  ℕ, String, true, ◌&&◌, ◌==◌, ◌≡◌, refl, if◌then◌else◌, some, List, [], ◌∷◌, arith, inl, inr,
}
use capcom.Prelude.Rows.{any, update_where, upsert}
use capcom.Errors.{ok, Result-cases}
use capcom.Effects.{Effect}
use capcom.Tenant.{Context}
use capcom.Domain.Snapshot.{
  RuntimeSyncRun, RuntimeSnapshot, SnapshotAgent, AgentDelegationSnapshot, RuntimeExecutionSnapshot,
  SubagentExecutionSnapshot, RuntimeDiagnosticSnapshot, RuntimeInventorySnapshot,
  RuntimeCapabilitySnapshot,
}
use capcom.Domain.Agents.{AgentSnapshot, AgentSkillSnapshot}
use capcom.Snapshots.Tables.{DelegationRow, World, Env, seen_in}
use capcom.Snapshots.Upserts.{
  is_delegation, upsert_agent_delegation, upsert_runtime_execution, upsert_subagent_execution,
  upsert_runtime_diagnostic, upsert_runtime_inventory, upsert_runtime_capability,
}
use capcom.Snapshots.Agents.{
  insert_agent, update_agent, upsert_snapshot_agent, upsert_snapshot_skill, upsert_actual_access,
}
use capcom.Snapshots.Persist.{
  each, persist_agent, persist_items, advance_missing, complete_run, advance_delegation,
  is_own_delegation,
}
use capcom.Snapshots.Missed.{
  is_at, is_same, state_of, mentions, renewed_state, fresh, upsert_row, state_of-update, same-is_at,
}

module _ (run : RuntimeSyncRun) (d : AgentDelegationSnapshot) (id o k : String) where
  any-state_of :
      (rows : List DelegationRow)
      → is_same run d id o k ≡ true
      → any (is_delegation run.runtime_connection_id d) rows ≡ true
      → renewed_state run d id o k (state_of id o k rows) ≡ some ("active", seen_in run.id)
  unfolding any state_of
  any-state_of [] h e = ground (arith, e)
  any-state_of (r ∷ rows) h e =
      let ih = any-state_of rows h in
      let same = same-is_at run d id o k r h in ground (arith, ih, same, e)

  fresh-is_at : is_at id o k (fresh run d) ≡ is_same run d id o k
  unfolding is_at is_same
  fresh-is_at = refl

  state_of-fresh :
      (rows : List DelegationRow)
      → state_of id o k (fresh run d ∷ rows) ≡ (
          if is_at id o k (fresh run d)
          then some ("active", seen_in run.id)
          else state_of id o k rows)
  unfolding state_of
  state_of-fresh rows = refl

  state_of-upsert :
      (rows : List DelegationRow)
      → state_of id o k (upsert_row run d rows)
        ≡ (if is_same run d id o k then some ("active", seen_in run.id) else state_of id o k rows)
  unfolding upsert_row upsert
  state_of-upsert rows =
      let known = any-state_of rows in
      let updated = state_of-update run d id o k rows in
      let new = fresh-is_at in
      let added = state_of-fresh rows in ground (arith, known, updated, new, added)

-- The upserts of a whole snapshot, in its order.
unfoldable pub upsert_rows :
    RuntimeSyncRun → List AgentDelegationSnapshot → List DelegationRow → List DelegationRow
upsert_rows run [] rows = rows
upsert_rows run (d ∷ l) rows = upsert_rows run l (upsert_row run d rows)

pub state_of-upserts :
    (run : RuntimeSyncRun) (id o k : String) (l : List AgentDelegationSnapshot)
    (rows : List DelegationRow)
    → state_of id o k (upsert_rows run l rows) ≡ (
        if run.runtime_connection_id == id && mentions o k l
        then some ("active", seen_in run.id)
        else state_of id o k rows)
unfolding upsert_rows mentions is_same
state_of-upserts run id o k [] rows = ground arith
state_of-upserts run id o k (d ∷ l) rows =
    let ih = state_of-upserts run id o k l (upsert_row run d rows) in
    let one = state_of-upsert run d id o k rows in ground (arith, ih, one)

-- An upsert into another table leaves the delegations as they are.
each-delegations {ℓ} :
    {A : Type ℓ} (f : A → Effect World (Unit {0}))
    → ((a : A) (w : World) → (f a w).1.delegations ≡ w.delegations)
    → (l : List A) (w : World) → (each f l w).1.delegations ≡ w.delegations
unfolding each
each-delegations f h [] w = refl
each-delegations f h (a ∷ l) w =
    let one = h a w in let rest = each-delegations f h l (f a w).1 in ground (arith, one, rest)

module _ (env : Env) (ctx : Context) (run : RuntimeSyncRun) where
  agent-delegations :
      (a : AgentSnapshot) (w : World)
      → (upsert_snapshot_agent env ctx run a w).1.delegations ≡ w.delegations
  unfolding upsert_snapshot_agent insert_agent update_agent
  agent-delegations a w = ground arith

  skill-delegations :
      (id : String) (s : AgentSkillSnapshot) (w : World)
      → (upsert_snapshot_skill env ctx run id s w).1.delegations ≡ w.delegations
  unfolding upsert_snapshot_skill
  skill-delegations id s w = ground arith

  persist_agent-delegations :
      (i : SnapshotAgent) (w : World)
      → (persist_agent env ctx run i w).1.delegations ≡ w.delegations
  unfolding persist_agent upsert_actual_access
  persist_agent-delegations i w =
      let first = agent-delegations i.agent w in
      let skills : (id : String)
          → (each (upsert_snapshot_skill env ctx run id) i.skills
              (upsert_snapshot_agent env ctx run i.agent w).1).1.delegations
            ≡ (upsert_snapshot_agent env ctx run i.agent w).1.delegations =
        λ id.
          each-delegations (upsert_snapshot_skill env ctx run id) (skill-delegations id) i.skills
            (upsert_snapshot_agent env ctx run i.agent w).1 in
      elim (Result-cases (upsert_snapshot_agent env ctx run i.agent w).0) [
        | inl went ↦ let (id, e) = went in let s = skills id in ground (arith, first, s, e)
        | inr failed ↦ let (_, e) = failed in ground (arith, first, e)
      ]

  each-upsert :
      (l : List AgentDelegationSnapshot) (w : World)
      → (each (upsert_agent_delegation env run) l w).0 ≡ ok tt
      → (each (upsert_agent_delegation env run) l w).1.delegations ≡ upsert_rows run l w.delegations
  unfolding each upsert_rows upsert_agent_delegation upsert_row
  each-upsert [] w e = refl
  each-upsert (d ∷ l) w e =
      let rest = each-upsert l (upsert_agent_delegation env run d w).1 in ground (arith, rest, e)

  execution-delegations :
      (id : String) (w : World)
      → (a : RuntimeExecutionSnapshot)
      → (upsert_runtime_execution env id a w).1.delegations ≡ w.delegations
  unfolding upsert_runtime_execution
  execution-delegations id w a = ground arith

  diagnostic-delegations :
      (id : String) (w : World)
      → (a : RuntimeDiagnosticSnapshot)
      → (upsert_runtime_diagnostic env id a w).1.delegations ≡ w.delegations
  unfolding upsert_runtime_diagnostic
  diagnostic-delegations id w a = ground arith

  inventory-delegations :
      (id : String) (w : World)
      → (a : RuntimeInventorySnapshot)
      → (upsert_runtime_inventory env id a w).1.delegations ≡ w.delegations
  unfolding upsert_runtime_inventory
  inventory-delegations id w a = ground arith

  capability-delegations :
      (id : String) (w : World)
      → (a : RuntimeCapabilitySnapshot)
      → (upsert_runtime_capability env id a w).1.delegations ≡ w.delegations
  unfolding upsert_runtime_capability
  capability-delegations id w a = ground arith

  subagent-delegations :
      (id : String) (w : World)
      → (a : SubagentExecutionSnapshot)
      → (upsert_subagent_execution env id a w).1.delegations ≡ w.delegations
  unfolding upsert_subagent_execution
  subagent-delegations id w a = ground arith

  pub persist_items-delegations :
      (s : RuntimeSnapshot) (w : World)
      → (persist_items env ctx run s w).0 ≡ ok tt
      → (persist_items env ctx run s w).1.delegations
        ≡ upsert_rows run s.agent_delegations w.delegations
  unfolding persist_items
  persist_items-delegations s w e =
      let id = run.runtime_connection_id in
      let w1 = (each (persist_agent env ctx run) s.agents w).1 in
      let w2 = (each (upsert_runtime_execution env id) s.executions w1).1 in
      let w3 = (each (upsert_runtime_diagnostic env id) s.diagnostics w2).1 in
      let w4 = (each (upsert_runtime_inventory env id) s.inventory w3).1 in
      let w5 = (each (upsert_runtime_capability env id) s.capability_catalog w4).1 in
      let w6 = (each (upsert_agent_delegation env run) s.agent_delegations w5).1 in
      let p1 = each-delegations (persist_agent env ctx run) persist_agent-delegations s.agents w in
      let p2 =
        each-delegations (upsert_runtime_execution env id) (λ a v. execution-delegations id v a)
          s.executions w1 in
      let p3 =
        each-delegations (upsert_runtime_diagnostic env id) (λ a v. diagnostic-delegations id v a)
          s.diagnostics w2 in
      let p4 =
        each-delegations (upsert_runtime_inventory env id) (λ a v. inventory-delegations id v a)
          s.inventory w3 in
      let p5 =
        each-delegations (upsert_runtime_capability env id) (λ a v. capability-delegations id v a)
          s.capability_catalog w4 in
      let p6 = each-upsert s.agent_delegations w5 in
      let p7 =
        each-delegations (upsert_subagent_execution env id) (λ a v. subagent-delegations id v a)
          s.subagent_executions w6 in
      ground (arith, e, p1, p2, p3, p4, p5, p6, p7)

  pub advance_missing-delegations :
      (threshold : ℕ) (w : World)
      → (advance_missing env ctx run threshold w).0 ≡ ok tt
      → (advance_missing env ctx run threshold w).1.delegations
        ≡ update_where (is_own_delegation env ctx run) (advance_delegation threshold) w.delegations
  unfolding advance_missing
  advance_missing-delegations threshold w e = ground (arith, e)

  pub complete_run-delegations :
      (s : RuntimeSnapshot) (w : World)
      → (complete_run env ctx run s w).1.delegations ≡ w.delegations
  unfolding complete_run
  complete_run-delegations s w = ground arith
