-- ===== src/Snapshots/Upserts.antt =====
-- The upserts of internal/store/sync_repository.go and runtime_inventory_repository.go. Each runs in
-- the transaction of `PersistSnapshot`. The encodings of what came out of a JSON document do not
-- fail.
use capcom.Prelude.{String, ◌<>◌, Bool, ◌&&◌, ◌==◌, Option, none, some}
use capcom.Prelude.Rows.{upsert}
use capcom.Errors.{Error}
use capcom.Effects.{Effect, ◌>>◌, failed, try, write}
use capcom.Domain.Runtime.{Time}
use capcom.Domain.Snapshot.{
  RuntimeSyncRun, RuntimeDiagnosticSnapshot, RuntimeInventorySnapshot, RuntimeCapabilitySnapshot,
  AgentDelegationSnapshot, RuntimeExecutionSnapshot, SubagentExecutionSnapshot,
}
use capcom.Snapshots.Tables.{DelegationRow, Owned, World, Env, seen_in}

abbrev pub at : Env → String → String → World → Option Error
at env t key w = failed t (env.fault w t key)

-- `COALESCE(old.started_at, EXCLUDED.started_at)`
abbrev earlier : Option Time → Option Time → Option Time
earlier none t = t
earlier (some s) _ = some s

abbrev is_execution : String → RuntimeExecutionSnapshot → Owned RuntimeExecutionSnapshot → Bool
is_execution id e r =
    r.runtime_connection_id == id
    && r.item.kind == e.kind
    && r.item.runtime_execution_id == e.runtime_execution_id

unfoldable pub upsert_runtime_execution :
    Env → String → RuntimeExecutionSnapshot → Effect World (Unit {0})
upsert_runtime_execution env id e = do
  try (at env "upsert runtime execution" e.runtime_execution_id)
  write (λ w. record w {
    executions =
        upsert (is_execution id e)
          (λ r. record r {
            item = record e { started_at = earlier r.item.started_at e.started_at };
          })
          (record { runtime_connection_id = id; item = e }) w.executions;
  })

abbrev is_subagent : String → SubagentExecutionSnapshot → Owned SubagentExecutionSnapshot → Bool
is_subagent id e r =
    r.runtime_connection_id == id && r.item.runtime_execution_id == e.runtime_execution_id

unfoldable pub upsert_subagent_execution :
    Env → String → SubagentExecutionSnapshot → Effect World (Unit {0})
upsert_subagent_execution env id e = do
  try (at env "upsert subagent execution" e.runtime_execution_id)
  write (λ w. record w {
    subagents =
        upsert (is_subagent id e)
          (λ r. record r {
            item = record e { started_at = earlier r.item.started_at e.started_at };
          })
          (record { runtime_connection_id = id; item = e }) w.subagents;
  })

unfoldable pub upsert_runtime_diagnostic :
    Env → String → RuntimeDiagnosticSnapshot → Effect World (Unit {0})
upsert_runtime_diagnostic env id d = do
  try (at env "upsert runtime diagnostic" d.check_id)
  write (λ w. record w {
    diagnostics =
        upsert (λ r. r.runtime_connection_id == id && r.item.check_id == d.check_id)
          (λ r. record r { item = d }) (record { runtime_connection_id = id; item = d })
          w.diagnostics;
  })

unfoldable pub upsert_runtime_inventory :
    Env → String → RuntimeInventorySnapshot → Effect World (Unit {0})
upsert_runtime_inventory env id i = do
  try (at env "upsert runtime inventory" i.runtime_item_id)
  write (λ w. record w {
    inventory =
        upsert
          (λ r.
            r.runtime_connection_id == id
            && r.item.kind == i.kind
            && r.item.runtime_item_id == i.runtime_item_id)
          (λ r. record r { item = i }) (record { runtime_connection_id = id; item = i })
          w.inventory;
  })

unfoldable pub upsert_runtime_capability :
    Env → String → RuntimeCapabilitySnapshot → Effect World (Unit {0})
upsert_runtime_capability env id c = do
  try (at env "upsert runtime capability" c.runtime_capability_id)
  write (λ w. record w {
    capabilities =
        upsert
          (λ r.
            r.runtime_connection_id == id
            && r.item.runtime_capability_id == c.runtime_capability_id
            && r.item.version == c.version)
          (λ r. record r { item = c }) (record { runtime_connection_id = id; item = c })
          w.capabilities;
  })

abbrev pub delegate_key : AgentDelegationSnapshot → String
delegate_key d = "ref:" <> d.delegate_ref

unfoldable pub is_delegation : String → AgentDelegationSnapshot → DelegationRow → Bool
is_delegation id d r =
    r.runtime_connection_id == id
    && r.delegation.orchestrator_runtime_agent_id == d.orchestrator_runtime_agent_id
    && r.delegate_key == delegate_key d

unfoldable pub upsert_agent_delegation :
    Env → RuntimeSyncRun → AgentDelegationSnapshot → Effect World (Unit {0})
upsert_agent_delegation env run d = do
  try (at env "upsert agent delegation" (delegate_key d))
  write (λ w. record w {
    delegations =
        upsert (is_delegation run.runtime_connection_id d)
          (λ r. record r { delegation = d; status = "active"; seen = seen_in run.id })
          (record {
            runtime_connection_id = run.runtime_connection_id;
            delegate_key = delegate_key d;
            delegation = d;
            status = "active";
            seen = seen_in run.id;
          })
          w.delegations;
  })
