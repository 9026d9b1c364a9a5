-- ===== src/Examples/Snapshots.antt =====
-- Syncs of a runtime that answers with one agent, or with the same agent twice.
use capcom.Prelude.{◌+◌, true, ◌≡◌, refl, none, some, [], ◌∷◌}
use capcom.Prelude.Text.{trim_space}
use capcom.Errors.{message, ok, err}
use capcom.Domain.Values.{end}
use capcom.Domain.Snapshot.{RuntimeSnapshot, SnapshotAgent, RuntimeSyncRun, running, trigger_manual}
use capcom.Control.World.{SyncRuntimeInput}
use capcom.Sync.Validate.{validate_runtime_snapshot, scan, has}
use capcom.Sync.Validated.{IsConsistent, validate_runtime_snapshot-IsConsistent}
use capcom.Sync.Service.{Env, sync}
use capcom.Sync.Lock.{locks, releases, sync_releases}
use capcom.Sync.Trail.{IsClean, sync-IsClean}
use capcom.Examples.Actions.{conn, empty_access}

abbrev snapshot_agent : SnapshotAgent
snapshot_agent = record {
  agent = record {
    runtime_agent_id = "researcher";
    parent_runtime_agent_id = "";
    kind = "agent";
    name = "researcher";
    status = "enabled";
    metadata = end;
    observed_at = 1;
  };
  skills = [];
  access = empty_access;
}

abbrev snapshot : RuntimeSnapshot
snapshot = record {
  observed_at = 1;
  agents = snapshot_agent ∷ [];
  diagnostics = [];
  inventory = [];
  capability_catalog = [];
  agent_delegations = [];
  executions = [];
  subagent_executions = [];
  metadata = end;
  capabilities = [];
}

abbrev doubled : RuntimeSnapshot
doubled = record snapshot { agents = snapshot_agent ∷ snapshot_agent ∷ [] }

abbrev sync_run : RuntimeSyncRun
sync_run = record {
  id = "run-1";
  runtime_connection_id = "rt-1";
  trigger = trigger_manual;
  status = running;
  started_at = 1;
  finished_at = none;
  duration_ms = 0;
  agents_seen = 0;
  skills_seen = 0;
  bindings_seen = 0;
  access_documents_seen = 0;
  executions_seen = 0;
  diagnostics_seen = 0;
  inventory_seen = 0;
  capabilities_seen = 0;
  delegations_seen = 0;
  error_code = "";
  error_message = "";
  metadata = none;
}

abbrev sync_env : RuntimeSnapshot → Env
sync_env s = record {
  get = λ _ _. ok conn;
  adapters = λ _. some (λ _ _. ok s);
  try_lock = λ _ _. ok true;
  create_run = λ _ _ _. ok sync_run;
  fail_run = λ _ r _ _. (r, none);
  persist_snapshot = λ _ r _ _. ok r;
  get_persisted_agent = λ _ _. err (message "not found");
  audits = true;
  missing_threshold = 3;
  no_run = sync_run;
}

abbrev manual : SyncRuntimeInput
manual = record {
  runtime_connection_id = "rt-1";
  trigger = trigger_manual;
  actor = "alice";
  reason = "check";
}

accepted : validate_runtime_snapshot snapshot ≡ none
unfolding validate_runtime_snapshot scan has trim_space
accepted = refl

validate_runtime_snapshot-IsConsistent_example : IsConsistent snapshot
validate_runtime_snapshot-IsConsistent_example =
    validate_runtime_snapshot-IsConsistent snapshot accepted

sync-IsClean_example : IsClean (sync (sync_env snapshot) manual []).1
sync-IsClean_example = sync-IsClean (sync_env snapshot) manual [] tt

sync_releases_example :
    locks "rt-1" (sync (sync_env doubled) manual []).1 + releases "rt-1" []
    ≡ locks "rt-1" [] + releases "rt-1" (sync (sync_env doubled) manual []).1
sync_releases_example = sync_releases (sync_env doubled) manual [] "rt-1"
