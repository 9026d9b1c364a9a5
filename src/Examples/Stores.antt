-- ===== src/Examples/Stores.antt =====
-- Snapshots that are stored, the synchronization worker, and what a client is told.
use capcom.Prelude.{String, true, ◌≡◌, refl, none, some, List, [], ◌∷◌, arith}
use capcom.Prelude.Bytes.{length}
use capcom.Prelude.Rows.{any, update_where, upsert}
use capcom.Effects.{transaction}
use capcom.Errors.{message, ok}
use capcom.Tenant.{Context}
use capcom.Domain.Values.{end}
use capcom.Domain.Snapshot.{RuntimeSyncRun, RuntimeSnapshot, AgentDelegationSnapshot, running}
use capcom.Domain.Runtime.{RuntimeConnection}
use capcom.Snapshots.Tables.{World, Env, Seen, is_missed, seen_in}
use capcom.Snapshots.Upserts.{upsert_agent_delegation}
use capcom.Snapshots.Persist.{
  persist_snapshot, persist_items, each, advance_missing, complete_run, completed,
  is_own_delegation, advance_delegation,
}
use capcom.Snapshots.Missed.{state_of, is_at, mentions}
use capcom.Snapshots.Counted.{persist_snapshot-outlook}
use capcom.Snapshots.Stale.{persist_all, IsAway, persist_all-stale}
use capcom.Workers.Schedule.{Worker, Reachable, idle, then_step, tick, turn, visit}
use capcom.Workers.Reached.{IsSound, Reachable-IsSound}
use capcom.Gateway.PublicError.{public_error, public_error_for_status}
use capcom.Gateway.Disclosed.{is_listed, code_for, status_codes, public_error-listed}

abbrev store : Env
store = record {
  fault = λ w t k. none;
  new_id = λ w. ok "id-1";
  now = λ w. 20;
  milliseconds = λ a b. 1;
  foreign_key = message "foreign key";
}

abbrev nowhere : Context
nowhere = none

abbrev run_of : String → RuntimeSyncRun
run_of id = record {
  id = id;
  runtime_connection_id = "rt-1";
  trigger = "scheduled";
  status = running;
  started_at = 10;
  finished_at = none;
  duration_ms = 0;
  agents_seen = 0;
  skills_seen = 0;
  bindings_seen = 0;
  access_documents_seen = 0;
  executions_seen = 0;
  diagnostics_seen = 0;
  inventory_seen = 0;
  capabilities_seen = 0;
  delegations_seen = 0;
  error_code = "";
  error_message = "";
  metadata = none;
}

abbrev helper : AgentDelegationSnapshot
helper = record {
  orchestrator_runtime_agent_id = "boss";
  delegate_runtime_agent_id = "helper";
  delegate_ref = "h";
  tool_name = "";
  display_name = "";
  persona = "";
  configured = true;
  resolved = true;
  revision = 1;
  status = "active";
  observed_at = 10;
  metadata = end;
  raw = end;
}

abbrev snapshot_of : List AgentDelegationSnapshot → RuntimeSnapshot
snapshot_of ds = record {
  observed_at = 10;
  agents = [];
  diagnostics = [];
  inventory = [];
  capability_catalog = [];
  agent_delegations = ds;
  executions = [];
  subagent_executions = [];
  metadata = end;
  capabilities = [];
}

abbrev blank_world : World
blank_world = record {
  connections = [];
  runs = [];
  agents = [];
  bindings = [];
  skills = [];
  skill_bindings = [];
  access = [];
  executions = [];
  diagnostics = [];
  inventory = [];
  capabilities = [];
  delegations = [];
  subagents = [];
}

abbrev first : RuntimeSnapshot
first = snapshot_of (helper ∷ [])

stores :
    (persist_snapshot store nowhere (run_of "r1") first 2 blank_world).0
    ≡ ok (completed store (run_of "r1") first blank_world)
unfolding persist_snapshot transaction persist_items each upsert_agent_delegation advance_missing
    complete_run update_where upsert any completed
stores = refl

persist_snapshot-outlook_example :
    state_of "rt-1" "boss" "ref:h"
      (persist_snapshot store nowhere (run_of "r1") first 2 blank_world).1.delegations
    ≡ some ("active", seen_in "r1")
unfolding mentions
persist_snapshot-outlook_example =
    persist_snapshot-outlook store nowhere (run_of "r1") first 2 blank_world
      (completed store (run_of "r1") first blank_world) "rt-1" "boss" "ref:h" stores

-- The delegation was seen once, and then twice not.
abbrev seen_world : World
seen_world = record blank_world {
  delegations =
      (record {
        runtime_connection_id = "rt-1";
        delegate_key = "ref:h";
        delegation = helper;
        status = "active";
        seen = seen_in "r1";
      })
      ∷ [];
}

abbrev later_world : World
later_world = (persist_snapshot store nowhere (run_of "r2") (snapshot_of []) 2 seen_world).1

persist_all-stale_example :
    (s : Seen) × (state_of "rt-1" "boss" "ref:h"
        (persist_all store nowhere 2
          ((run_of "r2", snapshot_of []) ∷ (run_of "r3", snapshot_of []) ∷ [])
          seen_world).delegations
      ≡ some ("stale", s))
unfolding IsAway state_of is_at mentions is_missed persist_snapshot transaction persist_items each
    upsert_agent_delegation advance_missing complete_run update_where upsert any completed
    is_own_delegation advance_delegation length
persist_all-stale_example =
    persist_all-stale store nowhere 2 "rt-1" "boss" "ref:h" (run_of "r2", snapshot_of [])
      ((run_of "r3", snapshot_of []) ∷ []) seen_world "active" (seen_in "r1") refl
      (
        (completed store (run_of "r2") (snapshot_of []) seen_world, refl),
        refl,
        refl,
        refl,
        ((completed store (run_of "r3") (snapshot_of []) later_world, refl), refl, refl, refl, tt),
      )
      (omega arith)

abbrev scheduled : RuntimeConnection
scheduled = record {
  id = "rt-1";
  organization_id = "org-1";
  name = "prod";
  display_name = "";
  environment = "";
  kind = "gantry";
  mode = "read_only";
  status = "active";
  base_url = "";
  auth_ref = "key";
  metadata = end;
  labels = [];
  created_at = 1;
  updated_at = 1;
  last_synced_at = none;
  sync_enabled = true;
  sync_interval_seconds = 60;
  last_sync_status = "";
  last_sync_started_at = none;
  last_sync_finished_at = none;
  last_sync_duration_ms = 0;
  last_error = "";
  endpoints = [];
}

abbrev quiet_worker : Worker
quiet_worker = record { todo = []; running = [] }

abbrev listing_worker : Worker
listing_worker = record { todo = scheduled ∷ []; running = [] }

abbrev busy_worker : Worker
busy_worker = visit 2 5 scheduled [] listing_worker

reached : Reachable 2 busy_worker
reached =
    then_step listing_worker busy_worker
      (then_step quiet_worker listing_worker idle (tick (scheduled ∷ []) []))
      (turn 5 scheduled [] [])

Reachable-IsSound_example : IsSound 2 busy_worker
Reachable-IsSound_example = Reachable-IsSound 2 busy_worker reached

public_error-listed_example :
    (is_listed (public_error (λ s. s) 502 "call gantry: 401 token=abc") ≡ true)
    × ((public_error_for_status 502).code ≡ code_for 502 status_codes)
public_error-listed_example = public_error-listed (λ s. s) 502 "call gantry: 401 token=abc"
