-- ===== src/Examples/Actions.antt =====
-- Control actions on one connection in control mode.
use capcom.Prelude.{List, Option, Bool, true, false, ◌≡◌, refl, none, some, [], ◌∷◌}
use capcom.Errors.{message, ok, err}
use capcom.Domain.Values.{end}
use capcom.Domain.Runtime.{RuntimeConnection, mode_control_enabled, kind_gantry}
use capcom.Domain.Agents.{PersistedAgent, AccessDocument, status_enabled, status_disabled}
use capcom.Domain.Control.{ControlAction, no_action, queued}
use capcom.Control.World.{World, Env, Adapter, RuntimeRow, ActionRow, set_status}
use capcom.Control.Repository.{find_runtime, create, update, clashes, find_action, set_action}
use capcom.Control.Audit.{audit_control_action, run_verification_sync}
use capcom.Control.Exec.{run}
use capcom.Control.Protocol.{Plan, perform, execute, complete, mark_deleted}
use capcom.Control.Requests.{Request, access, status, handle, serve}
use capcom.Control.Guarded.{IsGuarded, calls, serve-IsGuarded, calls-handle_dry}
use capcom.Control.Rows.Performed.{IsSucceeded, perform-IsSucceeded}

abbrev pub conn : RuntimeConnection
conn = record {
  id = "rt-1";
  organization_id = "org-1";
  name = "gantry";
  display_name = "";
  environment = "prod";
  kind = kind_gantry;
  mode = mode_control_enabled;
  status = "connected";
  base_url = "https://gantry";
  auth_ref = "";
  metadata = end;
  labels = [];
  created_at = 1;
  updated_at = 1;
  last_synced_at = none;
  sync_enabled = true;
  sync_interval_seconds = 60;
  last_sync_status = "";
  last_sync_started_at = none;
  last_sync_finished_at = none;
  last_sync_duration_ms = 0;
  last_error = "";
  endpoints = [];
}

abbrev pub row : RuntimeRow
row = record { conn = conn; archived = false }

abbrev pub empty_access : AccessDocument
empty_access = record {
  agent_id = "";
  selections = none;
  raw = none;
  observed_at = 1;
  desired_at = none;
  source = "";
  source_ref = "";
  source_sha256 = "";
}

abbrev agent : PersistedAgent
agent = record {
  agent = record {
    id = "ag-1";
    name = "researcher";
    status = status_enabled;
    metadata = end;
    created_at = 1;
    updated_at = 1;
  };
  runtime_connection_id = "rt-1";
  runtime_agent_id = "researcher";
  parent_runtime_agent_id = "";
  kind = "agent";
  freshness = "fresh";
  observed_at = 1;
  last_successful_sync_at = none;
  runtime_status = "connected";
}

abbrev adapter : Adapter
adapter = record {
  check = λ _ _. ok (record {
    replace_agent_access = true;
    set_agent_status = true;
    delete_agent = true;
    cancel_execution = true;
  });
  replace_agent_access = λ _ _ _ a. ok a;
  set_agent_status = λ _ _ id s. ok (record {
    runtime_agent_id = id;
    parent_runtime_agent_id = "";
    kind = "agent";
    name = "";
    status = s;
    metadata = end;
    observed_at = 1;
  });
  delete_agent = λ _ _ _. none;
  cancel_execution = λ _ _ _. none;
}

abbrev first : List ActionRow → Option ActionRow
first [] = none
first (r ∷ _) = some r

abbrev pub env : Env
env = record {
  fault = λ _ _. none;
  now = λ _. 7;
  any_row = first;
  new_id = λ _. ok "act-1";
  format_time = λ _. "now";
  get_persisted_agent = λ _ _. ok (record { agent = agent; skills = []; access = empty_access });
  list_persisted_agents = λ _ _. ok [];
  get_runtime_execution = λ _ _. err (message "not found");
  mark_agent_deleted = λ _ _. none;
  adapters = λ _. some adapter;
  syncer = none;
  audits = true;
}

abbrev pub start : World
start = record { runtimes = row ∷ []; actions = []; audits = []; log = [] }

abbrev pub disable : Bool → Request
disable dry = status (record {
  agent_id = "ag-1";
  status = status_disabled;
  actor = "alice";
  reason = "incident";
  idempotency_key = "k-1";
  dry_run = dry;
})

abbrev grant : Request
grant = access (record {
  agent_id = "ag-1";
  access = empty_access;
  actor = "bob";
  reason = "cleanup";
  idempotency_key = "k-2";
  dry_run = false;
})

serve-IsGuarded_example :
    IsGuarded (serve env (("org-1", disable false) ∷ ("org-1", grant) ∷ []) start).log
serve-IsGuarded_example =
    serve-IsGuarded env (("org-1", disable false) ∷ ("org-1", grant) ∷ []) start tt

calls-handle_dry_example : calls (handle env "org-1" (disable true) start).1.log ≡ 0
calls-handle_dry_example = calls-handle_dry env "org-1" (disable true) start refl

abbrev pub plan : Plan
plan = record {
  target_type = "agent_status";
  target_id = "ag-1";
  before = end;
  after = end;
  dry_run = false;
  dry_result = end;
  conn = conn;
  call = set_status "researcher" status_disabled;
  answer = λ _. ok end;
  prefix = "set runtime agent status";
  tombstone = none;
  actor = "alice";
  sync_reason = "verify";
}

abbrev failing_plan : Plan
failing_plan = record plan { answer = λ _. err (message "runtime is away") }

abbrev pub action : ControlAction
action = record no_action {
  runtime_connection_id = "rt-1";
  agent_id = "ag-1";
  status = queued;
  idempotency_key = "k-1";
}

pub found : find_runtime "org-1" "rt-1" (row ∷ []) ≡ some row
unfolding find_runtime
found = refl

pub went : (run (perform env "org-1" plan action) start).0.1 ≡ none
unfolding perform create find_runtime clashes audit_control_action execute update find_action
    complete mark_deleted set_action run_verification_sync
went = refl

perform-IsSucceeded_example :
    IsSucceeded env "org-1" plan action start row
      (run (perform env "org-1" plan action) start).0
      (run (perform env "org-1" plan action) start).1
perform-IsSucceeded_example = perform-IsSucceeded env "org-1" plan action start row found went
