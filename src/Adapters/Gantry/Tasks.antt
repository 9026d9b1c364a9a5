-- ===== src/Adapters/Gantry/Tasks.antt =====
-- Executions of subagents in internal/adapters/gantry/client.go: `listSubagentExecutions` and
-- `normalizeDelegatedExecutions`. `byTask` and `order` are one list, in the order of `order`.
use capcom.Prelude.{
  String, ◌<>◌, Bool, not, ◌&&◌, ◌||◌, ◌==◌, if◌then◌else◌, Option, none, some, List, [], ◌∷◌, ◌++◌,
}
use capcom.Prelude.Rows.{any, update_where}
use capcom.Effects.{Effect, ◌>>=◌, done}
use capcom.Domain.Values.{Fields, end, field, obj, text, get as get_field, put, as_map}
use capcom.Domain.Runtime.{Time, RuntimeConnection}
use capcom.Domain.Snapshot.{SubagentExecutionSnapshot}
use capcom.Adapters.Http.{Web, Requests, do_json as http_json}
use capcom.Adapters.Gantry.Dto.{Json, GantryRun, GantryRunEvent, GantryJob}
use capcom.Adapters.Gantry.Client.{do_json, map_string}

-- `if value != "" { item.F = value }`
abbrev given : String → String → String
given value old = if value == "" then old else value

-- The status that an event reports, which its patch overrides.
unfoldable pub reported_status : Fields → String
unfolding map_string get_field as_map
reported_status payload =
    let status = map_string payload "status" in
    elim (as_map (get_field "patch" payload)) [
      | some patch ↦ given (map_string patch "status") status
      | none ↦ status
    ]

abbrev is_ended : String → Bool
is_ended s = s == "completed" || s == "failed" || s == "cancelled" || s == "timed_out"

abbrev started : Web → GantryRunEvent → Option Time → Option Time
started web event none =
    if event.runtime_event_type == "task.started" then web.parse_time event.created_at else none
started web event (some t) = some t

-- What an event changes of its task.
unfoldable pub observed :
    Web → GantryRunEvent → SubagentExecutionSnapshot → SubagentExecutionSnapshot
unfolding reported_status map_string put
observed web event item =
    let status = reported_status event.payload in
    record item {
      subagent_type = given (map_string event.payload "subagentType") item.subagent_type;
      description = given (map_string event.payload "description") item.description;
      summary = given (map_string event.payload "summary") item.summary;
      status = given status item.status;
      started_at = started web event item.started_at;
      ended_at = if is_ended status then web.parse_time event.created_at else item.ended_at;
      raw = put event.id (obj event.payload) item.raw;
    }

abbrev pub new_task : GantryRun → String → Time → String → SubagentExecutionSnapshot
new_task run agent observed_at task_id = record {
  runtime_execution_id = task_id;
  parent_run_id = run.run_id;
  runtime_agent_id = agent;
  subagent_type = "";
  status = "running";
  description = "";
  summary = "";
  started_at = none;
  ended_at = none;
  observed_at = observed_at;
  metadata = field "job_id" (text run.job_id) end;
  raw = end;
}

unfoldable pub is_task : String → SubagentExecutionSnapshot → Bool
is_task id item = item.runtime_execution_id == id

module _ (web : Web) (run : GantryRun) (agent : String) (observed_at : Time) where
  -- One turn of the loop over the events.
  unfoldable pub observe :
      GantryRunEvent → List SubagentExecutionSnapshot → List SubagentExecutionSnapshot
  unfolding any update_where is_task observed map_string
  observe event items =
      let task_id = map_string event.payload "taskId" in
      let known = any (is_task task_id) items in
      if task_id == ""
        || (not known && not (map_string event.payload "taskKind" == "delegated_agent"))
      then items
      else update_where (is_task task_id) (observed web event)
          (if known then items else items ++ (new_task run agent observed_at task_id ∷ []))

  unfoldable pub observe_all :
      List GantryRunEvent → List SubagentExecutionSnapshot → List SubagentExecutionSnapshot
  unfolding observe
  observe_all [] items = items
  observe_all (event ∷ events) items = observe_all events (observe event items)

  unfoldable pub normalize_delegated_executions :
      List GantryRunEvent → List SubagentExecutionSnapshot
  unfolding observe_all
  normalize_delegated_executions events = observe_all events []

-- `owners[id]`: the last job with a target counts.
unfoldable pub owner_of : String → String → List GantryJob → String
owner_of id found [] = found
owner_of id found (job ∷ jobs) =
    owner_of id
      (elim job.target [ some agent ↦ if job.job_id == id then agent else found | none ↦ found ])
      jobs

module _ (web : Web) (json : Json) (conn : RuntimeConnection) (observed_at : Time) where
  -- The loop over the runs.
  unfoldable pub executions_of :
      List GantryJob
      → List GantryRun
      → List SubagentExecutionSnapshot
      → Effect Requests (List SubagentExecutionSnapshot)
  unfolding owner_of normalize_delegated_executions http_json
  executions_of jobs [] result = done result
  executions_of jobs (run ∷ runs) result =
      do_json web conn "GET" ("/v1/runs/" <> (web.path_escape run.run_id <> "/events")) none
        json.events
      >>= λ events. executions_of jobs runs (
          result
          ++ normalize_delegated_executions web run (owner_of run.job_id "" jobs) observed_at
              events)

  unfoldable pub list_subagent_executions : Effect Requests (List SubagentExecutionSnapshot)
  unfolding executions_of
  list_subagent_executions = do
    runs ← do_json web conn "GET" "/v1/runs" none json.runs
    jobs ← do_json web conn "GET" "/v1/jobs?limit=100" none json.jobs
    executions_of jobs runs []
