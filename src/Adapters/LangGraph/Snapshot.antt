-- ===== src/Adapters/LangGraph/Snapshot.antt =====
-- `CollectSnapshot` of internal/adapters/langgraph/client.go and what it makes of threads and runs.
use capcom.Prelude.{
  String, ◌<>◌, true, false, ◌||◌, ◌==◌, if◌then◌else◌, none, some, List, [], ◌∷◌, ◌++◌, map,
}
use capcom.Prelude.Text.Quote.{quote}
use capcom.Effects.{Effect, ◌>>=◌, done, wrapping}
use capcom.Domain.Values.{end, field, obj, text}
use capcom.Domain.Runtime.{Time, RuntimeConnection}
use capcom.Domain.Agents.{AgentSnapshot, AccessDocument}
use capcom.Domain.Snapshot.{RuntimeSnapshot, SnapshotAgent, RuntimeExecutionSnapshot}
use capcom.Adapters.Http.{Web, Requests, clock}
use capcom.Adapters.Checked.{CheckResult}
use capcom.Adapters.LangGraph.Dto.{Json, Thread, Run}
use capcom.Adapters.LangGraph.Pages.{list_threads, list_runs}
use capcom.Adapters.LangGraph.Client.{is_controlled, check, list_agents}

unfoldable pub parse_time_value : Web → String → Time → Time
parse_time_value web value fallback = elim (web.parse_time value) [ none ↦ fallback | some t ↦ t ]

unfoldable pub normalize_thread : Web → Thread → Time → RuntimeExecutionSnapshot
unfolding parse_time_value
normalize_thread web item fallback = record {
  runtime_execution_id = item.thread_id;
  parent_runtime_execution_id = "";
  runtime_agent_id = "";
  kind = "thread";
  status = item.status;
  started_at = web.parse_time item.created_at;
  ended_at = none;
  observed_at = parse_time_value web item.updated_at fallback;
  metadata =
      field "state_updated_at" (text item.state_updated)
        (field "config" (obj item.config) (field "thread_metadata" (obj item.metadata) end));
  raw = item.raw;
}

unfoldable pub normalize_run : Web → Run → Time → RuntimeExecutionSnapshot
unfolding parse_time_value
normalize_run web item fallback = record {
  runtime_execution_id = item.run_id;
  parent_runtime_execution_id = item.thread_id;
  runtime_agent_id = item.assistant_id;
  kind = "run";
  status = item.status;
  started_at = web.parse_time item.created_at;
  ended_at =
      if item.status == "success"
        || item.status == "error"
        || item.status == "timeout"
        || item.status == "interrupted"
      then web.parse_time item.updated_at
      else none;
  observed_at = parse_time_value web item.updated_at fallback;
  metadata = field "multitask_strategy" (text item.multitask_strategy) (
      field "langsmith_session_name" (text item.lang_smith_session_name)
        (field "run_metadata" (obj item.metadata) end));
  raw = item.raw;
}

-- The zero value of an access document.
abbrev no_access : AccessDocument
no_access = record {
  agent_id = "";
  selections = none;
  raw = none;
  observed_at = 0;
  desired_at = none;
  source = "";
  source_ref = "";
  source_sha256 = "";
}

abbrev snapshot_agent : Time → AgentSnapshot → SnapshotAgent
snapshot_agent observed_at agent = record {
  agent = record agent { observed_at = observed_at };
  skills = [];
  access = no_access;
}

abbrev pub snapshot_of :
    RuntimeConnection
    → Time
    → CheckResult
    → List AgentSnapshot
    → List RuntimeExecutionSnapshot
    → RuntimeSnapshot
snapshot_of conn observed_at checked agents executions = record {
  observed_at = observed_at;
  agents = map (snapshot_agent observed_at) agents;
  diagnostics = [];
  inventory = [];
  capability_catalog = [];
  agent_delegations = [];
  executions = executions;
  subagent_executions = [];
  metadata = checked.metadata;
  capabilities =
      ("read_agents", true)
      ∷ ("read_agent_hierarchy", false)
      ∷ ("read_agent_skills", false)
      ∷ ("read_agent_access", false)
      ∷ ("replace_agent_access", false)
      ∷ ("read_subagent_executions", false)
      ∷ ("read_executions", true)
      ∷ ("delete_agent", is_controlled conn)
      ∷ ("cancel_execution", is_controlled conn)
      ∷ [];
}

module _ (web : Web) (json : Json) (conn : RuntimeConnection) where
  -- The loop over the threads.
  unfoldable pub collect_executions :
      Time
      → List Thread
      → List RuntimeExecutionSnapshot
      → Effect Requests (List RuntimeExecutionSnapshot)
  unfolding normalize_thread normalize_run list_runs
  collect_executions observed_at [] result = done result
  collect_executions observed_at (item ∷ threads) result =
      wrapping ("list runs for thread " <> quote item.thread_id)
        (list_runs web json conn item.thread_id)
      >>= λ runs. collect_executions observed_at threads (
          result
          ++ (normalize_thread web item observed_at
              ∷ map (λ r. normalize_run web r observed_at) runs))

  unfoldable pub collect_snapshot : Effect Requests RuntimeSnapshot
  unfolding check list_agents list_threads collect_executions
  collect_snapshot = do
    checked ← wrapping "check langgraph before snapshot" (check web json conn)
    agents ← wrapping "list langgraph assistants" (list_agents web json conn)
    threads ← wrapping "list langgraph threads" (list_threads web json conn)
    observed_at ← clock web
    executions ← collect_executions observed_at threads []
    done (snapshot_of conn observed_at checked agents executions)
