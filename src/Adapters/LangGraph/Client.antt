-- ===== src/Adapters/LangGraph/Client.antt =====
-- The methods of `Client` of internal/adapters/langgraph/client.go, less CollectSnapshot.
use capcom.Prelude.{
  String, ◌<>◌, Bool, true, false, not, ◌==◌, nat_eq, if◌then◌else◌, none, some, List, [], map,
}
use capcom.Prelude.Text.{trim_space, blank}
use capcom.Errors.{message, wrap, as_response, Result, ok, err}
use capcom.Effects.{Effect, ◌>>=◌, ◌>>◌, done, throw, read, require, attempt}
use capcom.Domain.Values.{Fields, end, field, flag, obj, num, text}
use capcom.Domain.Runtime.{Time, RuntimeConnection, mode_control_enabled, status_active}
use capcom.Domain.Agents.{
  AgentStatus, AgentSnapshot, AgentSkillSnapshot, AccessDocument, status_enabled, kind_registered,
}
use capcom.Domain.Snapshot.{RuntimeExecutionSnapshot}
use capcom.Adapters.Http.{Web, Requests, clock, no_output, do_json as http_json}
use capcom.Adapters.Checked.{CheckResult, no_capabilities}
use capcom.Adapters.LangGraph.Dto.{Json, ServerInfo, Assistant}
use capcom.Adapters.LangGraph.Pages.{do_json, http_response_error, list_assistants}

abbrev no_info : ServerInfo
no_info = record { version = ""; lang_graph_py_version = ""; flags = end; metadata = end }

-- A server that has no /info answers 404, and the information stays empty.
unfoldable pub tolerated : Result ServerInfo → Result ServerInfo
unfolding as_response
tolerated (ok info) = ok info
tolerated (err e) =
    let failed = err (wrap "read langgraph server info" e) in
    elim (as_response e) [
      | none ↦ failed
      | some status ↦ if nat_eq status 404 then ok no_info else failed
    ]

abbrev pub is_controlled : RuntimeConnection → Bool
is_controlled conn = conn.mode == mode_control_enabled

abbrev pub check_result : RuntimeConnection → Fields → ServerInfo → CheckResult
check_result conn health info = record {
  status = status_active;
  message = "langgraph agent server health check succeeded";
  capabilities = record no_capabilities {
    read_agents = true;
    read_executions = true;
    delete_agent = is_controlled conn;
    cancel_execution = is_controlled conn;
  };
  metadata = field "health" (obj health) (
      field "version" (text info.version) (
        field "langgraph_py_version" (text info.lang_graph_py_version)
          (field "flags" (obj info.flags) (field "server_metadata" (obj info.metadata) end))));
  diagnostics = [];
}

abbrev agent_name : Assistant → String
agent_name item =
    let name = trim_space item.name in
    let named = if name == "" then item.graph_id else name in
    if named == "" then item.assistant_id else named

unfoldable pub agent_snapshot : Time → Assistant → AgentSnapshot
unfolding trim_space
agent_snapshot observed_at item = record {
  runtime_agent_id = item.assistant_id;
  parent_runtime_agent_id = "";
  kind = kind_registered;
  name = agent_name item;
  status = status_enabled;
  observed_at = observed_at;
  metadata = field "description" (text item.description) (
      field "graph_id" (text item.graph_id) (
        field "version" (num item.version) (
          field "config" (obj item.config) (
            field "context" (obj item.context) (
              field "assistant_metadata" (obj item.metadata) (
                field "runtime_created_at" (text item.created_at)
                  (field "runtime_updated_at" (text item.updated_at) end)))))));
}

module _ (web : Web) (json : Json) (conn : RuntimeConnection) where
  unfoldable pub check : Effect Requests CheckResult
  unfolding tolerated http_json http_response_error
  check = do
    health ← do_json web conn "GET" "/ok" none json.map
    answer ← attempt (do_json web conn "GET" "/info" none json.server_info)
    info ← read (λ _. tolerated answer)
    done (check_result conn health info)

  unfoldable pub list_agents : Effect Requests (List AgentSnapshot)
  unfolding list_assistants agent_snapshot
  list_agents = do
    items ← list_assistants web json conn
    observed_at ← clock web
    done (map (agent_snapshot observed_at) items)

  unfoldable pub delete_agent : String → Effect Requests (Unit {0})
  unfolding http_json http_response_error
  delete_agent runtime_agent_id =
      do_json web conn "DELETE" ("/assistants/" <> web.path_escape runtime_agent_id) none no_output

  unfoldable pub cancel_execution : RuntimeExecutionSnapshot → Effect Requests (Unit {0})
  unfolding http_json http_response_error trim_space
  cancel_execution execution = do
    require (execution.kind == "run") (message "langgraph can only cancel run executions")
    require (not (blank execution.parent_runtime_execution_id))
        (message "langgraph run is missing its parent thread id")
    do_json web conn "POST"
        ("/threads/"
          <> (web.path_escape execution.parent_runtime_execution_id
              <> ("/runs/"
                  <> (web.path_escape execution.runtime_execution_id
                      <> "/cancel?action=interrupt&wait=true"))))
        none no_output

-- What the server has no endpoint for.
unfoldable pub list_agent_skills : String → Effect Requests (List AgentSkillSnapshot)
list_agent_skills _ = done []

unfoldable pub get_agent_access : String → Effect Requests AccessDocument
get_agent_access runtime_agent_id = done record {
  agent_id = runtime_agent_id;
  selections = some [];
  raw = some (field "supported" (flag false) end);
  observed_at = 0;
  desired_at = none;
  source = "";
  source_ref = "";
  source_sha256 = "";
}

unfoldable pub replace_agent_access : String → AccessDocument → Effect Requests AccessDocument
replace_agent_access _ _ =
    throw (message "langgraph agent server does not expose access replacement")

unfoldable pub set_agent_status : String → AgentStatus → Effect Requests AgentSnapshot
set_agent_status _ _ = throw (message "langgraph agent server status control is not supported")
