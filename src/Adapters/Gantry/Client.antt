-- ===== src/Adapters/Gantry/Client.antt =====
-- `doJSON` and small helpers of internal/adapters/gantry/client.go.
use capcom.Prelude.{ℕ, String, ◌<>◌, Option, ◌==◌, if◌then◌else◌, List, [], ◌∷◌}
use capcom.Prelude.Text.{trim_space}
use capcom.Errors.{Error, message, Result}
use capcom.Effects.{Effect, throw}
use capcom.Domain.Values.{Fields, Items, cons, nil, text, obj, get as get_field, as_text}
use capcom.Domain.Runtime.{RuntimeConnection}
use capcom.Domain.Agents.{AgentKind, kind_main, kind_registered}
use capcom.Domain.Snapshot.{RuntimeExecutionSnapshot}
use capcom.Adapters.Http.{Web, Api, Requests, do_json as http_json}

abbrev refused_error : Web → String → String → ℕ → String → Error
refused_error web method path status body = message (
    "gantry "
    <> (method <> (" " <> (path <> (" returned " <> (web.decimal status <> (": " <> body)))))))

abbrev pub api : Web → Api
api web = record {
  name = "gantry";
  marshal_failed = "marshal request body";
  authorize = λ token. ("Authorization", "Bearer " <> token);
  refused = refused_error web;
}

abbrev pub do_json {ℓ} :
    {A : Type ℓ}
    → Web
    → RuntimeConnection
    → String
    → String
    → Option Fields
    → (String → Result A)
    → Effect Requests A
do_json web conn = http_json web (api web) conn

-- `fmt.Sprintf("/v1/agents/%s"+rest, url.PathEscape(id))`
abbrev pub agent_path : Web → String → String → String
agent_path web id rest = "/v1/agents/" <> (web.path_escape id <> rest)

unfoldable pub map_string : Fields → String → String
unfolding trim_space get_field as_text
map_string values key = trim_space (as_text (get_field key values))

unfoldable pub gantry_agent_kind : String → AgentKind
gantry_agent_kind id = if id == "agent:main_agent" then kind_main else kind_registered

abbrev pub text_items : List String → Items
text_items [] = nil
text_items (s ∷ l) = cons (text s) (text_items l)

abbrev pub map_items : List Fields → Items
map_items [] = nil
map_items (m ∷ l) = cons (obj m) (map_items l)

-- What gantry has no endpoint for.
unfoldable pub delete_agent : String → Effect Requests (Unit {0})
delete_agent _ = throw (message "gantry agent deletion is not supported")

unfoldable pub cancel_execution : RuntimeExecutionSnapshot → Effect Requests (Unit {0})
cancel_execution _ = throw (message "gantry execution cancellation is not supported")
