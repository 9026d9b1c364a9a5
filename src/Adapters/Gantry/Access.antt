-- ===== src/Adapters/Gantry/Access.antt =====
-- Access and status of an agent in internal/adapters/gantry/client.go.
use capcom.Prelude.{
  String, ◌<>◌, Bool, true, ◌==◌, if◌then◌else◌, Option, none, some, List, [], ◌∷◌,
}
use capcom.Prelude.Text.{trim_space}
use capcom.Prelude.Text.Quote.{quote}
use capcom.Errors.{message, Result, ok, err}
use capcom.Effects.{Effect, ◌>>=◌, ◌>>◌, done, read, require, wrapping}
use capcom.Domain.Values.{
  Value, Fields, Items, end, field, nil, cons, null, obj, arr, text, get as get_field, as_text,
}
use capcom.Domain.Runtime.{RuntimeConnection, mode_control_enabled}
use capcom.Domain.Agents.{
  AgentStatus, AgentSnapshot, AccessDocument, AccessSelection, status_enabled, status_disabled,
}
use capcom.Adapters.Http.{Web, Requests, clock, do_json as http_json}
use capcom.Adapters.Gantry.Dto.{
  Json, GantryAccess, GantrySelection, entries, display_name, status_domain, unmarshal_access,
  unmarshal_agent,
}
use capcom.Adapters.Gantry.Client.{do_json, agent_path, gantry_agent_kind}

unfoldable pub normalize_selections : List GantrySelection → List AccessSelection
normalize_selections [] = []
normalize_selections (s ∷ selections) =
    record {
      kind = "capability";
      id = s.id;
      name = s.id;
      allowed = true;
      attributes = some (field "version" (text s.version) end);
    }
    ∷ normalize_selections selections

abbrev pub selections_of : Option (List AccessSelection) → List AccessSelection
selections_of none = []
selections_of (some l) = l

-- A nil map has no entries.
abbrev attributes_of : Option Fields → Fields
attributes_of = entries

unfoldable pub gantry_selections : List AccessSelection → List GantrySelection
unfolding trim_space get_field as_text
gantry_selections [] = []
gantry_selections (s ∷ selections) =
    record {
      id = trim_space s.id;
      version = trim_space (as_text (get_field "version" (attributes_of s.attributes)));
    }
    ∷ gantry_selections selections

-- The tags `json:"id"` and `json:"version,omitempty"` of `gantrySelection`.
abbrev selection_value : GantrySelection → Value
selection_value s =
    obj (
      field "id" (text s.id)
        (if s.version == "" then end else field "version" (text s.version) end))

unfoldable pub selection_items : List GantrySelection → Items
selection_items [] = nil
selection_items (s ∷ l) = cons (selection_value s) (selection_items l)

abbrev access_document : Web → GantryAccess → Option Fields → Requests → AccessDocument
access_document web access raw sent = record {
  agent_id = access.agent_id;
  selections = some (normalize_selections access.selections);
  raw = raw;
  observed_at = web.now sent;
  desired_at = none;
  source = "gantry";
  source_ref = "";
  source_sha256 = "";
}

-- `sources, ok := raw["sources"]`, where nil is no value
abbrev pub sources_in : Option Fields → Result Value
sources_in raw = elim (get_field "sources" (entries raw)) [
  | none ↦ err (message "current gantry access document does not contain sources")
  | some null ↦ err (message "current gantry access document does not contain sources")
  | some v ↦ ok v
]

abbrev pub replacement : Value → AccessDocument → Fields
replacement sources access = field "sources" sources (
    field "selections" (arr (selection_items (gantry_selections (selections_of access.selections))))
      end)

abbrev status_text : AgentStatus → Result String
status_text status =
    if status == status_enabled
    then ok "active"
    else if status == status_disabled
    then ok "disabled"
    else err (
        message
          ("agent status must be " <> (quote status_enabled <> (" or " <> quote status_disabled))))

abbrev pub is_controlled : RuntimeConnection → Bool
is_controlled conn = conn.mode == mode_control_enabled

module _ (web : Web) (json : Json) (conn : RuntimeConnection) where
  unfoldable pub get_agent_access : String → Effect Requests AccessDocument
  unfolding normalize_selections http_json unmarshal_access
  get_agent_access id = do
    access ← do_json web conn "GET" (agent_path web id "/access") none (unmarshal_access json)
    read (λ sent. ok (access_document web access (some (entries access.raw)) sent))

  unfoldable pub replace_agent_access : String → AccessDocument → Effect Requests AccessDocument
  unfolding get_agent_access gantry_selections selection_items get_field
  replace_agent_access id access = do
    require (is_controlled conn) (message "runtime connection is read-only")
    current ← wrapping "read current gantry access before replacement" (get_agent_access id)
    sources ← read (λ _. sources_in current.raw)
    response ←
        do_json web conn "PUT" (agent_path web id "/access") (some (replacement sources access))
          (unmarshal_access json)
    read (λ sent. ok (access_document web response response.raw sent))

  unfoldable pub set_agent_status : String → AgentStatus → Effect Requests AgentSnapshot
  unfolding display_name status_domain gantry_agent_kind http_json unmarshal_agent
  set_agent_status id status = do
    require (is_controlled conn) (message "runtime connection is read-only")
    runtime_status ← read (λ _. status_text status)
    response ←
        do_json web conn "PATCH" (agent_path web id "")
          (some (field "status" (text runtime_status) end)) (unmarshal_agent json)
    observed_at ← clock web
    done record {
      runtime_agent_id = response.id;
      parent_runtime_agent_id = "";
      kind = gantry_agent_kind response.id;
      name = display_name response;
      status = status_domain response;
      observed_at = observed_at;
      metadata = response.raw;
    }
