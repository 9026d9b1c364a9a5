-- ===== src/Adapters/Gantry/Listing.antt =====
-- The lists of internal/adapters/gantry/client.go: agents, inventory, capabilities and skills.
use capcom.Prelude.{
  String, Bool, ◌||◌, ◌==◌, if◌then◌else◌, Option, none, some, List, [], ◌∷◌, ◌++◌, map,
}
use capcom.Prelude.Text.{blank}
use capcom.Errors.{Result, ok, err, wrap}
use capcom.Effects.{Effect, ◌>>=◌, done, read}
use capcom.Domain.Values.{Value, Fields, end, field, arr, text}
use capcom.Domain.Runtime.{Time, RuntimeConnection}
use capcom.Domain.Agents.{AgentSnapshot, AgentSkillSnapshot, AgentKind, kind_subagent}
use capcom.Domain.Snapshot.{RuntimeInventorySnapshot, RuntimeCapabilitySnapshot}
use capcom.Adapters.Http.{Web, Requests, clock, do_json as http_json}
use capcom.Adapters.Gantry.Dto.{
  Json, GantryAgent, GantryInventory, GantryCapability, GantrySkillBinding, GantrySkill,
  display_name, status_domain, unmarshal_agent, unmarshal_capability,
}
use capcom.Adapters.Gantry.Client.{
  do_json, agent_path, map_string, gantry_agent_kind, text_items, map_items,
}

-- The list stands alone or under the key `agents`.
unfoldable pub decode_agent_list : Json → String → Result (List GantryAgent)
unfolding unmarshal_agent
decode_agent_list json payload = elim (json.agents_envelope (unmarshal_agent json) payload) [
  | ok (some agents) ↦ ok agents
  | ok none ↦ json.agents (unmarshal_agent json) payload
  | err _ ↦ json.agents (unmarshal_agent json) payload
]

abbrev agent_kind : GantryAgent → AgentKind
agent_kind a = if a.parent_id == "" then gantry_agent_kind a.id else kind_subagent

unfoldable pub agent_snapshot : Time → GantryAgent → AgentSnapshot
unfolding gantry_agent_kind display_name status_domain
agent_snapshot observed_at a = record {
  runtime_agent_id = a.id;
  parent_runtime_agent_id = a.parent_id;
  kind = agent_kind a;
  name = display_name a;
  status = status_domain a;
  metadata = field "description" (text a.description) (
      field "app_id" (text a.app_id) (
        field "agent_harness" (text a.harness) (
          field "current_config_version_id" (text a.config_id) (
            field "runtime_created_at" (text a.created_at)
              (field "runtime_updated_at" (text a.updated_at) end)))));
  observed_at = observed_at;
}

abbrev decoded_list : Result (List GantryAgent) → Result (List GantryAgent)
decoded_list (ok l) = ok l
decoded_list (err e) = err (wrap "decode gantry agent list" e)

-- The first of the texts that is not empty.
abbrev first_of : List String → String
first_of [] = ""
first_of (s ∷ l) = let rest = first_of l in if s == "" then rest else s

unfoldable pub inventory_metadata : Fields → Fields
unfolding map_string
inventory_metadata raw = field "description" (text (map_string raw "description")) (
    field "category" (text (map_string raw "category")) (
      field "risk" (text (map_string raw "risk"))
        (field "app_id" (text (map_string raw "appId")) end)))

abbrev inventory_item : Time → String → Fields → String → RuntimeInventorySnapshot
inventory_item observed_at kind raw id = record {
  runtime_item_id = id;
  kind = kind;
  name = first_of (map_string raw "displayName" ∷ map_string raw "name" ∷ id ∷ []);
  status = map_string raw "status";
  provider = first_of (map_string raw "provider" ∷ map_string raw "createdSource" ∷ []);
  source = map_string raw "source";
  observed_at = observed_at;
  metadata = inventory_metadata raw;
  raw = raw;
}

-- The inner loop, over one kind of items.
unfoldable pub inventory_group : Time → String → List Fields → List RuntimeInventorySnapshot
unfolding map_string inventory_metadata
inventory_group observed_at kind [] = []
inventory_group observed_at kind (raw ∷ items) =
    let rest = inventory_group observed_at kind items in
    let id = map_string raw "id" in
    if id == "" then rest else inventory_item observed_at kind raw id ∷ rest

unfoldable pub inventory_of : Time → GantryInventory → List RuntimeInventorySnapshot
unfolding inventory_group
inventory_of observed_at payload =
    inventory_group observed_at "tool" payload.tools
    ++ (inventory_group observed_at "skill" payload.skills
        ++ inventory_group observed_at "mcp_server" payload.mcp_servers)

abbrev is_named : String → Bool
is_named key =
    key == "id"
    || key == "version"
    || key == "displayName"
    || key == "category"
    || key == "risk"
    || key == "can"
    || key == "cannot"
    || key == "source"

unfoldable pub capability_metadata : Fields → Fields
capability_metadata end = end
capability_metadata (field key value raw) =
    let rest = capability_metadata raw in if is_named key then rest else field key value rest

abbrev version_text : Web → Option Value → String
version_text web none = "unknown"
version_text web (some v) = if web.sprint v == "<nil>" then "unknown" else web.sprint v

abbrev capability_item : Web → Time → GantryCapability → RuntimeCapabilitySnapshot
capability_item web observed_at c = record {
  runtime_capability_id = c.id;
  version = version_text web c.version;
  name = c.display_name;
  category = c.category;
  risk = c.risk;
  can = c.can;
  cannot = c.cannot;
  source = c.source;
  observed_at = observed_at;
  metadata = capability_metadata c.raw;
  raw = c.raw;
}

unfoldable pub capabilities_of : Web → Time → List GantryCapability → List RuntimeCapabilitySnapshot
unfolding capability_metadata
capabilities_of web observed_at [] = []
capabilities_of web observed_at (c ∷ capabilities) =
    let rest = capabilities_of web observed_at capabilities in
    if blank c.id then rest else capability_item web observed_at c ∷ rest

-- `catalog[id]`: of two skills with the same id the last one stays, and a missing one is the zero
-- value.
abbrev no_skill : GantrySkill
no_skill = record {
  id = "";
  name = "";
  description = "";
  source = "";
  status = "";
  prompt_refs = [];
  tool_ids = [];
  workflow_refs = [];
  required_env_vars = [];
  action_permissions = [];
}

unfoldable pub catalog_entry : String → GantrySkill → List GantrySkill → GantrySkill
catalog_entry id found [] = found
catalog_entry id found (s ∷ skills) = catalog_entry id (if s.id == id then s else found) skills

unfoldable pub skill_snapshot : Time → List GantrySkill → GantrySkillBinding → AgentSkillSnapshot
unfolding catalog_entry
skill_snapshot observed_at skills binding =
    let detail = catalog_entry binding.skill_id no_skill skills in
    record {
      runtime_skill_id = binding.skill_id;
      name = first_of (detail.name ∷ binding.skill_id ∷ []);
      description = detail.description;
      source = detail.source;
      status = binding.status;
      version = binding.config_version_id;
      tool_ids = detail.tool_ids;
      workflow_refs = detail.workflow_refs;
      metadata = field "binding_id" (text binding.id) (
          field "catalog_status" (text detail.status) (
            field "prompt_refs" (arr (text_items detail.prompt_refs)) (
              field "required_env_vars" (arr (text_items detail.required_env_vars))
                (field "action_permissions" (arr (map_items detail.action_permissions)) end))));
      observed_at = observed_at;
    }

module _ (web : Web) (json : Json) (conn : RuntimeConnection) where
  unfoldable pub list_agents : Effect Requests (List AgentSnapshot)
  unfolding decode_agent_list agent_snapshot http_json
  list_agents = do
    payload ← do_json web conn "GET" "/v1/agents" none json.raw_message
    agents ← read (λ _. decoded_list (decode_agent_list json payload))
    observed_at ← clock web
    done (map (agent_snapshot observed_at) agents)

  unfoldable pub list_inventory : Effect Requests (List RuntimeInventorySnapshot)
  unfolding inventory_of http_json
  list_inventory = do
    payload ← do_json web conn "GET" "/v1/inventory" none json.inventory
    observed_at ← clock web
    done (inventory_of observed_at payload)

  unfoldable pub list_capabilities : Effect Requests (List RuntimeCapabilitySnapshot)
  unfolding capabilities_of http_json unmarshal_capability
  list_capabilities = do
    payload ←
        do_json web conn "GET" "/v1/capabilities" none
          (json.capabilities (unmarshal_capability json))
    observed_at ← clock web
    done (capabilities_of web observed_at payload)

  unfoldable pub list_agent_skills : String → Effect Requests (List AgentSkillSnapshot)
  unfolding skill_snapshot http_json
  list_agent_skills id = do
    bindings ← do_json web conn "GET" (agent_path web id "/skills") none json.bindings
    skills ← do_json web conn "GET" "/v1/skills" none json.skills
    observed_at ← clock web
    done (map (skill_snapshot observed_at skills) bindings)
