-- ===== src/Adapters/Gantry/Delegates.antt =====
-- `ListAgentDelegates` of internal/adapters/gantry/client.go.
use Prim.Native.String.{slice}
use capcom.Prelude.{
  ℕ, String, ◌<>◌, Bool, true, false, not, ◌||◌, ◌==◌, if◌then◌else◌, none, List, [], ◌∷◌, ◌++◌,
}
use capcom.Prelude.Text.{trim_space}
use capcom.Effects.{Effect, ◌>>=◌, done}
use capcom.Domain.Values.{end, field, text}
use capcom.Domain.Runtime.{Time, RuntimeConnection}
use capcom.Domain.Snapshot.{AgentDelegationSnapshot}
use capcom.Sync.Validate.{has}
use capcom.Adapters.Http.{Web, Requests, clock, do_json as http_json}
use capcom.Adapters.Gantry.Dto.{
  Json, GantryAgentDelegates, GantryResolvedDelegate, unmarshal_resolved_delegate,
}
use capcom.Adapters.Gantry.Client.{do_json, agent_path}

unfoldable pub gantry_agent_id_for_delegate_ref : String → String
gantry_agent_id_for_delegate_ref ref = if slice ref 0 6 == "agent:" then ref else "agent:" <> ref

unfoldable pub delegation_source : Bool → String
delegation_source configured = if configured then "configured" else "conversation_bound"

-- The keys of `configured`.
unfoldable pub configured_refs : List String → List String
configured_refs [] = []
configured_refs (raw ∷ delegates) =
    let rest = configured_refs delegates in
    let ref = trim_space raw in if ref == "" then rest else ref ∷ rest

-- The agent's own id stands for a missing ref.
unfoldable pub ref_of : GantryResolvedDelegate → String
ref_of d = let ref = trim_space d.ref in if ref == "" then trim_space d.agent_id else ref

-- the loop does not `continue`
unfoldable pub is_identified : GantryResolvedDelegate → Bool
unfolding ref_of
is_identified d = not (ref_of d == "" || trim_space d.agent_id == "")

unfoldable pub resolved_item :
    String → ℕ → Time → List String → GantryResolvedDelegate → AgentDelegationSnapshot
unfolding ref_of has delegation_source
resolved_item id revision observed_at configured d = record {
  orchestrator_runtime_agent_id = id;
  delegate_runtime_agent_id = trim_space d.agent_id;
  delegate_ref = ref_of d;
  tool_name = d.tool_name;
  display_name = d.display_name;
  persona = d.persona;
  configured = has (ref_of d) configured;
  resolved = true;
  revision = revision;
  status = "active";
  observed_at = observed_at;
  metadata = field "source" (text (delegation_source (has (ref_of d) configured))) end;
  raw = d.raw;
}

unfoldable pub configured_item : String → ℕ → Time → String → AgentDelegationSnapshot
unfolding gantry_agent_id_for_delegate_ref
configured_item id revision observed_at ref = record {
  orchestrator_runtime_agent_id = id;
  delegate_runtime_agent_id = gantry_agent_id_for_delegate_ref ref;
  delegate_ref = ref;
  tool_name = "";
  display_name = "";
  persona = "";
  configured = true;
  resolved = false;
  revision = revision;
  status = "active";
  observed_at = observed_at;
  metadata =
      field "source" (text "configured")
        (field "runtime_agent_id_source" (text "gantry_settings_folder") end);
  raw = field "ref" (text ref) end;
}

-- The keys of `seenRefs`.
unfoldable pub seen_refs : List GantryResolvedDelegate → List String
unfolding is_identified ref_of
seen_refs [] = []
seen_refs (d ∷ resolved) =
    let rest = seen_refs resolved in if is_identified d then ref_of d ∷ rest else rest

module _ (id : String) (revision : ℕ) (observed_at : Time) where
  -- The first loop.
  unfoldable pub resolved_items :
      List String → List GantryResolvedDelegate → List AgentDelegationSnapshot
  unfolding is_identified resolved_item
  resolved_items configured [] = []
  resolved_items configured (d ∷ resolved) =
      let rest = resolved_items configured resolved in
      if is_identified d then resolved_item id revision observed_at configured d ∷ rest else rest

  -- The second loop.
  unfoldable pub unresolved_items : List String → List String → List AgentDelegationSnapshot
  unfolding has configured_item
  unresolved_items seen [] = []
  unresolved_items seen (raw ∷ delegates) =
      let rest = unresolved_items seen delegates in
      let ref = trim_space raw in
      if ref == "" || has ref seen then rest else configured_item id revision observed_at ref ∷ rest

  unfoldable pub delegations_of : GantryAgentDelegates → List AgentDelegationSnapshot
  unfolding resolved_items seen_refs unresolved_items configured_refs
  delegations_of payload =
      resolved_items (configured_refs payload.delegates) payload.resolved
      ++ unresolved_items (seen_refs payload.resolved) payload.delegates

unfoldable pub list_agent_delegates :
    Web → Json → RuntimeConnection → String → Effect Requests (List AgentDelegationSnapshot)
unfolding delegations_of http_json unmarshal_resolved_delegate
list_agent_delegates web json conn id = do
  payload ←
      do_json web conn "GET" (agent_path web id "/delegates") none
        (json.delegates (unmarshal_resolved_delegate json))
  observed_at ← clock web
  done (delegations_of id payload.revision observed_at payload)
