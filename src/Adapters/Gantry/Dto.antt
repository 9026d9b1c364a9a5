-- ===== src/Adapters/Gantry/Dto.antt =====
-- internal/adapters/gantry/dto.go. encoding/json decodes the named fields and the document as a
-- map; `UnmarshalJSON` puts the two together.
use capcom.Prelude.{ℕ, String, ◌==◌, ◌||◌, if◌then◌else◌, Option, none, some, List}
use capcom.Errors.{Result}
use capcom.Domain.Values.{Value, Fields, end}
use capcom.Domain.Agents.{AgentStatus, status_enabled, status_disabled, status_unknown}
use capcom.Adapters.Http.{both_decoded}

pub record GantryAgent : Type 0 where
  pub id : String
  pub name : String
  pub display : String
  pub description : String
  pub status : String
  pub app_id : String
  pub harness : String
  pub config_id : String
  pub parent_id : String
  pub created_at : String
  pub updated_at : String
  pub raw : Fields

pub record GantryResolvedDelegate : Type 0 where
  pub ref : String
  pub agent_id : String
  pub tool_name : String
  pub display_name : String
  pub persona : String
  pub raw : Fields

pub record GantryAgentDelegates : Type 0 where
  pub agent_id : String
  pub revision : ℕ
  pub delegates : List String
  pub resolved : List GantryResolvedDelegate

pub record GantrySelection : Type 0 where
  pub id : String
  pub version : String

pub record GantryAccess : Type 0 where
  pub agent_id : String
  pub selections : List GantrySelection
  pub raw : Option Fields

pub record GantryDoctorCheck : Type 0 where
  pub id : String
  pub status : String
  pub message : String
  pub raw : Fields

pub record GantryDoctor : Type 0 where
  pub status : String
  pub checks : List GantryDoctorCheck

pub record GantryInventory : Type 0 where
  pub tools : List Fields
  pub skills : List Fields
  pub mcp_servers : List Fields

-- `none` is the nil interface.
pub record GantryCapability : Type 0 where
  pub id : String
  pub version : Option Value
  pub display_name : String
  pub category : String
  pub risk : String
  pub can : String
  pub cannot : String
  pub source : String
  pub raw : Fields

pub record GantrySkillBinding : Type 0 where
  pub id : String
  pub agent_id : String
  pub skill_id : String
  pub status : String
  pub config_version_id : String

pub record GantrySkill : Type 0 where
  pub id : String
  pub name : String
  pub description : String
  pub source : String
  pub status : String
  pub prompt_refs : List String
  pub tool_ids : List String
  pub workflow_refs : List String
  pub required_env_vars : List String
  pub action_permissions : List Fields

pub record GantryRun : Type 0 where
  pub run_id : String
  pub job_id : String
  pub started_at : String
  pub ended_at : String
  pub status : String

pub record GantryRunEvent : Type 0 where
  pub id : String
  pub run_id : String
  pub type : String
  pub payload : Fields
  pub created_at : String
  pub runtime_event_type : String

-- `target` is the agent of the target, where there is one.
pub record GantryJob : Type 0 where
  pub job_id : String
  pub target : Option String

unfoldable pub display_name : GantryAgent → String
display_name g = if g.display == "" then (if g.name == "" then g.id else g.name) else g.display

unfoldable pub status_domain : GantryAgent → AgentStatus
status_domain g =
    if g.status == "active" || g.status == "enabled" || g.status == "running"
    then status_enabled
    else if g.status == "disabled"
    then status_disabled
    else status_unknown

-- `json.Unmarshal` into each of the types. Where a document holds others that have an
-- `UnmarshalJSON`, that is the first argument.
pub record Json : Type 0 where
  pub map : String → Result (Option Fields)
  pub agent : String → Result GantryAgent
  pub resolved_delegate : String → Result GantryResolvedDelegate
  pub access : String → Result GantryAccess
  pub doctor_check : String → Result GantryDoctorCheck
  pub capability : String → Result GantryCapability
  pub raw_message : String → Result String
  pub agents : (String → Result GantryAgent) → String → Result (List GantryAgent)
  pub agents_envelope : (String → Result GantryAgent) → String → Result (Option (List GantryAgent))
  pub delegates : (String → Result GantryResolvedDelegate) → String → Result GantryAgentDelegates
  pub doctor : (String → Result GantryDoctorCheck) → String → Result GantryDoctor
  pub inventory : String → Result GantryInventory
  pub capabilities : (String → Result GantryCapability) → String → Result (List GantryCapability)
  pub bindings : String → Result (List GantrySkillBinding)
  pub skills : String → Result (List GantrySkill)
  pub runs : String → Result (List GantryRun)
  pub jobs : String → Result (List GantryJob)
  pub events : String → Result (List GantryRunEvent)

-- A nil map reads as the empty map.
abbrev pub entries : Option Fields → Fields
entries none = end
entries (some m) = m

module _ (json : Json) (payload : String) where
  unfoldable pub unmarshal_agent : Result GantryAgent
  unmarshal_agent =
      both_decoded (json.agent payload) (json.map payload) (λ raw g. record g { raw = entries raw })

  unfoldable pub unmarshal_resolved_delegate : Result GantryResolvedDelegate
  unmarshal_resolved_delegate =
      both_decoded (json.resolved_delegate payload) (json.map payload)
        (λ raw g. record g { raw = entries raw })

  unfoldable pub unmarshal_access : Result GantryAccess
  unmarshal_access =
      both_decoded (json.access payload) (json.map payload) (λ raw g. record g { raw = raw })

  unfoldable pub unmarshal_doctor_check : Result GantryDoctorCheck
  unmarshal_doctor_check =
      both_decoded (json.doctor_check payload) (json.map payload)
        (λ raw g. record g { raw = entries raw })

  unfoldable pub unmarshal_capability : Result GantryCapability
  unmarshal_capability =
      both_decoded (json.capability payload) (json.map payload)
        (λ raw g. record g { raw = entries raw })
