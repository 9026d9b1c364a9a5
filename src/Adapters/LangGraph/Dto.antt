-- ===== src/Adapters/LangGraph/Dto.antt =====
-- internal/adapters/langgraph/dto.go. encoding/json decodes the named fields and the document as a
-- map; `UnmarshalJSON` puts the two together. A nil map reads as the empty map.
use capcom.Prelude.{ℕ, String, List}
use capcom.Errors.{Result}
use capcom.Domain.Values.{Fields}
use capcom.Adapters.Http.{both_decoded}

pub record ServerInfo : Type 0 where
  pub version : String
  pub lang_graph_py_version : String
  pub flags : Fields
  pub metadata : Fields

pub record Assistant : Type 0 where
  pub assistant_id : String
  pub graph_id : String
  pub name : String
  pub description : String
  pub version : ℕ
  pub created_at : String
  pub updated_at : String
  pub config : Fields
  pub context : Fields
  pub metadata : Fields
  pub raw : Fields

pub record Thread : Type 0 where
  pub thread_id : String
  pub status : String
  pub created_at : String
  pub updated_at : String
  pub state_updated : String
  pub metadata : Fields
  pub config : Fields
  pub values : Fields
  pub interrupts : Fields
  pub raw : Fields

pub record Run : Type 0 where
  pub run_id : String
  pub thread_id : String
  pub assistant_id : String
  pub status : String
  pub created_at : String
  pub updated_at : String
  pub metadata : Fields
  pub kwargs : Fields
  pub multitask_strategy : String
  pub lang_smith_session_name : String
  pub raw : Fields

-- `json.Unmarshal` into each of the types; `list` decodes an array and calls the given
-- `UnmarshalJSON` for each of its elements.
pub record Json : Type 1 where
  pub map : String → Result Fields
  pub server_info : String → Result ServerInfo
  pub assistant : String → Result Assistant
  pub thread : String → Result Thread
  pub run : String → Result Run
  pub list : {A : Type 0} → (String → Result A) → String → Result (List A)

module _ (json : Json) (payload : String) where
  unfoldable pub unmarshal_assistant : Result Assistant
  unmarshal_assistant =
      both_decoded (json.assistant payload) (json.map payload) (λ raw a. record a { raw = raw })

  unfoldable pub unmarshal_thread : Result Thread
  unmarshal_thread =
      both_decoded (json.thread payload) (json.map payload) (λ raw t. record t { raw = raw })

  unfoldable pub unmarshal_run : Result Run
  unmarshal_run =
      both_decoded (json.run payload) (json.map payload) (λ raw r. record r { raw = raw })
