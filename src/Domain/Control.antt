-- ===== src/Domain/Control.antt =====
-- internal/domain/control.go and audit.go.
use capcom.Prelude.{String, Option, none}
use capcom.Domain.Values.{Fields}
use capcom.Domain.Runtime.{Time}

pub data ControlActionStatus : Type 0 where
  unset queued running succeeded failed rejected : ControlActionStatus

pub record ControlAction : Type 0 where
  pub id : String
  pub runtime_connection_id : String
  pub agent_id : String
  pub action_type : String
  pub status : ControlActionStatus
  pub actor : String
  pub reason : String
  pub idempotency_key : String
  pub before : Option Fields
  pub after : Option Fields
  pub result : Option Fields
  pub created_at : Time
  pub updated_at : Time

-- `domain.ControlAction{}`
abbrev pub no_action : ControlAction
no_action = record {
  id = "";
  runtime_connection_id = "";
  agent_id = "";
  action_type = "";
  status = unset;
  actor = "";
  reason = "";
  idempotency_key = "";
  before = none;
  after = none;
  result = none;
  created_at = 0;
  updated_at = 0;
}

pub record AuditEvent : Type 0 where
  pub runtime_connection_id : String
  pub agent_id : String
  pub control_action_id : String
  pub actor : String
  pub event_type : String
  pub target_type : String
  pub target_id : String
  pub reason : String
  pub before : Option Fields
  pub after : Option Fields
  pub result : String
  pub metadata : Option Fields
