-- ===== src/Runtimes/Service.antt =====
-- `RuntimeConnectionService` of internal/services/runtime_connections.go.
use capcom.Prelude.{
  String, Bool, false, not, ◌&&◌, ◌==◌, if◌then◌else◌, Option, none, some, [], ◌∷◌,
}
use capcom.Prelude.Text.{trim_space, blank}
use capcom.Errors.{Error, message, wrap, Result, ok, err}
use capcom.Effects.{Effect, ◌>>=◌, ◌>>◌, failed, try, require, write, done, read}
use capcom.Tenant.{Context}
use capcom.Domain.Values.{Value, Fields, get as get_field, text, flag, num, obj, null, field, end}
use capcom.Domain.Runtime.{RuntimeConnection, status_pending}
use capcom.Domain.Control.{AuditEvent}
use capcom.Runtimes.Input.{
  Labels, CreateRuntimeConnectionInput, normalize_runtime_endpoint, normalize_labels,
  validate_create_runtime_connection,
}
use capcom.Runtimes.Table.{World, Env}
use capcom.Runtimes.Table.Statement.{insert_audit}
use capcom.Runtimes.Repository

abbrev or_else : String → String → String
or_else s d = if s == "" then d else s

abbrev pub value_of : Option Value → Value
value_of none = null
value_of (some v) = v

label_fields : Labels → Fields
label_fields [] = end
label_fields ((k, v) ∷ l) = field k (text v) (label_fields l)

unfoldable pub instance_settings_audit : RuntimeConnection → Fields
unfolding get_field label_fields
instance_settings_audit conn = field "name" (text conn.name) (
    field "display_name" (text conn.display_name) (
      field "environment" (text conn.environment) (
        field "labels" (obj (label_fields conn.labels)) (
          field "description" (value_of (get_field "description" conn.metadata)) (
            field "endpoint" (text conn.base_url) (
              field "runtime_type" (text conn.kind) (
                field "mode" (text conn.mode) (
                  field "auth_ref" (text conn.auth_ref) (
                    field "sync_enabled" (flag conn.sync_enabled)
                      (field "sync_interval_seconds" (num conn.sync_interval_seconds) end))))))))))

unfoldable pub connection_audit : RuntimeConnection → Fields
connection_audit conn = field "id" (text conn.id) (
    field "name" (text conn.name) (
      field "display_name" (text conn.display_name) (
        field "environment" (text conn.environment) (
          field "runtime_type" (text conn.kind) (
            field "mode" (text conn.mode) (
              field "status" (text conn.status) (
                field "endpoint" (text conn.base_url)
                  (field "auth_ref" (text conn.auth_ref) end))))))))

-- The events of this service: about one runtime, with a result that is always the same.
abbrev pub event_of :
    String → String → String → String → String → String → Option Fields → Option Fields → AuditEvent
event_of runtime actor reason event_type target_type target before after = record {
  runtime_connection_id = runtime;
  agent_id = "";
  control_action_id = "";
  actor = actor;
  event_type = event_type;
  target_type = target_type;
  target_id = target;
  reason = reason;
  before = before;
  after = after;
  result = "succeeded";
  metadata = none;
}

abbrev pub checked : Result String → Option Error
checked (ok _) = none
checked (err e) = some (wrap "resolve auth_ref" e)

module _ (env : Env) (ctx : Context) where
  abbrev audit : String → AuditEvent → Effect World (Unit {0})
  audit t event = do
    try (λ w. failed t (env.fault w (insert_audit event)))
    write (λ w. record w { audits = event ∷ w.audits })

  -- `if s.audit != nil { if _, err := s.audit.Create(…); err != nil { … } }`
  unfoldable pub audited : Bool → String → AuditEvent → Effect World (Unit {0})
  audited wanted t event w = let r = audit t event w in if wanted then r else (ok tt, w)

  unfoldable pub create : CreateRuntimeConnectionInput → Effect World RuntimeConnection
  create input = do
    require env.runtimes (message "runtime repository is required")
    try (λ w. validate_create_runtime_connection env.texts input)
    require env.secrets (message "credential resolver is required")
    try (λ w. checked (env.resolve w input.auth_ref))
    endpoint ← read (λ w. normalize_runtime_endpoint env.texts input.endpoint)
    conn ← Repository.create env ctx (record {
      id = "";
      organization_id = "";
      name = trim_space input.name;
      display_name = or_else (trim_space input.display_name) (trim_space input.name);
      environment = or_else (env.texts.to_lower (trim_space input.environment)) "unspecified";
      kind = input.kind;
      mode = input.mode;
      status = status_pending;
      base_url = endpoint;
      auth_ref = trim_space input.auth_ref;
      labels = normalize_labels env.texts input.labels;
      metadata = field "description" (text (trim_space input.description)) end;
      created_at = 0;
      updated_at = 0;
      last_synced_at = none;
      sync_enabled = false;
      sync_interval_seconds = 0;
      last_sync_status = "";
      last_sync_started_at = none;
      last_sync_finished_at = none;
      last_sync_duration_ms = 0;
      last_error = "";
      endpoints = [];
    })
    audited (env.audits && (not (blank input.actor) && not (blank input.reason)))
        "audit runtime connection creation"
        (event_of conn.id (trim_space input.actor) (trim_space input.reason)
          "runtime_connection.created" "runtime_connection" conn.id none
          (some (connection_audit conn)))
    done conn

  unfoldable pub get : String → Effect World RuntimeConnection
  get id = do
    require (not (blank id)) (message "id is required")
    Repository.get env ctx (trim_space id)
