-- ===== src/Runtimes/Settings.antt =====
-- The mutations of a runtime connection, in internal/services/runtime_connections.go.
use capcom.Prelude.{Bool, ℕ, String, true, false, not, ◌||◌, ◌==◌, ◌<>◌, ltb, Option, none, some}
use capcom.Prelude.Text.{trim_space, blank}
use capcom.Prelude.Text.Quote.{quote}
use capcom.Errors.{message, Result, ok, err}
use capcom.Effects.{Effect, ◌>>=◌, ◌>>◌, try, require, done, read}
use capcom.Tenant.{Context}
use capcom.Domain.Values.{put, text, flag, field, end}
use capcom.Domain.Control.{AuditEvent}
use capcom.Domain.Runtime.{RuntimeConnection, RuntimeKind, status_disabled}
use capcom.Runtimes.Input.{
  UpdateRuntimeInstanceSettingsInput, RemoveRuntimeInstanceInput, ConsolidateRuntimeEndpointInput,
  Texts, normalize_runtime_endpoint, normalize_labels, is_environment, bad_environment, is_mode,
  bad_mode,
}
use capcom.Runtimes.Table.{World, Env}
use capcom.Runtimes.Repository
use capcom.Runtimes.Changes
use capcom.Runtimes.Changes.{archive}
use capcom.Runtimes.Service.{instance_settings_audit, event_of, checked, audited, get}

-- `updated := before` copies the struct and shares the map `Metadata`, so that the assignment to
-- `updated.Metadata["description"]` also changes `before`. A map that was read is not nil.
unfoldable pub described : String → RuntimeConnection → RuntimeConnection
described description before = record before {
  metadata = put "description" (text (trim_space description)) before.metadata;
}

-- The values that the method checked, in the struct that goes to the repository.
unfoldable pub revised :
    Texts → UpdateRuntimeInstanceSettingsInput → String → RuntimeConnection → RuntimeConnection
revised texts input endpoint before = record before {
  display_name = trim_space input.display_name;
  environment = texts.to_lower (trim_space input.environment);
  labels = normalize_labels texts input.labels;
  mode = input.mode;
  base_url = endpoint;
  auth_ref = trim_space input.auth_ref;
  sync_enabled = input.sync_enabled;
  sync_interval_seconds = input.sync_interval_seconds;
}

unfoldable pub is_identified : UpdateRuntimeInstanceSettingsInput → Bool
is_identified input = not (blank input.id || blank input.display_name)

unfoldable pub is_attributed : UpdateRuntimeInstanceSettingsInput → Bool
is_attributed input = not (blank input.actor || blank input.reason)

unfoldable pub is_referring : UpdateRuntimeInstanceSettingsInput → Bool
is_referring input = not (blank input.auth_ref)

unfoldable pub is_interval : ℕ → Bool
is_interval n = not (ltb n 15 || ltb 86400 n)

module _ (env : Env) (ctx : Context) where
  -- The checks, and the address that comes out of them.
  unfoldable pub checked_endpoint : UpdateRuntimeInstanceSettingsInput → Effect World String
  checked_endpoint input = do
    require (is_identified input) (message "id and display_name are required")
    require (is_environment (env.texts.to_lower (trim_space input.environment))) bad_environment
    require (is_attributed input) (message "actor and reason are required")
    require (is_mode input.mode) bad_mode
    endpoint ← read (λ w. normalize_runtime_endpoint env.texts input.endpoint)
    require (is_referring input) (message "auth_ref is required")
    require (is_interval input.sync_interval_seconds)
        (message "sync_interval_seconds must be between 15 and 86400")
    require env.secrets (message "credential resolver is required")
    try (λ w. checked (env.resolve w (trim_space input.auth_ref)))
    done endpoint

  unfoldable pub settings_event :
      UpdateRuntimeInstanceSettingsInput → RuntimeConnection → RuntimeConnection → AuditEvent
  settings_event input before updated =
      event_of updated.id (trim_space input.actor) (trim_space input.reason)
        "runtime_instance.settings_updated" "runtime_instance" updated.id
        (some (instance_settings_audit before)) (some (instance_settings_audit updated))

  unfoldable pub update_settings :
      UpdateRuntimeInstanceSettingsInput → Effect World RuntimeConnection
  update_settings input = do
    endpoint ← checked_endpoint input
    before ← Repository.get env ctx (trim_space input.id)
    let shared : RuntimeConnection = described input.description before
    updated ← Changes.update_settings env ctx (revised env.texts input endpoint shared)
    audited env ctx env.audits "audit runtime instance settings update"
        (settings_event input shared updated)
    done updated

  unfoldable pub remove : RemoveRuntimeInstanceInput → Effect World (Unit {0})
  remove input = do
    require (not (blank input.id || blank input.actor || blank input.reason))
        (message "id, actor, and reason are required")
    before ← Repository.get env ctx (trim_space input.id)
    require (trim_space input.confirmation == before.name)
        (message ("confirmation must exactly match the stable key " <> quote before.name))
    archive env ctx (trim_space input.id) (trim_space input.actor) (trim_space input.reason)
    audited env ctx env.audits "audit runtime instance removal" (
        event_of before.id (trim_space input.actor) (trim_space input.reason)
          "runtime_instance.removed" "runtime_instance" before.id
          (some (instance_settings_audit before))
          (some (
            field "archived" (flag true)
              (field "sync_enabled" (flag false) (field "status" (text status_disabled) end)))))

  unfoldable pub consolidate_endpoint :
      ConsolidateRuntimeEndpointInput → Effect World RuntimeConnection
  consolidate_endpoint input = do
    require
        (not (
          blank input.canonical_id
          || blank input.duplicate_id
          || blank input.actor
          || blank input.reason))
        (message "canonical_id, duplicate_id, actor, and reason are required")
    require (not (trim_space input.canonical_id == trim_space input.duplicate_id))
        (message "canonical and duplicate runtime instances must be different")
    require (input.kind == "alias" || input.kind == "relay")
        (message ("kind must be one of " <> (quote "alias" <> (" or " <> quote "relay"))))
    canonical ← Repository.get env ctx (trim_space input.canonical_id)
    duplicate ← Repository.get env ctx (trim_space input.duplicate_id)
    require (canonical.kind == duplicate.kind) (message "runtime types must match")
    require (trim_space input.confirmation == duplicate.name) (
        message
          ("confirmation must exactly match the duplicate stable key " <> quote duplicate.name))
    Changes.consolidate_endpoint env ctx (trim_space input.canonical_id)
        (trim_space input.duplicate_id) input.kind (trim_space input.actor)
        (trim_space input.reason)
    updated ← Repository.get env ctx (trim_space input.canonical_id)
    audited env ctx env.audits "audit endpoint consolidation" (
        event_of canonical.id (trim_space input.actor) (trim_space input.reason)
          "runtime_endpoint.consolidated" "runtime_endpoint" duplicate.id
          (some (
            field "runtime_instance_id" (text duplicate.id) (
              field "name" (text duplicate.name) (field "endpoint" (text duplicate.base_url) end))))
          (some (
            field "canonical_runtime_instance_id" (text canonical.id)
              (field "endpoint" (text duplicate.base_url) (field "kind" (text input.kind) end)))))
    done updated

abbrev registered {ℓ} : {A : Type ℓ} → RuntimeConnection → Option A → Result (RuntimeConnection × A)
registered conn (some adapter) = ok (conn, adapter)
registered conn none =
    err (message ("runtime adapter " <> (quote conn.kind <> " is not registered")))

-- `connectionAdapter`, over the map of the adapters
unfoldable pub connection_adapter {ℓ} :
    {A : Type ℓ}
    → (RuntimeKind → Option A)
    → Env
    → Context
    → String
    → Effect World (RuntimeConnection × A)
connection_adapter adapters env ctx id = do
  conn ← get env ctx id
  read (λ w. registered conn (adapters conn.kind))
