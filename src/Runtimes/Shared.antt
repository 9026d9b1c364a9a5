-- ===== src/Runtimes/Shared.antt =====
-- What an update of the settings of a runtime connection writes, in its row and in its audit event.
use capcom.Prelude.{true, ◌≡◌, ap, Option, none, some, List, [], ◌∷◌, arith, ap}
use capcom.Prelude.Text.{trim_space}
use capcom.Errors.{ok}
use capcom.Tenant.{Context}
use capcom.Domain.Values.{Value, get, text, get-put}
use capcom.Domain.Runtime.{RuntimeConnection}
use capcom.Domain.Control.{AuditEvent}
use capcom.Runtimes.Input.{UpdateRuntimeInstanceSettingsInput}
use capcom.Runtimes.Table.{World, Env}
use capcom.Runtimes.Service.{value_of, audited, instance_settings_audit}
use capcom.Runtimes.Settings.{update_settings, settings_event, described}

-- The description that the latest event has of the time before it.
abbrev pub described_before : List AuditEvent → Option Value
unfolding get
described_before [] = none
described_before (e ∷ _) = elim e.before [ none ↦ none | some fields ↦ get "description" fields ]

settings_event-description :
    (env : Env) (ctx : Context) (input : UpdateRuntimeInstanceSettingsInput)
    (before updated : RuntimeConnection) (l : List AuditEvent)
    → described_before
        (settings_event env ctx input (described input.description before) updated ∷ l)
      ≡ some (text (trim_space input.description))
unfolding settings_event get instance_settings_audit described
settings_event-description env ctx input before updated l =
    ap (λ o. some (value_of o))
      (get-put "description" "description" (text (trim_space input.description)) before.metadata)

-- If an update of the settings succeeds and is audited, the audit event says that the description
-- before the update was the new one, whatever it was.
pub update_settings-before :
    (env : Env) (ctx : Context) (input : UpdateRuntimeInstanceSettingsInput) (w : World)
    (conn : RuntimeConnection)
    → env.audits ≡ true
    → (update_settings env ctx input w).0 ≡ ok conn
    → described_before (update_settings env ctx input w).1.audits
      ≡ some (text (trim_space input.description))
unfolding update_settings audited
update_settings-before env ctx input w conn a e =
    grind (arith, settings_event-description env ctx input, a, e)
