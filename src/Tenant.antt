-- ===== src/Tenant.antt =====
-- internal/tenant/context.go, and `organizationIDForWrite` of internal/store/repositories.go. A
-- context is the principal that it carries.
use capcom.Prelude.{String, Option, none, some, not, ◌==◌, if◌then◌else◌}
use capcom.Domain.Auth.{Principal}

abbrev pub Context : Type 0
Context = Option Principal

-- `WithPrincipal` and `PrincipalFrom`
abbrev pub with_principal : Context → Principal → Context
with_principal _ p = some p

unfoldable pub organization_id : Context → String
organization_id none = ""
organization_id (some p) = if p.platform_admin then "" else p.organization_id

abbrev pub bootstrap_organization_id : String
bootstrap_organization_id = "00000000-0000-4000-8000-000000000001"

unfoldable pub organization_id_for_write : Context → String
unfolding organization_id
organization_id_for_write ctx =
    if not (organization_id ctx == "") then organization_id ctx else bootstrap_organization_id
