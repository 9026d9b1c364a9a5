-- ===== src/Examples/Instances.antt =====
-- Runtime connections at concrete inputs.
use capcom.Prelude.{◌/◌, ◌*◌, true, false, ◌≡◌, refl, none, some, [], ◌∷◌}
use capcom.Errors.{ok}
use capcom.Domain.Values.{put, text, field, end}
use capcom.Domain.Runtime.{RuntimeConnection}
use capcom.Prelude.Text.{trim_space}
use capcom.Prelude.Rows.{any, update_where}
use capcom.Effects.{transaction}
use capcom.Tenant.{Context, organization_id}
use capcom.Runtimes.Input.{
  Texts, UpdateRuntimeInstanceSettingsInput, RemoveRuntimeInstanceInput, is_mode, is_environment,
  normalize_runtime_endpoint, normalize_labels,
}
use capcom.Runtimes.Table.{World, Env, find_visible, endpoints_of, is_taken, is_canonical}
use capcom.Runtimes.Repository
use capcom.Runtimes.Changes
use capcom.Runtimes.Service.{audited}
use capcom.Runtimes.Changes.{with_settings, write_settings, archive}
use capcom.Runtimes.Settings.{
  update_settings, remove, is_identified, is_attributed, is_referring, is_interval,
  checked_endpoint, described, revised, settings_event,
}
use capcom.Runtimes.Removed.{IsRemoved, remove-IsRemoved}
use capcom.Runtimes.Shared.{described_before, update_settings-before}
use capcom.Runtimes.Updated.{IsUpdated, update_settings-IsUpdated}

abbrev texts : Texts
texts = record {
  parse_url =
      λ s. some (record { scheme = "http"; host = s; path = "/"; raw_query = ""; fragment = "" });
  print_url = λ u. u.host;
  to_lower = λ s. s;
}

abbrev env : Env
env = record {
  fault = λ w s. none;
  now = λ w. 9;
  column_time = λ t. t / 4 * 4;
  new_id = λ w. ok "rt-2";
  new_endpoint_id = λ w. ok "ep-2";
  texts = texts;
  endpoint_key = λ s. s;
  runtimes = true;
  secrets = true;
  audits = true;
  resolve = λ w s. ok "key";
}

abbrev pub conn : RuntimeConnection
conn = record {
  id = "rt-1";
  organization_id = "org-1";
  name = "prod";
  display_name = "Production";
  environment = "prod";
  kind = "gantry";
  mode = "read_only";
  status = "active";
  base_url = "host-a";
  auth_ref = "key";
  metadata = field "description" (text "old") end;
  labels = [];
  created_at = 1;
  updated_at = 1;
  last_synced_at = none;
  sync_enabled = true;
  sync_interval_seconds = 60;
  last_sync_status = "";
  last_sync_started_at = none;
  last_sync_finished_at = none;
  last_sync_duration_ms = 0;
  last_error = "";
  endpoints = [];
}

abbrev world : World
world = record {
  runtimes = (record { conn = conn; archived = none }) ∷ [];
  endpoints = [];
  audits = [];
}

abbrev ctx : Context
ctx = none

abbrev removal : RemoveRuntimeInstanceInput
removal = record { id = "rt-1"; confirmation = " prod"; actor = "ada"; reason = "retired" }

abbrev change : UpdateRuntimeInstanceSettingsInput
change = record {
  id = "rt-1";
  display_name = "P";
  environment = "prod";
  labels = [];
  mode = "read_only";
  endpoint = "host-b";
  auth_ref = "key";
  description = "new";
  sync_enabled = false;
  sync_interval_seconds = 30;
  actor = "ada";
  reason = "move";
}

-- What the change gives back.
abbrev changed : RuntimeConnection
changed = record conn {
  display_name = "P";
  base_url = "host-b";
  metadata = field "description" (text "new") end;
  updated_at = 9;
  sync_enabled = false;
  sync_interval_seconds = 30;
}

removes : (remove env ctx removal world).0 ≡ ok tt
unfolding remove trim_space Repository.get find_visible organization_id archive any audited
removes = refl

changes : (update_settings env ctx change world).0 ≡ ok changed
unfolding update_settings is_identified is_attributed is_referring is_interval is_mode
    checked_endpoint trim_space is_environment normalize_runtime_endpoint described revised put
    normalize_labels Repository.get find_visible organization_id endpoints_of
    Changes.update_settings write_settings transaction any update_where with_settings is_taken
    is_canonical audited settings_event
changes = refl

remove-IsRemoved_example : IsRemoved ctx removal world (remove env ctx removal world).1
remove-IsRemoved_example = remove-IsRemoved env ctx removal world removes

update_settings-before_example :
    described_before (update_settings env ctx change world).1.audits ≡ some (text "new")
unfolding trim_space
update_settings-before_example = update_settings-before env ctx change world changed refl changes

update_settings-IsUpdated_example : IsUpdated env ctx change world changed
update_settings-IsUpdated_example = update_settings-IsUpdated env ctx change world changed changes

abbrev none_yet : World
none_yet = record { runtimes = []; endpoints = []; audits = [] }

abbrev new : RuntimeConnection
new = record conn {
  organization_id = "00000000-0000-4000-8000-000000000001";
  created_at = 9;
  updated_at = 9;
  endpoints =
      (record {
        id = "ep-2";
        runtime_connection_id = "rt-1";
        url = "host-a";
        kind = "canonical";
        auth_ref = "key";
        source_runtime_connection_id = "";
        created_at = 9;
        updated_at = 9;
      })
      ∷ [];
}
