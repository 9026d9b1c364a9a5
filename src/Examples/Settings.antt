-- ===== src/Examples/Settings.antt =====
-- A server that is configured for hosting.
use capcom.Prelude.{
  ℕ, String, List, true, false, ◌≡◌, refl, ◌==◌, if◌then◌else◌, none, some, [], ◌∷◌,
}
use capcom.Errors.{Error, message, ok}
use capcom.Config.DotEnv.{
  load_dot_env, load_lines, parse_line, cut, clean_dot_env_value, merged_lookup, set_value,
}
use capcom.Config.Assigned.{last_value, merged_lookup-load}
use capcom.Prelude.Text.{trim_space}
use capcom.Config.Values.{
  Parsers, Lookup, pos, given, string_env, bool_env, int_env, positive_int_env, duration_env,
  secret_key_env, string_list_env, model_catalog_env, log_level_env,
}
use capcom.Config.Load.{Config, load_from_lookup}
use capcom.Config.Safe.{IsSane, load_from_lookup-IsSane}

abbrev parsers : Parsers
parsers = record {
  to_lower = λ s. s;
  parse_bool = λ s. if s == "true" then ok true else ok false;
  parse_duration = λ _. ok (pos 5);
  scan_int = λ _. ok (pos 8);
  decode_base64 = λ s. ok (s, 32);
  split_commas = λ s. s ∷ [];
  unmarshal_catalog = λ _. ok [];
  is_price = λ _. true;
  format_int = λ _. "0";
}

abbrev hosted : Lookup
hosted name =
    if name == "CAPCOM_DEPLOYMENT_MODE"
    then some "hosted"
    else if name == "CAPCOM_SYNC_MAX_CONCURRENCY"
    then some "8"
    else none

abbrev config : Config
config = record {
  http = record {
    addr = ":8080";
    read_header_timeout = 5000000000;
    shutdown_timeout = 10000000000;
  };
  database = record {
    url = "";
    max_open_conns = 10;
    max_idle_conns = 5;
    conn_max_lifetime = 1800000000000;
  };
  secret_key = none;
  security = record {
    admin_token = "";
    allowed_origins = "http://localhost:3000" ∷ "http://127.0.0.1:3000" ∷ [];
    secure_cookies = true;
    deployment_mode = "hosted";
  };
  service_version = "dev";
  sync = record {
    worker_enabled = true;
    worker_tick = 5000000000;
    max_concurrency = 8;
    request_timeout = 30000000000;
    missing_threshold = 3;
  };
  telemetry = record {
    worker_enabled = true;
    worker_tick = 60000000000;
    request_timeout = 30000000000;
    model_catalog = [];
  };
  log_level = "info";
}

loaded : load_from_lookup parsers hosted ≡ ok config
unfolding load_from_lookup given secret_key_env duration_env log_level_env int_env positive_int_env
    bool_env model_catalog_env string_env string_list_env
loaded = refl

load_from_lookup-IsSane_example : IsSane config
load_from_lookup-IsSane_example = load_from_lookup-IsSane parsers hosted config loaded

abbrev place : ℕ → String → Error
place n t = message t

abbrev env_lines : List String
env_lines = "# local" ∷ "A=1" ∷ " A = \"2\" " ∷ []

loads : load_dot_env place (ok (some (env_lines, none))) ≡ ok (("A", "2") ∷ [])
unfolding load_dot_env load_lines parse_line cut clean_dot_env_value set_value trim_space
loads = refl

merged_lookup-load_example :
    merged_lookup (("A", "2") ∷ []) (λ k. none) "A" ≡ last_value place 0 "A" env_lines none
merged_lookup-load_example =
    merged_lookup-load place env_lines (("A", "2") ∷ []) none (λ k. none) "A" loads
