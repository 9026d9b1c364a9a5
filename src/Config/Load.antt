-- ===== src/Config/Load.antt =====
-- `Config` and `LoadFromLookup` of internal/config/config.go.
use capcom.Prelude.{ℕ, ◌*◌, String, Bool, true, false, not, ◌&&◌, ◌==◌, Option, List, [], ◌∷◌}
use capcom.Errors.{message, Result, ok, err}
use capcom.Domain.Runtime.{Time}
use capcom.Config.Values.{
  ModelMetadataConfig, Parsers, Lookup, string_env, bool_env, int_env, positive_int_env,
  duration_env, secret_key_env, string_list_env, model_catalog_env, log_level_env,
}

pub record HttpConfig : Type 0 where
  pub addr : String
  pub read_header_timeout : Time
  pub shutdown_timeout : Time

pub record DatabaseConfig : Type 0 where
  pub url : String
  pub max_open_conns : ℕ
  pub max_idle_conns : ℕ
  pub conn_max_lifetime : Time

pub record SecurityConfig : Type 0 where
  pub admin_token : String
  pub allowed_origins : List String
  pub secure_cookies : Bool
  pub deployment_mode : String

pub record SyncConfig : Type 0 where
  pub worker_enabled : Bool
  pub worker_tick : Time
  pub max_concurrency : ℕ
  pub request_timeout : Time
  pub missing_threshold : ℕ

pub record TelemetryConfig : Type 0 where
  pub worker_enabled : Bool
  pub worker_tick : Time
  pub request_timeout : Time
  pub model_catalog : List ModelMetadataConfig

-- `secret_key` is `Secrets.Key`, `service_version` is `Service.Version`.
pub record Config : Type 0 where
  pub http : HttpConfig
  pub database : DatabaseConfig
  pub secret_key : Option (String × ℕ)
  pub security : SecurityConfig
  pub service_version : String
  pub sync : SyncConfig
  pub telemetry : TelemetryConfig
  pub log_level : String

-- Nanoseconds.
abbrev pub second : Time
second = 1000000000

abbrev pub minute : Time
minute = 60000000000

infixl 10 ◌>>=◌
abbrev pub ◌>>=◌ : {A B : Type 0} → Result A → (A → Result B) → Result B
ok a >>= f = f a
err e >>= f = err e

infixl 10 ◌>>◌
abbrev pub ◌>>◌ : {B : Type 0} → Result (Unit {0}) → Result B → Result B
m >> n = m >>= λ _. n

abbrev pub refuse_if : Bool → String → Result (Unit {0})
refuse_if true said = err (message said)
refuse_if false said = ok tt

abbrev pub default_origins : List String
default_origins = "http://localhost:3000" ∷ "http://127.0.0.1:3000" ∷ []

-- The database's and the sync worker's numbers.
unfoldable pub load_database : Parsers → Lookup → Result DatabaseConfig
load_database parse lookup = do
  conn_max_lifetime ← duration_env parse lookup "CAPCOM_DATABASE_CONN_MAX_LIFETIME" (30 * minute)
  max_open_conns ← int_env parse lookup "CAPCOM_DATABASE_MAX_OPEN_CONNS" 10
  max_idle_conns ← int_env parse lookup "CAPCOM_DATABASE_MAX_IDLE_CONNS" 5
  ok (record {
    url = string_env lookup "CAPCOM_DATABASE_URL" "";
    max_open_conns = max_open_conns;
    max_idle_conns = max_idle_conns;
    conn_max_lifetime = conn_max_lifetime;
  })

unfoldable pub load_sync : Parsers → Lookup → Result SyncConfig
load_sync parse lookup = do
  worker_tick ← duration_env parse lookup "CAPCOM_SYNC_WORKER_TICK" (5 * second)
  request_timeout ← duration_env parse lookup "CAPCOM_SYNC_REQUEST_TIMEOUT" (30 * second)
  max_concurrency ← positive_int_env parse lookup "CAPCOM_SYNC_MAX_CONCURRENCY" 4
  missing_threshold ← positive_int_env parse lookup "CAPCOM_SYNC_MISSING_THRESHOLD" 3
  worker_enabled ← bool_env parse lookup "CAPCOM_SYNC_WORKER_ENABLED" true
  ok (record {
    worker_enabled = worker_enabled;
    worker_tick = worker_tick;
    max_concurrency = max_concurrency;
    request_timeout = request_timeout;
    missing_threshold = missing_threshold;
  })

unfoldable pub load_telemetry : Parsers → Lookup → Result TelemetryConfig
load_telemetry parse lookup = do
  worker_enabled ← bool_env parse lookup "CAPCOM_TELEMETRY_WORKER_ENABLED" true
  worker_tick ← duration_env parse lookup "CAPCOM_TELEMETRY_WORKER_TICK" minute
  request_timeout ← duration_env parse lookup "CAPCOM_TELEMETRY_REQUEST_TIMEOUT" (30 * second)
  model_catalog ← model_catalog_env parse lookup "CAPCOM_MODEL_CATALOG_JSON"
  ok (record {
    worker_enabled = worker_enabled;
    worker_tick = worker_tick;
    request_timeout = request_timeout;
    model_catalog = model_catalog;
  })

unfoldable pub load_security : Parsers → Lookup → Result SecurityConfig
load_security parse lookup = do
  secure_cookies ← bool_env parse lookup "CAPCOM_SECURE_COOKIES" true
  let mode : String = parse.to_lower (string_env lookup "CAPCOM_DEPLOYMENT_MODE" "local")
  refuse_if (not (mode == "local") && not (mode == "hosted"))
      "CAPCOM_DEPLOYMENT_MODE must be local or hosted"
  let token : String = string_env lookup "CAPCOM_ADMIN_TOKEN" ""
  refuse_if (mode == "hosted" && not (token == ""))
      "CAPCOM_ADMIN_TOKEN must be unset in hosted mode"
  refuse_if (mode == "hosted" && not secure_cookies)
      "CAPCOM_SECURE_COOKIES must be true in hosted mode"
  ok (record {
    admin_token = token;
    allowed_origins = string_list_env parse lookup "CAPCOM_CORS_ALLOWED_ORIGINS" default_origins;
    secure_cookies = secure_cookies;
    deployment_mode = mode;
  })

unfoldable pub load_from_lookup : Parsers → Lookup → Result Config
unfolding load_database load_sync load_telemetry load_security
load_from_lookup parse lookup = do
  secret_key ← secret_key_env parse lookup "CAPCOM_SECRET_KEY"
  read_header_timeout ← duration_env parse lookup "CAPCOM_HTTP_READ_HEADER_TIMEOUT" (5 * second)
  shutdown_timeout ← duration_env parse lookup "CAPCOM_HTTP_SHUTDOWN_TIMEOUT" (10 * second)
  log_level ← log_level_env parse lookup "CAPCOM_LOG_LEVEL" "info"
  database ← load_database parse lookup
  sync ← load_sync parse lookup
  telemetry ← load_telemetry parse lookup
  security ← load_security parse lookup
  ok (record {
    http = record {
      addr = string_env lookup "CAPCOM_HTTP_ADDR" ":8080";
      read_header_timeout = read_header_timeout;
      shutdown_timeout = shutdown_timeout;
    };
    database = database;
    secret_key = secret_key;
    security = security;
    service_version = string_env lookup "CAPCOM_SERVICE_VERSION" "dev";
    sync = sync;
    telemetry = telemetry;
    log_level = log_level;
  })
