-- ===== src/Examples/Usages.antt =====
-- Usage observations: one that is stored, one that was stored before, and one without a source.
use capcom.Prelude.{
  ℕ, String, true, false, ◌≡◌, refl, ◌⊎◌, none, some, List, [], ◌∷◌, ltb, ◌+◌, ◌-◌, ◌*◌, ◌^◌,
}
use capcom.Prelude.Bytes.{length}
use capcom.Errors.{ok}
use capcom.Domain.Values.{end, field, text, num}
use capcom.Domain.Telemetry.{UsageObservation, is_negative}
use capcom.Telemetry.Catalog.{new_model_catalog, resolve}
use capcom.Telemetry.Costs.{Rationals}
use capcom.Telemetry.Normalize.{Env, completed}
use capcom.Telemetry.Service.{Upsert, ingest, day}
use capcom.Domain.Runtime.{RuntimeConnection}
use capcom.Workers.Telemetry.{World, Services, window, overlap, query_of, is_collected, collect_one}
use capcom.Workers.Collected.{IsFinished, collect_one-IsFinished}
use capcom.Examples.Instances.{conn}
use capcom.Telemetry.Ingested.{IsIngested, ingest-IsIngested}

-- Numerals are not read: this catalog has no prices.
abbrev rationals : Rationals
rationals = record {
  Rat = ℕ;
  parse_rat = λ _. none;
  rat_of = λ n. n;
  add = λ a b. a + b;
  mul = λ a b. a;
  quo = λ a b. a;
  print_rat = λ _. "0.0000000000";
}

abbrev env : Env
env = record {
  models = some (
      resolve (λ s. s)
        (new_model_catalog (λ s. s)
          (record {
            provider = "";
            model = "m-1";
            context_window_tokens = 1000;
            input_cost_per_1m_tokens = none;
            output_cost_per_1m_tokens = none;
            version = "2";
          }
            ∷ [])));
  now = 100 * day;
  rationals = rationals;
  Float = ℕ × ℕ;
  float_of = λ n. (n, 1);
  divide = λ a b. (a.0, b.0);
  at_least = λ a b. ltb 0 a.0;
  nine_tenths = (9, 10);
  eight_tenths = (8, 10);
}

abbrev observation : String → UsageObservation env.Float
observation source = record {
  source = source;
  source_observation_id = "o-1";
  runtime_connection_id = "rt-1";
  runtime_agent_id = "";
  runtime_execution_id = "";
  parent_execution_id = "";
  thread_id = "";
  model = "m-1";
  provider = "p";
  request_count = 1;
  input_tokens = 950;
  output_tokens = 5;
  cached_input_tokens = 0;
  cache_creation_tokens = 0;
  reasoning_tokens = 0;
  total_tokens = 0;
  context_window_tokens = none;
  context_utilization = none;
  input_cost_usd = none;
  output_cost_usd = none;
  total_cost_usd = none;
  duration_ms = none;
  time_to_first_token_ms = none;
  error_count = 0;
  started_at = none;
  ended_at = none;
  observed_at = 0;
  model_metadata_version = "";
  attributes = some (field "prompt" (text "secret") (field "turn" (num 3) end));
}

abbrev upsert : Upsert env
upsert = λ log o. ok (elim log [ [] ↦ true | _ ∷ _ ↦ false ])

abbrev observations : List (UsageObservation env.Float)
observations = observation "otel" ∷ observation "" ∷ observation "otel" ∷ []

ingest-IsIngested_example :
    IsIngested 3 (ingest env upsert observations []).0 (ingest env upsert observations []).1
unfolding length
ingest-IsIngested_example = ingest-IsIngested env upsert observations [] tt

counted :
    ((ingest env upsert observations []).0.accepted ≡ 1)
    × ((ingest env upsert observations []).0.rejected ≡ 1)
    × ((ingest env upsert observations []).0.deduplicated ≡ 1)
unfolding ingest resolve new_model_catalog
counted = (refl, refl, refl)

-- Two counts that are not negative, whose sum is.
wrapped :
    is_negative
      (completed env
        (record (observation "otel") { input_tokens = 2 ^ 63 - 1; output_tokens = 1 })).total_tokens
    ≡ true
unfolding completed
wrapped = refl

abbrev connection : RuntimeConnection
connection = record conn { sync_enabled = true }

abbrev services : Services env
services = record {
  create_ingestion_run = λ w r. ok (record r { id = "run-1" });
  finish_ingestion_run = λ w run e. none;
  query_usage = λ w c q. ok (observation "gantry_native" ∷ observation "gantry_native" ∷ []);
  upsert = upsert;
  format = λ t. "";
}

abbrev start : World env
start = record { log = []; stored = [] }

collect_one-IsFinished_example :
    (collect_one env services connection start ≡ start)
    ⊎ IsFinished env services connection start (collect_one env services connection start)
collect_one-IsFinished_example = collect_one-IsFinished env services connection start tt

collected : is_collected (λ _. some (λ _. true)) connection ≡ true
unfolding is_collected
collected = refl

-- The window before the last five minutes that are over, and a minute more.
queried : ((query_of (12 * window) connection).from ≡ 10 * window + (window - overlap))
unfolding query_of
queried = refl
