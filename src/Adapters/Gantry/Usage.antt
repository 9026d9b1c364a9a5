-- ===== src/Adapters/Gantry/Usage.antt =====
-- `QueryUsage` of internal/adapters/gantry/usage.go.
use capcom.Prelude.{
  ◌/◌, String, ◌<>◌, Bool, not, ◌==◌, nat_eq, if◌then◌else◌, Option, none, some, List, [], ◌∷◌, map,
}
use capcom.Prelude.Text.{trim_space, blank}
use capcom.Errors.{Result, ok, err}
use capcom.Effects.{Effect, ◌>>=◌, read, in_context}
use capcom.Domain.Values.{end, field, text}
use capcom.Domain.Runtime.{Time, RuntimeConnection}
use capcom.Domain.Telemetry.{
  Int64, UsageObservation, UsageQuery, is_positive, add64, source_gantry_native,
}
use capcom.Adapters.Http.{Web, Requests, do_json as http_json}
use capcom.Adapters.Gantry.Dto.{Json}
use capcom.Adapters.Gantry.Client.{do_json}

pub record GantryUsageRecord : Type 0 where
  pub id : String
  pub agent_id : String
  pub run_id : String
  pub job_id : String
  pub model : String
  pub provider : String
  pub request_count : Int64
  pub input_tokens : Int64
  pub output_tokens : Int64
  pub started_at : String
  pub ended_at : String
  pub timestamp : String

-- A nil slice is `none`.
pub record GantryUsageEnvelope : Type 0 where
  pub usage : Option (List GantryUsageRecord)
  pub data_records : Option (List GantryUsageRecord)

-- time, strconv, crypto/sha256 with encoding/hex, net/url and encoding/json. `encode` is
-- `url.Values.Encode`, which sorts by key.
pub record UsageCodec : Type 0 where
  pub format : Time → String
  pub format_nano : Time → String
  pub format_int : Int64 → String
  pub sha256_hex : String → String
  pub encode : List (String × String) → String
  pub records : String → Result (List GantryUsageRecord)
  pub envelope : String → Result GantryUsageEnvelope

abbrev set_if : Bool → String → String → List (String × String) → List (String × String)
set_if given key value values = if given then (key, value) ∷ values else values

unfoldable pub usage_values : UsageCodec → UsageQuery → List (String × String)
usage_values codec query = set_if (not (nat_eq query.from 0)) "from" (codec.format query.from) (
    set_if (not (nat_eq query.to 0)) "to" (codec.format query.to) (
      set_if (not (query.runtime_agent_id == "")) "agent" query.runtime_agent_id (
        set_if (not (query.runtime_execution_id == "")) "run" query.runtime_execution_id (
          set_if (not (query.runtime_job_id == "")) "job" query.runtime_job_id (
            set_if (not (query.model == "")) "model" query.model (
              set_if (is_positive query.interval) "interval"
                (codec.format_int (query.interval / 1000000000) <> "s")
                (set_if (not (query.grouping_dimension == "")) "groupBy" query.grouping_dimension
                  [])))))))

unfoldable pub decode_gantry_usage : UsageCodec → String → Result (List GantryUsageRecord)
decode_gantry_usage codec payload = elim (codec.records payload) [
  | ok records ↦ ok records
  | err _ ↦ elim (codec.envelope payload) [
    | err e ↦ err e
    | ok e ↦ elim e.usage [
      | some records ↦ ok records
      | none ↦ elim e.data_records [ some records ↦ ok records | none ↦ ok [] ]
    ]
  ]
]

unfoldable pub parse_usage_time : Web → String → Option Time
unfolding trim_space
parse_usage_time web value = if blank value then none else web.parse_time value

-- The first of the texts that is a time, or else the end of the query, or else now.
unfoldable pub first_usage_time : Web → Time → List String → Time → Time
unfolding parse_usage_time
first_usage_time web now [] to = if nat_eq to 0 then now else to
first_usage_time web now (value ∷ values) to =
    let rest = first_usage_time web now values to in
    elim (parse_usage_time web value) [ some t ↦ t | none ↦ rest ]

unfoldable pub stable_usage_id : UsageCodec → GantryUsageRecord → Time → String
stable_usage_id codec r observed_at = codec.sha256_hex (
    r.agent_id
    <> ("\0"
        <> (r.run_id
            <> ("\0"
                <> (r.job_id <> ("\0" <> (r.model <> ("\0" <> codec.format_nano observed_at))))))))

abbrev source_id : UsageCodec → GantryUsageRecord → Time → String
source_id codec r observed_at =
    let id = trim_space r.id in if id == "" then stable_usage_id codec r observed_at else id

-- One turn of the loop over the records.
unfoldable pub usage_observation :
    {Float : Type 0}
    → Web
    → UsageCodec
    → String
    → Time
    → Time
    → GantryUsageRecord
    → UsageObservation Float
unfolding first_usage_time stable_usage_id parse_usage_time trim_space
usage_observation web codec connection_id now to r =
    let observed_at = first_usage_time web now (r.timestamp ∷ r.ended_at ∷ r.started_at ∷ []) to in
    record {
      source = source_gantry_native;
      source_observation_id = source_id codec r observed_at;
      runtime_connection_id = connection_id;
      runtime_agent_id = r.agent_id;
      runtime_execution_id = if r.run_id == "" then r.job_id else r.run_id;
      parent_execution_id = "";
      thread_id = "";
      model = r.model;
      provider = r.provider;
      request_count = r.request_count;
      input_tokens = r.input_tokens;
      output_tokens = r.output_tokens;
      cached_input_tokens = 0;
      cache_creation_tokens = 0;
      reasoning_tokens = 0;
      total_tokens = add64 r.input_tokens r.output_tokens;
      context_window_tokens = none;
      context_utilization = none;
      input_cost_usd = none;
      output_cost_usd = none;
      total_cost_usd = none;
      duration_ms = none;
      time_to_first_token_ms = none;
      error_count = 0;
      started_at = parse_usage_time web r.started_at;
      ended_at = parse_usage_time web r.ended_at;
      observed_at = observed_at;
      model_metadata_version = "";
      attributes = some (field "job_id" (text r.job_id) (field "quality" (text "native") end));
    }

abbrev usage_path : UsageCodec → UsageQuery → String
usage_path codec query =
    let encoded = codec.encode (usage_values codec query) in
    if encoded == "" then "/v1/usage" else "/v1/usage?" <> encoded

unfoldable pub query_usage :
    {Float : Type 0}
    → Web
    → Json
    → UsageCodec
    → RuntimeConnection
    → UsageQuery
    → Effect Requests (List (UsageObservation Float))
unfolding usage_values decode_gantry_usage usage_observation http_json
query_usage web json codec conn query = do
  payload ← do_json web conn "GET" (usage_path codec query) none json.raw_message
  records ← read (λ _. in_context "decode gantry usage" (decode_gantry_usage codec payload))
  read (λ sent. ok (map (usage_observation web codec conn.id (web.now sent) query.to) records))
