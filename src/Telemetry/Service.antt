-- ===== src/Telemetry/Service.antt =====
-- `TelemetryService` of internal/services/telemetry.go over a log of what was handed to the store.
use capcom.Prelude.{
  ℕ, suc, ◌-◌, ◌*◌, String, Bool, true, false, not, ◌||◌, ltb, nat_eq, if◌then◌else◌, Option, none,
  some, List, [], ◌∷◌,
}
use capcom.Prelude.Text.{trim_space, blank}
use capcom.Errors.{Error, sentinel, because, is, Result, ok, err}
use capcom.Errors.Sentinel.{invalid_usage_query, unknown_runtime_connection}
use capcom.Domain.Telemetry.{UsageObservation, UsageQuery}
use capcom.Telemetry.Normalize.{Env, normalize}

-- What Ingest returns: the counters, and the error.
pub record Ingested : Type 0 where
  pub accepted : ℕ
  pub rejected : ℕ
  pub deduplicated : ℕ
  pub error : Option Error

abbrev first_error : Option Error → Error → Option Error
first_error none e = some e
first_error (some first) e = some first

abbrev pub rejected_with : Error → Ingested → Ingested
rejected_with e c = record c { rejected = suc c.rejected; error = first_error c.error e }

abbrev pub stored : Bool → Ingested → Ingested
stored true c = record c { accepted = suc c.accepted }
stored false c = record c { deduplicated = suc c.deduplicated }

-- A day in nanoseconds.
abbrev pub day : ℕ
day = 24 * 3600 * 1000000000

module _ (env : Env) where
  -- What was handed to `UpsertObservation`, the latest first.
  abbrev pub Stored : Type 0
  Stored = List (UsageObservation env.Float)

  -- `UpsertObservation`: whether a row was inserted. It may depend on what was handed over before.
  abbrev pub Upsert : Type 0
  Upsert = Stored → UsageObservation env.Float → Result Bool

  unfoldable pub ingest_into : Upsert → Stored → Ingested → Stored → Ingested × Stored
  unfolding normalize is
  ingest_into upsert [] c log = (c, log)
  ingest_into upsert (o ∷ observations) c log = elim (normalize env o) [
    | err e ↦ ingest_into upsert observations (rejected_with e c) log
    | ok o' ↦ elim (upsert log o') [
      | ok inserted ↦ ingest_into upsert observations (stored inserted c) (o' ∷ log)
      | err e ↦ elim (is unknown_runtime_connection e) [
        | true ↦ ingest_into upsert observations (rejected_with e c) (o' ∷ log)
        | false ↦ (record c { error = some e }, o' ∷ log)
      ]
    ]
  ]

  unfoldable pub ingest : Upsert → Stored → Stored → Ingested × Stored
  unfolding ingest_into
  ingest upsert observations log =
      ingest_into upsert observations
        (record { accepted = 0; rejected = 0; deduplicated = 0; error = none }) log

  -- The range of a query, where a missing end is now and a missing start a day before the end. A
  -- query that ends within a day of Go's zero time would start before that time.
  abbrev pub ranged : UsageQuery → UsageQuery
  ranged query =
      let to = if nat_eq query.to 0 then env.now else query.to in
      record query { to = to; from = if nat_eq query.from 0 then to - day else query.from }

  unfoldable pub check_range : UsageQuery → Result UsageQuery
  check_range query =
      let q = ranged query in
      if not (ltb q.from q.to) || ltb (90 * day) (q.to - q.from)
      then err (
          because (sentinel invalid_usage_query)
            "from must precede to and range must not exceed 90 days")
      else ok q

  -- `repository.Summary` is the argument.
  unfoldable pub summary {ℓ} : {S : Type ℓ} → (UsageQuery → Result S) → UsageQuery → Result S
  unfolding check_range
  summary select query = elim (check_range query) [ err e ↦ err e | ok q ↦ select q ]

-- `repository.LatestIngestionRun` is the argument.
unfoldable pub health {ℓ} : {R : Type ℓ} → (String → Result R) → String → Result R
unfolding trim_space
health latest runtime_id =
    if blank runtime_id
    then err (because (sentinel invalid_usage_query) "runtime id is required")
    else latest runtime_id
