-- ===== src/Workers/Collected.antt =====
-- What a collection of internal/workers/telemetry.go leaves behind.
use capcom.Prelude.{ℕ, ◌+◌, ◌≡◌, refl, sym, ◌⊎◌, inl, inr, Option, some, List, ◌∷◌, arith}
use mathlib.Core.Path.{subst}
use capcom.Prelude.Bytes.{length}
use capcom.Errors.{Error, ok, Result-cases}
use capcom.Domain.Runtime.{RuntimeConnection}
use capcom.Domain.Telemetry.{UsageObservation, TelemetryIngestionRun}
use capcom.Telemetry.Normalize.{Env}
use capcom.Sync.Validated.{Each}
use capcom.Telemetry.Normalized.{IsNormalized}
use capcom.Telemetry.Service.{Ingested, ingest}
use capcom.Telemetry.Ingested.{total, IsStopped, IsReported, ingest-IsIngested}
use capcom.Workers.Telemetry.{
  created, queried, finished, World, Services, query_of, new_run, counted, finish, collect_run,
  collect_one,
}

-- One run was created, one query was made and FinishIngestionRun was called for the run, whatever
-- it answered: with an error, or with counts that show that all that the runtime reported is stored.
pub record IsFinished (env : Env) (services : Services env) (conn : RuntimeConnection)
    (w w' : World env) : Type 0 where
  pub run : TelemetryIngestionRun
  pub last : TelemetryIngestionRun
  pub error : Option Error
  pub answer : Option Error
  pub same_run : last.id ≡ run.id
  pub logged :
      w'.log ≡ finished last error answer ∷ queried (query_of env.now conn) ∷ created run ∷ w.log
  pub normalized : Each IsNormalized w'.stored
  pub outcome :
      ((e : Error) × (error ≡ some e))
      ⊎ ((observations : List (UsageObservation env.Float)) × (services.query_usage
              (record w { log = created run ∷ w.log })
              conn
              (query_of env.now conn)
            ≡ ok observations)
          × (last.rejected ≡ 0)
          × (last.accepted + last.deduplicated ≡ length observations))

-- A result without an error rejected nothing and was not stopped.
nothing_lost :
    (n : ℕ) (c : Ingested)
    → (total c ≡ n) ⊎ IsStopped c
    → IsReported c
    → ((e : Error) × (c.error ≡ some e)) ⊎ ((c.rejected ≡ 0) × (c.accepted + c.deduplicated ≡ n))
nothing_lost n c t (inr reported) = inl reported
nothing_lost n c (inr (e, p, q)) (inl r) = inl (e, p)
nothing_lost n c (inl t) (inl r) = inr (r, omega (arith, t, r))

module _ (env : Env) (services : Services env) (conn : RuntimeConnection) where
  settled :
      (w a b : World env)
      → a ≡ b
      → IsFinished env services conn w b
      → (a ≡ w) ⊎ IsFinished env services conn w a
  settled w a b e f = inr (subst (IsFinished env services conn w) (sym e) f)

  -- A collection from a connection changes nothing, where its run could not be created, or creates
  -- one run, makes one query and calls FinishIngestionRun once for it: with an error, or with counts that show that
  -- nothing of what was read was rejected and all of it was stored or had been stored before. What
  -- the store has been given stays normalized.
  pub collect_one-IsFinished :
      (w : World env)
      → Each IsNormalized w.stored
      → (collect_one env services conn w ≡ w)
        ⊎ IsFinished env services conn w (collect_one env services conn w)
  unfolding collect_one collect_run
  collect_one-IsFinished w h =
      elim (Result-cases (services.create_ingestion_run w (new_run env services conn))) [
        | inr (e, p) ↦ inl (ground (arith, p))
        | inl (run, p) ↦
            let query = query_of env.now conn in
            let begun = record w { log = created run ∷ w.log } in
            let asked = record begun { log = queried query ∷ begun.log } in
            elim (Result-cases (services.query_usage begun conn query)) [
              | inr (e, q) ↦
                  settled w (collect_one env services conn w)
                    (finish env services run (some e) asked) (ground (arith, p, q))
                    (record {
                      run = run;
                      last = run;
                      error = some e;
                      answer = services.finish_ingestion_run asked run (some e);
                      same_run = refl;
                      logged = refl;
                      normalized = h;
                      outcome = inl (e, refl);
                    })
              | inl (observations, q) ↦
                  let result = ingest env services.upsert observations w.stored in
                  let i = ingest-IsIngested env services.upsert observations w.stored h in
                  settled w (collect_one env services conn w)
                    (finish env services (counted env result.0 run) result.0.error
                      (record asked { stored = result.1 }))
                    (ground (arith, p, q))
                    (record {
                      run = run;
                      last = counted env result.0 run;
                      error = result.0.error;
                      answer =
                          services.finish_ingestion_run (record asked { stored = result.1 })
                            (counted env result.0 run) result.0.error;
                      same_run = refl;
                      logged = refl;
                      normalized = i.normalized;
                      outcome =
                          elim (nothing_lost (length observations) result.0 i.counted i.reported) [
                            | inl error ↦ inl error
                            | inr (r, n) ↦ inr (observations, q, r, n)
                          ];
                    })
            ]
      ]
