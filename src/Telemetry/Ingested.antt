-- ===== src/Telemetry/Ingested.antt =====
-- What `Ingest` of internal/services/telemetry.go hands to the store, and what it counts.
use capcom.Prelude.{
  ℕ, ◌+◌, Bool, true, false, ◌≡◌, refl, sym, ◌⊎◌, inl, inr, some, List, [], ◌∷◌, Bool-cases,
  Option-cases, arith,
}
use mathlib.Core.Path.{subst}
use capcom.Prelude.Bytes.{length}
use capcom.Errors.{Error, is, Result-cases}
use capcom.Errors.Sentinel.{unknown_runtime_connection}
use capcom.Domain.Telemetry.{UsageObservation}
use capcom.Sync.Validated.{Each}
use capcom.Telemetry.Normalize.{Env, normalize}
use capcom.Telemetry.Normalized.{IsNormalized, normalize-IsNormalized}
use capcom.Telemetry.Service.{Ingested, rejected_with, stored, Stored, Upsert, ingest_into, ingest}

abbrev pub total : Ingested → ℕ
total c = c.accepted + c.rejected + c.deduplicated

-- The error of a database that stopped the loop.
abbrev pub IsStopped : Ingested → Type 0
IsStopped c = (e : Error) × (c.error ≡ some e) × (is unknown_runtime_connection e ≡ false)

-- Nothing was rejected, or there is an error that says so.
abbrev pub IsReported : Ingested → Type 0
IsReported c = (c.rejected ≡ 0) ⊎ ((e : Error) × (c.error ≡ some e))

rejected_with-IsReported : (e : Error) (c : Ingested) → IsReported (rejected_with e c)
rejected_with-IsReported e c = elim (Option-cases c.error) [
  | inl p ↦ inr (e, ground (arith, p))
  | inr (first, p) ↦ inr (first, ground (arith, p))
]

stored-IsReported : (b : Bool) (c : Ingested) → IsReported c → IsReported (stored b c)
stored-IsReported true c h = h
stored-IsReported false c h = h

total-stored : (b : Bool) (c : Ingested) → total (stored b c) ≡ total c + 1
total-stored true c = omega arith
total-stored false c = omega arith

total-rejected_with : (e : Error) (c : Ingested) → total (rejected_with e c) ≡ total c + 1
total-rejected_with e c = omega arith

-- Everything that was handed to the store was normalized, every observation was counted unless the
-- database stopped the loop, and what was rejected is reported.
pub record IsIngested {Float : Type 0} (n : ℕ) (c : Ingested) (log : List (UsageObservation Float))
    : Type 0 where
  pub normalized : Each IsNormalized log
  pub counted : (total c ≡ n) ⊎ IsStopped c
  pub reported : IsReported c

module _ (env : Env) (upsert : Upsert env) where
  moved :
      (n : ℕ) (a b : Ingested × Stored env) → a ≡ b → IsIngested n b.0 b.1 → IsIngested n a.0 a.1
  moved n a b e i = subst (λ (x : Ingested × Stored env). IsIngested n x.0 x.1) (sym e) i

  ingest_into-IsIngested :
      (n : ℕ) (observations : Stored env) (c : Ingested) (log : Stored env)
      → Each IsNormalized log
      → total c + length observations ≡ n
      → IsReported c
      → IsIngested n
          (ingest_into env upsert observations c log).0
          (ingest_into env upsert observations c log).1
  unfolding ingest_into length
  ingest_into-IsIngested n [] c log h t r = record {
    normalized = h;
    counted = inl (omega (arith, t));
    reported = r;
  }
  ingest_into-IsIngested n (o ∷ observations) c log h t r =
      let goal = ingest_into env upsert (o ∷ observations) c log in
      elim (Result-cases (normalize env o)) [
        | inr (e, p) ↦
            moved n goal (ingest_into env upsert observations (rejected_with e c) log)
              (ground (arith, p))
              (ingest_into-IsIngested n observations (rejected_with e c) log h (omega (arith, t))
                (rejected_with-IsReported e c))
        | inl (o', p) ↦
            let log' = o' ∷ log in
            let h' : Each IsNormalized log' = (normalize-IsNormalized env o o' p, h) in
            elim (Result-cases (upsert log o')) [
              | inl (b, q) ↦
                  moved n goal (ingest_into env upsert observations (stored b c) log')
                    (ground (arith, p, q))
                    (ingest_into-IsIngested n observations (stored b c) log' h'
                      (omega (arith, t, total-stored b c)) (stored-IsReported b c r))
              | inr (e, q) ↦ elim (Bool-cases (is unknown_runtime_connection e)) [
                | inl y ↦
                    moved n goal (ingest_into env upsert observations (rejected_with e c) log')
                      (ground (arith, p, q, y))
                      (ingest_into-IsIngested n observations (rejected_with e c) log' h'
                        (omega (arith, t)) (rejected_with-IsReported e c))
                | inr x ↦
                    moved n goal (record c { error = some e }, log') (ground (arith, p, q, x))
                      (record {
                        normalized = h';
                        counted = inr (e, refl, x);
                        reported = inr (e, refl);
                      })
              ]
            ]
      ]

-- Every observation that is handed to the store has a source, ids, seven counts that are not
-- negative, a total that is not zero or else is the sum of the input and output tokens in 64 bits,
-- and no attribute under the keys prompt, completion, input and output, if this holds of those
-- before. Accepted,
-- rejected and deduplicated observations make up all that came, unless an error of the store other
-- than an unknown connection ended the loop, which is then returned; and where one was rejected an
-- error is returned.
pub ingest-IsIngested :
    (env : Env) (upsert : Upsert env) (observations log : Stored env)
    → Each IsNormalized log
    → IsIngested
        (length observations)
        (ingest env upsert observations log).0
        (ingest env upsert observations log).1
unfolding ingest
ingest-IsIngested env upsert observations log h =
    ingest_into-IsIngested env upsert (length observations) observations _ log h (omega arith)
      (inl refl)
