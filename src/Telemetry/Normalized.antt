-- ===== src/Telemetry/Normalized.antt =====
-- What `normalize` of internal/services/telemetry.go lets through.
use capcom.Prelude.{
  false, nat_eq, ◌⊎◌, ◌==◌, Bool-cases, Option-cases, ◌≡◌, refl, inl, inr, Option, none, some, [],
  ◌∷◌, arith,
}
use mathlib.Core.Path.{subst}
use capcom.Prelude.Text.{blank}
use capcom.Errors.{ok, Result-cases}
use capcom.Domain.Values.{text, put}
use capcom.Domain.Telemetry.{Decimal, UsageObservation, is_positive, add64}
use capcom.Telemetry.Catalog.{ModelMetadata}
use capcom.Telemetry.Normalize.{
  Env, ◌and_then◌, estimated, summed, window_of, any_negative, entries, with_quality, with_savings,
  check_observation, completed, with_metadata, resolved, with_pressure, with_utilization, normalize,
}
use capcom.Telemetry.Content.{
  IsContentFree, without_content-IsContentFree, put-IsContentFree, with_quality-IsContentFree,
  with_savings-IsContentFree, with_pressure-IsContentFree,
}

pub record IsNormalized {Float : Type 0} (o : UsageObservation Float) : Type 0 where
  pub sourced : (o.source == "") ≡ false
  pub identified : blank o.source_observation_id ≡ false
  pub connected : blank o.runtime_connection_id ≡ false
  pub counts :
      any_negative (
        o.request_count ∷ o.input_tokens ∷ o.output_tokens ∷ o.cached_input_tokens
        ∷ o.cache_creation_tokens ∷ o.reasoning_tokens ∷ o.error_count ∷ [])
      ≡ false
  -- a total of zero is replaced by the sum, in 64 bits
  pub total :
      ((nat_eq o.total_tokens 0 ≡ false) ⊎ (o.total_tokens ≡ add64 o.input_tokens o.output_tokens))
  pub content : IsContentFree (entries o.attributes)

ok_all {ℓ κ} : {A : Type ℓ} (P : A → Type κ) (a b : A) → ok b ≡ ok a → P b → P a
ok_all P a b h p = let e : b ≡ a = cc in subst P e p

module _ (env : Env) where
  with_total :
      (metadata : ModelMetadata) (o o' : UsageObservation env.Float)
      (input output total : Option Decimal)
      → IsNormalized o
      → (with_savings env.rationals o.cached_input_tokens metadata.input_cost_per_1m_tokens
            (with_quality metadata.version input output (entries o.attributes))
          and_then λ attributes. ok record o {
            model_metadata_version = metadata.version;
            context_window_tokens =
                window_of o.context_window_tokens metadata.context_window_tokens;
            input_cost_usd = input;
            output_cost_usd = output;
            total_cost_usd = total;
            attributes = some attributes;
          })
        ≡ ok o'
      → IsNormalized o'
  with_total metadata o o' input output total n h =
      let m = with_quality metadata.version input output (entries o.attributes) in
      let price = metadata.input_cost_per_1m_tokens in
      elim (Result-cases (with_savings env.rationals o.cached_input_tokens price m)) [
        | inr (e, p) ↦ absurd (ground (arith, h, p))
        | inl (attributes, p) ↦
            let free =
              with_savings-IsContentFree env.rationals o.cached_input_tokens price m attributes p (
                with_quality-IsContentFree metadata.version input output (entries o.attributes)
                  n.content) in
            let o2 = record o {
              model_metadata_version = metadata.version;
              context_window_tokens =
                  window_of o.context_window_tokens metadata.context_window_tokens;
              input_cost_usd = input;
              output_cost_usd = output;
              total_cost_usd = total;
              attributes = some attributes;
            } in
            ok_all IsNormalized o' o2 (ground (arith, h, p)) (record {
              sourced = n.sourced;
              identified = n.identified;
              connected = n.connected;
              counts = n.counts;
              total = n.total;
              content = free;
            })
      ]

  with_metadata-IsNormalized :
      (metadata : ModelMetadata) (o o' : UsageObservation env.Float)
      → with_metadata env metadata o ≡ ok o'
      → IsNormalized o
      → IsNormalized o'
  unfolding with_metadata
  with_metadata-IsNormalized metadata o o' h n =
      let price = metadata.input_cost_per_1m_tokens in
      let first =
        estimated env.rationals "estimate input cost" o.input_tokens o.input_cost_usd price in
      let second =
        estimated env.rationals "estimate output cost" o.output_tokens o.output_cost_usd
          metadata.output_cost_per_1m_tokens in
      elim (Result-cases first) [
        | inr (e, p) ↦ absurd (ground (arith, h, p))
        | inl (input, p) ↦ elim (Result-cases second) [
          | inr (e, q) ↦ absurd (ground (arith, h, p, q))
          | inl (output, q) ↦
              elim (Result-cases (summed env.rationals input output o.total_cost_usd)) [
                | inr (e, r) ↦ absurd (ground (arith, h, p, q, r))
                | inl (total, r) ↦
                    with_total metadata o o' input output total n (ground (arith, h, p, q, r))
              ]
        ]
      ]

  resolved-IsNormalized :
      (o o' : UsageObservation env.Float)
      → resolved env o ≡ ok o'
      → IsNormalized o
      → IsNormalized o'
  unfolding resolved
  resolved-IsNormalized o o' h n = elim (Option-cases env.models) [
    | inl e ↦ ok_all IsNormalized o' o (ground (arith, h, e)) n
    | inr (resolve, e) ↦ elim (Bool-cases (o.model == "")) [
      | inl y ↦ ok_all IsNormalized o' o (ground (arith, h, e, y)) n
      | inr m ↦ elim (Result-cases (resolve o.provider o.model)) [
        | inr (x, p) ↦ absurd (ground (arith, h, e, m, p))
        | inl (none, p) ↦ ok_all IsNormalized o' o (ground (arith, h, e, m, p)) n
        | inl (some metadata, p) ↦
            with_metadata-IsNormalized metadata o o' (ground (arith, h, e, m, p)) n
      ]
    ]
  ]

  with_utilization-IsNormalized :
      (o : UsageObservation env.Float) → IsNormalized o → IsNormalized (with_utilization env o)
  unfolding with_utilization
  with_utilization-IsNormalized o n = elim (Option-cases o.context_window_tokens) [
    | inl e ↦ ok_all IsNormalized (with_utilization env o) o (ground (arith, e)) n
    | inr (window, e) ↦ elim (Bool-cases (is_positive window)) [
      | inr k ↦ ok_all IsNormalized (with_utilization env o) o (ground (arith, e, k)) n
      | inl y ↦
          let m = put "context_utilization_quality" (text "estimated") (entries o.attributes) in
          let u = env.divide (env.float_of o.input_tokens) (env.float_of window) in
          let o2 = record o {
            context_utilization = some u;
            attributes = some (with_pressure env u m);
          } in
          ok_all IsNormalized (with_utilization env o) o2 (ground (arith, e, y)) (record {
            sourced = n.sourced;
            identified = n.identified;
            connected = n.connected;
            counts = n.counts;
            total = n.total;
            content = with_pressure-IsContentFree env u m (
                put-IsContentFree "context_utilization_quality" _ _ (refl, refl, refl, refl)
                  n.content);
          })
    ]
  ]

  completed-IsNormalized :
      (o : UsageObservation env.Float)
      → check_observation env o ≡ none
      → IsNormalized (completed env o)
  unfolding check_observation completed
  completed-IsNormalized o h = record {
    sourced = ground (arith, h);
    identified = ground (arith, h);
    connected = ground (arith, h);
    counts = ground (arith, h);
    total = ground arith;
    content = without_content-IsContentFree (entries o.attributes);
  }

  pub normalize-IsNormalized :
      (o o' : UsageObservation env.Float) → normalize env o ≡ ok o' → IsNormalized o'
  unfolding normalize
  normalize-IsNormalized o o' h = elim (Option-cases (check_observation env o)) [
    | inr (e, p) ↦ absurd (ground (arith, h, p))
    | inl p ↦ elim (Result-cases (resolved env (completed env o))) [
      | inr (e, q) ↦ absurd (ground (arith, h, p, q))
      | inl (r, q) ↦ ok_all IsNormalized o' (with_utilization env r) (ground (arith, h, p, q)) (
          with_utilization-IsNormalized r
            (resolved-IsNormalized (completed env o) r q (completed-IsNormalized o p)))
    ]
  ]
