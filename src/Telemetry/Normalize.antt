-- ===== src/Telemetry/Normalize.antt =====
-- `normalize` of internal/services/telemetry.go. A failed normalization leaves nothing behind but
-- the deletions in a map that the caller shares.
use capcom.Prelude.{
  String, Bool, true, false, ◌||◌, ◌==◌, nat_eq, if◌then◌else◌, Option, none, some, List, [], ◌∷◌,
}
use capcom.Prelude.Text.{trim_space, blank}
use capcom.Errors.{Error, sentinel, because, Result, ok, err}
use capcom.Errors.Sentinel.{invalid_usage_observation}
use capcom.Effects.{in_context}
use capcom.Domain.Values.{Fields, end, text, put, delete}
use capcom.Domain.Runtime.{Time}
use capcom.Domain.Telemetry.{Int64, Decimal, UsageObservation, is_negative, is_positive, add64}
use capcom.Telemetry.Catalog.{Resolver, ModelMetadata}
use capcom.Telemetry.Costs.{Rationals, estimated_token_cost, sum_decimal_pointers}

-- The resolver of models, the clock, math/big and the arithmetic of float64.
pub record Env : Type 1 where
  pub models : Option Resolver
  pub now : Time
  pub rationals : Rationals
  pub Float : Type 0
  pub float_of : Int64 → Float
  pub divide : Float → Float → Float
  pub at_least : Float → Float → Bool
  pub nine_tenths : Float
  pub eight_tenths : Float

infixl 10 ◌and_then◌
abbrev pub ◌and_then◌ {ℓ κ} : {A : Type ℓ} {B : Type κ} → Result A → (A → Result B) → Result B
(ok a) and_then f = f a
(err e) and_then f = err e

abbrev invalid {ℓ} : {A : Type ℓ} → String → Result A
invalid t = err (because (sentinel invalid_usage_observation) t)

abbrev pub any_negative : List Int64 → Bool
any_negative [] = false
any_negative (n ∷ l) = is_negative n || any_negative l

abbrev pub entries : Option Fields → Fields
entries none = end
entries (some m) = m

unfoldable pub without_content : Fields → Fields
unfolding delete
without_content m = delete "output" (delete "input" (delete "completion" (delete "prompt" m)))

-- `observation.InputCostUSD == nil && metadata.InputCostPer1MTokens != nil`
abbrev pub estimated :
    Rationals → String → Int64 → Option Decimal → Option Decimal → Result (Option Decimal)
estimated rationals said tokens (some cost) price = ok (some cost)
estimated rationals said tokens none none = ok none
estimated rationals said tokens none (some price) =
    in_context said (estimated_token_cost rationals tokens price) and_then λ cost. ok (some cost)

abbrev pub summed :
    Rationals → Option Decimal → Option Decimal → Option Decimal → Result (Option Decimal)
summed rationals input output (some total) = ok (some total)
summed rationals input output none =
    in_context "estimate total cost" (sum_decimal_pointers rationals (input ∷ output ∷ []))

abbrev is_given {ℓ} : {A : Type ℓ} → Option A → Bool
is_given none = false
is_given (some _) = true

-- The note that a cost is an estimate.
unfoldable pub with_quality : String → Option Decimal → Option Decimal → Fields → Fields
unfolding put
with_quality version input output m =
    if is_given input || is_given output
    then put "model_metadata_version" (text version) (put "cost_quality" (text "estimated") m)
    else m

unfoldable pub with_savings : Rationals → Int64 → Option Decimal → Fields → Result Fields
unfolding put estimated_token_cost
with_savings rationals cached none m = ok m
with_savings rationals cached (some price) m =
    if is_positive cached
    then in_context "estimate cache savings" (estimated_token_cost rationals cached price)
      and_then (λ savings. ok (put "estimated_cache_savings_usd" (text savings) m))
    else ok m

abbrev pub window_of : Option Int64 → Int64 → Option Int64
window_of (some n) known = some n
window_of none known = if is_positive known then some known else none

module _ (env : Env) where
  unfoldable pub check_observation : UsageObservation env.Float → Option Error
  unfolding trim_space
  check_observation o =
      if o.source == "" || blank o.source_observation_id || blank o.runtime_connection_id
      then some (
          because (sentinel invalid_usage_observation)
            "source, source observation id, and runtime connection id are required")
      else if any_negative (
          o.request_count ∷ o.input_tokens ∷ o.output_tokens ∷ o.cached_input_tokens
          ∷ o.cache_creation_tokens ∷ o.reasoning_tokens ∷ o.total_tokens ∷ o.error_count ∷ [])
      then some (
          because (sentinel invalid_usage_observation)
            "token and request counts cannot be negative")
      else none

  -- The total, the time and the attributes.
  unfoldable pub completed : UsageObservation env.Float → UsageObservation env.Float
  unfolding without_content
  completed o = record o {
    total_tokens =
        if nat_eq o.total_tokens 0 then add64 o.input_tokens o.output_tokens else o.total_tokens;
    observed_at = if nat_eq o.observed_at 0 then env.now else o.observed_at;
    attributes = some (without_content (entries o.attributes));
  }

  unfoldable pub with_metadata :
      ModelMetadata → UsageObservation env.Float → Result (UsageObservation env.Float)
  unfolding with_quality with_savings estimated_token_cost sum_decimal_pointers
  with_metadata metadata o =
      estimated env.rationals "estimate input cost" o.input_tokens o.input_cost_usd
        metadata.input_cost_per_1m_tokens
      and_then λ input.
          estimated env.rationals "estimate output cost" o.output_tokens o.output_cost_usd
            metadata.output_cost_per_1m_tokens
          and_then λ output. summed env.rationals input output o.total_cost_usd and_then λ total.
              with_savings env.rationals o.cached_input_tokens metadata.input_cost_per_1m_tokens
                (with_quality metadata.version input output (entries o.attributes))
              and_then λ attributes. ok record o {
                model_metadata_version = metadata.version;
                context_window_tokens =
                    window_of o.context_window_tokens metadata.context_window_tokens;
                input_cost_usd = input;
                output_cost_usd = output;
                total_cost_usd = total;
                attributes = some attributes;
              }

  unfoldable pub resolved : UsageObservation env.Float → Result (UsageObservation env.Float)
  unfolding with_metadata
  resolved o = elim env.models [
    | none ↦ ok o
    | some resolve ↦
        if o.model == ""
        then ok o
        else in_context "resolve model metadata" (resolve o.provider o.model) and_then λ found.
            elim found [ none ↦ ok o | some metadata ↦ with_metadata metadata o ]
  ]

  -- `switch` on the utilization
  unfoldable pub with_pressure : env.Float → Fields → Fields
  unfolding put
  with_pressure utilization m =
      if env.at_least utilization env.nine_tenths
      then put "context_pressure" (text "critical") m
      else if env.at_least utilization env.eight_tenths
      then put "context_pressure" (text "high") m
      else m

  unfoldable pub with_utilization : UsageObservation env.Float → UsageObservation env.Float
  unfolding with_pressure put
  with_utilization o = elim o.context_window_tokens [
    | none ↦ o
    | some window ↦
        let utilization = env.divide (env.float_of o.input_tokens) (env.float_of window) in
        if is_positive window
        then record o {
          context_utilization = some utilization;
          attributes = some (
              with_pressure utilization
                (put "context_utilization_quality" (text "estimated") (entries o.attributes)));
        }
        else o
  ]

  unfoldable pub normalize : UsageObservation env.Float → Result (UsageObservation env.Float)
  unfolding check_observation completed resolved with_utilization
  normalize o = elim (check_observation o) [
    | some e ↦ err e
    | none ↦ resolved (completed o) and_then λ o'. ok (with_utilization o')
  ]
