-- ===== src/Telemetry/Content.antt =====
-- Attributes in internal/services/telemetry.go that hold no text of a prompt or a response.
use capcom.Prelude.{String, false, ◌==◌, Bool-cases, ◌≡◌, refl, inl, inr, Option, none, some, arith}
use mathlib.Core.Path.{subst}
use capcom.Errors.{ok, Result-cases}
use capcom.Domain.Values.{Value, Fields, text, get, put, delete, get-put, get-delete}
use capcom.Domain.Telemetry.{Int64, Decimal, is_positive}
use capcom.Telemetry.Costs.{Rationals, estimated_token_cost}
use capcom.Telemetry.Normalize.{Env, without_content, with_quality, with_savings, with_pressure}

-- No attribute under the keys that `normalize` deletes.
pub record IsContentFree (m : Fields) : Type 0 where
  pub prompt : get "prompt" m ≡ none
  pub completion : get "completion" m ≡ none
  pub input : get "input" m ≡ none
  pub output : get "output" m ≡ none

get-delete_other : (k j : String) (m : Fields) → get j m ≡ none → get j (delete k m) ≡ none
get-delete_other k j m h = ground (arith, get-delete k j m, h)

pub without_content-IsContentFree : (m : Fields) → IsContentFree (without_content m)
unfolding without_content
without_content-IsContentFree m =
    let m1 = delete "prompt" m in
    let m2 = delete "completion" m1 in
    let m3 = delete "input" m2 in
    record {
      prompt = get-delete_other "output" "prompt" m3 (
          get-delete_other "input" "prompt" m2
            (get-delete_other "completion" "prompt" m1 (get-delete "prompt" "prompt" m)));
      completion =
          get-delete_other "output" "completion" m3
            (get-delete_other "input" "completion" m2 (get-delete "completion" "completion" m1));
      input = get-delete_other "output" "input" m3 (get-delete "input" "input" m2);
      output = get-delete "output" "output" m3;
    }

-- Keys that are none of the four.
abbrev IsApart : String → Type 0
IsApart k =
    ((k == "prompt") ≡ false)
    × ((k == "completion") ≡ false)
    × ((k == "input") ≡ false)
    × ((k == "output") ≡ false)

pub put-IsContentFree :
    (k : String) (v : Value) (m : Fields) → IsApart k → IsContentFree m → IsContentFree (put k v m)
put-IsContentFree k v m (a, b, c, d) free = record {
  prompt = ground (arith, get-put k "prompt" v m, a, free.prompt);
  completion = ground (arith, get-put k "completion" v m, b, free.completion);
  input = ground (arith, get-put k "input" v m, c, free.input);
  output = ground (arith, get-put k "output" v m, d, free.output);
}

pub with_quality-IsContentFree :
    (version : String) (input output : Option Decimal) (m : Fields)
    → IsContentFree m
    → IsContentFree (with_quality version input output m)
unfolding with_quality
with_quality-IsContentFree version none none m free = free
with_quality-IsContentFree version none (some o) m free =
    put-IsContentFree "model_metadata_version" _ _ (refl, refl, refl, refl)
      (put-IsContentFree "cost_quality" _ m (refl, refl, refl, refl) free)
with_quality-IsContentFree version (some i) output m free =
    put-IsContentFree "model_metadata_version" _ _ (refl, refl, refl, refl)
      (put-IsContentFree "cost_quality" _ m (refl, refl, refl, refl) free)

pub with_savings-IsContentFree :
    (rationals : Rationals) (cached : Int64) (price : Option Decimal) (m m' : Fields)
    → with_savings rationals cached price m ≡ ok m'
    → IsContentFree m
    → IsContentFree m'
unfolding with_savings
with_savings-IsContentFree rationals cached none m m' h free =
    let e : m ≡ m' = cc in subst IsContentFree e free
with_savings-IsContentFree rationals cached (some price) m m' h free =
    elim (Result-cases (estimated_token_cost rationals cached price)) [
      | inl (savings, p) ↦ elim (Bool-cases (is_positive cached)) [
        | inl y ↦
            let e : put "estimated_cache_savings_usd" (text savings) m ≡ m' =
              ground (arith, h, p, y) in
            subst IsContentFree e
              (put-IsContentFree "estimated_cache_savings_usd" _ m (refl, refl, refl, refl) free)
        | inr n ↦ let e : m ≡ m' = ground (arith, h, p, n) in subst IsContentFree e free
      ]
      | inr (x, p) ↦ let e : m ≡ m' = ground (arith, h, p) in subst IsContentFree e free
    ]

module _ (env : Env) where
  pub with_pressure-IsContentFree :
      (u : env.Float) (m : Fields) → IsContentFree m → IsContentFree (with_pressure env u m)
  unfolding with_pressure
  with_pressure-IsContentFree u m free = elim (Bool-cases (env.at_least u env.nine_tenths)) [
    | inl y ↦ rw y (put-IsContentFree "context_pressure" _ m (refl, refl, refl, refl) free)
    | inr n ↦ elim (Bool-cases (env.at_least u env.eight_tenths)) [
      | inl y ↦ rw n (rw y (put-IsContentFree "context_pressure" _ m (refl, refl, refl, refl) free))
      | inr k ↦ rw n (rw k free)
    ]
  ]
