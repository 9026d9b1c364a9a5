-- ===== src/Telemetry/Costs.antt =====
-- The decimals of internal/services/telemetry.go. math/big is a parameter.
use Prim.Native.Char.{code}
use Prim.Native.String.{String, [], ◌∷◌}
use mathlib.Core.List.{List, [] as nil, ◌∷◌ as ◌+>◌}
use capcom.Prelude.{
  ℕ, Bool, true, false, ◌&&◌, ◌==◌, nat_eq, if◌then◌else◌, Option, none, some, ◌<>◌,
}
use capcom.Prelude.Text.Quote.{quote}
use capcom.Errors.{message, Result, ok, err}
use capcom.Domain.Telemetry.{Int64, Decimal}

-- `big.Rat`: SetString, SetInt64, Add, Mul, Quo and FloatString(10).
pub record Rationals : Type 1 where
  pub Rat : Type 0
  pub parse_rat : String → Option Rat
  pub rat_of : Int64 → Rat
  pub add : Rat → Rat → Rat
  pub mul : Rat → Rat → Rat
  pub quo : Rat → Rat → Rat
  pub print_rat : Rat → String

-- `strings.TrimRight(s, c)` of one character
unfoldable pub trim_right_of : ℕ → String → String
trim_right_of n [] = []
trim_right_of n (c ∷ s) =
    let rest = trim_right_of n s in if nat_eq (code c) n && rest == "" then [] else c ∷ rest

module _ (rationals : Rationals) where
  unfoldable pub decimal_from_rat : rationals.Rat → Decimal
  unfolding trim_right_of
  decimal_from_rat value =
      let digits = trim_right_of 46 (trim_right_of 48 (rationals.print_rat value)) in
      if digits == "" then "0" else digits

  unfoldable pub estimated_token_cost : Int64 → Decimal → Result Decimal
  unfolding decimal_from_rat
  estimated_token_cost tokens price_per_million = elim (rationals.parse_rat price_per_million) [
    | none ↦ err (message ("invalid catalog decimal " <> quote price_per_million))
    | some price ↦ ok (
        decimal_from_rat (
          rationals.quo (rationals.mul price (rationals.rat_of tokens)) (rationals.rat_of 1000000)))
  ]

  -- The loop over the values: the sum of those before, and whether there was one.
  unfoldable pub sum_into : rationals.Rat → Bool → List (Option Decimal) → Result (Option Decimal)
  unfolding decimal_from_rat
  sum_into total found nil = ok (if found then some (decimal_from_rat total) else none)
  sum_into total found (none +> values) = sum_into total found values
  sum_into total found (some value +> values) = elim (rationals.parse_rat value) [
    | none ↦ err (message ("invalid decimal " <> quote value))
    | some parsed ↦ sum_into (rationals.add total parsed) true values
  ]

  unfoldable pub sum_decimal_pointers : List (Option Decimal) → Result (Option Decimal)
  unfolding sum_into
  sum_decimal_pointers values = sum_into (rationals.rat_of 0) false values
