-- ===== src/Config/Values.antt =====
-- How internal/config/config.go reads one variable. What Go's own library parses is in `Parsers`:
-- durations, numbers, Base64, JSON and rational numbers.
use capcom.Prelude.{
  ℕ, suc, String, ◌<>◌, Bool, true, false, not, ◌&&◌, ◌||◌, ◌==◌, nat_eq, if◌then◌else◌, Option,
  none, some, List, [], ◌∷◌,
}
use capcom.Prelude.Text.{trim_space, blank}
use capcom.Errors.{Error, message, wrap, Result, ok, err}
use capcom.Domain.Runtime.{Time}

-- Go's `int` and `time.Duration`: `pos n` is n, `negsuc n` is -(n + 1).
pub data ℤ : Type 0 where
  pos : ℕ → ℤ
  negsuc : ℕ → ℤ

pub record ModelMetadataConfig : Type 0 where
  pub provider : String
  pub model : String
  pub context_window_tokens : ℤ
  pub input_cost : String
  pub output_cost : String
  pub version : String

pub record Parsers : Type 0 where
  pub to_lower : String → String
  pub parse_bool : String → Result Bool
  pub parse_duration : String → Result ℤ
  -- `fmt.Sscanf(value, "%d", …)`
  pub scan_int : String → Result ℤ
  -- the bytes that Base64 stands for, and their number
  pub decode_base64 : String → Result (String × ℕ)
  pub split_commas : String → List String
  pub unmarshal_catalog : String → Result (List ModelMetadataConfig)
  -- whether `big.Rat` reads the text, as a number that is not negative
  pub is_price : String → Bool
  -- a number in an error's text
  pub format_int : ℕ → String

abbrev pub Lookup : Type 0
Lookup = String → Option String

-- `value, ok := lookup(key); if !ok || strings.TrimSpace(value) == "" { … }`
unfoldable pub given : Lookup → String → Option String
given lookup key = elim (lookup key) [
  | none ↦ none
  | some value ↦ if blank value then none else some value
]

abbrev pub parsed : {A : Type 0} → String → Result A → Result A
parsed key (ok a) = ok a
parsed key (err e) = err (wrap ("parse " <> key) e)

unfoldable pub string_env : Lookup → String → String → String
unfolding given
string_env lookup key fallback = elim (given lookup key) [ none ↦ fallback | some value ↦ value ]

module _ (parse : Parsers) where
  unfoldable pub bool_env : Lookup → String → Bool → Result Bool
  unfolding given trim_space
  bool_env lookup key fallback = elim (given lookup key) [
    | none ↦ ok fallback
    | some value ↦ parsed key (parse.parse_bool (trim_space value))
  ]

  abbrev non_negative : String → ℤ → Result ℕ
  non_negative key (pos n) = ok n
  non_negative key (negsuc n) = err (message (key <> " must be zero or positive"))

  unfoldable pub int_env : Lookup → String → ℕ → Result ℕ
  unfolding given
  int_env lookup key fallback = elim (given lookup key) [
    | none ↦ ok fallback
    | some value ↦ elim (parsed key (parse.scan_int value)) [
      | err e ↦ err e
      | ok n ↦ non_negative key n
    ]
  ]

  unfoldable pub positive_int_env : Lookup → String → ℕ → Result ℕ
  unfolding int_env
  positive_int_env lookup key fallback = elim (int_env lookup key fallback) [
    | err e ↦ err e
    | ok n ↦ if nat_eq n 0 then err (message (key <> " must be positive")) else ok n
  ]

  abbrev positive_duration : String → ℤ → Result Time
  positive_duration key (pos n) =
      if nat_eq n 0 then err (message (key <> " must be positive")) else ok n
  positive_duration key (negsuc n) = err (message (key <> " must be positive"))

  unfoldable pub duration_env : Lookup → String → Time → Result Time
  unfolding given
  duration_env lookup key fallback = elim (given lookup key) [
    | none ↦ ok fallback
    | some value ↦ elim (parsed key (parse.parse_duration value)) [
      | err e ↦ err e
      | ok n ↦ positive_duration key n
    ]
  ]

  -- No key, or one of 32 bytes.
  unfoldable pub secret_key_env : Lookup → String → Result (Option (String × ℕ))
  unfolding given trim_space
  secret_key_env lookup key = elim (given lookup key) [
    | none ↦ ok none
    | some value ↦ elim (parse.decode_base64 (trim_space value)) [
      | err e ↦ err (wrap ("parse " <> (key <> " as base64")) e)
      | ok (bytes, size) ↦
          if nat_eq size 32
          then ok (some (bytes, size))
          else err (message (key <> " must decode to exactly 32 bytes"))
    ]
  ]

  unfoldable pub trimmed : List String → List String
  unfolding trim_space
  trimmed [] = []
  trimmed (part ∷ l) = let rest = trimmed l in if blank part then rest else trim_space part ∷ rest

  abbrev or_fallback : List String → List String → List String
  or_fallback [] fallback = fallback
  or_fallback (p ∷ l) fallback = p ∷ l

  unfoldable pub string_list_env : Lookup → String → List String → List String
  unfolding given trimmed
  string_list_env lookup key fallback = elim (given lookup key) [
    | none ↦ fallback
    | some value ↦ or_fallback (trimmed (parse.split_commas value)) fallback
  ]

  abbrev is_negative : ℤ → Bool
  is_negative (pos _) = false
  is_negative (negsuc _) = true

  abbrev bad_price : String → Bool
  bad_price price = not (price == "") && not (parse.is_price price)

  -- The error of the first item with a fault.
  unfoldable pub check_catalog : String → ℕ → List ModelMetadataConfig → Option Error
  check_catalog key index [] = none
  check_catalog key index (item ∷ l) =
      let rest = check_catalog key (suc index) l in
      let at : String → Error =
        λ said. message (key <> (" item " <> (parse.format_int index <> said))) in
      if blank item.model || is_negative item.context_window_tokens
      then some (at " requires model and non-negative context_window_tokens")
      else if bad_price item.input_cost || bad_price item.output_cost
      then some (at " has invalid non-negative pricing")
      else rest

  unfoldable pub model_catalog_env : Lookup → String → Result (List ModelMetadataConfig)
  unfolding given check_catalog
  model_catalog_env lookup key = elim (given lookup key) [
    | none ↦ ok []
    | some value ↦ elim (parsed key (parse.unmarshal_catalog value)) [
      | err e ↦ err e
      | ok catalog ↦ elim (check_catalog key 0 catalog) [ some e ↦ err e | none ↦ ok catalog ]
    ]
  ]

  unfoldable pub log_level_env : Lookup → String → String → Result String
  unfolding given trim_space
  log_level_env lookup key fallback = elim (given lookup key) [
    | none ↦ ok fallback
    | some value ↦
        let level = parse.to_lower (trim_space value) in
        if level == "debug" || level == "info" || level == "error"
        then ok level
        else if level == "warn" || level == "warning"
        then ok "warn"
        else err (message (key <> " must be one of debug, info, warn, error"))
  ]
