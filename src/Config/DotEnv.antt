-- ===== src/Config/DotEnv.antt =====
-- internal/config/dotenv.go. Opening the file and splitting it into lines is the operating system's
-- and bufio's; a map is an association list.
use Prim.Native.Char.{Char, code}
use Prim.Native.String.{[] as empty, ◌∷◌ as ◌+>◌}
use capcom.Prelude.{
  ℕ, suc, String, Bool, false, ◌||◌, ◌==◌, nat_eq, if◌then◌else◌, Option, none, some, List, [], ◌∷◌,
}
use capcom.Prelude.Text.{trim_space}
use capcom.Errors.{Error, Result, ok, err}

abbrev pub Values : Type 0
Values = List (String × String)

unfoldable pub value_at : String → Values → Option String
value_at k [] = none
value_at k ((j, v) ∷ m) = let rest = value_at k m in if j == k then some v else rest

-- `values[k] = v`
unfoldable pub set_value : String → String → Values → Values
set_value k v [] = (k, v) ∷ []
set_value k v ((j, u) ∷ m) =
    let rest = set_value k v m in if j == k then (j, v) ∷ m else (j, u) ∷ rest

-- `strings.Cut(line, "=")`
unfoldable pub cut : String → Option (String × String)
cut empty = none
cut (c +> s) =
    let rest = cut s in
    if nat_eq (code c) 61
    then some ("", s)
    else elim rest [ none ↦ none | some p ↦ let (k, v) = p in some (c +> k, v) ]

abbrev is_comment : String → Bool
is_comment empty = false
is_comment (c +> s) = nat_eq (code c) 35

-- The text without its last character, which is `q`.
abbrev ends_with : Char → String → Option String
ends_with q empty = none
ends_with q (c +> s) =
    let rest = ends_with q s in
    if s == ""
    then (if nat_eq (code c) (code q) then some "" else none)
    else elim rest [ none ↦ none | some t ↦ some (c +> t) ]

abbrev or_all : String → Option String → String
or_all s none = s
or_all s (some t) = t

-- Quotes of one kind around a value are taken off.
abbrev unquoted : String → String
unquoted empty = ""
unquoted (c +> s) =
    if nat_eq (code c) 34 || nat_eq (code c) 39 then or_all (c +> s) (ends_with c s) else c +> s

unfoldable pub clean_dot_env_value : String → String
clean_dot_env_value value = unquoted (trim_space value)

-- What a line says: nothing, a value for a key, or an error.
unfoldable pub parse_line : (String → Error) → String → Result (Option (String × String))
parse_line at raw =
    let line = trim_space raw in
    if line == "" || is_comment line then ok none else elim (cut line) [
      | none ↦ err (at "expected KEY=VALUE")
      | some p ↦
          let (k, v) = p in
          if trim_space k == ""
          then err (at "key is required")
          else ok (some (trim_space k, clean_dot_env_value v))
    ]

abbrev pub assigned : Option (String × String) → Values → Values
assigned none m = m
assigned (some (k, v)) m = set_value k v m

-- The loop over the lines. `place n` is the error's text for line n, with the path.
unfoldable pub load_lines : (ℕ → String → Error) → ℕ → Values → List String → Result Values
load_lines place n m [] = ok m
load_lines place n m (raw ∷ lines) = elim (parse_line (place (suc n)) raw) [
  | err e ↦ err e
  | ok line ↦ load_lines place (suc n) (assigned line m) lines
]

-- `opened` is what `os.Open` and the scanner give: an error, no file, or the lines and what
-- `scanner.Err()` says after them. A file that does not exist has no values.
unfoldable pub load_dot_env :
    (ℕ → String → Error) → Result (Option (List String × Option Error)) → Result Values
load_dot_env place (err e) = err e
load_dot_env place (ok none) = ok []
load_dot_env place (ok (some (lines, failure))) = elim (load_lines place 0 [] lines) [
  | err e ↦ err e
  | ok m ↦ elim failure [ some e ↦ err e | none ↦ ok m ]
]

unfoldable pub merged_lookup : Values → (String → Option String) → String → Option String
merged_lookup dot_env os_lookup key = elim (os_lookup key) [
  | some v ↦ some v
  | none ↦ value_at key dot_env
]
