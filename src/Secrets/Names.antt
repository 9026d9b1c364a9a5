-- ===== src/Secrets/Names.antt =====
-- `secretNamePattern`, `normalizeStoreSecretInput` and `validateStoreSecretInput` of
-- internal/services/secrets.go.
use Prim.Native.Char.{Char, code}
use Prim.Native.String.{String, [], ◌∷◌}
use mathlib.Core.List.{[] as nil}
use capcom.Prelude.{
  ℕ, zero, suc, Bool, true, false, not, ◌&&◌, ◌||◌, ◌==◌, leb, nat_eq, if◌then◌else◌, Option, none,
  some,
}
use capcom.Prelude.Text.{trim_space}
use capcom.Prelude.Bytes.{Bytes}
use capcom.Errors.{Error, message}

abbrev between : ℕ → ℕ → Char → Bool
between a z c = leb a (code c) && leb (code c) z

-- `[A-Za-z]`
unfoldable pub is_letter : Char → Bool
is_letter c = between 65 90 c || between 97 122 c

-- `[A-Za-z0-9._-]`
unfoldable pub is_name_char : Char → Bool
unfolding is_letter
is_name_char c =
    is_letter c || between 48 57 c || nat_eq (code c) 46 || nat_eq (code c) 95 || nat_eq (code c) 45

-- `[A-Za-z0-9._-]{0,n}$`
unfoldable pub is_name_rest : ℕ → String → Bool
unfolding is_name_char
is_name_rest n [] = true
is_name_rest zero (c ∷ s) = false
is_name_rest (suc n) (c ∷ s) = let rest = is_name_rest n s in is_name_char c && rest

unfoldable pub is_secret_name : String → Bool
unfolding is_name_rest is_letter
is_secret_name [] = false
is_secret_name (c ∷ s) = is_letter c && is_name_rest 127 s

-- The value is a Go string, which is a sequence of bytes.
pub record StoreSecretInput : Type 0 where
  pub name : String
  pub value : Bytes
  pub actor : String
  pub reason : String

unfoldable pub normalize_store_secret_input : StoreSecretInput → StoreSecretInput
unfolding trim_space
normalize_store_secret_input input = record input {
  name = trim_space input.name;
  actor = trim_space input.actor;
  reason = trim_space input.reason;
}

abbrev is_empty : Bytes → Bool
is_empty nil = true
is_empty _ = false

unfoldable pub validate_store_secret_input : StoreSecretInput → Option Error
unfolding is_secret_name
validate_store_secret_input input =
    if not (is_secret_name input.name)
    then some (
        message
          "name must start with a letter and contain only letters, numbers, dot, underscore, or hyphen")
    else if is_empty input.value
    then some (message "value is required")
    else if input.actor == ""
    then some (message "actor is required")
    else if input.reason == ""
    then some (message "reason is required")
    else none
