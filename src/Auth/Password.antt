-- ===== src/Auth/Password.antt =====
-- Passwords in internal/services/auth.go. Argon2 and the Unicode tables are other libraries'; with
-- Base64, `fmt.Sscanf` and `strings.ToLower` of Go's own library they are the fields of `Crypto`.
-- A sequence of bytes is a text.
use Prim.Native.Char.{Char}
use Prim.Native.String.{[], ◌∷◌, len}
use capcom.Prelude.{
  ℕ, suc, String, ◌<>◌, Bool, false, not, ◌&&◌, ◌||◌, ◌==◌, ltb, if◌then◌else◌, Option, none, some,
}
use mathlib.Core.List.{List, [] as nil, ◌∷◌ as ◌+>◌}
use capcom.Errors.{Error, sentinel, weak_password}

pub record Crypto : Type 0 where
  -- `norm.NFC.String` and `strings.ToLower`
  pub nfc : String → String
  pub to_lower : String → String
  -- `argon2.IDKey`: the password, the salt, the iterations, the memory, the threads, the length
  pub argon2 : String → String → ℕ → ℕ → ℕ → ℕ → String
  -- `base64.RawStdEncoding`
  pub encode : String → String
  pub decode : String → Option String
  -- `Sscanf(…, "m=%d,t=%d,p=%d", …)`
  pub scan_parameters : String → Option (ℕ × ℕ × ℕ)

-- `utf8.RuneCountInString`
unfoldable pub rune_count : String → ℕ
rune_count [] = 0
rune_count (_ ∷ s) = suc (rune_count s)

abbrev pub is_common : String → Bool
is_common p =
    p == "password"
    || p == "password123"
    || p == "123456789012345"
    || p == "qwertyuiopasdfg"
    || p == "letmeinletmeinlet"

-- Every text is valid UTF-8.
unfoldable pub validate_password : Crypto → String → Option Error
unfolding rune_count
validate_password c password =
    if ltb (rune_count password) 15
      || ltb 128 (rune_count password)
      || is_common (c.to_lower password)
    then some (sentinel weak_password)
    else none

abbrev prepend : Char → List String → List String
prepend c nil = (c ∷ "") +> nil
prepend c (p +> l) = (c ∷ p) +> l

-- `strings.Split(s, "$")`
unfoldable pub split_dollars : String → List String
split_dollars [] = "" +> nil
split_dollars (c ∷ s) =
    let rest = split_dollars s in if (c ∷ "") == "$" then "" +> rest else prepend c rest

unfoldable pub encode_password : Crypto → String → String → String
encode_password c password salt =
    "$argon2id$v=19$m=19456,t=2,p=1$"
    <> (c.encode salt <> ("$" <> c.encode (c.argon2 password salt 2 19456 1 32)))

-- The bounds on the memory, the iterations and the threads.
abbrev pub in_bounds : ℕ → ℕ → ℕ → Bool
in_bounds memory iterations parallelism = not (
    ltb memory 8192
    || ltb 1048576 memory
    || ltb iterations 1
    || ltb 10 iterations
    || ltb parallelism 1
    || ltb 16 parallelism)

unfoldable pub verify_hash : Crypto → String → String → String → String → Bool
verify_hash c password parameters salt_text want_text = elim (c.scan_parameters parameters) [
  | none ↦ false
  | some (memory, iterations, parallelism) ↦
      in_bounds memory iterations parallelism && elim (c.decode salt_text) [
        | none ↦ false
        | some salt ↦ elim (c.decode want_text) [
          | none ↦ false
          | some want ↦ c.argon2 password salt iterations memory parallelism (len want) == want
        ]
      ]
]

-- Six parts, of which the second names the algorithm.
unfoldable pub verify_parts : Crypto → String → List String → Bool
unfolding verify_hash
verify_parts c password (_ +> kind +> _ +> parameters +> salt +> want +> nil) =
    kind == "argon2id" && verify_hash c password parameters salt want
verify_parts c password _ = false

unfoldable pub verify_password : Crypto → String → String → Bool
unfolding verify_parts split_dollars
verify_password c password encoded = verify_parts c password (split_dollars encoded)
