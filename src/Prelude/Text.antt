-- ===== src/Prelude/Text.antt =====
-- What the program takes from Go's `strings`: texts are sequences of characters, as every text
-- that comes out of a JSON document or a database column is.
pub mod Trim
pub mod Quote
use Prim.Native.Char.{Char, code}
use Prim.Native.String.{String, [], ◌∷◌}
use mathlib.Core.Path.{◌≡◌, refl}
use mathlib.Core.Bool.{Bool, ◌&&◌, ◌||◌}
use capcom.Prelude.Tests.{leb, nat_eq, ◌==◌, if◌then◌else◌}

-- `unicode.IsSpace`
pub is_space : Char → Bool
is_space c =
    let n = code c in
    (leb 9 n && leb n 13)
    || nat_eq n 32
    || nat_eq n 0x85
    || nat_eq n 0xa0
    || nat_eq n 0x1680
    || (leb 0x2000 n && leb n 0x200a)
    || nat_eq n 0x2028
    || nat_eq n 0x2029
    || nat_eq n 0x202f
    || nat_eq n 0x205f
    || nat_eq n 0x3000

trim_left : String → String
trim_left [] = []
trim_left (c ∷ s) = let rest = trim_left s in if is_space c then rest else c ∷ s

trim_right : String → String
trim_right [] = []
trim_right (c ∷ s) = let rest = trim_right s in if is_space c && rest == "" then [] else c ∷ rest

-- `strings.TrimSpace`
unfoldable pub trim_space : String → String
unfolding is_space trim_left trim_right
trim_space s = trim_left (trim_right s)

-- `strings.TrimSpace(s) == ""`
abbrev pub blank : String → Bool
blank s = trim_space s == ""

trims : trim_space "  a b\t " ≡ "a b"
unfolding trim_space
trims = refl
