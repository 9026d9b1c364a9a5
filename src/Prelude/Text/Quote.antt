-- ===== src/Prelude/Text/Quote.antt =====
-- The verb `%q` of Go's `fmt`. Characters from 0x80 on, printable in all but exotic texts, stand
-- for themselves.
use Prim.Native.Nat.{ℕ, ◌/◌, ◌%◌}
use Prim.Native.Char.{Char, code}
use Prim.Native.String.{String, [], ◌∷◌, ◌++◌}
use mathlib.Core.Path.{◌≡◌, refl}
use mathlib.Core.Bool.{◌||◌}
use capcom.Prelude.Tests.{ltb, nat_eq, if◌then◌else◌}

hex_digit : ℕ → String
hex_digit n =
    if nat_eq n 10
    then "a"
    else if nat_eq n 11
    then "b"
    else if nat_eq n 12
    then "c"
    else if nat_eq n 13
    then "d"
    else if nat_eq n 14
    then "e"
    else if nat_eq n 15
    then "f"
    else if nat_eq n 0
    then "0"
    else if nat_eq n 1
    then "1"
    else if nat_eq n 2
    then "2"
    else if nat_eq n 3
    then "3"
    else if nat_eq n 4
    then "4"
    else if nat_eq n 5
    then "5"
    else if nat_eq n 6
    then "6"
    else if nat_eq n 7
    then "7"
    else if nat_eq n 8
    then "8"
    else "9"

escape : Char → String
unfolding hex_digit
escape c =
    let n = code c in
    if nat_eq n 34
    then "\\\""
    else if nat_eq n 92
    then "\\\\"
    else if nat_eq n 7
    then "\\a"
    else if nat_eq n 8
    then "\\b"
    else if nat_eq n 9
    then "\\t"
    else if nat_eq n 10
    then "\\n"
    else if nat_eq n 11
    then "\\v"
    else if nat_eq n 12
    then "\\f"
    else if nat_eq n 13
    then "\\r"
    else if ltb n 32 || nat_eq n 127
    then "\\x" ++ (hex_digit (n / 16) ++ hex_digit (n % 16))
    else c ∷ []

escape_all : String → String
escape_all [] = []
escape_all (c ∷ s) = escape c ++ escape_all s

unfoldable pub quote : String → String
unfolding escape escape_all
quote s = "\"" ++ (escape_all s ++ "\"")

quotes : quote "a\"b\n" ≡ "\"a\\\"b\\n\""
unfolding quote
quotes = refl
