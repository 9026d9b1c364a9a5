-- ===== src/Prelude/Text/Trim.antt =====
-- Trimming is idempotent.
use Prim.Native.Char.{Char}
use Prim.Native.String.{String, [], ◌∷◌}
use mathlib.Core.Path.{◌≡◌, refl, ap}
use mathlib.Core.Logic.{inl, inr}
use mathlib.Core.Bool.{◌&&◌}
use capcom.Prelude.Tests.{Bool-cases, ◌==◌}
use capcom.Prelude.Text.{is_space, trim_left, trim_right, trim_space}

trim_right-trim_right : (s : String) → trim_right (trim_right s) ≡ trim_right s
unfolding trim_right
trim_right-trim_right [] = refl
trim_right-trim_right (c ∷ s) = elim (Bool-cases (is_space c && trim_right s == "")) [
  | inl cut ↦ rw cut refl
  | inr keeps ↦ rw (keeps, trim_right-trim_right s, keeps) refl
]

trim_left-trim_left : (s : String) → trim_left (trim_left s) ≡ trim_left s
unfolding trim_left
trim_left-trim_left [] = refl
trim_left-trim_left (c ∷ s) = elim (Bool-cases (is_space c)) [
  | inl drops ↦ rw drops (trim_left-trim_left s)
  | inr keeps ↦ rw (keeps, keeps) refl
]

tail : String → String
tail [] = []
tail (c ∷ s) = s

trim_right-cons : (c : Char) (s : String) → trim_right (c ∷ s) ≡ c ∷ s → trim_right s ≡ s
unfolding trim_right tail
trim_right-cons c s h = elim (Bool-cases (is_space c && trim_right s == "")) [
  | inl cut ↦ cc (rw cut at h)
  | inr keeps ↦ ap tail (rw keeps at h)
]

trim_right-trim_left : (s : String) → trim_right s ≡ s → trim_right (trim_left s) ≡ trim_left s
unfolding trim_left
trim_right-trim_left [] h = h
trim_right-trim_left (c ∷ s) h = elim (Bool-cases (is_space c)) [
  | inl drops ↦ rw drops (trim_right-trim_left s (trim_right-cons c s h))
  | inr keeps ↦ rw keeps h
]

pub trim_space-trim_space : (s : String) → trim_space (trim_space s) ≡ trim_space s
unfolding trim_space
trim_space-trim_space s =
    rw (trim_right-trim_left (trim_right s) (trim_right-trim_right s), trim_left-trim_left) refl
