-- ===== src/Prelude/Bytes.antt =====
-- Go's byte slices: lists of numbers.
use Prim.Native.Nat.{ℕ, zero, suc, ◌+◌, ◌-◌, ◌≤◌}
use mathlib.Core.Path.{◌≡◌, refl, sym, ap, ◌∙◌}
use mathlib.Core.List.{List, [], ◌∷◌, ◌++◌}
use native.Mathlib.Omega.{arith}

abbrev pub Bytes : Type 0
Bytes = List ℕ

module _ {ℓ} {A : Type ℓ} where
  unfoldable pub length : List A → ℕ
  length [] = 0
  length (_ ∷ l) = suc (length l)

  -- `l[:n]` and `l[n:]`, where n is not past the end
  unfoldable pub take : ℕ → List A → List A
  take zero l = []
  take (suc n) [] = []
  take (suc n) (a ∷ l) = a ∷ take n l

  unfoldable pub drop : ℕ → List A → List A
  drop zero l = l
  drop (suc n) [] = []
  drop (suc n) (a ∷ l) = drop n l

  pub length-append : (l m : List A) → length (l ++ m) ≡ length l + length m
  unfolding length
  length-append [] m = omega arith
  length-append (a ∷ l) m = omega (arith, length-append l m)

  pub take-append : (l m : List A) → take (length l) (l ++ m) ≡ l
  unfolding take length
  take-append [] m = refl
  take-append (a ∷ l) m = rw (take-append l m) refl

  pub drop-append : (l m : List A) → drop (length l) (l ++ m) ≡ m
  unfolding drop length
  drop-append [] m = refl
  drop-append (a ∷ l) m = drop-append l m

  pub take-all : (n : ℕ) (l : List A) → length l ≤ n → take n l ≡ l
  unfolding take length
  take-all zero [] h = refl
  take-all zero (a ∷ l) h = absurd (omega (arith, h))
  take-all (suc n) [] h = refl
  take-all (suc n) (a ∷ l) h = rw (take-all n l (omega (arith, h))) refl

  pub length-take : (n : ℕ) (l : List A) → n ≤ length l → length (take n l) ≡ n
  unfolding take length
  length-take zero l h = refl
  length-take (suc n) [] h = absurd (omega (arith, h))
  length-take (suc n) (a ∷ l) h = omega (arith, length-take n l (omega (arith, h)))

  pub length-take_le : (n : ℕ) (l : List A) → length (take n l) ≤ length l
  unfolding take length
  length-take_le zero l = omega arith
  length-take_le (suc n) [] = omega arith
  length-take_le (suc n) (a ∷ l) = omega (arith, length-take_le n l)

  pub length-drop : (n : ℕ) (l : List A) → length (drop n l) ≡ length l - n
  unfolding drop length
  length-drop zero l = omega arith
  length-drop (suc n) [] = omega arith
  length-drop (suc n) (a ∷ l) = omega (arith, length-drop n l)

  pub drop_nil : (n : ℕ) → drop n [] ≡ []
  unfolding drop
  drop_nil zero = refl
  drop_nil (suc n) = refl

  take_nil : (n : ℕ) → take n [] ≡ []
  unfolding take
  take_nil zero = refl
  take_nil (suc n) = refl

  pub drop-drop : (m n : ℕ) (l : List A) → drop n (drop m l) ≡ drop (m + n) l
  unfolding drop
  drop-drop zero n l = let z : 0 + n ≡ n = omega arith in rw z refl
  drop-drop (suc m) n [] = drop_nil n ∙ sym (drop_nil (suc m + n))
  drop-drop (suc m) n (a ∷ l) =
      let s : suc m + n ≡ suc (m + n) = omega arith in rw s (drop-drop m n l)

  pub take_add : (m n : ℕ) (l : List A) → take m l ++ take n (drop m l) ≡ take (m + n) l
  unfolding take drop
  take_add zero n l = let z : 0 + n ≡ n = omega arith in rw z refl
  take_add (suc m) n [] = take_nil n ∙ sym (take_nil (suc m + n))
  take_add (suc m) n (a ∷ l) =
      let s : suc m + n ≡ suc (m + n) = omega arith in rw s (ap (λ r. a ∷ r) (take_add m n l))

  pub take-drop : (n : ℕ) (l : List A) → take n l ++ drop n l ≡ l
  unfolding take drop
  take-drop zero l = refl
  take-drop (suc n) [] = refl
  take-drop (suc n) (a ∷ l) = ap (λ r. a ∷ r) (take-drop n l)
