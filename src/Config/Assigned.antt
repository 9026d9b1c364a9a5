-- ===== src/Config/Assigned.antt =====
-- What a .env file assigns.
use capcom.Prelude.{
  ℕ, suc, String, ◌==◌, ◌≡◌, ap, refl, sym, ◌∙◌, if◌then◌else◌, Option, none, some, List, [], ◌∷◌,
  inl, inr, arith, eq_iff,
}
use capcom.Errors.{Error, Result, ok, err, Result-cases}
use capcom.Config.DotEnv.{
  Values, assigned, value_at, set_value, parse_line, load_lines, load_dot_env, merged_lookup,
}

value_at-set_value :
    (k v j : String) (m : Values)
    → value_at j (set_value k v m) ≡ (if k == j then some v else value_at j m)
unfolding value_at set_value
value_at-set_value k v j [] = ground arith
value_at-set_value k v j ((i, u) ∷ m) =
    let ih = value_at-set_value k v j m in
    let a = eq_iff i k in let b = eq_iff i j in let c = eq_iff k j in ground (arith, ih, a, b, c)

-- What a line says of a key, where the ones before it said `before`.
abbrev pub said : String → Result (Option (String × String)) → Option String → Option String
said k (err e) before = before
said k (ok none) before = before
said k (ok (some (j, v))) before = if j == k then some v else before

-- The last line that sets the key.
unfoldable pub last_value :
    (ℕ → String → Error) → ℕ → String → List String → Option String → Option String
last_value place n k [] before = before
last_value place n k (raw ∷ lines) before =
    last_value place (suc n) k lines (said k (parse_line (place (suc n)) raw) before)

assigned-value :
    (k : String) (m : Values) (o : Option (String × String))
    → value_at k (assigned o m) ≡ said k (ok o) (value_at k m)
assigned-value k m none = refl
assigned-value k m (some (j, v)) = value_at-set_value j v k m

load_lines-value :
    (place : ℕ → String → Error) (n : ℕ) (m r : Values) (lines : List String) (k : String)
    → load_lines place n m lines ≡ ok r
    → value_at k r ≡ last_value place n k lines (value_at k m)
unfolding load_lines last_value
load_lines-value place n m r [] k e = ground (arith, e)
load_lines-value place n m r (raw ∷ lines) k e =
    elim (Result-cases (parse_line (place (suc n)) raw)) [
      | inr failed ↦ let (_, p) = failed in absurd (ground (arith, e, p))
      | inl went ↦
          let (o, p) = went in
          load_lines-value place (suc n) (assigned o m) r lines k (ground (arith, e, p))
          ∙ ap (last_value place (suc n) k lines)
              (assigned-value k m o ∙ ap (λ x. said k x (value_at k m)) (sym p))
    ]

-- What the server finds for a variable: its own environment comes first, and then the last line
-- of the .env file that sets it, where the file can be read and each of its lines is understood.
pub merged_lookup-load :
    (place : ℕ → String → Error) (lines : List String) (r : Values) (failure : Option Error)
    (os_lookup : String → Option String) (k : String)
    → load_dot_env place (ok (some (lines, failure))) ≡ ok r
    → merged_lookup r os_lookup k
      ≡ elim (os_lookup k) [ some v ↦ some v | none ↦ last_value place 0 k lines none ]
unfolding load_dot_env merged_lookup value_at
merged_lookup-load place lines r failure os_lookup k e =
    let found = load_lines-value place 0 [] r lines k (ground (arith, e)) in ground (arith, found)
