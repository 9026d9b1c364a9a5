-- ===== src/Gateway/Origins.antt =====
-- `corsMiddleware` of internal/api/middleware.go, which stands before `sessionAuth`.
use capcom.Prelude.{
  String, Bool, true, false, ◌&&◌, ◌||◌, not, ◌≡◌, ◌≢◌, ◌⊎◌, inl, inr, false≢true, Bool-cases,
  Option, none, some, List, [], ◌∷◌, ◌==◌, if◌then◌else◌, arith, eq_iff,
}
use capcom.Prelude.Text.{trim_space, blank}
use capcom.Gateway.Roles.{Request}

-- The origins that the map `allowed` has, in the order of the configuration.
unfoldable pub allowed_origins : List String → List String
unfolding trim_space
allowed_origins [] = []
allowed_origins (o ∷ l) =
    let rest = allowed_origins l in if blank o then rest else trim_space o ∷ rest

unfoldable pub is_allowed : String → List String → Bool
is_allowed o [] = false
is_allowed o (a ∷ l) = a == o || is_allowed o l

-- The response: the origin that the access headers name, if they are sent, and the answer of the
-- handler behind, or `none` for the 204 of a preflight.
pub record CorsResponse (A : Type 0) : Type 0 where
  pub allow_origin : Option String
  pub body : Option A

unfoldable pub cors : {A : Type 0} → List String → (Request → A) → Request → CorsResponse A
unfolding allowed_origins is_allowed
cors configured next r = record {
  allow_origin =
      if not (r.origin == "") && is_allowed r.origin (allowed_origins configured)
      then some r.origin
      else none;
  body = if r.method == "OPTIONS" then none else some (next r);
}

-- An origin that is configured but for blanks around it.
abbrev pub IsConfigured : String → List String → Type 0
IsConfigured o [] = ⊥
IsConfigured o (c ∷ l) = (trim_space c ≡ o) ⊎ IsConfigured o l

is_allowed-IsConfigured :
    (o : String) (l : List String) → is_allowed o (allowed_origins l) ≡ true → IsConfigured o l
unfolding is_allowed allowed_origins
is_allowed-IsConfigured o [] h = false≢true h
is_allowed-IsConfigured o (c ∷ l) h = elim (Bool-cases (blank c)) [
  | inl empty ↦ inr (is_allowed-IsConfigured o l (ground arith))
  | inr given ↦ elim (Bool-cases (trim_space c == o)) [
    | inl same ↦ inl (ground (arith, eq_iff (trim_space c) o))
    | inr other ↦ inr (is_allowed-IsConfigured o l (ground arith))
  ]
]

-- The access headers name no other origin than the request's own, which is not empty and is one
-- of the configured ones but for blanks around it.
pub cors-IsConfigured :
    {A : Type 0} (configured : List String) (next : Request → A) (r : Request) (o : String)
    → (cors configured next r).allow_origin ≡ some o
    → (o ≡ r.origin) × (o ≢ "") × IsConfigured o configured
unfolding cors
cors-IsConfigured configured next r o h =
    let same : o ≡ r.origin = ground arith in
    (
      same,
      (λ empty. ground (arith, eq_iff r.origin "")),
      is_allowed-IsConfigured o configured (ground arith),
    )
