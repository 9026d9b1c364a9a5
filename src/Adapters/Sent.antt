-- ===== src/Adapters/Sent.antt =====
-- How many requests `doJSON` sends, and what follows from that for whatever calls it.
use capcom.Prelude.{ℕ, ◌+◌, ◌≤◌, String, ◌<>◌, Bool, true, false, Option, ◌≡◌, inl, inr, ◌∷◌, arith}
use capcom.Prelude.Bytes.{length}
use capcom.Errors.{Result, ok, Result-cases}
use capcom.Effects.{Effect, ◌>>=◌, done, read}
use capcom.Domain.Values.{Fields}
use capcom.Domain.Runtime.{RuntimeConnection}
use capcom.Adapters.Http.{
  Web, Api, Requests, request_of, marshal_body, resolve_credential, normalize_base_url, do_json,
}

-- Whatever it returns, it has sent at most n requests.
abbrev pub IsBounded {ℓ} : {A : Type ℓ} → ℕ → Effect Requests A → Type 0
IsBounded n m = (sent : Requests) → length (m sent).1 ≤ length sent + n

pub do_json-IsBounded {ℓ} :
    {A : Type ℓ} (web : Web) (api : Api) (conn : RuntimeConnection) (method path : String)
    (body : Option Fields) (decode : String → Result A)
    → IsBounded 1 (do_json web api conn method path body decode)
unfolding do_json length
do_json-IsBounded web api conn method path body decode sent = ground arith

pub raised-IsBounded {ℓ} :
    {A : Type ℓ} (n k : ℕ) (m : Effect Requests A) → n ≤ k → IsBounded n m → IsBounded k m
raised-IsBounded n k m h b sent = omega (arith, h, b sent)

pub either-IsBounded {ℓ} :
    {A : Type ℓ} (n : ℕ) (b : Bool) (x y : Effect Requests A)
    → IsBounded n x
    → IsBounded n y
    → IsBounded n (elim b [ true ↦ x | false ↦ y ])
either-IsBounded n true x y bx by = bx
either-IsBounded n false x y bx by = by

-- A call whose result is used by another, which has to be bounded for the results there can be.
pub bind-IsBounded {ℓ κ} :
    {A : Type ℓ} {B : Type κ} (n k : ℕ) (m : Effect Requests A) (f : A → Effect Requests B)
    → IsBounded n m
    → ((sent : Requests) (a : A) → (m sent).0 ≡ ok a → IsBounded k (f a))
    → IsBounded (n + k) (m >>= f)
bind-IsBounded n k m f bm bf sent = elim (Result-cases (m sent).0) [
  | inl (a, e) ↦ rw e (omega (arith, bm sent, bf sent a e (m sent).1))
  | inr (x, e) ↦ rw e (omega (arith, bm sent))
]

pub map-IsBounded {ℓ κ} :
    {A : Type ℓ} {B : Type κ} (n : ℕ) (m : Effect Requests A) (f : A → B)
    → IsBounded n m
    → IsBounded n (m >>= λ a. done (f a))
map-IsBounded n m f b sent = elim (Result-cases (m sent).0) [
  | inl (a, e) ↦ rw e (b sent)
  | inr (x, e) ↦ rw e (b sent)
]

-- A value that is computed without a request
pub read-IsBounded {ℓ} : {A : Type ℓ} (f : Requests → Result A) → IsBounded 0 (read f)
read-IsBounded f sent = omega arith

-- What a request looked like that was answered as it should be.
pub record IsSent {ℓ} {A : Type ℓ} (web : Web) (api : Api) (conn : RuntimeConnection)
    (method path : String) (body : Option Fields) (sent : Requests) (o : Result A × Requests)
    : Type 0 where
  pub base : String
  pub token : String
  pub payload : Option String
  pub marshaled : marshal_body web api body ≡ ok payload
  pub resolved : resolve_credential web api conn.auth_ref sent ≡ ok token
  pub based : normalize_base_url web api conn.base_url ≡ ok base
  pub requests : o.1 ≡ request_of api method (base <> path) payload token ∷ sent

pub do_json-IsSent {ℓ} :
    {A : Type ℓ} (web : Web) (api : Api) (conn : RuntimeConnection) (method path : String)
    (body : Option Fields) (decode : String → Result A) (sent : Requests) (a : A)
    → (do_json web api conn method path body decode sent).0 ≡ ok a
    → IsSent web api conn method path body sent (do_json web api conn method path body decode sent)
unfolding do_json
do_json-IsSent web api conn method path body decode sent a h =
    elim (Result-cases (normalize_base_url web api conn.base_url)) [
      | inr (e, p) ↦ absurd (ground (arith, h, p))
      | inl (base, p) ↦ elim (Result-cases (marshal_body web api body)) [
        | inr (e, q) ↦ absurd (ground (arith, h, p, q))
        | inl (payload, q) ↦ elim (Result-cases (resolve_credential web api conn.auth_ref sent)) [
          | inr (e, r) ↦ absurd (ground (arith, h, p, q, r))
          | inl (token, r) ↦ record {
            base = base;
            token = token;
            payload = payload;
            marshaled = q;
            resolved = r;
            based = p;
            requests = ground (arith, h, p, q, r);
          }
        ]
      ]
    ]
