-- ===== src/Gateway/Served.antt =====
-- Who gets through `sessionAuth`.
use capcom.Prelude.{
  String, true, ◌≡◌, ◌⊎◌, inl, inr, Option, none, some, arith, Option-cases, Bool-cases,
}
use capcom.Errors.{ok}
use capcom.Domain.Auth.{Principal}
use capcom.Gateway.Roles.{Request, is_public_path, requires_csrf, authorized_for_request}
use capcom.Gateway.Session.{Auth, passed, is_bearer, check_csrf, check_session, session_auth}

-- A session that is valid, with a role that allows the request, and with the CSRF token that
-- belongs to the session where the request may change something.
pub record IsSession (auth : Option Auth) (r : Request) (p : Principal) : Type 0 where
  pub service : Auth
  pub cookie : String
  pub configured : auth ≡ some service
  pub sent : r.session ≡ some cookie
  pub valid : service.authenticate cookie ≡ ok p
  pub allowed : authorized_for_request p r ≡ true
  pub guarded : requires_csrf r.method ≡ true → service.verify_csrf p r.csrf_token ≡ none

module _ (sha256 : String → String) (platform : Principal) where
  csrf_passed :
      (a : Auth) (q p : Principal) (r : Request)
      → check_csrf sha256 platform a q r ≡ passed (some p)
      → (q ≡ p) × (requires_csrf r.method ≡ true → a.verify_csrf q r.csrf_token ≡ none)
  unfolding check_csrf
  csrf_passed a q p r h = (ground arith, λ needs. ground arith)

  session_passed :
      (a : Auth) (auth : Option Auth) (p : Principal) (r : Request) (cookie : String)
      → auth ≡ some a
      → r.session ≡ some cookie
      → check_session sha256 platform a r cookie ≡ passed (some p)
      → IsSession auth r p
  unfolding check_session check_csrf
  session_passed a auth p r cookie configured sent h = record {
    service = a;
    cookie = cookie;
    configured = configured;
    sent = sent;
    valid = ground arith;
    allowed = ground arith;
    guarded = λ needs. ground arith;
  }

  -- A request that `sessionAuth` passes on with a principal has the admin token as its bearer
  -- token, and the principal is the platform's, or it has a session: a cookie that authenticates
  -- that principal, with a role that allows the request, and a matching CSRF token unless the
  -- request only reads.
  pub session_auth-IsSession :
      (token : String) (auth : Option Auth) (r : Request) (p : Principal)
      → session_auth sha256 platform token auth r ≡ passed (some p)
      → ((is_bearer sha256 platform token r ≡ true) × (p ≡ platform)) ⊎ IsSession auth r p
  unfolding session_auth
  session_auth-IsSession token auth r p h = elim (Bool-cases (is_bearer sha256 platform token r)) [
    | inl bearer ↦ inl (bearer, ground arith)
    | inr plain ↦ elim (Option-cases auth) [
      | inl off ↦ ground arith
      | inr (a, on) ↦ elim (Option-cases r.session) [
        | inl away ↦ ground arith
        | inr (cookie, sent) ↦ inr (session_passed a auth p r cookie on sent (ground arith))
      ]
    ]
  ]

  -- A request that `sessionAuth` passes on without a principal is one of the public ones.
  pub session_auth_public :
      (token : String) (auth : Option Auth) (r : Request)
      → session_auth sha256 platform token auth r ≡ passed none
      → is_public_path r ≡ true
  unfolding session_auth check_session check_csrf
  session_auth_public token auth r h = ground arith
