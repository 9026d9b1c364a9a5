-- ===== src/Gateway/Session.antt =====
-- `sessionAuth` of internal/api/middleware.go, and where it stands in the stack of
-- internal/api/router.go.
use Prim.Native.String.{slice, len}
use text.Mathlib.Text.{starts_with}
use capcom.Prelude.{
  ℕ, String, Bool, true, false, not, ◌&&◌, ◌==◌, if◌then◌else◌, Option, none, some,
}
use capcom.Prelude.Text.{trim_space}
use capcom.Errors.{Error, message, Result, ok, err}
use capcom.Domain.Auth.{Principal}
use capcom.Gateway.Roles.{Request, is_public_path, requires_csrf, authorized_for_request}

-- The interface `AuthService`, and SHA-256.
pub record Auth : Type 0 where
  pub authenticate : String → Result Principal
  pub verify_csrf : Principal → String → Option Error

-- `passed` runs the handlers, with the principal of the request's context; `refused` has the
-- status, the error, and whether the cookies are cleared.
pub data Response : Type 0 where
  passed : Option Principal → Response
  refused : ℕ → Error → Bool → Response

module _ (sha256 : String → String) (platform : Principal) where
  -- `platform` is `domain.Principal{PlatformAdmin: true, Role: "platform_admin"}`.
  unfoldable pub is_bearer : String → Request → Bool
  unfolding trim_space
  is_bearer token r =
      not (token == "")
      && starts_with r.authorization "Bearer "
      && (let provided : String = trim_space (slice r.authorization 7 (len r.authorization)) in
          not (provided == "") && sha256 token == sha256 provided)

  unfoldable pub check_csrf : Auth → Principal → Request → Response
  check_csrf auth p r =
      if requires_csrf r.method
      then elim (auth.verify_csrf p r.csrf_token) [
        | some e ↦ refused 403 e false
        | none ↦ passed (some p)
      ]
      else passed (some p)

  unfoldable pub check_session : Auth → Request → String → Response
  unfolding check_csrf
  check_session auth r cookie = elim (auth.authenticate cookie) [
    | err e ↦ refused 401 e true
    | ok p ↦
        if not (authorized_for_request p r)
        then refused 403 (message "role does not allow this action") false
        else check_csrf auth p r
  ]

  unfoldable pub session_auth : String → Option Auth → Request → Response
  unfolding is_bearer check_session
  session_auth token auth r =
      if is_public_path r
      then passed none
      else if is_bearer token r
      then passed (some platform)
      else elim auth [
        | none ↦ refused 401 (message "session authentication is not configured") false
        | some a ↦ elim r.session [
          | none ↦ refused 401 (message "session required") false
          | some cookie ↦ check_session a r cookie
        ]
      ]
