-- ===== src/Gateway/Roles.antt =====
-- `isPublicPath`, `requiresCSRF` and `authorizedForRequest` of internal/api/middleware.go.
use Prim.Native.String.{[], ◌∷◌}
use capcom.Prelude.{
  String, Bool, true, false, not, ◌&&◌, ◌||◌, ◌≡◌, ◌==◌, if◌then◌else◌, Option, arith,
}
use text.Mathlib.Text.{starts_with}
use capcom.Domain.Auth.{Principal}

-- The parts of an `http.Request` that the middleware reads; a header that is not there is "".
pub record Request : Type 0 where
  pub method : String
  pub path : String
  pub authorization : String
  pub origin : String
  pub csrf_token : String
  -- the cookie `sessionCookieName`
  pub session : Option String

-- `strings.HasSuffix`
unfoldable pub ends_with : String → String → Bool
ends_with [] t = t == ""
ends_with (c ∷ s) t = let rest = ends_with s t in (c ∷ s) == t || rest

unfoldable pub is_public_path : Request → Bool
is_public_path r =
    r.path == "/healthz"
    || r.path == "/"
    || (r.method == "POST" && (r.path == "/auth/login" || r.path == "/auth/signup"))

unfoldable pub requires_csrf : String → Bool
requires_csrf method = not (method == "GET") && not (method == "HEAD") && not (method == "OPTIONS")

-- A path below /v1/secrets, and one below a connection.
abbrev pub manages_secrets : String → Bool
manages_secrets path = starts_with path "/v1/secrets"

abbrev pub manages_connections : String → Bool
manages_connections path =
    starts_with path "/v1/runtime-connections" || starts_with path "/v1/runtime-instances"

abbrev pub is_action : String → Bool
is_action path = ends_with path "/sync" || ends_with path "/test"

unfoldable pub authorized_for_request : Principal → Request → Bool
unfolding ends_with
authorized_for_request p r =
    if r.path == "/auth/logout"
    then true
    else if p.platform_admin || p.role == "owner" || p.role == "admin"
    then true
    else if r.method == "GET" || r.method == "HEAD" || r.method == "OPTIONS"
    then true
    else if not (p.role == "operator")
    then false
    else if manages_secrets r.path
    then false
    else if manages_connections r.path
    then is_action r.path
    else true

-- An operator who is no platform admin is refused every request whose path begins with /v1/secrets,
-- and every one whose path begins with /v1/runtime-connections or /v1/runtime-instances and ends in
-- neither /sync nor /test, unless its method is GET, HEAD or OPTIONS or its path /auth/logout.
pub operator_manages_nothing :
    (p : Principal) (r : Request)
    → p.platform_admin ≡ false
    → p.role ≡ "operator"
    → (r.method == "GET" || r.method == "HEAD" || r.method == "OPTIONS") ≡ false
    → (r.path == "/auth/logout") ≡ false
    → (starts_with r.path "/v1/secrets"
        || ((starts_with r.path "/v1/runtime-connections"
              || starts_with r.path "/v1/runtime-instances")
            && not (ends_with r.path "/sync")
            && not (ends_with r.path "/test")))
      ≡ true
    → authorized_for_request p r ≡ false
unfolding authorized_for_request
operator_manages_nothing p r plain operator writes stays manages =
    rw (plain, operator) (ground arith)

-- A request that is allowed to a principal who is neither platform admin, owner nor admin is
-- allowed to every platform admin, owner and admin, and, where the principal is no operator
-- either, to every operator.
pub roles_ordered :
    (p q : Principal) (r : Request)
    → (p.platform_admin || p.role == "owner" || p.role == "admin") ≡ false
    → (q.platform_admin
        || q.role == "owner"
        || q.role == "admin"
        || (q.role == "operator" && not (p.role == "operator")))
      ≡ true
    → authorized_for_request p r ≡ true
    → authorized_for_request q r ≡ true
unfolding authorized_for_request
roles_ordered p q r below above allowed = ground arith
