-- ===== src/Examples/Requests.antt =====
-- Requests of a viewer, an operator and an admin.
use capcom.Prelude.{String, true, false, ◌≡◌, ◌≢◌, refl, ◌⊎◌, none, some, [], ◌∷◌}
use capcom.Errors.{ok}
use capcom.Domain.Auth.{Principal}
use capcom.Gateway.Roles.{
  Request, authorized_for_request, requires_csrf, is_public_path, roles_ordered,
  operator_manages_nothing,
}
use capcom.Gateway.Session.{Auth, passed, is_bearer, session_auth, check_session, check_csrf}
use capcom.Gateway.Served.{IsSession, session_auth-IsSession}
use capcom.Gateway.Origins.{allowed_origins, is_allowed, cors, IsConfigured, cors-IsConfigured}

abbrev principal : String → Principal
principal role = record {
  user_id = "u-1";
  email = "a@example.com";
  organization_id = "org-1";
  organization = record { id = "org-1"; name = "Org"; slug = "org" };
  role = role;
  session_id = "s-1";
  csrf_hash = "csrf";
  platform_admin = false;
}

abbrev request : String → String → Request
request method path = record {
  method = method;
  path = path;
  authorization = "";
  origin = "https://console";
  csrf_token = "csrf";
  session = some "cookie";
}

abbrev auth : Auth
auth = record { authenticate = λ _. ok (principal "operator"); verify_csrf = λ _ _. none }

abbrev run_sync : Request
run_sync = request "POST" "/v1/agents/ag-1/disable"

served :
    session_auth (λ s. s) (principal "platform_admin") "" (some auth) run_sync
    ≡ passed (some (principal "operator"))
unfolding session_auth is_public_path is_bearer check_session check_csrf authorized_for_request
    requires_csrf
served = refl

session_auth-IsSession_example :
    ((is_bearer (λ s. s) (principal "platform_admin") "" run_sync ≡ true)
      × (principal "operator" ≡ principal "platform_admin"))
    ⊎ IsSession (some auth) run_sync (principal "operator")
session_auth-IsSession_example =
    session_auth-IsSession (λ s. s) (principal "platform_admin") "" (some auth) run_sync
      (principal "operator") served

health :
    session_auth (λ s. s) (principal "platform_admin") "" none (request "GET" "/healthz")
    ≡ passed none
unfolding session_auth is_public_path
health = refl

viewer_reads : authorized_for_request (principal "viewer") (request "GET" "/v1/agents") ≡ true
unfolding authorized_for_request
viewer_reads = refl

roles_ordered_example :
    authorized_for_request (principal "operator") (request "GET" "/v1/agents") ≡ true
roles_ordered_example =
    roles_ordered (principal "viewer") (principal "operator") (request "GET" "/v1/agents") refl refl
      viewer_reads

writes : requires_csrf "DELETE" ≡ true
unfolding requires_csrf
writes = refl

operator_manages_nothing_example :
    authorized_for_request (principal "operator") (request "DELETE" "/v1/secrets/key") ≡ false
operator_manages_nothing_example =
    operator_manages_nothing (principal "operator") (request "DELETE" "/v1/secrets/key") refl refl
      refl refl refl

abbrev console : String
console = "https://console"

allowed :
    (cors (" https://console " ∷ []) (λ r. r.path) (request "GET" "/v1/agents")).allow_origin
    ≡ some console
unfolding cors allowed_origins is_allowed
allowed = refl

cors-IsConfigured_example :
    (console ≡ console) × (console ≢ "") × IsConfigured console (" https://console " ∷ [])
cors-IsConfigured_example =
    cors-IsConfigured (" https://console " ∷ []) (λ r. r.path) (request "GET" "/v1/agents") console
      allowed
