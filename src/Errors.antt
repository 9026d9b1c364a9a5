-- ===== src/Errors.antt =====
-- Go's error values: sentinels that are compared, texts, and the wrappers that keep a cause.
use Prim.Native.String.{slice}
use capcom.Prelude.{
  ◌≡◌, refl, ◌⊎◌, inl, inr, ℕ, String, ◌<>◌, Bool, false, ◌||◌, Option, none, some, nat_eq,
}
use capcom.Prelude.Text.{trim_space}
use capcom.Domain.Control.{ControlAction}

pub data Sentinel : Type 0 where
  -- database/sql, internal/store
  no_rows unique_violation email_exists identity_not_found : Sentinel
  -- internal/services, internal/domain
  sync_conflict secret_not_found : Sentinel
  invalid_credentials email_unavailable weak_password rate_limited : Sentinel
  invalid_session invalid_csrf : Sentinel
  invalid_usage_query invalid_usage_observation unknown_runtime_connection : Sentinel

pub data Error : Type 0 where
  sentinel : Sentinel → Error
  -- `errors.New(text)`, `fmt.Errorf(text)`
  message : String → Error
  -- `fmt.Errorf(prefix + ": %w", err)` and `fmt.Errorf("%w: " + text, err)`
  wrap : String → Error → Error
  because : Error → String → Error
  -- `errors.Join(a, b)`
  join : Error → Error → Error
  -- `rejectedActionError` of internal/services/control_actions.go
  rejected_action : ControlAction → Error → Error
  -- `httpResponseError` of internal/adapters/langgraph/client.go: its status code and its text
  http_response : ℕ → String → Error

abbrev pub rank : Sentinel → ℕ
rank no_rows = 0
rank unique_violation = 1
rank email_exists = 2
rank identity_not_found = 3
rank sync_conflict = 4
rank secret_not_found = 5
rank invalid_credentials = 6
rank email_unavailable = 7
rank weak_password = 8
rank rate_limited = 9
rank invalid_session = 10
rank invalid_csrf = 11
rank invalid_usage_query = 12
rank invalid_usage_observation = 13
rank unknown_runtime_connection = 14

-- `errors.Is(err, target)`. `rejectedActionError` has no `Unwrap`.
unfoldable pub is : Sentinel → Error → Bool
is s (sentinel t) = nat_eq (rank s) (rank t)
is s (message _) = false
is s (wrap _ e) = is s e
is s (because e _) = is s e
is s (join a b) = is s a || is s b
is s (rejected_action _ _) = false
is s (http_response _ _) = false

-- `err == target`
unfoldable pub is_exactly : Sentinel → Error → Bool
is_exactly s (sentinel t) = nat_eq (rank s) (rank t)
is_exactly s _ = false

abbrev sentinel_text : Sentinel → String
sentinel_text no_rows = "sql: no rows in result set"
sentinel_text unique_violation = "duplicate key value violates unique constraint"
sentinel_text email_exists = "email already exists"
sentinel_text identity_not_found = "identity not found"
sentinel_text sync_conflict = "runtime sync already in progress"
sentinel_text secret_not_found = "secret not found"
sentinel_text invalid_credentials = "invalid credentials"
sentinel_text email_unavailable = "email unavailable"
sentinel_text weak_password = "password does not meet requirements"
sentinel_text rate_limited = "authentication rate limited"
sentinel_text invalid_session = "invalid session"
sentinel_text invalid_csrf = "invalid csrf token"
sentinel_text invalid_usage_query = "invalid usage query"
sentinel_text invalid_usage_observation = "invalid usage observation"
sentinel_text unknown_runtime_connection = "unknown runtime connection"

-- `err.Error()`
unfoldable pub error_text : Error → String
error_text (sentinel s) = sentinel_text s
error_text (message t) = t
error_text (wrap t e) = t <> (": " <> error_text e)
error_text (because e t) = error_text e <> (": " <> t)
error_text (join a b) = error_text a <> ("\n" <> error_text b)
error_text (rejected_action _ e) = error_text e
error_text (http_response _ t) = t

-- `sanitizeRuntimeError` of internal/services/runtime_sync.go, for a text that is not longer than
-- 1000 bytes or whose byte 1000 ends a character: Go's slice of bytes would also keep the first
-- bytes of a character that straddles it, and no text stands for those.
unfoldable pub sanitize_runtime_error : Error → String
unfolding error_text trim_space
sanitize_runtime_error e = slice (trim_space (error_text e)) 0 1000

-- `rejectedActionError` found by `errors.As`, through the wrappers.
unfoldable pub as_rejected : Error → Option ControlAction
as_rejected (rejected_action a _) = some a
as_rejected (wrap _ e) = as_rejected e
as_rejected (because e _) = as_rejected e
as_rejected (join a b) = elim (as_rejected a) [ some r ↦ some r | none ↦ as_rejected b ]
as_rejected _ = none

-- The status of an `httpResponseError` found by `errors.As`, through the wrappers.
unfoldable pub as_response : Error → Option ℕ
as_response (http_response n _) = some n
as_response (wrap _ e) = as_response e
as_response (because e _) = as_response e
as_response (join a b) = elim (as_response a) [ some n ↦ some n | none ↦ as_response b ]
as_response _ = none

-- What a call returns: `(value, err)` where only one of the two is used.
pub data Result {ℓ} (A : Type ℓ) : Type ℓ where
  ok : A → Result A
  err : Error → Result A

pub Result-cases {ℓ} :
    {A : Type ℓ} (r : Result A) → ((a : A) × (r ≡ ok a)) ⊎ ((e : Error) × (r ≡ err e))
Result-cases (ok a) = inl (a, refl)
Result-cases (err e) = inr (e, refl)
