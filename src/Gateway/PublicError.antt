-- ===== src/Gateway/PublicError.antt =====
-- internal/api/errors.go: what a client is told of a failure. The log line is left out.
use Prim.Native.Char.{code}
use Prim.Native.String.{[] as empty, ◌∷◌ as ◌+>◌}
use capcom.Prelude.{
  ℕ, String, Bool, true, false, ◌&&◌, ◌||◌, nat_eq, if◌then◌else◌, Option, none, some, List, [],
  ◌∷◌,
}
use capcom.Prelude.Text.{trim_space}
use capcom.Errors.{Error, error_text}
use capcom.Domain.Values.{Fields, put, obj, text, flag, field, end}

pub record PublicErrorDetail : Type 0 where
  pub code : String
  pub message : String
  pub retryable : Bool

abbrev starts_with : String → String → Bool
starts_with empty s = true
starts_with (c +> p) empty = false
starts_with (c +> p) (d +> s) = let rest = starts_with p s in nat_eq (code c) (code d) && rest

-- `strings.Contains(s, p)`
unfoldable pub contains : String → String → Bool
contains p empty = starts_with p empty
contains p (c +> s) = starts_with p (c +> s) || contains p s

abbrev detail : String → String → Bool → PublicErrorDetail
detail c m r = record { code = c; message = m; retryable = r }

-- `switch { case b: return d … default: … }`
unfoldable pub first_case : List (Bool × PublicErrorDetail) → PublicErrorDetail → PublicErrorDetail
first_case [] d = d
first_case ((b, x) ∷ cases) d = let rest = first_case cases d in if b then x else rest

abbrev pub status_cases : ℕ → List (Bool × PublicErrorDetail)
status_cases status =
    (
      nat_eq status 400 || nat_eq status 422,
      detail "INVALID_REQUEST" "Check the information entered and try again." false,
    )
    ∷ (
      nat_eq status 401,
      detail "UNAUTHORIZED" "Your session is missing or has expired. Sign in and try again." false,
    )
    ∷ (
      nat_eq status 403,
      detail "FORBIDDEN" "The current connection does not allow this action." false,
    )
    ∷ (
      nat_eq status 404,
      detail "NOT_FOUND" "This item is no longer available. Refresh to load the latest state."
          false,
    )
    ∷ (
      nat_eq status 409,
      detail "CONFLICT"
          "Another operation is already in progress. Wait for it to finish and try again." true,
    )
    ∷ (
      nat_eq status 429,
      detail "RATE_LIMITED" "Too many requests were sent. Wait a moment and try again." true,
    )
    ∷ (
      nat_eq status 502,
      detail "RUNTIME_UNAVAILABLE"
          "The connected runtime did not respond. Confirm it is running and try again." true,
    )
    ∷ (
      nat_eq status 503,
      detail "SERVICE_UNAVAILABLE" "Capcom is temporarily unavailable. Try again shortly." true,
    )
    ∷ []

abbrev pub internal : PublicErrorDetail
internal =
    detail "INTERNAL"
      "Capcom could not complete the request. Refresh to confirm the latest state before trying again."
      true

-- `publicErrorForStatus`
unfoldable pub public_error_for_status : ℕ → PublicErrorDetail
unfolding first_case
public_error_for_status status = first_case (status_cases status) internal

abbrev pub text_cases : String → List (Bool × PublicErrorDetail)
text_cases raw =
    (
      contains "confirmation must exactly match" raw,
      detail "CONFIRMATION_MISMATCH" "Enter the exact stable key shown in the confirmation dialog."
          false,
    )
    ∷ (
      contains "usage:read" raw,
      detail "TELEMETRY_PERMISSION_REQUIRED"
          "The runtime credential needs the usage:read permission." false,
    )
    ∷ (
      contains "connection refused" raw
          || contains "runtime_unavailable" raw
          || contains "check gantry" raw
          || contains "call gantry" raw,
      detail "RUNTIME_UNAVAILABLE"
          "The runtime is unreachable. Confirm it is running and its endpoint is correct." true,
    )
    ∷ (
      contains "database_not_configured" raw,
      detail "STORAGE_UNAVAILABLE"
          "Capcom storage is not ready. Try again after the service finishes starting." true,
    )
    ∷ (
      contains "telemetry_not_configured" raw,
      detail "TELEMETRY_NOT_CONFIGURED" "Connect a telemetry source before opening metrics." false,
    )
    ∷ []

-- `strings.ToLower` is Go's.
unfoldable pub public_error : (String → String) → ℕ → String → PublicErrorDetail
unfolding first_case
public_error to_lower status technical =
    first_case (text_cases (to_lower (trim_space technical))) (public_error_for_status status)

abbrev error_fields : PublicErrorDetail → Fields
error_fields d =
    field "code" (text d.code)
      (field "message" (text d.message) (field "retryable" (flag d.retryable) end))

abbrev put_all : Fields → Fields → Fields
put_all end payload = payload
put_all (field k v m) payload = put_all m (put k v payload)

abbrev technical_text : Option Error → String
technical_text none = ""
technical_text (some e) = error_text e

-- The body of the response: the envelope, and the fields that the caller adds over it.
unfoldable pub write_api_error_with : (String → String) → ℕ → Option Error → Fields → Fields
write_api_error_with to_lower status e fields =
    put_all fields
      (field "error" (obj (error_fields (public_error to_lower status (technical_text e)))) end)
