-- ===== src/Gateway/Disclosed.antt =====
-- internal/api/errors.go: which texts a client can get.
use capcom.Prelude.{
  ℕ, String, Bool, true, false, not, ◌&&◌, ◌||◌, ◌==◌, ◌≡◌, refl, if◌then◌else◌, List, [], ◌∷◌,
  nat_eq, arith,
}
use capcom.Prelude.Text.{trim_space}
use capcom.Gateway.PublicError.{
  PublicErrorDetail, first_case, text_cases, status_cases, internal, public_error,
  public_error_for_status,
}

abbrev entry : String → String → Bool → String × String × Bool
entry code message retryable = (code, message, retryable)

-- What a client can be told: a code, a text, and whether to try again.
abbrev pub public_errors : List (String × String × Bool)
public_errors =
    entry "INVALID_REQUEST" "Check the information entered and try again." false
    ∷ entry "UNAUTHORIZED" "Your session is missing or has expired. Sign in and try again." false
    ∷ entry "FORBIDDEN" "The current connection does not allow this action." false
    ∷ entry "NOT_FOUND" "This item is no longer available. Refresh to load the latest state." false
    ∷ entry "CONFLICT"
        "Another operation is already in progress. Wait for it to finish and try again." true
    ∷ entry "RATE_LIMITED" "Too many requests were sent. Wait a moment and try again." true
    ∷ entry "RUNTIME_UNAVAILABLE"
        "The connected runtime did not respond. Confirm it is running and try again." true
    ∷ entry "SERVICE_UNAVAILABLE" "Capcom is temporarily unavailable. Try again shortly." true
    ∷ entry "INTERNAL"
        "Capcom could not complete the request. Refresh to confirm the latest state before trying again."
        true
    ∷ entry "CONFIRMATION_MISMATCH" "Enter the exact stable key shown in the confirmation dialog."
        false
    ∷ entry "TELEMETRY_PERMISSION_REQUIRED"
        "The runtime credential needs the usage:read permission." false
    ∷ entry "RUNTIME_UNAVAILABLE"
        "The runtime is unreachable. Confirm it is running and its endpoint is correct." true
    ∷ entry "STORAGE_UNAVAILABLE"
        "Capcom storage is not ready. Try again after the service finishes starting." true
    ∷ entry "TELEMETRY_NOT_CONFIGURED" "Connect a telemetry source before opening metrics." false
    ∷ []

abbrev same : Bool → Bool → Bool
same true r = r
same false r = not r

abbrev is_entry : PublicErrorDetail → List (String × String × Bool) → Bool
is_entry d [] = false
is_entry d ((c, m, r) ∷ l) = (d.code == c && d.message == m && same d.retryable r) || is_entry d l

unfoldable pub is_listed : PublicErrorDetail → Bool
is_listed d = is_entry d public_errors

-- The code for a status.
abbrev pub status_codes : List (ℕ × String)
status_codes =
    (400, "INVALID_REQUEST")
    ∷ (422, "INVALID_REQUEST")
    ∷ (401, "UNAUTHORIZED")
    ∷ (403, "FORBIDDEN")
    ∷ (404, "NOT_FOUND")
    ∷ (409, "CONFLICT")
    ∷ (429, "RATE_LIMITED")
    ∷ (502, "RUNTIME_UNAVAILABLE")
    ∷ (503, "SERVICE_UNAVAILABLE")
    ∷ []

unfoldable pub code_for : ℕ → List (ℕ × String) → String
code_for status [] = "INTERNAL"
code_for status ((n, c) ∷ l) = let rest = code_for status l in if nat_eq status n then c else rest

all_listed : List (Bool × PublicErrorDetail) → Bool
all_listed [] = true
all_listed ((b, d) ∷ cases) = is_listed d && all_listed cases

first_case-listed :
    (cases : List (Bool × PublicErrorDetail)) (d : PublicErrorDetail)
    → all_listed cases ≡ true
    → is_listed d ≡ true
    → is_listed (first_case cases d) ≡ true
unfolding first_case all_listed
first_case-listed [] d h k = k
first_case-listed ((b, x) ∷ cases) d h k =
    let rest = first_case-listed cases d in ground (arith, h, k, rest)

listed_for_status : (status : ℕ) → is_listed (public_error_for_status status) ≡ true
unfolding public_error_for_status is_listed all_listed
listed_for_status status = first_case-listed (status_cases status) internal refl refl

coded_for_status :
    (status : ℕ) → (public_error_for_status status).code ≡ code_for status status_codes
unfolding public_error_for_status first_case code_for
coded_for_status status = ground arith

-- Whatever the error says, and whatever the status, the client is told one of fourteen pairs of a
-- code and a text, with its answer to whether to try again. Where the text of the error decides
-- nothing, the code is the one for the status.
pub public_error-listed :
    (to_lower : String → String) (status : ℕ) (technical : String)
    → (is_listed (public_error to_lower status technical) ≡ true)
      × ((public_error_for_status status).code ≡ code_for status status_codes)
unfolding public_error is_listed all_listed
public_error-listed to_lower status technical = (
  first_case-listed (text_cases (to_lower (trim_space technical))) (public_error_for_status status)
      refl (listed_for_status status),
  coded_for_status status,
)
