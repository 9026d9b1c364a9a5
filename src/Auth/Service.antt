-- ===== src/Auth/Service.antt =====
-- `AuthService` of internal/services/auth.go. The state is the limiter's map, and the sessions
-- that were stored, the latest first.
use Prim.Native.String.{len}
use capcom.Prelude.{
  ℕ, ◌+◌, String, ◌<>◌, Bool, false, not, ◌||◌, ◌==◌, ltb, if◌then◌else◌, Option, none, some, List,
  ◌∷◌,
}
use capcom.Prelude.Text.{trim_space}
use capcom.Errors.{
  Error, sentinel, message, is, email_exists, identity_not_found, invalid_credentials,
  email_unavailable, rate_limited, invalid_session, invalid_csrf, Result, ok, err,
}
use capcom.Domain.Runtime.{Time}
use capcom.Domain.Auth.{User, Organization, Principal, AuthSession}
use capcom.Auth.Limiter.{Attempts, allow, fail, success}
use capcom.Auth.Password.{Crypto, validate_password, encode_password, verify_password}

-- internal/store/auth_repository.go
pub record LoginIdentity : Type 0 where
  pub user : User
  pub organization : Organization
  pub role : String
  pub password_hash : String

pub record NewSession : Type 0 where
  pub user_id : String
  pub organization_id : String
  pub token_hash : String
  pub csrf_hash : String
  pub absolute_expiry : Time
  pub idle_expiry : Time

pub record NewAccount : Type 0 where
  pub email : String
  pub email_normalized : String
  pub password_hash : String
  pub token_hash : String
  pub csrf_hash : String
  pub absolute_expiry : Time
  pub idle_expiry : Time

-- The interface `AuthStore`, the random numbers, the clock, SHA-256 and `mail.ParseAddress`.
pub record Env : Type 0 where
  pub crypto : Crypto
  pub sha256 : String → String
  pub parse_address : String → Option String
  -- `strings.Contains(display, "@")`
  pub has_at : String → Bool
  pub find_login_identity : String → Result LoginIdentity
  pub create_account : NewAccount → Result AuthSession
  pub create_session : NewSession → Option Error
  pub find_session : String → Result Principal
  -- the two random texts of a call, and the salt of a hash
  pub token : Result String
  pub csrf : Result String
  pub salt : Result String
  -- the reading of the clock that a call takes as its n-th
  pub now : ℕ → Time
  pub dummy_hash : String

pub record State : Type 0 where
  pub attempts : Attempts
  pub sessions : List NewSession

-- `7 * 24 * time.Hour` and `12 * time.Hour`
abbrev pub absolute : Time
absolute = 604800000000000

abbrev pub idle : Time
idle = 43200000000000

module _ (env : Env) where
  -- `normalizeEmail`: the address as it is shown and as it is looked up.
  unfoldable pub normalize_email : String → Result (String × String)
  unfolding trim_space
  normalize_email raw =
      let display = trim_space (env.crypto.nfc raw) in
      if ltb 254 (len display)
      then err (message "email too long")
      else elim (env.parse_address display) [
        | none ↦ err (message "invalid email")
        | some address ↦
            if not (address == display) || not (env.has_at display)
            then err (message "invalid email")
            else ok (display, env.crypto.to_lower display)
      ]

  -- The second result of `normalizeEmail`, which is "" beside an error.
  abbrev pub lookup_key : Result (String × String) → String
  lookup_key (ok (_, normalized)) = normalized
  lookup_key (err _) = ""

  -- `randomToken` returns the text and its hash: the hash is computed from the text.
  unfoldable pub signup : String → String → Result AuthSession
  unfolding normalize_email validate_password encode_password is
  signup email password = elim (normalize_email email) [
    | err _ ↦ err (sentinel email_unavailable)
    | ok (display, normalized) ↦
        let password = env.crypto.nfc password in
        elim (validate_password env.crypto password) [
          | some e ↦ err e
          | none ↦ elim env.salt [
            | err e ↦ err e
            | ok salt ↦ elim env.token [
              | err e ↦ err e
              | ok token ↦ elim env.csrf [
                | err e ↦ err e
                | ok csrf ↦
                    elim (env.create_account (record {
                      email = display;
                      email_normalized = normalized;
                      password_hash = encode_password env.crypto password salt;
                      token_hash = env.sha256 token;
                      csrf_hash = env.sha256 csrf;
                      absolute_expiry = env.now 0 + absolute;
                      idle_expiry = env.now 0 + idle;
                    })) [
                      | err e ↦
                          if is email_exists e then err (sentinel email_unavailable) else err e
                      | ok session ↦
                          ok (record session { session_token = token; csrf_token = csrf })
                    ]
              ]
            ]
          ]
        ]
  ]

  -- What follows a verified password, at the time `now`.
  unfoldable pub open_session : LoginIdentity → Time → State → Result AuthSession × State
  open_session i now w = elim env.token [
    | err e ↦ (err e, w)
    | ok token ↦ elim env.csrf [
      | err e ↦ (err e, w)
      | ok csrf ↦
          let session : NewSession = record {
            user_id = i.user.id;
            organization_id = i.organization.id;
            token_hash = env.sha256 token;
            csrf_hash = env.sha256 csrf;
            absolute_expiry = now + absolute;
            idle_expiry = now + idle;
          } in
          elim (env.create_session session) [
            | some e ↦ (err e, w)
            | none ↦ (
              ok (record {
                user = i.user;
                organization = i.organization;
                role = i.role;
                session_token = token;
                csrf_token = csrf;
                absolute_expiry = now + absolute;
                idle_expiry = now + idle;
              }),
              record w { sessions = session ∷ w.sessions },
            )
          ]
    ]
  ]

  -- The identity whose hash the password verifies against; `none` stands for every failure, in
  -- which the dummy hash or the identity's was compared.
  unfoldable pub identified : Result (String × String) → String → Option LoginIdentity
  unfolding verify_password
  identified email password = elim email [
    | err _ ↦ none
    | ok (_, normalized) ↦ elim (env.find_login_identity normalized) [
      | err _ ↦ none
      | ok i ↦ if verify_password env.crypto password i.password_hash then some i else none
    ]
  ]

  abbrev pub account_key : Result (String × String) → String
  account_key email = "account:" <> lookup_key email

  -- `Allow` for the account, and for the address if the account is let through.
  unfoldable pub both_allowed : String → String → Attempts → Bool × Attempts
  unfolding allow
  both_allowed account ip l =
      let (first, l1) = allow account (env.now 0) l in
      let (second, l2) = allow ip (env.now 1) l1 in if first then (second, l2) else (false, l1)

  unfoldable pub login : String → String → String → State → Result AuthSession × State
  unfolding normalize_email both_allowed identified open_session fail success
  login email password remote_address w =
      let address = normalize_email email in
      let account = account_key address in
      let ip : String = "ip:" <> remote_address in
      let (allowed, l) = both_allowed account ip w.attempts in
      if allowed
      then elim (identified address (env.crypto.nfc password)) [
        | none ↦ (
          err (sentinel invalid_credentials),
          record w { attempts = fail ip 25 (env.now 3) (fail account 5 (env.now 2) l) },
        )
        | some i ↦ open_session i (env.now 2) (record w { attempts = success account l })
      ]
      else (err (sentinel rate_limited), record w { attempts = l })

  unfoldable pub authenticate : String → Result Principal
  unfolding is
  authenticate token =
      if token == ""
      then err (sentinel invalid_session)
      else elim (env.find_session (env.sha256 token)) [
        | ok p ↦ ok p
        | err e ↦ if is identity_not_found e then err (sentinel invalid_session) else err e
      ]

  unfoldable pub verify_csrf : Principal → String → Option Error
  verify_csrf p token =
      if token == "" || not (env.sha256 token == p.csrf_hash)
      then some (sentinel invalid_csrf)
      else none
