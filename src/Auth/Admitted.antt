-- ===== src/Auth/Admitted.antt =====
-- What a login checks before it opens a session.
use capcom.Prelude.{String, ◌<>◌, true, ◌≡◌, some, ◌∷◌, arith, Option-cases, Bool-cases, inl, inr}
use capcom.Domain.Runtime.{Time}
use capcom.Errors.{Result, ok}
use capcom.Domain.Auth.{AuthSession}
use capcom.Auth.Limiter.{success}
use capcom.Auth.Password.{verify_password}
use capcom.Auth.Service.{
  LoginIdentity, NewSession, Env, State, normalize_email, account_key, lookup_key, identified,
  both_allowed, open_session, login,
}

-- The session that is stored beside the one that goes back.
abbrev pub session_row : Env → LoginIdentity → AuthSession → NewSession
session_row env i s = record {
  user_id = i.user.id;
  organization_id = i.organization.id;
  token_hash = env.sha256 s.session_token;
  csrf_hash = env.sha256 s.csrf_token;
  absolute_expiry = s.absolute_expiry;
  idle_expiry = s.idle_expiry;
}

-- A login that goes through: the limiter let both keys through, the password verifies against the
-- stored hash of the account with this address, and one session of that account was stored, with
-- the hashes of the tokens that went back.
pub record IsLoggedIn (env : Env) (email password address : String) (s : AuthSession) (w w' : State)
    : Type 0 where
  pub identity : LoginIdentity
  pub admitted :
      (both_allowed env
        (account_key env (normalize_email env email))
        ("ip:" <> address)
        w.attempts).0
      ≡ true
  pub known : env.find_login_identity (lookup_key env (normalize_email env email)) ≡ ok identity
  pub verified : verify_password env.crypto (env.crypto.nfc password) identity.password_hash ≡ true
  pub same_role : s.role ≡ identity.role
  pub stored : w'.sessions ≡ session_row env identity s ∷ w.sessions

module _ (env : Env) where
  open_session-stored :
      (i : LoginIdentity) (now : Time) (w : State) (s : AuthSession)
      → (open_session env i now w).0 ≡ ok s
      → (s.role ≡ i.role)
        × ((open_session env i now w).1.sessions ≡ session_row env i s ∷ w.sessions)
  unfolding open_session
  open_session-stored i now w s h = (ground arith, ground arith)

  identified-verified :
      (email : Result (String × String)) (password : String) (i : LoginIdentity)
      → identified env email password ≡ some i
      → (env.find_login_identity (lookup_key env email) ≡ ok i)
        × (verify_password env.crypto password i.password_hash ≡ true)
  unfolding identified
  identified-verified email password i h = (ground arith, ground arith)

  -- A login that returns a session is as `IsLoggedIn` says: the limiter let it through, the password
  -- verifies against the stored hash of the account, and one session was stored, of that account
  -- and with the hashes of the tokens that went back.
  pub login-IsLoggedIn :
      (email password address : String) (w : State) (s : AuthSession)
      → (login env email password address w).0 ≡ ok s
      → IsLoggedIn env email password address s w (login env email password address w).1
  unfolding login
  login-IsLoggedIn email password address w s h =
      let normalized = normalize_email env email in
      let account = account_key env normalized in
      let l = both_allowed env account ("ip:" <> address) w.attempts in
      elim (Bool-cases l.0) [
        | inr blocked ↦ ground arith
        | inl allowed ↦ elim (Option-cases (identified env normalized (env.crypto.nfc password))) [
          | inl unknown ↦ ground arith
          | inr (i, found) ↦
              let w1 : State = record w { attempts = success account l.1 } in
              let same : login env email password address w ≡ open_session env i (env.now 2) w1 =
                ground arith in
              let v = identified-verified normalized (env.crypto.nfc password) i found in
              let o = open_session-stored i (env.now 2) w1 s (ground arith) in
              record {
                identity = i;
                admitted = allowed;
                known = v.0;
                verified = v.1;
                same_role = o.0;
                stored = rw same o.1;
              }
        ]
      ]
