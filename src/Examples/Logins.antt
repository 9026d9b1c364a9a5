-- ===== src/Examples/Logins.antt =====
-- Logins with a right and a wrong password, and the limiter.
use capcom.Prelude.{
  ◌≤◌, ◌<◌, String, ◌<>◌, true, ◌≡◌, ◌≢◌, refl, none, some, false, [], ◌∷◌, ◌==◌, if◌then◌else◌,
  arith, eq_iff,
}
use capcom.Errors.{message, ok, err}
use capcom.Domain.Auth.{AuthSession}
use capcom.Auth.Limiter.{no_attempt, Attempts, capacity, size, find, allow, fail}
use capcom.Auth.Blocked.{fail-blocks, fail-other}
use capcom.Auth.Capacity.{size-fail}
use capcom.Auth.Password.{Crypto, encode_password, verify_password}
use capcom.Auth.Stored.{is_plain, verify-encode}
use capcom.Auth.Service.{LoginIdentity, Env, State, login}
use capcom.Auth.Admitted.{IsLoggedIn, login-IsLoggedIn}

abbrev key : String
key = "0123456789abcdef0123456789abcdef"

abbrev crypto : Crypto
crypto = record {
  nfc = λ s. s;
  to_lower = λ s. s;
  argon2 = λ p _ _ _ _ _. if p == "a long password" then key else "";
  encode = λ s. s;
  decode = λ s. some s;
  scan_parameters = λ _. some (19456, 2, 1);
}

abbrev identity : LoginIdentity
identity = record {
  user = record { id = "u-1"; email = "a@b.c"; created_at = 1 };
  organization = record { id = "org-1"; name = "Org"; slug = "org" };
  role = "owner";
  password_hash = "$argon2id$v=19$m=19456,t=2,p=1$salt$0123456789abcdef0123456789abcdef";
}

abbrev session : AuthSession
session = record {
  user = record { id = "u-1"; email = "a@b.c"; created_at = 1 };
  organization = record { id = "org-1"; name = "Org"; slug = "org" };
  role = "owner";
  session_token = "token";
  csrf_token = "csrf";
  absolute_expiry = 604800000000100;
  idle_expiry = 43200000000100;
}

abbrev env : Env
env = record {
  crypto = crypto;
  sha256 = λ s. "#" <> s;
  parse_address = λ s. some s;
  has_at = λ _. true;
  find_login_identity = λ e. if e == "a@b.c" then ok identity else err (message "not found");
  create_account = λ _. ok session;
  create_session = λ _. none;
  find_session = λ _. err (message "not found");
  token = ok "token";
  csrf = ok "csrf";
  salt = ok "salt";
  now = λ _. 100;
  dummy_hash = "";
}

abbrev nobody : State
nobody = record { attempts = []; sessions = [] }

verify-encode_example :
    verify_password crypto "a long password" (encode_password crypto "a long password" "salt")
    ≡ true
unfolding is_plain
verify-encode_example =
    verify-encode crypto "a long password" "salt" key refl refl refl refl refl refl refl

logged_in : (login env "a@b.c" "a long password" "1.2.3.4" nobody).0 ≡ ok session
unfolding login
logged_in = refl

login-IsLoggedIn_example :
    IsLoggedIn env "a@b.c" "a long password" "1.2.3.4" session nobody
      (login env "a@b.c" "a long password" "1.2.3.4" nobody).1
login-IsLoggedIn_example =
    login-IsLoggedIn env "a@b.c" "a long password" "1.2.3.4" nobody session logged_in

empty_small : size [] < capacity
unfolding size
empty_small = omega arith

size-fail_example : size (fail "account:a" 5 100 []) ≤ capacity
unfolding size
size-fail_example = size-fail "account:a" 5 100 [] (omega arith)

abbrev four_failures : Attempts
four_failures = ("account:a", record no_attempt { failures = 4 }) ∷ []

fail-blocks_example : (allow "account:a" 200 (fail "account:a" 5 100 four_failures)).0 ≡ false
unfolding size find
fail-blocks_example =
    fail-blocks "account:a" 5 100 200 four_failures (omega arith) (omega arith) (omega arith)

abbrev alice : String
alice = "account:a"

abbrev bob : String
bob = "account:b"

apart : alice ≢ bob
apart p = ground (arith, eq_iff "account:a" "account:b")

fail-other_example : (allow bob 200 (fail alice 5 100 [])).0 ≡ (allow bob 200 []).0
fail-other_example = fail-other alice bob 5 100 200 [] empty_small apart
