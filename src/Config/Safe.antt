-- ===== src/Config/Safe.antt =====
-- What every configuration that loads keeps to.
use capcom.Prelude.{ℕ, ◌<◌, String, true, ◌≡◌, refl, ap, ◌⊎◌, Option, none, some, arith, eq_iff}
use mathlib.Core.Path.{subst}
use capcom.Errors.{Result, ok, err}
use capcom.Domain.Runtime.{Time}
use capcom.Config.Values.{
  Parsers, Lookup, duration_env, int_env, positive_int_env, secret_key_env, string_env, bool_env,
  log_level_env,
}
use capcom.Config.Load.{
  SecurityConfig, SyncConfig, Config, ◌>>=◌, load_security, load_sync, load_telemetry,
  load_database, load_from_lookup,
}

-- What a computation that goes through returns.
pub record Ensures {A : Type 0} (P : A → Type 0) (r : Result A) : Type 0 where
  pub at : (a : A) → r ≡ ok a → P a

module _ {A : Type 0} where
  value_or : A → Result A → A
  value_or a (ok b) = b
  value_or a (err e) = a

  Ensures-ok : (P : A → Type 0) (a : A) → P a → Ensures P (ok a)
  unfolding value_or
  Ensures-ok P a h = record { at = λ b p. subst P (ap (value_or a) p) h }

module _ {A B : Type 0} where
  Ensures-bind :
      (P : A → Type 0) (Q : B → Type 0) (r : Result A) (f : A → Result B)
      → Ensures P r
      → ((a : A) → P a → Ensures Q (f a))
      → Ensures Q (r >>= f)
  Ensures-bind P Q (ok a) f h k = k a (h.at a refl)
  Ensures-bind P Q (err e) f h k = record { at = λ b p. ground arith }

  Ensures-skip :
      (Q : B → Type 0) (r : Result A) (f : A → Result B)
      → ((a : A) → Ensures Q (f a))
      → Ensures Q (r >>= f)
  Ensures-skip Q (ok a) f k = k a
  Ensures-skip Q (err e) f k = record { at = λ b p. ground arith }

abbrev pub IsSafe : SecurityConfig → Type 0
IsSafe s =
    ((s.deployment_mode ≡ "local") ⊎ (s.deployment_mode ≡ "hosted"))
    × (s.deployment_mode ≡ "hosted" → (s.admin_token ≡ "") × (s.secure_cookies ≡ true))

load_security-IsSafe :
    (parse : Parsers) (lookup : Lookup) → Ensures IsSafe (load_security parse lookup)
unfolding load_security
load_security-IsSafe parse lookup =
    let mode : String = parse.to_lower (string_env lookup "CAPCOM_DEPLOYMENT_MODE" "local") in
    Ensures-skip IsSafe (bool_env parse lookup "CAPCOM_SECURE_COOKIES" true) _ (λ secure. record {
      at = λ s p. (
        ground (arith, eq_iff mode "local", eq_iff mode "hosted"),
        λ hosted.
            ground
              (arith, eq_iff mode "hosted", eq_iff (string_env lookup "CAPCOM_ADMIN_TOKEN" "") ""),
      );
    })

duration-positive :
    (parse : Parsers) (lookup : Lookup) (key : String) (d : Time)
    → 0 < d
    → Ensures (λ t. 0 < t) (duration_env parse lookup key d)
unfolding duration_env
duration-positive parse lookup key d h = record { at = λ a p. ground arith }

number-positive :
    (parse : Parsers) (lookup : Lookup) (key : String) (n : ℕ)
    → 0 < n
    → Ensures (λ m. 0 < m) (positive_int_env parse lookup key n)
unfolding positive_int_env int_env
number-positive parse lookup key n h = record { at = λ a p. ground arith }

-- No key, or 32 bytes.
abbrev pub IsKey : Option (String × ℕ) → Type 0
IsKey none = Unit
IsKey (some (_, size)) = size ≡ 32

key-sized :
    (parse : Parsers) (lookup : Lookup) (key : String)
    → Ensures IsKey (secret_key_env parse lookup key)
unfolding secret_key_env
key-sized parse lookup key = record { at = λ a p. ground arith }

abbrev pub IsRunning : SyncConfig → Type 0
IsRunning s =
    (0 < s.worker_tick)
    × (0 < s.request_timeout)
    × (0 < s.max_concurrency)
    × (0 < s.missing_threshold)

load_sync-IsRunning :
    (parse : Parsers) (lookup : Lookup) → Ensures IsRunning (load_sync parse lookup)
unfolding load_sync
load_sync-IsRunning parse lookup =
    Ensures-bind (λ t. 0 < t) IsRunning _ _ (duration-positive parse lookup _ _ (ground arith))
      (λ t tick.
        Ensures-bind (λ t. 0 < t) IsRunning _ _ (duration-positive parse lookup _ _ (ground arith))
          (λ r request.
            Ensures-bind (λ n. 0 < n) IsRunning _ _
              (number-positive parse lookup _ _ (ground arith))
              (λ c many.
                Ensures-bind (λ n. 0 < n) IsRunning _ _
                  (number-positive parse lookup _ _ (ground arith))
                  (λ m missing.
                    Ensures-skip IsRunning (bool_env parse lookup "CAPCOM_SYNC_WORKER_ENABLED" true)
                      _ (λ w. Ensures-ok IsRunning _ (tick, request, many, missing))))))

pub record IsSane (c : Config) : Type 0 where
  pub safe : IsSafe c.security
  pub key : IsKey c.secret_key
  pub running : IsRunning c.sync
  pub patient : (0 < c.http.read_header_timeout) × (0 < c.http.shutdown_timeout)

load-Ensures : (parse : Parsers) (lookup : Lookup) → Ensures IsSane (load_from_lookup parse lookup)
unfolding load_from_lookup
load-Ensures parse lookup = Ensures-bind IsKey IsSane _ _ (key-sized parse lookup _) (λ k key.
    Ensures-bind (λ t. 0 < t) IsSane _ _ (duration-positive parse lookup _ _ (ground arith))
      (λ r header.
        Ensures-bind (λ t. 0 < t) IsSane _ _ (duration-positive parse lookup _ _ (ground arith))
          (λ d shutdown.
            Ensures-skip IsSane (log_level_env parse lookup "CAPCOM_LOG_LEVEL" "info") _ (λ level.
              Ensures-skip IsSane (load_database parse lookup) _ (λ database.
                Ensures-bind IsRunning IsSane _ _ (load_sync-IsRunning parse lookup)
                  (λ sync running. Ensures-skip IsSane (load_telemetry parse lookup) _ (λ telemetry.
                    Ensures-bind IsSafe IsSane _ _ (load_security-IsSafe parse lookup)
                      (λ security safe. Ensures-ok IsSane _ (record {
                        safe = safe;
                        key = key;
                        running = running;
                        patient = (header, shutdown);
                      })))))))))

-- Every configuration that loads is in local or in hosted mode, has no admin token and secure
-- cookies in hosted mode, has no secret key or one of 32 bytes, and positive sync and HTTP
-- timeouts, sync concurrency and missing threshold.
pub load_from_lookup-IsSane :
    (parse : Parsers) (lookup : Lookup) (c : Config)
    → load_from_lookup parse lookup ≡ ok c
    → IsSane c
load_from_lookup-IsSane parse lookup c h = (load-Ensures parse lookup).at c h
