-- ===== src/Secrets/Table.antt =====
-- `SecretRepository` of internal/store/repositories.go, over the table `secrets`. An id is 128
-- random bits, and taken to be new.
use capcom.Prelude.{String, Bool, ◌&&◌, ◌==◌, if◌then◌else◌, Option, none, some, List, [], ◌∷◌}
use capcom.Prelude.Bytes.{Bytes}
use capcom.Errors.{Error, sentinel, wrap, no_rows, unique_violation, Result, ok, err}
use capcom.Domain.Runtime.{Time}
use capcom.Domain.Control.{AuditEvent}
use capcom.Secrets.Cipher.{Cipher}

-- internal/domain/secret.go
pub record Secret : Type 0 where
  pub id : String
  pub name : String
  pub created_at : Time
  pub updated_at : Time

pub record SecretRow : Type 0 where
  pub secret : Secret
  pub ciphertext : Bytes
  pub organization_id : String

pub record World : Type 0 where
  pub secrets : List SecretRow
  pub audits : List AuditEvent

-- The statements at which the database can fail.
pub data Statement : Type 0 where
  insert_secret update_secret select_secret : String → Statement
  insert_audit : AuditEvent → Statement

-- The database's faults, the clock, the random numbers, and what the service was given.
pub record Env : Type 0 where
  pub fault : World → Statement → Option Error
  pub now : World → Time
  pub new_id : World → Result String
  pub nonce : World → Result Bytes
  pub cipher : Cipher
  -- whether there is an audit repository
  pub audits : Bool
  pub format_time : Time → String

-- The row that the unique index on (organization_id, name) is about.
unfoldable pub is_row : String → String → SecretRow → Bool
is_row org name r = r.organization_id == org && r.secret.name == name

unfoldable pub find_row : String → String → List SecretRow → Option SecretRow
unfolding is_row
find_row org name [] = none
find_row org name (r ∷ rows) =
    let rest = find_row org name rows in if is_row org name r then some r else rest

-- `UPDATE … WHERE name = $1 AND organization_id = $3`
unfoldable pub set_ciphertext : String → String → Bytes → Time → List SecretRow → List SecretRow
unfolding is_row
set_ciphertext org name c now [] = []
set_ciphertext org name c now (r ∷ rows) =
    let rest = set_ciphertext org name c now rows in
    if is_row org name r
    then record r { ciphertext = c; secret = record r.secret { updated_at = now } } ∷ rest
    else r ∷ rest

module _ (env : Env) (org : String) where
  unfoldable pub create : String → Bytes → World → Result Secret × World
  unfolding find_row
  create name ciphertext w = elim (env.new_id w) [
    | err e ↦ (err e, w)
    | ok id ↦ elim (env.fault w (insert_secret name)) [
      | some e ↦ (err (wrap "create secret" e), w)
      | none ↦ elim (find_row org name w.secrets) [
        | some _ ↦ (err (wrap "create secret" (sentinel unique_violation)), w)
        | none ↦
            let s : Secret = record {
              id = id;
              name = name;
              created_at = env.now w;
              updated_at = env.now w;
            } in
            (
              ok s,
              record w {
                secrets =
                    (record { secret = s; ciphertext = ciphertext; organization_id = org })
                    ∷ w.secrets;
              },
            )
      ]
    ]
  ]

  unfoldable pub rotate : String → Bytes → World → Result Secret × World
  unfolding find_row set_ciphertext
  rotate name ciphertext w = elim (env.fault w (update_secret name)) [
    | some e ↦ (err (wrap "rotate secret" e), w)
    | none ↦ elim (find_row org name w.secrets) [
      | none ↦ (err (wrap "rotate secret" (sentinel no_rows)), w)
      | some r ↦ (
        ok (record r.secret { updated_at = env.now w }),
        record w { secrets = set_ciphertext org name ciphertext (env.now w) w.secrets },
      )
    ]
  ]

  unfoldable pub get_ciphertext : String → World → Result Bytes
  unfolding find_row
  get_ciphertext name w = elim (env.fault w (select_secret name)) [
    | some e ↦ err (wrap "get secret ciphertext" e)
    | none ↦ elim (find_row org name w.secrets) [
      | none ↦ err (wrap "get secret ciphertext" (sentinel no_rows))
      | some r ↦ ok r.ciphertext
    ]
  ]
