-- ===== src/Secrets/Service.antt =====
-- `SecretService` of internal/services/secrets.go.
use capcom.Prelude.{String, ◌<>◌, not, if◌then◌else◌, Option, none, some, ◌∷◌}
use capcom.Prelude.Text.{trim_space}
use capcom.Prelude.Bytes.{Bytes}
use capcom.Errors.{Error, sentinel, message, wrap, is, no_rows, secret_not_found, Result, ok, err}
use capcom.Domain.Values.{text, field, end}
use capcom.Domain.Control.{AuditEvent}
use capcom.Secrets.Cipher.{encrypt, decrypt}
use capcom.Secrets.Names.{
  StoreSecretInput, is_secret_name, normalize_store_secret_input, validate_store_secret_input,
}
use capcom.Secrets.Table
use capcom.Secrets.Table.{Secret, World, Env, insert_audit, rotate, get_ciphertext}

-- `if errors.Is(err, sql.ErrNoRows) { return …, ErrSecretNotFound }`
abbrev not_found : Error → Error
not_found e = if is no_rows e then sentinel secret_not_found else e

module _ (env : Env) (org : String) where
  -- Its own error comes back, and the mutation stays.
  unfoldable pub audit_mutation : Secret → String → String → String → World → Option Error × World
  audit_mutation secret actor reason event_type w =
      let event : AuditEvent = record {
        runtime_connection_id = "";
        agent_id = "";
        control_action_id = "";
        actor = actor;
        event_type = event_type;
        target_type = "secret";
        target_id = secret.name;
        reason = reason;
        before = none;
        after = some (
            field "name" (text secret.name)
              (field "updated_at" (text (env.format_time secret.updated_at)) end));
        result = "succeeded";
        metadata = none;
      } in
      if env.audits
      then elim (env.fault w (insert_audit event)) [
        | some e ↦ (some (wrap ("audit " <> event_type) e), w)
        | none ↦ (none, record w { audits = event ∷ w.audits })
      ]
      else (some (message "audit repository is required"), w)

  -- `if err := s.auditMutation(…); err != nil { … }; return secret, nil`
  unfoldable pub audited : StoreSecretInput → String → Secret → World → Result Secret × World
  unfolding audit_mutation
  audited input event_type secret w =
      let (failed, w') = audit_mutation secret input.actor input.reason event_type w in
      (elim failed [ some e ↦ err e | none ↦ ok secret ], w')

  -- `Encrypt`, and the method's own part with its ciphertext.
  unfoldable pub with_ciphertext :
      StoreSecretInput → (Bytes → World → Result Secret × World) → World → Result Secret × World
  unfolding encrypt
  with_ciphertext input go w = elim (validate_store_secret_input input) [
    | some e ↦ (err e, w)
    | none ↦ elim (encrypt env.cipher (env.nonce w) input.name input.value) [
      | err e ↦ (err (wrap "encrypt secret" e), w)
      | ok ciphertext ↦ go ciphertext w
    ]
  ]

  unfoldable pub created : StoreSecretInput → Bytes → World → Result Secret × World
  unfolding Table.create audited
  created input ciphertext w =
      let (r, w') = Table.create env org input.name ciphertext w in
      elim r [ err e ↦ (err e, w') | ok secret ↦ audited input "secret.created" secret w' ]

  unfoldable pub rotated : StoreSecretInput → Bytes → World → Result Secret × World
  unfolding rotate audited is
  rotated input ciphertext w =
      let (r, w') = rotate env org input.name ciphertext w in
      elim r [
        | err e ↦ (err (not_found e), w')
        | ok secret ↦ audited input "secret.rotated" secret w'
      ]

  unfoldable pub create_secret : StoreSecretInput → World → Result Secret × World
  unfolding with_ciphertext created normalize_store_secret_input
  create_secret input =
      let input = normalize_store_secret_input input in with_ciphertext input (created input)

  unfoldable pub rotate_secret : StoreSecretInput → World → Result Secret × World
  unfolding with_ciphertext rotated normalize_store_secret_input
  rotate_secret input =
      let input = normalize_store_secret_input input in with_ciphertext input (rotated input)

  unfoldable pub resolve : String → World → Result Bytes
  unfolding get_ciphertext decrypt is
  resolve ref w =
      let name = trim_space ref in
      if not (is_secret_name name)
      then err (message "invalid secret reference")
      else elim (get_ciphertext env org name w) [
        | err e ↦ err (not_found e)
        | ok ciphertext ↦ decrypt env.cipher name ciphertext
      ]
