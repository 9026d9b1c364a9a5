-- ===== src/Secrets/Refined.antt =====
-- The service over encrypted rows does what the map of plain values does.
use capcom.Prelude.{
  String, ◌&&◌, ◌==◌, ◌≡◌, refl, if◌then◌else◌, eq_iff, Option, none, some, List, [], ◌∷◌, ◌++◌,
  arith,
}
use capcom.Prelude.Text.{trim_space}
use capcom.Prelude.Bytes.{Bytes, length}
use capcom.Errors.{is, Result, ok}
use capcom.Secrets.Cipher.{Aead, Cipher, encrypt, decrypt}
use capcom.Secrets.Names.{StoreSecretInput, normalize_store_secret_input}
use capcom.Secrets.Table
use capcom.Secrets.Table.{
  Secret, SecretRow, World, Env, Statement, is_row, find_row, set_ciphertext, rotate,
  get_ciphertext,
}
use capcom.Secrets.Service.{
  audit_mutation, audited, with_ciphertext, created, rotated, create_secret, rotate_secret, resolve,
}
use capcom.Secrets.Opened.{IsAead, decrypt-encrypt}
use capcom.Secrets.Vault.{
  Spec, Op, store, replace, put, revise, replay, answer, stored, stored-set_ciphertext,
}

-- No fault, a cipher that keeps to its documentation, and random numbers of the right size.
pub record IsReliable (env : Env) : Type 0 where
  pub aead : Aead
  pub cipher : env.cipher ≡ some aead
  pub is_aead : IsAead aead
  pub fault : (w : World) (s : Statement) → env.fault w s ≡ none
  pub new_id : (w : World) → (id : String) × (env.new_id w ≡ ok id)
  pub nonce : (w : World) → (b : Bytes) × (env.nonce w ≡ ok b) × (length b ≡ aead.nonce_size)

unfoldable pub run_op : Env → Op → World → World
unfolding create_secret rotate_secret
run_op env (store org input) w = (create_secret env org input w).1
run_op env (replace org input) w = (rotate_secret env org input w).1

unfoldable pub run : Env → List Op → World → World
unfolding run_op
run env [] w = w
run env (op ∷ ops) w = run env ops (run_op env op w)

known : Option Bytes → Option (Result Bytes)
known none = none
known (some v) = some (ok v)

shown : Cipher → String → Option Bytes → Option (Result Bytes)
shown cipher name none = none
shown cipher name (some c) = some (decrypt cipher name c)

-- Each row opens to the value that the map has.
record Represents (cipher : Cipher) (s : Spec) (w : World) : Type 0 where
  at : (o n : String) → shown cipher n (stored o n w.secrets) ≡ known (s o n)

audited-secrets :
    (env : Env) (org : String) (input : StoreSecretInput) (t : String) (secret : Secret) (w : World)
    → (audited env org input t secret w).1.secrets ≡ w.secrets
unfolding audited audit_mutation
audited-secrets env org input t secret w = ground arith

module _ (env : Env) (h : IsReliable env) (org : String) (input : StoreSecretInput) (c : Bytes)
    (w : World) (o n : String) where
  created-stored :
      stored o n (created env org input c w).1.secrets ≡ elim (stored org input.name w.secrets) [
        | some _ ↦ stored o n w.secrets
        | none ↦ if org == o && input.name == n then some c else stored o n w.secrets
      ]
  unfolding created Table.create stored find_row is_row audited audit_mutation
  created-stored =
      let (_, id) = h.new_id w in
      let no = h.fault w (Statement.insert_secret input.name) in ground (arith, id, no)

  rotated-stored :
      stored o n (rotated env org input c w).1.secrets ≡ elim (stored org input.name w.secrets) [
        | some _ ↦ if org == o && input.name == n then some c else stored o n w.secrets
        | none ↦ stored o n w.secrets
      ]
  unfolding rotated rotate stored audited audit_mutation
  rotated-stored =
      let no = h.fault w (Statement.update_secret input.name) in
      let set = stored-set_ciphertext org input.name c (env.now w) o n w.secrets in
      let o' = eq_iff org o in let n' = eq_iff input.name n in ground (arith, no, set, o', n')

module _ (env : Env) (h : IsReliable env) (w : World) (name : String) (v : Bytes) where
  -- The ciphertext of a value, and that it opens.
  sealed :
      (c : Bytes) × (encrypt env.cipher (env.nonce w) name v ≡ ok c)
      × (decrypt env.cipher name c ≡ ok v)
  unfolding encrypt
  sealed =
      let (b, e, size) = h.nonce w in
      let c = 1 ∷ b ++ h.aead.seal b v name in
      (
        c,
        rw (h.cipher, e) refl,
        rw (h.cipher) (decrypt-encrypt h.aead b c v name h.is_aead size refl),
      )

module _ (env : Env) (h : IsReliable env) (org : String) (input : StoreSecretInput) (s : Spec)
    (w : World) (sim : Represents env.cipher s w) where
  create_secret-Represents :
      Represents env.cipher (revise (store org input) s) (create_secret env org input w).1
  unfolding revise create_secret with_ciphertext shown known put
  create_secret-Represents = record {
    at = λ o n.
        let i = normalize_store_secret_input input in
        let (c, e, d) = sealed env h w i.name i.value in
        let now = created-stored env h org i c w o n in
        let before = sim.at o n in
        let own = sim.at org i.name in
        let o' = eq_iff org o in
        let n' = eq_iff i.name n in ground (arith, e, d, now, before, own, o', n');
  }

  rotate_secret-Represents :
      Represents env.cipher (revise (replace org input) s) (rotate_secret env org input w).1
  unfolding revise rotate_secret with_ciphertext shown known put
  rotate_secret-Represents = record {
    at = λ o n.
        let i = normalize_store_secret_input input in
        let (c, e, d) = sealed env h w i.name i.value in
        let now = rotated-stored env h org i c w o n in
        let before = sim.at o n in
        let own = sim.at org i.name in
        let o' = eq_iff org o in
        let n' = eq_iff i.name n in ground (arith, e, d, now, before, own, o', n');
  }

run-Represents :
    (env : Env)
    → IsReliable env
    → (ops : List Op) (s : Spec) (w : World) → Represents env.cipher s w
    → Represents env.cipher (replay ops s) (run env ops w)
unfolding run run_op replay
run-Represents env h [] s w sim = sim
run-Represents env h (store org input ∷ ops) s w sim =
    run-Represents env h ops _ _ (create_secret-Represents env h org input s w sim)
run-Represents env h (replace org input ∷ ops) s w sim =
    run-Represents env h ops _ _ (rotate_secret-Represents env h org input s w sim)

resolve-Represents :
    (env : Env)
    → IsReliable env
    → (org ref : String) (s : Spec) (w : World) → Represents env.cipher s w
    → resolve env org ref w ≡ answer org ref s
unfolding resolve answer get_ciphertext stored shown known is
resolve-Represents env h org ref s w sim =
    let name = trim_space ref in
    let own = sim.at org name in
    let no = h.fault w (Statement.select_secret name) in ground (arith, own, no)

unfoldable pub empty : World
empty = record { secrets = []; audits = [] }

unfoldable pub nothing : Spec
nothing o n = none

-- Where the database and the random numbers do not fail, and the AEAD keeps to its documentation:
-- after any sequence of `Create` and `Rotate`, by any organizations, over a table that was empty,
-- `Resolve` of a reference answers what a map from organization and name to the plain value
-- answers, in which `Create` sets the value of a name without one, `Rotate` replaces the value of
-- a name that has one, and neither changes anything for another organization, another name, or an
-- input that is not valid.
pub resolve-run :
    (env : Env)
    → IsReliable env
    → (ops : List Op) (org ref : String)
    → resolve env org ref (run env ops empty) ≡ answer org ref (replay ops nothing)
unfolding empty nothing known shown stored find_row
resolve-run env h ops org ref =
    resolve-Represents env h org ref (replay ops nothing) (run env ops empty)
      (run-Represents env h ops nothing empty (record { at = λ o n. refl }))
