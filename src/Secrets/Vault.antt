-- ===== src/Secrets/Vault.antt =====
-- The table of secrets as what it is for: a map from organization and name to value.
use capcom.Prelude.{
  String, not, ◌&&◌, ◌==◌, ◌≡◌, if◌then◌else◌, eq_iff, Option, none, some, List, [], ◌∷◌, arith,
}
use capcom.Prelude.Text.{trim_space}
use capcom.Prelude.Bytes.{Bytes}
use capcom.Errors.{sentinel, message, secret_not_found, Result, ok, err}
use capcom.Domain.Runtime.{Time}
use capcom.Secrets.Names.{
  StoreSecretInput, is_secret_name, normalize_store_secret_input, validate_store_secret_input,
}
use capcom.Secrets.Table.{SecretRow, is_row, find_row, set_ciphertext}

abbrev pub Spec : Type 0
Spec = String → String → Option Bytes

-- The mutations that the service offers, each for the organization of its caller.
pub data Op : Type 0 where
  store replace : String → StoreSecretInput → Op

unfoldable pub put : String → String → Bytes → Spec → Spec
put org name v s o n = if org == o && name == n then some v else s o n

-- A mutation of a valid input: the first value of a name, or another one.
unfoldable pub revise : Op → Spec → Spec
unfolding put normalize_store_secret_input
revise (store org input) s =
    let i = normalize_store_secret_input input in
    elim (validate_store_secret_input i) [
      | some _ ↦ s
      | none ↦ elim (s org i.name) [ some _ ↦ s | none ↦ put org i.name i.value s ]
    ]
revise (replace org input) s =
    let i = normalize_store_secret_input input in
    elim (validate_store_secret_input i) [
      | some _ ↦ s
      | none ↦ elim (s org i.name) [ some _ ↦ put org i.name i.value s | none ↦ s ]
    ]

unfoldable pub replay : List Op → Spec → Spec
unfolding revise
replay [] s = s
replay (op ∷ ops) s = replay ops (revise op s)

-- The value of a reference, or what is said where it has none.
unfoldable pub answer : String → String → Spec → Result Bytes
answer org ref s =
    let name = trim_space ref in
    if not (is_secret_name name)
    then err (message "invalid secret reference")
    else elim (s org name) [ none ↦ err (sentinel secret_not_found) | some v ↦ ok v ]

abbrev ciphertext_of : Option SecretRow → Option Bytes
ciphertext_of none = none
ciphertext_of (some r) = some r.ciphertext

unfoldable pub stored : String → String → List SecretRow → Option Bytes
stored o n rows = ciphertext_of (find_row o n rows)

abbrev replaced : Bytes → Option Bytes → Option Bytes
replaced c none = none
replaced c (some _) = some c

-- `UPDATE` replaces the ciphertext of its row, and of no other.
pub stored-set_ciphertext :
    (org name : String) (c : Bytes) (now : Time) (o n : String) (rows : List SecretRow)
    → stored o n (set_ciphertext org name c now rows)
      ≡ (if org == o && name == n then replaced c (stored o n rows) else stored o n rows)
unfolding stored set_ciphertext find_row is_row
stored-set_ciphertext org name c now o n [] = ground arith
stored-set_ciphertext org name c now o n (r ∷ rows) =
    let ih = stored-set_ciphertext org name c now o n rows in
    let a = eq_iff r.organization_id org in
    let b = eq_iff r.secret.name name in
    let a' = eq_iff r.organization_id o in
    let b' = eq_iff r.secret.name n in
    let a'' = eq_iff org o in let b'' = eq_iff name n in ground (arith, ih, a, b, a', b', a'', b'')

pub stored-cons :
    (r : SecretRow) (o n : String) (rows : List SecretRow)
    → stored o n (r ∷ rows) ≡ (
        if r.organization_id == o && r.secret.name == n then some r.ciphertext else stored o n rows)
unfolding stored find_row is_row
stored-cons r o n rows = ground arith
