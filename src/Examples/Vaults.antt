-- ===== src/Examples/Vaults.antt =====
-- The secrets at concrete inputs.
use capcom.Prelude.{true, ◌≡◌, refl, none, some, List, [], ◌∷◌, arith}
use capcom.Prelude.Text.{trim_space}
use capcom.Prelude.Bytes.{Bytes, length}
use capcom.Errors.{message, Result, ok, err}
use capcom.Secrets.Cipher.{Aead}
use capcom.Secrets.Names.{StoreSecretInput, is_secret_name, validate_store_secret_input}
use capcom.Secrets.Table.{Env}
use capcom.Secrets.Service.{resolve}
use capcom.Secrets.Opened.{IsAead}
use capcom.Secrets.Vault.{Op, store, replace, replay, answer}
use capcom.Secrets.Refined.{IsReliable, run, empty, nothing, resolve-run}

abbrev open_tail : Bytes → Result Bytes
open_tail [] = err (message "no tag")
open_tail (_ ∷ b) = ok b

-- A tag of one byte before the text.
abbrev tagging : Aead
tagging = record {
  nonce_size = 1;
  overhead = 1;
  seal = λ nonce b name. 0 ∷ b;
  open_sealed = λ nonce b name. open_tail b;
}

tagging-IsAead : IsAead tagging
unfolding length
tagging-IsAead = record {
  opens = λ nonce b name size. refl;
  longer = λ nonce b name size. omega arith;
}

abbrev quiet : Env
quiet = record {
  fault = λ w s. none;
  now = λ w. 5;
  new_id = λ w. ok "s1";
  nonce = λ w. ok (9 ∷ []);
  cipher = some tagging;
  audits = true;
  format_time = λ t. "";
}

quiet-IsReliable : IsReliable quiet
unfolding length
quiet-IsReliable = record {
  aead = tagging;
  cipher = refl;
  is_aead = tagging-IsAead;
  fault = λ w s. refl;
  new_id = λ w. ("s1", refl);
  nonce = λ w. ((9 ∷ []), refl, refl);
}

abbrev giving : Bytes → StoreSecretInput
giving v = record { name = "token"; value = v; actor = "ada"; reason = "rotation" }

abbrev ops : List Op
ops =
    store "org1" (giving (1 ∷ []))
    ∷ store "org2" (giving (2 ∷ []))
    ∷ replace "org1" (giving (3 ∷ []))
    ∷ []

resolve-run_example :
    resolve quiet "org1" " token" (run quiet ops empty)
    ≡ answer "org1" " token" (replay ops nothing)
resolve-run_example = resolve-run quiet quiet-IsReliable ops "org1" " token"

resolved : resolve quiet "org1" " token" (run quiet ops empty) ≡ ok (3 ∷ [])
unfolding resolve is_secret_name trim_space run validate_store_secret_input empty
resolved = refl
