-- ===== src/Secrets/Cipher.antt =====
-- internal/secrets/cipher.go. AES-GCM and the random numbers are Go's: `Aead` has what the code
-- calls of them.
use capcom.Prelude.{
  ℕ, suc, ◌+◌, String, Bool, true, not, ◌||◌, ltb, nat_eq, if◌then◌else◌, Option, none, some, [],
  ◌∷◌, ◌++◌,
}
use capcom.Prelude.Bytes.{Bytes, length, take, drop}
use capcom.Errors.{message, wrap, Result, ok, err}

-- `cipher.AEAD`: `seal nonce plaintext name` is what `Seal` appends.
pub record Aead : Type 0 where
  pub nonce_size : ℕ
  pub overhead : ℕ
  pub seal : Bytes → Bytes → String → Bytes
  pub open_sealed : Bytes → Bytes → String → Result Bytes

-- `Cipher{}` has no AEAD.
abbrev pub Cipher : Type 0
Cipher = Option Aead

-- `NewCipher`, over `aes.NewCipher` and `cipher.NewGCM`.
unfoldable pub new_cipher :
    {Block : Type 0} → (Bytes → Result Block) → (Block → Result Aead) → Bytes → Result Cipher
unfolding length
new_cipher make_block make_gcm key =
    if not (nat_eq (length key) 32)
    then err (message "secret key must be exactly 32 bytes")
    else elim (make_block key) [
      | err e ↦ err (wrap "create AES cipher" e)
      | ok block ↦ elim (make_gcm block) [
        | err e ↦ err (wrap "create AES-GCM cipher" e)
        | ok aead ↦ ok (some aead)
      ]
    ]

abbrev pub ciphertext_version : ℕ
ciphertext_version = 1

-- `nonce` is what `io.ReadFull(rand.Reader, …)` reads.
unfoldable pub encrypt : Cipher → Result Bytes → String → Bytes → Result Bytes
encrypt none nonce name plaintext = err (message "secret cipher is not configured")
encrypt (some aead) (err e) name plaintext = err (wrap "generate secret nonce" e)
encrypt (some aead) (ok nonce) name plaintext =
    ok (ciphertext_version ∷ nonce ++ aead.seal nonce plaintext name)

-- `payload[0] != ciphertextVersion`, of a payload that is not empty
abbrev other_version : Bytes → Bool
other_version [] = true
other_version (v ∷ _) = not (nat_eq v ciphertext_version)

abbrev opened : Result Bytes → Result Bytes
opened (ok plaintext) = ok plaintext
opened (err e) = err (wrap "decrypt secret" e)

unfoldable pub decrypt : Cipher → String → Bytes → Result Bytes
unfolding length take drop
decrypt none name payload = err (message "secret cipher is not configured")
decrypt (some aead) name payload =
    if ltb (length payload) (suc (aead.nonce_size + aead.overhead)) || other_version payload
    then err (message "invalid encrypted secret payload")
    else opened (
        aead.open_sealed (take aead.nonce_size (drop 1 payload))
          (drop (suc aead.nonce_size) payload) name)
