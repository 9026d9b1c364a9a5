-- ===== src/Secrets/Opened.antt =====
-- The round trip of internal/secrets/cipher.go.
use capcom.Prelude.{suc, ◌+◌, String, false, ◌≡◌, refl, ap, ltb, some, [], ◌∷◌, ◌++◌, arith}
use capcom.Prelude.Bytes.{Bytes, length, take, drop, length-append, take-append, drop-append}
use capcom.Errors.{Result, ok, err}
use capcom.Secrets.Cipher.{Aead, encrypt, decrypt}

-- What the documentation of `cipher.AEAD` says: a text that was sealed is opened with the same
-- nonce and the same data, and is longer by the overhead.
pub record IsAead (aead : Aead) : Type 0 where
  pub opens :
      (nonce plaintext : Bytes) (name : String)
      → length nonce ≡ aead.nonce_size
      → aead.open_sealed nonce (aead.seal nonce plaintext name) name ≡ ok plaintext
  pub longer :
      (nonce plaintext : Bytes) (name : String)
      → length nonce ≡ aead.nonce_size
      → length (aead.seal nonce plaintext name) ≡ length plaintext + aead.overhead

module _ (aead : Aead) (h : IsAead aead) (nonce plaintext : Bytes) (name : String)
    (sized : length nonce ≡ aead.nonce_size) where
  sealed_length :
      ltb
        (length (1 ∷ nonce ++ aead.seal nonce plaintext name))
        (suc (aead.nonce_size + aead.overhead))
      ≡ false
  unfolding length
  sealed_length =
      let total = length-append nonce (aead.seal nonce plaintext name) in
      let longer = h.longer nonce plaintext name sized in ground (arith, total, longer, sized)

  sealed_nonce : take aead.nonce_size (nonce ++ aead.seal nonce plaintext name) ≡ nonce
  sealed_nonce = rw (← sized) (take-append nonce (aead.seal nonce plaintext name))

  sealed_rest :
      drop aead.nonce_size (nonce ++ aead.seal nonce plaintext name)
      ≡ aead.seal nonce plaintext name
  sealed_rest = rw (← sized) (drop-append nonce (aead.seal nonce plaintext name))

  decrypt_sealed :
      decrypt (some aead) name (1 ∷ nonce ++ aead.seal nonce plaintext name) ≡ ok plaintext
  unfolding decrypt drop
  decrypt_sealed =
      rw (sealed_length, sealed_nonce, sealed_rest, h.opens nonce plaintext name sized) refl

unsealed : Bytes → Result Bytes → Bytes
unsealed d (ok b) = b
unsealed d (err _) = d

-- A value that was encrypted under a name is what comes back when it is decrypted under that
-- name, given an AEAD that keeps to its documentation and a nonce of the size that it asks for.
pub decrypt-encrypt :
    (aead : Aead) (nonce payload plaintext : Bytes) (name : String)
    → IsAead aead
    → length nonce ≡ aead.nonce_size
    → encrypt (some aead) (ok nonce) name plaintext ≡ ok payload
    → decrypt (some aead) name payload ≡ ok plaintext
unfolding encrypt unsealed
decrypt-encrypt aead nonce payload plaintext name h sized e =
    rw (← ap (unsealed []) e) (decrypt_sealed aead h nonce plaintext name sized)
