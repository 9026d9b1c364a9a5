-- ===== src/Auth/Stored.antt =====
-- A password verifies against the hash that was stored for it.
use Prim.Native.String.{[], ◌∷◌, len}
use capcom.Prelude.{
  String, ◌<>◌, Bool, true, false, not, ◌&&◌, ◌≡◌, refl, ◌==◌, some, arith, eq_refl,
}
use text.Mathlib.TextLemmas.{nil-append, cons-append, append_assoc}
use mathlib.Core.List.{[] as nil, ◌∷◌ as ◌+>◌}
use capcom.Auth.Password.{
  Crypto, split_dollars, encode_password, verify_hash, verify_parts, verify_password,
}

-- A text without a dollar sign, as Base64 writes it.
unfoldable pub is_plain : String → Bool
is_plain [] = true
is_plain (c ∷ s) = let rest = is_plain s in not ((c ∷ "") == "$") && rest

split_last : (s : String) → is_plain s ≡ true → split_dollars s ≡ s +> nil
unfolding split_dollars is_plain
split_last [] h = refl
split_last (c ∷ s) h =
    let plain : ((c ∷ "") == "$") ≡ false = ground arith in
    rw (plain, split_last s (ground arith)) refl

dollar : (t : String) → split_dollars ("$" <> t) ≡ "" +> split_dollars t
unfolding split_dollars
dollar t = rw (cons-append "$" "" t, nil-append t) refl

split_first :
    (s t : String) → is_plain s ≡ true → split_dollars (s <> ("$" <> t)) ≡ s +> split_dollars t
unfolding split_dollars is_plain
split_first [] t h = rw (nil-append ("$" <> t)) (dollar t)
split_first (c ∷ s) t h =
    let plain : ((c ∷ "") == "$") ≡ false = ground arith in
    rw (cons-append c s ("$" <> t), plain, split_first s t (ground arith)) refl

-- What `encodePassword` writes falls into six parts.
split_encoded :
    (salt want : String)
    → is_plain salt ≡ true
    → is_plain want ≡ true
    → split_dollars ("$argon2id$v=19$m=19456,t=2,p=1$" <> (salt <> ("$" <> want)))
      ≡ "" +> "argon2id" +> "v=19" +> "m=19456,t=2,p=1" +> salt +> want +> nil
unfolding is_plain
split_encoded salt want h k =
    let rest = salt <> ("$" <> want) in
    let apart : "$argon2id$v=19$m=19456,t=2,p=1$" <> rest
        ≡ "$"
          <> ("argon2id" <> ("$" <> ("v=19" <> ("$" <> ("m=19456,t=2,p=1" <> ("$" <> rest)))))) =
      cc (
        append_assoc "$" "argon2id$v=19$m=19456,t=2,p=1$" rest,
        append_assoc "argon2id" "$v=19$m=19456,t=2,p=1$" rest,
        append_assoc "$" "v=19$m=19456,t=2,p=1$" rest,
        append_assoc "v=19" "$m=19456,t=2,p=1$" rest,
        append_assoc "$" "m=19456,t=2,p=1$" rest,
        append_assoc "m=19456,t=2,p=1" "$" rest,
      ) in
    rw
      (
        apart,
        dollar ("argon2id" <> ("$" <> ("v=19" <> ("$" <> ("m=19456,t=2,p=1" <> ("$" <> rest)))))),
        split_first "argon2id" ("v=19" <> ("$" <> ("m=19456,t=2,p=1" <> ("$" <> rest)))) refl,
        split_first "v=19" ("m=19456,t=2,p=1" <> ("$" <> rest)) refl,
        split_first "m=19456,t=2,p=1" rest refl,
        split_first salt want h,
        split_last want k,
      )
      refl

-- A password verifies against the hash that `encodePassword` makes of it with a salt, given Base64
-- that decodes the salt and the key as it encoded them and writes no dollar sign in them, an
-- Argon2 key of the 32 bytes that it was asked for, and a `Sscanf` that reads back the three
-- parameters that are always written.
pub verify-encode :
    (c : Crypto) (password salt want : String)
    → c.argon2 password salt 2 19456 1 32 ≡ want
    → len want ≡ 32
    → c.decode (c.encode salt) ≡ some salt
    → c.decode (c.encode want) ≡ some want
    → is_plain (c.encode salt) ≡ true
    → is_plain (c.encode want) ≡ true
    → c.scan_parameters "m=19456,t=2,p=1" ≡ some (19456, 2, 1)
    → verify_password c password (encode_password c password salt) ≡ true
unfolding verify_password verify_parts verify_hash encode_password
verify-encode c password salt want key sized decodes decodes_key plain plain_key scans =
    rw
      (
        key,
        split_encoded (c.encode salt) (c.encode want) plain plain_key,
        verify_parts,
        verify_hash,
        scans,
        decodes,
        decodes_key,
        sized,
        key,
      )
      (eq_refl want)
