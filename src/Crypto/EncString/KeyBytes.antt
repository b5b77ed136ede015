-- ===== src/Crypto/EncString/KeyBytes.antt =====
-- `SymmetricKey::from_bytes` on 64 bytes, and a round trip through any such key.
use nad_safe_password_manage.Prelude.{
  ℕ, ◌+◌, ◌≡◌, sym, ap, ◌∙◌, ◌++◌, Bytes, ok, arith, take, drop, length-take, length-drop,
  take-append-drop, every, every-append, length-append, ltb, &&-true,
}
use nad_safe_password_manage.Crypto.Crates.{Crates, IsArray, IsBytes, CbcLaws, HmacLaws}
use nad_safe_password_manage.Crypto.EncString.{
  EncString, SymmetricKey, IsKey, IsWellFormed, from_bytes, encrypt, decrypt,
}
use nad_safe_password_manage.Crypto.EncString.Seal.{decrypt-encrypt}

pub IsBytes-append : (a b : Bytes) → IsBytes a → IsBytes b → IsBytes (a ++ b)
IsBytes-append a b ha hb = ground (arith, every-append (λ x. ltb x 256) a b)

pub IsArray-append : (n m : ℕ) (a b : Bytes) → IsArray n a → IsArray m b → IsArray (n + m) (a ++ b)
IsArray-append n m a b ha hb =
    (omega (arith, length-append a b, ha.0, hb.0), IsBytes-append a b ha.1 hb.1)

halves_bytes : (n : ℕ) (b : Bytes) → IsBytes b → IsBytes (take n b) × IsBytes (drop n b)
halves_bytes n b h = &&-true _ _ (
    sym (every-append (λ x. ltb x 256) (take n b) (drop n b))
    ∙ ap (every (λ x. ltb x 256)) (take-append-drop n b)
    ∙ h)

pub from_bytes-IsKey :
    (bytes : Bytes)
    → IsArray 64 bytes
    → (key : SymmetricKey) × (from_bytes bytes ≡ ok key) × IsKey key
unfolding from_bytes
from_bytes-IsKey bytes h = (
  record { enc_key = take 32 bytes; mac_key = drop 32 bytes },
  ground (arith, h.0),
  record {
    enc_array = (omega (arith, h.0, length-take 32 bytes), (halves_bytes 32 bytes h.1).0);
    mac_array = (omega (arith, h.0, length-drop 32 bytes), (halves_bytes 32 bytes h.1).1);
  },
)

module _ (c : Crates) (mac : HmacLaws c) (cbc : CbcLaws c) where
  -- A key of 64 bytes is split in two halves, and what it encrypts it decrypts.
  pub seal_with_bytes :
      (key_bytes plaintext iv : Bytes)
      → IsArray 64 key_bytes
      → IsArray 16 iv
      → IsBytes plaintext
      → (key : SymmetricKey) × (enc : EncString) × (from_bytes key_bytes ≡ ok key)
        × (encrypt c plaintext key iv ≡ ok enc)
        × IsWellFormed enc
        × (decrypt c enc key ≡ ok plaintext)
  seal_with_bytes key_bytes plaintext iv k i p =
      let (key, e, is_key) = from_bytes-IsKey key_bytes k in
      let (enc, sealed, w, opened) = decrypt-encrypt c mac cbc plaintext key iv is_key i p in
      (key, enc, e, sealed, w, opened)
