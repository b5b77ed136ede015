-- ===== src/Crypto/UserKey.antt =====
-- crates/crypto-core/src/keys.rs: `UserKey`, a symmetric key of 64 bytes for vault items.
use nad_safe_password_manage.Prelude.{
  ◌≡◌, Bytes, Result, ok, err, ◌>>=◌, ◌==◌, length, if◌then◌else◌,
}
use nad_safe_password_manage.Crypto.Crates.{Crates, IsArray, IsBytes, CbcLaws, HmacLaws}
use nad_safe_password_manage.Crypto.EncString
use nad_safe_password_manage.Crypto.EncString.{EncString, SymmetricKey, IsWellFormed}
use nad_safe_password_manage.Crypto.EncString.KeyBytes.{seal_with_bytes}
use nad_safe_password_manage.Crypto.Error.{CryptoError, invalid_key_length}

pub record UserKey : Type 0 where
  pub bytes : Bytes

-- on the 64 random bytes that it draws
unfoldable pub generate : Bytes → UserKey
generate drawn = record { bytes = drawn }

unfoldable pub from_bytes : Bytes → Result CryptoError UserKey
from_bytes bytes =
    if length bytes == 64
    then ok (record { bytes = bytes })
    else err (invalid_key_length 64 (length bytes))

unfoldable pub raw_bytes : UserKey → Bytes
raw_bytes key = key.bytes

unfoldable pub to_symmetric_key : UserKey → Result CryptoError SymmetricKey
to_symmetric_key key = EncString.from_bytes key.bytes

module _ (c : Crates) where
  unfoldable pub encrypt : UserKey → Bytes → Bytes → Result CryptoError EncString
  unfolding to_symmetric_key
  encrypt key plaintext iv = do sym ← to_symmetric_key key; EncString.encrypt c plaintext sym iv

  unfoldable pub decrypt : UserKey → EncString → Result CryptoError Bytes
  unfolding to_symmetric_key
  decrypt key enc = do sym ← to_symmetric_key key; EncString.decrypt c enc sym

  module _ (mac : HmacLaws c) (cbc : CbcLaws c) where
    -- What a user key of 64 bytes encrypts, with an IV of 16 bytes, is a well-formed string that the
    -- same key decrypts.
    pub decrypt-encrypt_by_user_key :
        (key : UserKey) (plaintext iv : Bytes)
        → IsArray 64 key.bytes
        → IsArray 16 iv
        → IsBytes plaintext
        → (enc : EncString) × (encrypt key plaintext iv ≡ ok enc)
          × IsWellFormed enc
          × (decrypt key enc ≡ ok plaintext)
    unfolding encrypt decrypt
    decrypt-encrypt_by_user_key key plaintext iv k i p =
        let (sym, enc, split, sealed, w, opened) =
          seal_with_bytes c mac cbc key.bytes plaintext iv k i p in
        (enc, rw split sealed, w, rw split opened)
