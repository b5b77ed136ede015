-- ===== src/Crypto/Recovery/Unwrap.antt =====
-- Recovering the user key from a phrase.
use nad_safe_password_manage.Prelude.{◌≡◌, Bytes, Str, ok, arith}
use nad_safe_password_manage.Crypto.Crates.{Crates, IsArray, CbcLaws, HmacLaws, HkdfLaws}
use nad_safe_password_manage.Crypto.EncString.{EncString, IsWellFormed}
use nad_safe_password_manage.Crypto.EncString.KeyBytes.{seal_with_bytes}
use nad_safe_password_manage.Crypto.Recovery.{
  recovery_info, recovery_key_from_entropy, wrap_user_key_with_recovery,
  unwrap_user_key_with_recovery, phrase_to_entropy,
}
use nad_safe_password_manage.Crypto.UserKey
use nad_safe_password_manage.Crypto.UserKey.{UserKey}

module _ (c : Crates) where
  module _ (hkdf : HkdfLaws c) where
    recovery_key-IsArray :
        (entropy : Bytes)
        → IsArray 32 entropy
        → (bytes : Bytes) × (recovery_key_from_entropy c entropy ≡ ok bytes) × IsArray 64 bytes
    unfolding recovery_key_from_entropy
    recovery_key-IsArray entropy h =
        let (bytes, e, array) = hkdf.expand-ok entropy recovery_info 64 h (omega arith) in
        (bytes, rw (hkdf.from_prk-ok entropy h) (rw e), array)

    module _ (mac : HmacLaws c) (cbc : CbcLaws c) where
      -- Wrapping a user key of 64 bytes under 32 bytes of entropy, with an IV of 16 bytes, succeeds,
      -- and a phrase that is read as this entropy unwraps the result to the same user key.
      pub unwrap-wrap :
          (user_key : UserKey) (entropy iv : Bytes) (phrase : Str)
          → IsArray 64 user_key.bytes
          → IsArray 32 entropy
          → IsArray 16 iv
          → phrase_to_entropy phrase ≡ ok entropy
          → (enc : EncString) × (wrap_user_key_with_recovery c user_key entropy iv ≡ ok enc)
            × IsWellFormed enc
            × (unwrap_user_key_with_recovery c enc phrase ≡ ok user_key)
      unfolding wrap_user_key_with_recovery unwrap_user_key_with_recovery UserKey.raw_bytes
          UserKey.from_bytes
      unwrap-wrap user_key entropy iv phrase k h i e =
          let (bytes, derived, array) = recovery_key-IsArray entropy h in
          let (key, enc, split, sealed, w, opened) =
            seal_with_bytes c mac cbc bytes user_key.bytes iv array i k.1 in
          (
            enc,
            rw derived (rw split (rw sealed)),
            w,
            rw e (rw derived (rw split (rw opened (ground (arith, k.0))))),
          )
