-- ===== src/Crypto/MasterKey.antt =====
-- crates/crypto-core/src/keys.rs: `stretch_master_key` and `MasterKey`.
use nad_safe_password_manage.Prelude.{◌≡◌, [], ◌∷◌, ◌++◌, Bytes, Result, ok, ◌>>=◌, map_err, arith}
use nad_safe_password_manage.Crypto.Crates.{Crates, IsArray, CbcLaws, HmacLaws, HkdfLaws}
use nad_safe_password_manage.Crypto.EncString
use nad_safe_password_manage.Crypto.EncString.{EncString, SymmetricKey, IsWellFormed}
use nad_safe_password_manage.Crypto.EncString.KeyBytes.{seal_with_bytes, IsArray-append}
use nad_safe_password_manage.Crypto.Error.{CryptoError, kdf}
use nad_safe_password_manage.Crypto.UserKey
use nad_safe_password_manage.Crypto.UserKey.{UserKey}

abbrev info_enc : Bytes
info_enc = b'e' ∷ b'n' ∷ b'c' ∷ []

abbrev info_mac : Bytes
info_mac = b'm' ∷ b'a' ∷ b'c' ∷ []

pub record MasterKey : Type 0 where
  pub bytes : Bytes

module _ (c : Crates) where
  unfoldable pub stretch_master_key : Bytes → Result CryptoError Bytes
  stretch_master_key master_key = do
    hk ← map_err kdf (c.hkdf_from_prk master_key)
    enc_key ← map_err kdf (c.hkdf_expand hk info_enc 32)
    mac_key ← map_err kdf (c.hkdf_expand hk info_mac 32)
    ok (enc_key ++ mac_key)

  unfoldable pub master_key_to_sym : Bytes → Result CryptoError SymmetricKey
  master_key_to_sym stretched = EncString.from_bytes stretched

  -- `drawn` are the 64 random bytes of the user key, `iv` the 16 of its encryption
  unfoldable pub generate_user_key :
      MasterKey → Bytes → Bytes → Result CryptoError (UserKey × EncString)
  generate_user_key key drawn iv = do
    stretched ← stretch_master_key key.bytes
    sym ← EncString.from_bytes stretched
    let user_key = UserKey.generate drawn
    user_key_enc ← EncString.encrypt c (UserKey.raw_bytes user_key) sym iv
    ok (user_key, user_key_enc)

  unfoldable pub decrypt_user_key : MasterKey → EncString → Result CryptoError UserKey
  decrypt_user_key key enc = do
    stretched ← stretch_master_key key.bytes
    sym ← EncString.from_bytes stretched
    raw ← EncString.decrypt c enc sym
    UserKey.from_bytes raw

  module _ (hkdf : HkdfLaws c) where
    pub stretch_master_key-IsArray :
        (master_key : Bytes)
        → IsArray 32 master_key
        → (stretched : Bytes) × (stretch_master_key master_key ≡ ok stretched)
          × IsArray 64 stretched
    unfolding stretch_master_key
    stretch_master_key-IsArray master_key h =
        let (enc_key, e, he) = hkdf.expand-ok master_key info_enc 32 h (omega arith) in
        let (mac_key, m, hm) = hkdf.expand-ok master_key info_mac 32 h (omega arith) in
        (
          enc_key ++ mac_key,
          rw (hkdf.from_prk-ok master_key h) (rw e (rw m)),
          IsArray-append 32 32 enc_key mac_key he hm,
        )

    -- For a master key of 32 bytes and an IV of 16 bytes, generating a user key succeeds, and the
    -- wrapped key is unwrapped by the same master key to the 64 bytes that were drawn.
    pub decrypt_user_key-generate_user_key :
        (mac : HmacLaws c) (cbc : CbcLaws c) (key : MasterKey) (drawn iv : Bytes)
        → IsArray 32 key.bytes
        → IsArray 64 drawn
        → IsArray 16 iv
        → (enc : EncString) × (generate_user_key key drawn iv ≡ ok (record { bytes = drawn }, enc))
          × IsWellFormed enc
          × (decrypt_user_key key enc ≡ ok (record { bytes = drawn }))
    unfolding generate_user_key decrypt_user_key UserKey.generate UserKey.raw_bytes
        UserKey.from_bytes
    decrypt_user_key-generate_user_key mac cbc key drawn iv k d i =
        let (stretched, s, hs) = stretch_master_key-IsArray key.bytes k in
        let (sym, enc, split, sealed, w, opened) =
          seal_with_bytes c mac cbc stretched drawn iv hs i d.1 in
        (enc, rw s (rw split (rw sealed)), w, rw s (rw split (rw opened (ground (arith, d.0)))))
