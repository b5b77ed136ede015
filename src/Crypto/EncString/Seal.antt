-- ===== src/Crypto/EncString/Seal.antt =====
-- Encryption and decryption, over any cipher and MAC with the documented behaviour.
use nad_safe_password_manage.Prelude.{
  ◌≡◌, ◌≢◌, ◌↔◌, refl, ◌∙◌, ◌++◌, true, Bytes, ok, err, ok_or, arith,
}
use nad_safe_password_manage.Crypto.Crates.{Crates, IsArray, IsBytes, CbcLaws, HmacLaws}
use nad_safe_password_manage.Crypto.Error.{mac_mismatch, decryption}
use nad_safe_password_manage.Crypto.EncString.{
  EncString, SymmetricKey, IsWellFormed, IsKey, constant_time_eq, compute_mac, encrypt, decrypt,
}
use nad_safe_password_manage.Crypto.EncString.MacEq.{constant_time_eq_iff}

constant_time_eq_refl : (a : Bytes) → IsArray 32 a → constant_time_eq a a ≡ true
constant_time_eq_refl a h = (constant_time_eq_iff 32 a a h h).1 refl

module _ (c : Crates) (mac : HmacLaws c) where
  mac_test_iff :
      (enc : EncString) (key : SymmetricKey)
      → IsWellFormed enc
      → (constant_time_eq (compute_mac c key.mac_key enc.iv enc.ct) enc.mac ≡ true)
        ↔ (c.hmac_sha256 key.mac_key (enc.iv ++ enc.ct) ≡ enc.mac)
  unfolding compute_mac
  mac_test_iff enc key w =
      constant_time_eq_iff 32 _ enc.mac (mac.hmac_sha256-IsArray _ _) w.mac_array

  -- For a well-formed string: exactly when the MAC of the received IV and ciphertext is not the
  -- received MAC, decryption stops with `MacMismatch`, whatever the cipher does.
  pub decrypt-mac_mismatch_iff :
      (enc : EncString) (key : SymmetricKey)
      → IsWellFormed enc
      → (decrypt c enc key ≡ err mac_mismatch)
        ↔ (c.hmac_sha256 key.mac_key (enc.iv ++ enc.ct) ≢ enc.mac)
  unfolding decrypt compute_mac
  decrypt-mac_mismatch_iff enc key w = ground (arith, mac_test_iff enc key w)

  -- After the MAC check, decryption is the cipher's, and its failures are `Decryption`.
  pub decrypt_authentic :
      (enc : EncString) (key : SymmetricKey)
      → IsWellFormed enc
      → compute_mac c key.mac_key enc.iv enc.ct ≡ enc.mac
      → decrypt c enc key ≡ ok_or decryption (c.cbc_decrypt key.enc_key enc.iv enc.ct)
  unfolding decrypt compute_mac
  decrypt_authentic enc key w e = rw ((mac_test_iff enc key w).1 e, compute_mac)

  module _ (cbc : CbcLaws c) where
    -- Encrypting any bytes under a key of two halves of 32 bytes, with an IV of 16 bytes, succeeds
    -- with a well-formed string that the same key decrypts to these bytes.
    pub decrypt-encrypt :
        (plaintext : Bytes) (key : SymmetricKey) (iv : Bytes)
        → IsKey key
        → IsArray 16 iv
        → IsBytes plaintext
        → (enc : EncString) × (encrypt c plaintext key iv ≡ ok enc)
          × IsWellFormed enc
          × (decrypt c enc key ≡ ok plaintext)
    unfolding encrypt compute_mac
    decrypt-encrypt plaintext key iv k i p =
        let (ct, sealed, opened, ct_bytes) =
          cbc.cbc_inverse key.enc_key iv plaintext k.enc_array i p in
        let tag = c.hmac_sha256 key.mac_key (iv ++ ct) in
        let enc : EncString = record { enc_type = 2; iv = iv; ct = ct; mac = tag } in
        let w : IsWellFormed enc = record {
          type_is = refl;
          iv_array = i;
          ct_bytes = ct_bytes;
          mac_array = mac.hmac_sha256-IsArray key.mac_key (iv ++ ct);
        } in
        (enc, rw sealed, w, decrypt_authentic enc key w refl ∙ rw opened)
