-- ===== src/Crypto/OrgKey.antt =====
-- crates/crypto-core/src/keys.rs: `OrgKey`, a symmetric key of 64 bytes that an organization's
-- members share, each with a copy under the member's RSA key; and `generate_rsa_key_pair`.
use nad_safe_password_manage.Prelude.{
  ◌≡◌, refl, ap, ◌∙◌, Bytes, Str, Result, ok, err, ◌>>=◌, map_err, ◌==◌, length, if◌then◌else◌,
  arith,
}
use nad_safe_password_manage.Crypto.Crates.{
  Crates, IsArray, IsBytes, CbcLaws, HmacLaws, RsaLaws, RsaPrivateKey, oaep_sha256,
}
use nad_safe_password_manage.Crypto.EncString
use nad_safe_password_manage.Crypto.EncString.{EncString, SymmetricKey, IsWellFormed}
use nad_safe_password_manage.Crypto.EncString.KeyBytes.{seal_with_bytes}
use nad_safe_password_manage.Crypto.Error.{CryptoError, invalid_key_length, rsa}

pub record OrgKey : Type 0 where
  pub bytes : Bytes

-- on the 64 random bytes that it draws
unfoldable pub generate : Bytes → OrgKey
generate drawn = record { bytes = drawn }

unfoldable pub from_bytes : Bytes → Result CryptoError OrgKey
from_bytes bytes =
    if length bytes == 64
    then ok (record { bytes = bytes })
    else err (invalid_key_length 64 (length bytes))

unfoldable pub raw_bytes : OrgKey → Bytes
raw_bytes key = key.bytes

unfoldable pub to_symmetric_key : OrgKey → Result CryptoError SymmetricKey
to_symmetric_key key = EncString.from_bytes key.bytes

module _ (c : Crates) where
  -- private and public key in DER, from the random bytes drawn
  unfoldable pub generate_rsa_key_pair : Bytes → Result CryptoError (Bytes × Bytes)
  generate_rsa_key_pair drawn = do
    priv_key ← map_err rsa (c.rsa_new drawn 2048)
    let pub_key = c.to_public_key priv_key
    priv_der ← map_err rsa (c.to_pkcs8_der priv_key)
    pub_der ← map_err rsa (c.to_public_key_der pub_key)
    ok (priv_der, pub_der)

  -- the second argument is the public key, the third the padding's random bytes
  unfoldable pub encrypt_to_member : OrgKey → Bytes → Bytes → Result CryptoError Bytes
  encrypt_to_member key public_key_der noise = do
    pub_key ← map_err rsa (c.from_public_key_der public_key_der)
    map_err rsa (c.rsa_encrypt oaep_sha256 pub_key noise key.bytes)

  unfoldable pub decrypt_from_member : Bytes → Bytes → Result CryptoError OrgKey
  unfolding from_bytes
  decrypt_from_member enc_org_key private_key_der = do
    priv_key ← map_err rsa (c.from_pkcs8_der private_key_der)
    raw ← map_err rsa (c.rsa_decrypt oaep_sha256 priv_key enc_org_key)
    from_bytes raw

  unfoldable pub encrypt : OrgKey → Bytes → Bytes → Result CryptoError EncString
  unfolding to_symmetric_key
  encrypt key plaintext iv = do sym ← to_symmetric_key key; EncString.encrypt c plaintext sym iv

  unfoldable pub decrypt : OrgKey → EncString → Result CryptoError Bytes
  unfolding to_symmetric_key
  decrypt key enc = do sym ← to_symmetric_key key; EncString.decrypt c enc sym

  -- what a step that succeeded has passed
  passed :
      {A B : Type 0} (r : Result Str A) (k : A → Result CryptoError B) {b : B}
      → (map_err rsa r >>= k) ≡ ok b
      → (a : A) × (r ≡ ok a) × (k a ≡ ok b)
  passed (ok a) k e = (a, refl, e)
  passed (err x) k e = cc

  -- the private key that a generated pair is written from
  pair_of :
      (drawn private_der public_der : Bytes)
      → generate_rsa_key_pair drawn ≡ ok (private_der, public_der)
      → (key : RsaPrivateKey) × (c.rsa_new drawn 2048 ≡ ok key)
        × (c.to_pkcs8_der key ≡ ok private_der)
        × (c.to_public_key_der (c.to_public_key key) ≡ ok public_der)
  unfolding generate_rsa_key_pair
  pair_of drawn private_der public_der e =
      let (key, made, e1) = passed _ _ e in
      let (priv, private_is, e2) = passed _ _ e1 in
      let (pub_der, public_is, e3) = passed _ _ e2 in
      let same_priv : priv ≡ private_der = ground arith in
      let same_pub : pub_der ≡ public_der = ground arith in
      (key, made, private_is ∙ ap ok same_priv, public_is ∙ ap ok same_pub)

  module _ (laws : RsaLaws c) where
    -- A member with a generated key pair gets back the organization key of 64 bytes that was
    -- encrypted to the pair's public key: both keys are read from their DER form, the padding is the
    -- same on both sides, and with it the key fits into the modulus of the pair.
    pub decrypt_from_member-encrypt_to_member :
        (key : OrgKey) (drawn noise private_der public_der : Bytes)
        → IsArray 64 key.bytes
        → generate_rsa_key_pair drawn ≡ ok (private_der, public_der)
        → (enc : Bytes) × (encrypt_to_member key public_der noise ≡ ok enc)
          × (decrypt_from_member enc private_der ≡ ok key)
    unfolding encrypt_to_member decrypt_from_member
    decrypt_from_member-encrypt_to_member key drawn noise private_der public_der k e =
        let (priv, made, private_is, public_is) = pair_of drawn private_der public_der e in
        let (enc, sealed, opened) =
          laws.rsa_inverse oaep_sha256 drawn noise key.bytes 2048 priv made k.1
            (omega (arith, k.0)) in
        let read_private = laws.pkcs8_inverse priv private_der private_is in
        let read_public = laws.public_key_inverse (c.to_public_key priv) public_der public_is in
        (enc, rw read_public (rw sealed), rw read_private (rw opened (ground (arith, k.0))))

  module _ (mac : HmacLaws c) (cbc : CbcLaws c) where
    -- What an organization key of 64 bytes encrypts, with an IV of 16 bytes, is a well-formed string
    -- that the same key decrypts.
    pub decrypt-encrypt_by_org_key :
        (key : OrgKey) (plaintext iv : Bytes)
        → IsArray 64 key.bytes
        → IsArray 16 iv
        → IsBytes plaintext
        → (enc : EncString) × (encrypt key plaintext iv ≡ ok enc)
          × IsWellFormed enc
          × (decrypt key enc ≡ ok plaintext)
    unfolding encrypt decrypt
    decrypt-encrypt_by_org_key key plaintext iv k i p =
        let (sym, enc, split, sealed, w, opened) =
          seal_with_bytes c mac cbc key.bytes plaintext iv k i p in
        (enc, rw split sealed, w, rw split opened)
