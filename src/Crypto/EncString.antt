-- ===== src/Crypto/EncString.antt =====
-- crates/crypto-core/src/enc_string.rs
mod MacEq
pub mod Seal
pub mod Wire
pub mod KeyBytes
use Prim.Native.Nat.{bit_or, bit_xor}
use nad_safe_password_manage.Prelude.{
  ℕ, ◌≡◌, Bool, List, [], ◌∷◌, ◌++◌, Bytes, Str, Result, ok, err, ◌>>=◌, ◌>>◌, ensure, map_err,
  ok_or, ◌==◌, length, take, drop, if◌then◌else◌,
}
use nad_safe_password_manage.Std.{u8_from_str_radix}
use nad_safe_password_manage.Std.Decimal.{decimal}
use nad_safe_password_manage.Std.Split.{split_once, splitn}
use nad_safe_password_manage.Crypto.Crates.{Crates, IsArray, IsBytes}
use nad_safe_password_manage.Crypto.Error.{
  CryptoError, encryption, decryption, mac_mismatch, base64, invalid_enc_string, invalid_key_length,
  missing_type_prefix, invalid_type_byte, unsupported_enc_type, expected_3_parts,
  iv_must_be_16_bytes, mac_must_be_32_bytes,
}

abbrev pub enc_type_aes256_cbc_hmac : ℕ
enc_type_aes256_cbc_hmac = 2

pub record EncString : Type 0 where
  pub enc_type : ℕ
  pub iv : Bytes
  pub ct : Bytes
  pub mac : Bytes

pub record SymmetricKey : Type 0 where
  pub enc_key : Bytes
  pub mac_key : Bytes

-- `SymmetricKey::from_bytes`
unfoldable pub from_bytes : Bytes → Result CryptoError SymmetricKey
from_bytes bytes =
    if length bytes == 64
    then ok (record { enc_key = take 32 bytes; mac_key = drop 32 bytes })
    else err (invalid_key_length 64 (length bytes))

-- `SymmetricKey::generate` on the 64 random bytes it draws
unfoldable pub generate : Bytes → SymmetricKey
generate drawn = record { enc_key = take 32 drawn; mac_key = drop 32 drawn }

-- the loop of `constant_time_eq` over the zipped arrays
pub diff_bytes : ℕ → Bytes → Bytes → ℕ
diff_bytes diff (x ∷ xs) (y ∷ ys) = diff_bytes (bit_or diff (bit_xor x y)) xs ys
diff_bytes diff _ _ = diff

unfoldable pub constant_time_eq : Bytes → Bytes → Bool
unfolding diff_bytes
constant_time_eq a b = diff_bytes 0 a b == 0

module _ (c : Crates) where
  open c use {cbc_encrypt, cbc_decrypt, hmac_sha256, b64_encode, b64_decode}

  unfoldable pub compute_mac : Bytes → Bytes → Bytes → Bytes
  compute_mac mac_key iv ct = hmac_sha256 mac_key (iv ++ ct)

  -- `EncString::encrypt`; `iv` is the 16 random bytes that it draws
  unfoldable pub encrypt : Bytes → SymmetricKey → Bytes → Result CryptoError EncString
  encrypt plaintext sym_key iv = do
    ct ← ok_or encryption (cbc_encrypt sym_key.enc_key iv plaintext)
    ok (record {
      enc_type = enc_type_aes256_cbc_hmac;
      iv = iv;
      ct = ct;
      mac = compute_mac sym_key.mac_key iv ct;
    })

  -- `EncString::decrypt`: the MAC is checked first
  unfoldable pub decrypt : EncString → SymmetricKey → Result CryptoError Bytes
  decrypt enc sym_key = do
    ensure (constant_time_eq (compute_mac sym_key.mac_key enc.iv enc.ct) enc.mac) mac_mismatch
    ok_or decryption (cbc_decrypt sym_key.enc_key enc.iv enc.ct)

  -- `EncString::parse` from the pieces between the bars
  pub parse_parts : ℕ → List Str → Result CryptoError EncString
  parse_parts enc_type (iv_b64 ∷ ct_b64 ∷ mac_b64 ∷ []) = do
    iv_bytes ← map_err base64 (b64_decode iv_b64)
    ct ← map_err base64 (b64_decode ct_b64)
    mac_bytes ← map_err base64 (b64_decode mac_b64)
    ensure (length iv_bytes == 16) (invalid_enc_string iv_must_be_16_bytes)
    ensure (length mac_bytes == 32) (invalid_enc_string mac_must_be_32_bytes)
    ok (record { enc_type = enc_type; iv = iv_bytes; ct = ct; mac = mac_bytes })
  parse_parts enc_type _ = err (invalid_enc_string expected_3_parts)

  unfoldable pub parse : Str → Result CryptoError EncString
  unfolding parse_parts
  parse s = do
    (type_str, rest) ← ok_or (invalid_enc_string missing_type_prefix) (split_once b'.' s)
    enc_type ← ok_or (invalid_enc_string invalid_type_byte) (u8_from_str_radix 10 type_str)
    ensure (enc_type == enc_type_aes256_cbc_hmac)
        (invalid_enc_string (unsupported_enc_type enc_type))
    parse_parts enc_type (splitn 3 b'|' rest)

  -- `Display::fmt`
  unfoldable pub to_string : EncString → Str
  to_string enc =
      decimal enc.enc_type
      ++ (b'.' ∷ (b64_encode enc.iv ++ (b'|' ∷ (b64_encode enc.ct ++ (b'|' ∷ b64_encode enc.mac)))))

-- The Rust type: arrays of 16 and 32 bytes, and the one type that the crate makes or accepts.
pub record IsWellFormed (enc : EncString) : Type 0 where
  pub type_is : enc.enc_type ≡ enc_type_aes256_cbc_hmac
  pub iv_array : IsArray 16 enc.iv
  pub ct_bytes : IsBytes enc.ct
  pub mac_array : IsArray 32 enc.mac

-- Both halves of a key are 32 bytes.
pub record IsKey (key : SymmetricKey) : Type 0 where
  pub enc_array : IsArray 32 key.enc_key
  pub mac_array : IsArray 32 key.mac_key
