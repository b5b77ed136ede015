-- ===== src/Crypto/Error.antt =====
-- crates/crypto-core/src/error.rs
use nad_safe_password_manage.Prelude.{ℕ, Str}

-- The texts of `InvalidEncString`, a constructor for each that the code writes.
pub data FormatFault : Type 0 where
  missing_type_prefix invalid_type_byte : FormatFault
  unsupported_enc_type : ℕ → FormatFault
  expected_3_parts iv_must_be_16_bytes mac_must_be_32_bytes : FormatFault

pub data CryptoError : Type 0 where
  kdf : Str → CryptoError
  encryption decryption mac_mismatch : CryptoError
  invalid_enc_string : FormatFault → CryptoError
  -- expected, got
  invalid_key_length : ℕ → ℕ → CryptoError
  rsa : Str → CryptoError
  invalid_recovery_phrase : CryptoError
  base64 : Str → CryptoError
  serde : Str → CryptoError
