-- ===== src/Crypto/Crates.antt =====
-- The cryptography that the crate takes from other crates (aes, cbc, hmac, hkdf, argon2, pbkdf2,
-- rsa, base64) and Unicode's case tables: a record of operations, and records of the documented
-- behaviour that the code relies on. Random bytes are arguments of the functions that draw them.
pub mod Toy
use nad_safe_password_manage.Prelude.{
  ℕ, ◌+◌, ◌*◌, ◌/◌, ◌≤◌, ◌≡◌, true, Option, some, Bytes, Str, Result, ok, length, ltb, every,
}
use nad_safe_password_manage.Std.Split.{lacks}

-- keys of the crate rsa, each as its numbers in some order
pub record RsaPrivateKey : Type 0 where
  pub numbers : Bytes

pub record RsaPublicKey : Type 0 where
  pub numbers : Bytes

-- the paddings of the crate rsa: `Oaep::new::<H>()` for the usual hashes, and PKCS #1 v1.5
pub data Padding : Type 0 where
  oaep_sha1 oaep_sha256 oaep_sha512 pkcs1v15 : Padding

pub record Crates : Type 0 where
  -- `Encryptor::new_from_slices(key, iv)` and Pkcs7 padding; `none` for a wrong length
  pub cbc_encrypt : Bytes → Bytes → Bytes → Option Bytes
  -- `none` for a wrong length or a wrong padding
  pub cbc_decrypt : Bytes → Bytes → Bytes → Option Bytes
  -- key, message
  pub hmac_sha256 : Bytes → Bytes → Bytes
  pub hmac_sha1 : Bytes → Bytes → Bytes
  -- `Hkdf::from_prk(prk)`, whose value is the key itself, and `expand(info, [0; n])` on it
  pub hkdf_from_prk : Bytes → Result Str Bytes
  pub hkdf_expand : Bytes → Bytes → ℕ → Result Str Bytes
  -- `Params::new(m, t, p, Some(32))`, and `hash_password_into(password, salt)` at `m`, `t`, `p`
  pub argon2_params : ℕ → ℕ → ℕ → Result Str (Unit {0})
  pub argon2_hash : ℕ → ℕ → ℕ → Bytes → Bytes → Result Str Bytes
  -- `pbkdf2_hmac::<Sha256>(password, salt, rounds)`, 32 bytes
  pub pbkdf2_sha256 : Bytes → Bytes → ℕ → Bytes
  -- `RsaPrivateKey::new`, from random bytes and the size in bits, and `to_public_key`
  pub rsa_new : Bytes → ℕ → Result Str RsaPrivateKey
  pub to_public_key : RsaPrivateKey → RsaPublicKey
  -- PKCS #8 and SubjectPublicKeyInfo, in DER
  pub to_pkcs8_der : RsaPrivateKey → Result Str Bytes
  pub from_pkcs8_der : Bytes → Result Str RsaPrivateKey
  pub to_public_key_der : RsaPublicKey → Result Str Bytes
  pub from_public_key_der : Bytes → Result Str RsaPublicKey
  -- with a padding: the key, random bytes, the message; and the key, the ciphertext
  pub rsa_encrypt : Padding → RsaPublicKey → Bytes → Bytes → Result Str Bytes
  pub rsa_decrypt : Padding → RsaPrivateKey → Bytes → Result Str Bytes
  -- base64's STANDARD engine
  pub b64_encode : Bytes → Str
  pub b64_decode : Str → Result Str Bytes
  -- `str::to_lowercase`, and `char::to_uppercase`, which may give several characters
  pub to_lowercase : Str → Str
  pub to_uppercase : ℕ → Str
  -- the UTF-8 bytes of a text
  pub as_bytes : Str → Bytes

abbrev pub IsBytes : Bytes → Type 0
IsBytes bs = every (λ b. ltb b 256) bs ≡ true

-- `n` bytes, a Rust `[u8; n]`
abbrev pub IsArray : ℕ → Bytes → Type 0
IsArray n bs = (length bs ≡ n) × IsBytes bs

-- AES-256-CBC undoes itself under one key and one IV of the right lengths.
pub record CbcLaws (c : Crates) : Type 0 where
  pub cbc_inverse :
      (key iv plaintext : Bytes)
      → IsArray 32 key
      → IsArray 16 iv
      → IsBytes plaintext
      → (ct : Bytes) × (c.cbc_encrypt key iv plaintext ≡ some ct)
        × (c.cbc_decrypt key iv ct ≡ some plaintext)
        × IsBytes ct

-- A SHA-256 tag has 32 bytes.
pub record HmacLaws (c : Crates) : Type 0 where
  pub hmac_sha256-IsArray : (key msg : Bytes) → IsArray 32 (c.hmac_sha256 key msg)

-- A SHA-1 tag has 20 bytes.
pub record Sha1Laws (c : Crates) : Type 0 where
  pub hmac_sha1-length : (key msg : Bytes) → length (c.hmac_sha1 key msg) ≡ 20

-- RFC 5869: a key of 32 bytes is long enough, and up to 255 * 32 bytes can be expanded.
pub record HkdfLaws (c : Crates) : Type 0 where
  pub from_prk-ok : (prk : Bytes) → IsArray 32 prk → c.hkdf_from_prk prk ≡ ok prk
  pub expand-ok :
      (prk info : Bytes) (n : ℕ)
      → IsArray 32 prk
      → n ≤ 255 * 32
      → (out : Bytes) × (c.hkdf_expand prk info n ≡ ok out) × IsArray n out

-- RFC 4648: decoding undoes encoding, and `|` is not in the alphabet.
pub record B64Laws (c : Crates) : Type 0 where
  pub decode-encode : (bs : Bytes) → IsBytes bs → c.b64_decode (c.b64_encode bs) ≡ ok bs
  pub encode-lacks-bar : (bs : Bytes) → lacks b'|' (c.b64_encode bs) ≡ true

-- RFC 8017: what a padding takes of the modulus's bytes, two hashes and two bytes for OAEP.
abbrev pub overhead : Padding → ℕ
overhead oaep_sha1 = 42
overhead oaep_sha256 = 66
overhead oaep_sha512 = 130
overhead pkcs1v15 = 11

-- A key that is written in DER is read back, and a message that fits into the modulus with its
-- padding is decrypted under the same padding, by the key whose public key encrypted it.
pub record RsaLaws (c : Crates) : Type 0 where
  pub pkcs8_inverse :
      (key : RsaPrivateKey) (der : Bytes)
      → c.to_pkcs8_der key ≡ ok der
      → c.from_pkcs8_der der ≡ ok key
  pub public_key_inverse :
      (key : RsaPublicKey) (der : Bytes)
      → c.to_public_key_der key ≡ ok der
      → c.from_public_key_der der ≡ ok key
  pub rsa_inverse :
      (padding : Padding) (seed noise msg : Bytes) (bits : ℕ) (key : RsaPrivateKey)
      → c.rsa_new seed bits ≡ ok key
      → IsBytes msg
      → length msg + overhead padding ≤ bits / 8
      → (ct : Bytes) × (c.rsa_encrypt padding (c.to_public_key key) noise msg ≡ ok ct)
        × (c.rsa_decrypt padding key ct ≡ ok msg)
