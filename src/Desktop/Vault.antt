-- ===== src/Desktop/Vault.antt =====
-- clients/desktop/src-tauri/src/commands/vault.rs. A command's error is the text of another error;
-- here it is that error.
use nad_safe_password_manage.Prelude.{
  ℕ, ◌^◌, ◌<◌, ◌≤◌, ◌≡◌, Bool, true, Option, none, some, Bytes, Str, Result, ok, ◌>>=◌, ◌>>◌,
  ensure, map_err, ◌==◌, length, if◌then◌else◌, arith,
}
use nad_safe_password_manage.Crypto.Crates.{Crates, IsArray, CbcLaws, HmacLaws, HkdfLaws, B64Laws}
use nad_safe_password_manage.Crypto.EncString.{EncString, parse, to_string}
use nad_safe_password_manage.Crypto.EncString.Wire.{parse-to_string}
use nad_safe_password_manage.Crypto.Error.{CryptoError}
use nad_safe_password_manage.Crypto.Kdf
use nad_safe_password_manage.Crypto.Kdf.{Kdf, argon2id}
use nad_safe_password_manage.Crypto.MasterKey
use nad_safe_password_manage.Crypto.MasterKey.{decrypt_user_key, decrypt_user_key-generate_user_key}
use nad_safe_password_manage.Crypto.PasswordGen
use nad_safe_password_manage.Crypto.PasswordGen.{GenError, PasswordConfig, Build, Rng, RngLaws}
use nad_safe_password_manage.Crypto.PasswordGen.Charset.{any_class}
use nad_safe_password_manage.Crypto.PasswordGen.Generated.{Satisfies}
use nad_safe_password_manage.Crypto.PasswordGen.Password.{generate_password-Satisfies}

pub data CommandError : Type 0 where
  crypto : CryptoError → CommandError
  base64 : Str → CommandError
  master_key_must_be_32_bytes : CommandError
  gen : GenError → CommandError

pub record DeriveKeyRequest : Type 0 where
  pub password : Bytes
  pub email : Str
  pub m_cost : Option ℕ
  pub t_cost : Option ℕ
  pub p_cost : Option ℕ

pub record PasswordGenRequest : Type 0 where
  pub length : ℕ
  pub uppercase : Bool
  pub lowercase : Bool
  pub numbers : Bool
  pub symbols : Bool
  pub avoid_ambiguous : Bool

abbrev unwrap_or : ℕ → Option ℕ → ℕ
unwrap_or default none = default
unwrap_or default (some n) = n

-- `if req.class { 1 } else { 0 }`
abbrev one_if : Bool → ℕ
one_if b = if b then 1 else 0

-- the configuration that both `generate_password` and `generate_password_wasm` build
unfoldable pub config_of : PasswordGenRequest → PasswordConfig
config_of req = record {
  length = req.length;
  uppercase = req.uppercase;
  lowercase = req.lowercase;
  numbers = req.numbers;
  symbols = req.symbols;
  avoid_ambiguous = req.avoid_ambiguous;
  min_uppercase = one_if req.uppercase;
  min_lowercase = one_if req.lowercase;
  min_numbers = one_if req.numbers;
  min_special = one_if req.symbols;
}

module _ (c : Crates) where
  unfoldable pub derive_master_key : DeriveKeyRequest → Result CommandError Str
  derive_master_key req = do
    let kdf = argon2id (record {
      m_cost = unwrap_or 65536 req.m_cost;
      t_cost = unwrap_or 3 req.t_cost;
      p_cost = unwrap_or 4 req.p_cost;
    })
    key ← map_err crypto (Kdf.derive_master_key c req.password req.email kdf)
    ok (c.b64_encode key)

  -- `drawn` and `iv` are the random bytes of the user key and of its encryption
  unfoldable pub generate_user_key : Str → Bytes → Bytes → Result CommandError Str
  generate_user_key master_key_b64 drawn iv = do
    bytes ← map_err base64 (c.b64_decode master_key_b64)
    ensure (length bytes == 32) master_key_must_be_32_bytes
    (_, enc) ← map_err crypto (MasterKey.generate_user_key c (record { bytes = bytes }) drawn iv)
    ok (to_string c enc)

  module _ (mac : HmacLaws c) (cbc : CbcLaws c) (hkdf : HkdfLaws c) (b64 : B64Laws c) where
    -- From the base64 text of 32 bytes, and 64 and 16 random bytes, the command returns a text that parses as an encrypted
    -- user key, and the same master key unwraps it to the bytes drawn.
    pub generate_user_key_usable :
        (master_key drawn iv : Bytes)
        → IsArray 32 master_key
        → IsArray 64 drawn
        → IsArray 16 iv
        → (text : Str) × (enc : EncString) × (generate_user_key (c.b64_encode master_key) drawn iv
            ≡ ok text)
          × (parse c text ≡ ok enc)
          × (decrypt_user_key c (record { bytes = master_key }) enc ≡ ok (record { bytes = drawn }))
    unfolding generate_user_key
    generate_user_key_usable master_key drawn iv k d i =
        let (enc, generated, w, unwrapped) =
          decrypt_user_key-generate_user_key c hkdf mac cbc (record { bytes = master_key }) drawn iv
            k d i in
        (
          to_string c enc,
          enc,
          rw (b64.decode-encode master_key k.1) (rw k.0 (rw generated)),
          parse-to_string c b64 enc w,
          unwrapped,
        )

module _ {S : Type 0} (build : Build) (rng : Rng S) where
  unfoldable pub generate_password : PasswordGenRequest → S → Option (Result CommandError Str × S)
  generate_password req s = elim (PasswordGen.generate_password rng build (config_of req) s) [
    | none ↦ none
    | some (r, s') ↦ some (map_err gen r, s')
  ]

  module _ (laws : RngLaws rng) where
    -- A request for at least four characters, a `usize` up to which a vector can grow, with a class
    -- enabled succeeds, with a password that has a character of each enabled class and satisfies the configuration.
    pub generate_password_succeeds :
        (req : PasswordGenRequest) (s : S)
        → any_class (config_of req) ≡ true
        → 4 ≤ req.length
        → req.length < 2 ^ 64
        → req.length ≤ build.capacity
        → (pw : Str) × (s' : S) × (generate_password req s ≡ some (ok pw, s'))
          × Satisfies (config_of req) pw
    unfolding generate_password config_of
    generate_password_succeeds req s classes long usize room =
        let (pw, s', returned, satisfied) =
          generate_password-Satisfies build rng laws (config_of req) s classes (ground arith) usize
            room in
        (pw, s', rw (returned, generate_password), satisfied)
