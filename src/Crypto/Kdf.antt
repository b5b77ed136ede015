-- ===== src/Crypto/Kdf.antt =====
-- crates/crypto-core/src/kdf.rs
use nad_safe_password_manage.Prelude.{ℕ, Bytes, Str, Result, ok, ◌>>◌, map_err}
use nad_safe_password_manage.Crypto.Crates.{Crates}
use nad_safe_password_manage.Crypto.Error.{CryptoError, kdf}

pub record Argon2idParams : Type 0 where
  pub m_cost : ℕ
  pub t_cost : ℕ
  pub p_cost : ℕ

pub record Pbkdf2Params : Type 0 where
  pub iterations : ℕ

pub data Kdf : Type 0 where
  argon2id : Argon2idParams → Kdf
  pbkdf2 : Pbkdf2Params → Kdf

abbrev pub argon2id_params_default : Argon2idParams
argon2id_params_default = record { m_cost = 65536; t_cost = 3; p_cost = 4 }

abbrev pub kdf_default : Kdf
kdf_default = argon2id argon2id_params_default

pub record KdfParams : Type 0 where
  pub min_argon2_m_cost : ℕ
  pub min_argon2_t_cost : ℕ
  pub min_pbkdf2_iterations : ℕ

abbrev pub kdf_params_default : KdfParams
kdf_params_default = record {
  min_argon2_m_cost = 65536;
  min_argon2_t_cost = 3;
  min_pbkdf2_iterations = 600000;
}

module _ (c : Crates) where
  unfoldable pub derive_master_key : Bytes → Str → Kdf → Result CryptoError Bytes
  derive_master_key password email (argon2id p) = do
    let salt = c.as_bytes (c.to_lowercase email)
    map_err kdf (c.argon2_params p.m_cost p.t_cost p.p_cost)
    map_err kdf (c.argon2_hash p.m_cost p.t_cost p.p_cost password salt)
  derive_master_key password email (pbkdf2 p) =
      ok (c.pbkdf2_sha256 password (c.as_bytes (c.to_lowercase email)) p.iterations)

  unfoldable pub derive_auth_hash : Bytes → Bytes → Bytes
  derive_auth_hash master_key password = c.pbkdf2_sha256 master_key password 1
