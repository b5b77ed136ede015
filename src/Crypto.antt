-- ===== src/Crypto.antt =====
-- The crate crates/crypto-core.
pub mod Error
pub mod Crates
pub mod EncString
pub mod Kdf
pub mod UserKey
pub mod OrgKey
pub mod MasterKey
pub mod Recovery
pub mod PasswordGen
pub mod Totp
mod Tests
