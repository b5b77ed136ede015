-- ===== src/Server/TwoFactor.antt =====
-- Second factors (server/src/api/core/two_factor, server/src/db/models/two_factor.rs).
pub mod Model
pub mod Authenticator
pub mod ProtectedActions
pub mod Tests
