-- ===== src/Server/EmergencyAccess.antt =====
-- server/src/db/models/emergency_access.rs and server/src/api/core/emergency_access.rs
pub mod Model
pub mod Invite
pub mod Recovery
pub mod Jobs
pub mod Lifecycle
pub mod Vault
pub mod Kept
pub mod Access
pub mod Acceptance
mod Tests
