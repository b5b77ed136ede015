-- ===== src/Server.antt =====
-- The server, server/src.
pub mod Table
pub mod Handler
pub mod EmergencyAccess
pub mod Organization
pub mod TwoFactor
pub mod Sends
