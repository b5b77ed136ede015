-- ===== src/Server/Sends.antt =====
-- Sends, which anyone with the link can open (server/src/api/core/sends.rs,
-- server/src/db/models/send.rs).
pub mod Model
pub mod Requests
pub mod Accesses
pub mod Tests
