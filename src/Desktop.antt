-- ===== src/Desktop.antt =====
-- The desktop shell, clients/desktop/src-tauri.
pub mod Vault
mod Tests
