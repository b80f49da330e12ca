-- ===== src/Store.antt =====
-- src/store.rs.
pub mod Counter
pub mod Event
pub mod Id
pub mod Database
pub mod Operations
pub mod Settings
pub mod Rebuild
