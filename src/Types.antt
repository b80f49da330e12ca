-- ===== src/Types.antt =====
-- src/types.rs, one module for each enum.
pub mod Reading
pub mod Attribute
pub mod Scopes
pub mod Sources
pub mod Outcome
pub mod Hippocampus
pub mod Sensor
pub mod Maintenance
pub mod Caps
pub mod Vocabulary
