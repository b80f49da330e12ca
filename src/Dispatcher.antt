-- ===== src/Dispatcher.antt =====
-- src/dispatcher.rs.
pub mod Weight
pub mod Plan
pub mod Input
pub mod Emit
pub mod Tables
pub mod Evidence
pub mod Outcome
pub mod Signal
pub mod Maintenance
pub mod Prior
