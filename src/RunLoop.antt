-- ===== src/RunLoop.antt =====
-- src/run_loop.rs.
pub mod Union
pub mod Lru
pub mod Payload
pub mod Parse
pub mod Audit
pub mod Loop
pub mod Read
pub mod Process
pub mod Drain
pub mod Write
