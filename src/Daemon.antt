-- ===== src/Daemon.antt =====
-- The parts of the daemon on one database: src/main.rs runs the run loop of src/run_loop.rs and the
-- scheduler of src/decay.rs side by side.
pub mod Writes
pub mod Runs
pub mod Performs
pub mod Operations
pub mod Handlers
pub mod Ticks
pub mod Moves
pub mod Sound
pub mod Run
pub mod Claims
pub mod Drains
pub mod Ends
