-- ===== src/Tests.antt =====
-- Runs of the model at concrete inputs: the theorems at values where their hypotheses hold.
mod Fixtures
mod Dispatch
mod Counters
mod Tables
mod Payloads
mod Daemon
mod Ends
mod Commands
mod Texts
mod Rebuilds
mod Clocks
