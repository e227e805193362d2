-- ===== src/Tests.antt =====
-- The parts of the program at concrete inputs.
pub mod Fixtures
mod Package
mod Flushing
mod Backends
mod Messages
mod Config
mod Running
mod Database
mod Connecting
mod Insert
