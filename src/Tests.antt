-- ===== src/Tests.antt =====
-- Tests, and the theorems at concrete inputs.
pub mod Fixture
mod Transmit
mod Answers
mod Connection
mod Parts
pub mod Process
pub mod Passes
pub mod Lives
mod Accepts
mod Runs
mod Works
mod Restarts
mod Locking
mod Racing
