-- ===== src/Worker.antt =====
-- The worker (app/worker.py).
pub mod Provider
pub mod Recovery
pub mod Steps
pub mod Calls
pub mod Nodes
pub mod Parallel
pub mod Definition
pub mod Execute
pub mod Claim
pub mod Kept
pub mod Settled
mod Tests
pub mod Current
pub mod Executed
pub mod Ends
pub mod Recovered
pub mod Trigger
pub mod Claimed
