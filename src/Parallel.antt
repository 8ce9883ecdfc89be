-- ===== src/Parallel.antt =====
-- `ParallelChunkedWriter` (crates/gpzip-codec-cpu/src/parallel.rs) with its workers and its channel.
-- The environment's choices are a schedule: which result arrives next, and whether one is there yet
-- when the writer looks without waiting.
pub mod Channel
pub mod Pending
pub mod State
pub mod Ops
pub mod Jobs
pub mod Live
pub mod Accepts
pub mod Inv
pub mod Drain
pub mod Spawn
pub mod Dispatch
pub mod Finish
pub mod Cut
pub mod Correct
pub mod Order
pub mod Returns
mod Tests
