-- ===== src/Gpu.antt =====
-- What the GPU's part of the match finders and walks computes: the buffers and dispatches that the
-- host sets up (lz77.rs, lz77_hash.rs, walk.rs of crates/gpzip-codec-gpu/src/gpu) and the WGSL shaders
-- beside them.
pub mod Buffer
pub mod Bytes
pub mod Extend
pub mod BruteForce
pub mod Hash
pub mod HashMatch
pub mod HashHost
pub mod HashChunk
pub mod HashBatch
pub mod HashTables
pub mod Batch
pub mod BatchFlow
pub mod BatchInv
pub mod BatchReach
pub mod Orders
pub mod BatchLess
pub mod BatchEnds
pub mod Walk
pub mod WalkLoop
pub mod WalkChain
pub mod WalkEmit
pub mod WalkStrict
pub mod WalkEqual
mod Tests
