-- ===== src/Emit.antt =====
-- The host side of the bit emission on the GPU: the tables, sizes, headers and atoms that
-- crates/gpzip-codec-gpu/src/gpu/huffman_emit_v2.rs and huffman_emit.rs hand to their shaders.
pub mod Tables
pub mod Lookup
pub mod Sized
pub mod FixedSize
pub mod HostBitWriter
pub mod FixedTables
pub mod Rle
pub mod Dynamic
pub mod Header
pub mod DynamicBlock
pub mod Scan
pub mod Atoms
pub mod AtomsBits
mod Tests
