-- ===== src/Huffman.antt =====
-- Code lengths and canonical codes: crates/gpzip-codec-gpu/src/gpu/huffman.rs.
pub mod Tree
pub mod Lengths
pub mod Canonical
pub mod Bounds
pub mod Forest
pub mod Merging
pub mod Balanced
pub mod Total
pub mod Kraft
pub mod Growth
pub mod Leaves
pub mod Coded
pub mod Order
pub mod FirstCodes
pub mod Assigned
mod Tests
