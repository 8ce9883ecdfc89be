-- ===== src/Deflate/Dynamic.antt =====
-- Blocks with dynamic Huffman codes: `try_write_dynamic_block`, `try_write_dynamic_block_fast`,
-- `encode_block` and `encode_block_fast` of deflate.rs.
pub mod Plan
pub mod RleBounds
pub mod PlanBounds
pub mod Repair
pub mod Counts
pub mod Total
pub mod TotalWrites
pub mod Reference
pub mod Fast
pub mod Steps
pub mod Legible
pub mod Equal
pub mod Trimmed
pub mod WrittenCode
pub mod WrittenLengths
pub mod Ordered
pub mod WrittenHeader
pub mod WrittenTokens
pub mod RoundTrip
