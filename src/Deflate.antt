-- ===== src/Deflate.antt =====
-- The DEFLATE encoders of crates/gpzip-codec-gpu/src/gpu/deflate.rs, and what they write.
pub mod Stream
pub mod Accum
pub mod BitWriter
pub mod VecBitWriter
pub mod Mirror
pub mod Codes
pub mod Inflate
pub mod InflateDynamic
pub mod ReadCode
pub mod Fixed
pub mod Rows
pub mod ReadBack
pub mod TokenBits
pub mod FixedRoundTrip
pub mod Lut
pub mod FastTables
pub mod FastLookup
pub mod Rle
pub mod RleReader
pub mod RleRoundTrip
pub mod Trim
pub mod FixedFast
pub mod FixedFastEq
pub mod Dynamic
mod Tests
