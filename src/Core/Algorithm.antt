-- ===== src/Core/Algorithm.antt =====
-- algorithm.rs, error.rs and codec.rs of gpzip-core.
use gpzip.Prelude.{ℕ, Bool, true, false, ltb, if◌then◌else◌, List, Result}

pub data Algorithm : Type 0 where
  deflate : Algorithm
  gzip : Algorithm
  zstd : Algorithm
  lzma : Algorithm
  bzip2 : Algorithm
  rar : Algorithm

pub data Capability : Type 0 where
  no_capability : Capability
  decompress_only : Capability
  compress_only : Capability
  both : Capability

abbrev pub can_decompress : Capability → Bool
can_decompress decompress_only = true
can_decompress both = true
can_decompress no_capability = false
can_decompress compress_only = false

abbrev pub can_compress : Capability → Bool
can_compress compress_only = true
can_compress both = true
can_compress no_capability = false
can_compress decompress_only = false

-- `Level(u8)`
pub record Level : Type 0 where
  pub level : ℕ

-- Every caller's bounds are 0 or above.
unfoldable pub clamp_to : Level → ℕ → ℕ → ℕ
clamp_to l low high = if ltb l.level low then low else if ltb high l.level then high else l.level

-- A `&'static str`, by its code points.
abbrev pub Name : Type 0
Name = List ℕ

-- The errors of the backends and the registry; those of other parts wrap what lies outside.
pub data Error : Type 0 where
  unsupported_algorithm : Name → Algorithm → Error
  compression_unsupported : Name → Algorithm → Error
  decompression_unsupported : Name → Algorithm → Error
  no_backend : Algorithm → Error

-- The trait `CodecBackend`, over what its factories make.
pub record CodecBackend (C D : Type 0) : Type 0 where
  pub name : Name
  pub supports : Algorithm → Capability
  pub compressor : Algorithm → Level → Result Error C
  pub decompressor : Algorithm → Result Error D
