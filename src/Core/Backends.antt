-- ===== src/Core/Backends.antt =====
-- The backends: `CpuBackend` (gpzip-codec-cpu/src/backend.rs), `LazyGpuBackend` and `GpuBackend`
-- (gpzip-codec-gpu/src/gpu.rs), `HybridBackend` (gpzip-cli/src/hybrid.rs), and `build_registry`
-- (gpzip-cli/src/app.rs).
use gpzip.Prelude.{
  ℕ, ◌*◌, Bool, ltb, ◌&&◌, if◌then◌else◌, Option, none, some, ◌>>=◌, Result, ok, err, List, [], ◌∷◌,
}
use gpzip.Core.Algorithm.{
  Algorithm, deflate, gzip, zstd, lzma, bzip2, rar, Capability, no_capability, decompress_only,
  compress_only, both, Level, Name, Error, unsupported_algorithm, compression_unsupported,
  decompression_unsupported, no_backend, CodecBackend,
}
use gpzip.Core.Registry.{push}

-- What the factories make, with what it is configured with.
pub data Compressor : Type 0 where
  deflate_compressor : Level → Compressor
  gzip_compressor : Level → ℕ → ℕ → Compressor
  zstd_compressor : Level → ℕ → ℕ → Compressor
  gpu_gzip_compressor : ℕ → ℕ → Compressor
  hybrid_gzip_compressor : Level → ℕ → ℕ → ℕ → Compressor

pub data Decompressor : Type 0 where
  deflate_decompressor : Decompressor
  gzip_decompressor : Decompressor
  zstd_decompressor : Decompressor
  lzma_decompressor : Decompressor
  bzip2_decompressor : Decompressor
  rar_decompressor : Decompressor

-- `Compressor::algorithm`
unfoldable pub compresses : Compressor → Algorithm
compresses (deflate_compressor level) = deflate
compresses (gzip_compressor level chunk_size max_in_flight) = gzip
compresses (zstd_compressor level chunk_size max_in_flight) = zstd
compresses (gpu_gzip_compressor chunk_size max_in_flight) = gzip
compresses (hybrid_gzip_compressor level chunk_size cpu_workers gpu_workers) = gzip

-- `Decompressor::algorithm`
unfoldable pub decompresses : Decompressor → Algorithm
decompresses deflate_decompressor = deflate
decompresses gzip_decompressor = gzip
decompresses zstd_decompressor = zstd
decompresses lzma_decompressor = lzma
decompresses bzip2_decompressor = bzip2
decompresses rar_decompressor = rar

abbrev pub Backend : Type 0
Backend = CodecBackend Compressor Decompressor

pub record CpuBackend : Type 0 where
  pub chunk_size : ℕ
  pub max_in_flight : ℕ

-- `none` is a failed assertion.
unfoldable pub with_config : ℕ → ℕ → Option CpuBackend
with_config chunk_size max_in_flight =
    if ltb 0 chunk_size && ltb 0 max_in_flight
    then some (record { chunk_size = chunk_size; max_in_flight = max_in_flight })
    else none

-- "cpu"
abbrev pub cpu_name : Name
cpu_name = 99 ∷ 112 ∷ 117 ∷ []

unfoldable pub cpu_supports : Algorithm → Capability
cpu_supports deflate = both
cpu_supports gzip = both
cpu_supports zstd = both
cpu_supports lzma = decompress_only
cpu_supports bzip2 = decompress_only
cpu_supports rar = decompress_only

unfoldable pub cpu_compressor : CpuBackend → Algorithm → Level → Result Error Compressor
cpu_compressor b deflate level = ok (deflate_compressor level)
cpu_compressor b gzip level = ok (gzip_compressor level b.chunk_size b.max_in_flight)
cpu_compressor b zstd level = ok (zstd_compressor level b.chunk_size b.max_in_flight)
cpu_compressor b lzma level = err (compression_unsupported cpu_name lzma)
cpu_compressor b bzip2 level = err (compression_unsupported cpu_name bzip2)
cpu_compressor b rar level = err (compression_unsupported cpu_name rar)

unfoldable pub cpu_decompressor : Algorithm → Result Error Decompressor
cpu_decompressor deflate = ok deflate_decompressor
cpu_decompressor gzip = ok gzip_decompressor
cpu_decompressor zstd = ok zstd_decompressor
cpu_decompressor lzma = ok lzma_decompressor
cpu_decompressor bzip2 = ok bzip2_decompressor
cpu_decompressor rar = ok rar_decompressor

unfoldable pub cpu_backend : CpuBackend → Backend
unfolding cpu_supports cpu_compressor cpu_decompressor
cpu_backend b = record {
  name = cpu_name;
  supports = cpu_supports;
  compressor = cpu_compressor b;
  decompressor = cpu_decompressor;
}

-- What `GpuBackend::try_init` sets, where there is an adapter.
pub record GpuBackend : Type 0 where
  pub chunk_size : ℕ
  pub max_in_flight : ℕ

abbrev pub try_init : Bool → Option GpuBackend
try_init adapter =
    if adapter then some (record { chunk_size = 128 * 1024; max_in_flight = 16 }) else none

-- "gpu"
abbrev pub gpu_name : Name
gpu_name = 103 ∷ 112 ∷ 117 ∷ []

unfoldable pub gpu_supports : Algorithm → Capability
gpu_supports gzip = compress_only
gpu_supports deflate = no_capability
gpu_supports zstd = no_capability
gpu_supports lzma = no_capability
gpu_supports bzip2 = no_capability
gpu_supports rar = no_capability

unfoldable pub gpu_compressor : GpuBackend → Algorithm → Level → Result Error Compressor
gpu_compressor g gzip level = ok (gpu_gzip_compressor g.chunk_size g.max_in_flight)
gpu_compressor g deflate level = err (unsupported_algorithm gpu_name deflate)
gpu_compressor g zstd level = err (unsupported_algorithm gpu_name zstd)
gpu_compressor g lzma level = err (unsupported_algorithm gpu_name lzma)
gpu_compressor g bzip2 level = err (unsupported_algorithm gpu_name bzip2)
gpu_compressor g rar level = err (unsupported_algorithm gpu_name rar)

unfoldable pub gpu_decompressor : Algorithm → Result Error Decompressor
gpu_decompressor algo = err (decompression_unsupported gpu_name algo)

unfoldable pub gpu_backend : GpuBackend → Backend
unfolding gpu_supports gpu_compressor gpu_decompressor
gpu_backend g = record {
  name = gpu_name;
  supports = gpu_supports;
  compressor = gpu_compressor g;
  decompressor = gpu_decompressor;
}

-- `LazyGpuBackend`, whose cell gets the result of `try_init` once.
unfoldable pub lazy_compressor : Option GpuBackend → Algorithm → Level → Result Error Compressor
lazy_compressor none algo level = err (no_backend algo)
lazy_compressor (some g) algo level = gpu_compressor g algo level

unfoldable pub lazy_gpu_backend : Option GpuBackend → Backend
unfolding gpu_supports lazy_compressor gpu_decompressor
lazy_gpu_backend inner = record {
  name = gpu_name;
  supports = gpu_supports;
  compressor = lazy_compressor inner;
  decompressor = gpu_decompressor;
}

-- "hybrid"
abbrev pub hybrid_name : Name
hybrid_name = 104 ∷ 121 ∷ 98 ∷ 114 ∷ 105 ∷ 100 ∷ []

unfoldable pub hybrid_compressor : CpuBackend → Algorithm → Level → Result Error Compressor
hybrid_compressor cpu gzip level =
    ok (hybrid_gzip_compressor level cpu.chunk_size cpu.max_in_flight 1)
hybrid_compressor cpu zstd level = ok (zstd_compressor level cpu.chunk_size cpu.max_in_flight)
hybrid_compressor cpu deflate level = cpu_compressor cpu deflate level
hybrid_compressor cpu lzma level = cpu_compressor cpu lzma level
hybrid_compressor cpu bzip2 level = cpu_compressor cpu bzip2 level
hybrid_compressor cpu rar level = cpu_compressor cpu rar level

unfoldable pub hybrid_backend : CpuBackend → Backend
unfolding cpu_supports hybrid_compressor cpu_decompressor
hybrid_backend cpu = record {
  name = hybrid_name;
  supports = cpu_supports;
  compressor = hybrid_compressor cpu;
  decompressor = cpu_decompressor;
}

pub data BackendChoice : Type 0 where
  cpu : BackendChoice
  gpu : BackendChoice
  auto : BackendChoice

-- `adapter` says whether the probe, which comes with the first use, finds a GPU.
unfoldable pub build_registry : Bool → BackendChoice → ℕ → ℕ → Option (List Backend)
unfolding with_config cpu_backend lazy_gpu_backend hybrid_backend
build_registry adapter cpu chunk_size threads = do
  c ← with_config chunk_size threads
  some (push (cpu_backend c) [])
build_registry adapter gpu chunk_size threads = do
  c ← with_config chunk_size threads
  some (push (cpu_backend c) (push (lazy_gpu_backend (try_init adapter)) []))
build_registry adapter auto chunk_size threads = do
  c ← with_config chunk_size threads
  some (push (hybrid_backend c) [])
