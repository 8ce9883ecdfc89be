-- ===== src/Lib.antt =====
-- gpzip: a verification library for the compression core of gpzip.
--
-- gpzip splits its input into chunks, compresses each chunk to a gzip member of its own, and writes
-- the members in order. On the GPU path a worker puts the chunks in batches, two shaders find an LZ77
-- match for each position, the host walks the table of matches to a token stream, and a DEFLATE
-- encoder on the host turns the tokens into bits.
--
-- Lz77 (crates/gpzip-codec-gpu/src/gpu/lz77.rs, lz77_hash.rs, walk.rs): `Token`, the host walks
--   `greedy_walk` and `host_strict_greedy`, `reconstruct`, and the packed u32 form of the GPU buffers.
--   A panic (an index out of range, a subtraction below 0) is `none`. The table of matches is an
--   argument; that its entries are true matches is the hypothesis `IsTable`, which Gpu meets. The loops
--   run on fuel, one round for each position, which the theorems show to be enough. Chosen says which
--   tokens the lazy walk can choose; Sample is an input for the tests.
-- Gpu (lz77.rs, lz77_hash.rs, walk.rs, batch.rs of crates/gpzip-codec-gpu/src/gpu, and the .wgsl
--   files there): Buffer is what wgpu does. A buffer is a list of its elements, or a table by index; a
--   dispatch runs the invocations one after the other in an order that the device chooses, and each
--   writes its own elements or does one atomic minimum or maximum; a new buffer is zeros, and a slice
--   of an empty range is a panic. A batch with an empty chunk asks for one, so the results that say
--   that a batch returns are for chunks that are not empty. That the device runs every invocation is the hypothesis
--   `Runs`. Extend is the loop that lengthens a match, with fuel for the longest match. BruteForce is
--   `Lz77Pipeline::match_find` with lz77.wgsl. Hash is lz77_hash_build.wgsl and lz77_hash_lookup.wgsl,
--   HashHost is `Lz77HashPipeline` with its pool of buffers, which keep what the last chunk left; a
--   copy from behind the reset blob (chunks above 512 KiB) is `none`, a panic. HashMatch, HashChunk,
--   HashBatch and HashTables are the proofs. Walk is `WalkPipeline::walk` and `BlockWalkPipeline::walk`
--   with walk.wgsl and walk_block.wgsl; the loop inside a block has fuel for 128 rounds, since each
--   moves on; WalkLoop, WalkChain, WalkEmit, WalkStrict and WalkEqual are the proofs. Batch is
--   `BatchedLz77`: a state has the two channels and where both threads stand, and a step is one receive
--   or send, with the draining of the queue one job at a time and `submit_batch_async` and
--   `collect_async` as one step each; where one panics there is no step. Dropping it is not modelled:
--   `submit` borrows it, so no call waits then. BatchFlow, BatchInv, BatchReach, BatchLess and
--   BatchEnds are the proofs; Orders has an order for the device.
-- Deflate (crates/gpzip-codec-gpu/src/gpu/deflate.rs): Accum, BitWriter and VecBitWriter are the two
--   bit writers, over the bits that a writer stands for (Stream); Mirror is bit reversal; Codes and
--   Rows are the symbol tables; Fixed is `write_fixed_block` and `encode_fixed_block`. Inflate is a
--   reader of fixed-Huffman blocks written from RFC 1951, not from the source, against which
--   FixedRoundTrip states the round trip; InflateDynamic is such a reader of blocks with dynamic codes,
--   and ReadCode shows what it reads of a canonical code. Rle is `rle_encode_lengths`, and RleReader
--   its reader from RFC 1951, RleRoundTrip the round trip; Trim is `trim_to_min`. A `Vec<u8>` takes
--   every write, so I/O errors do not occur there. The fast encoder: Lut builds its tables, FastTables
--   has them, FastLookup compares them with the scans; FixedFast is `write_fixed_block_fast`. Dynamic:
--   Plan is what a dynamic block is written from, Reference is `try_write_dynamic_block` and
--   `encode_block`, Fast is `try_write_dynamic_block_fast` and `encode_block_fast`; RleBounds,
--   PlanBounds, Steps and Equal are the proofs of the bounds and of the equality, Total and TotalWrites
--   of the returns, and RoundTrip is the round trip: Repair, Counts and Legible say that the codes fit
--   and every symbol has one, and Trimmed, WrittenCode, WrittenLengths, Ordered, WrittenHeader and
--   WrittenTokens what is read. The counters are u32, hence the bound on the number of tokens there.
--   `some none` is the early return of false, `none` a panic.
-- Huffman (crates/gpzip-codec-gpu/src/gpu/huffman.rs): Tree is `standard_huffman` and `walk`, with
--   the binary heap as a sorted list; Lengths is `try_build_code_lengths`, Canonical `canonical_codes`.
--   The loop that halves the frequencies has fuel for 33 rounds, since u32 frequencies are all 0 or 1
--   after 32, and the tree is then flat enough; `walk` has fuel for every id. Forest, Merging, Balanced
--   and Total are the proofs of that, and Bounds of what the code lengths keep to. Kraft, Growth,
--   Leaves and Coded show that the codes fit side by side, from the least frequency of a tree of each
--   height; Order says canonical codes without arrays, FirstCodes and Assigned are the proofs that the
--   arrays hold them.
-- Emit (crates/gpzip-codec-gpu/src/gpu/huffman_emit_v2.rs, huffman_emit.rs): what the host computes
--   for the emission on the GPU. Tables and Lookup are the packed tables, FixedSize is
--   `total_bits_for_fixed`, HostBitWriter and Rle are the file's own bit writer and run-length form,
--   Dynamic is `build_dynamic_huffman`, whose description of a block Header and DynamicBlock compare
--   with the reference encoder; Scan, Atoms and AtomsBits are `build_atoms_fixed`. Sized counts bits.
-- Parallel (crates/gpzip-codec-cpu/src/parallel.rs): `ParallelChunkedWriter`. The chunk function and
--   the inner `Write` are the record `Env`; the workers and the channel are a list of jobs and a
--   schedule, whose numbers choose which result arrives next and whether one is there when the writer
--   does not wait. `pending` is the list of its entries (Pending). A receive that waits for ever is the
--   reply `blocked`, and so is a spent fuel: the fuel of a loop is one more than the jobs in flight,
--   the entries of `pending` or the bytes left to take, so that a loop that goes on too long does not
--   pass for one that returns. `usize` has no bound; the u32 indexes wrap.
-- Core: Algorithm, Registry, Format and SafeJoin are algorithm.rs, error.rs, codec.rs, registry.rs,
--   archive/format.rs and `safe_join` of archive/unpack.rs of crates/gpzip-core/src. Backends is what
--   crates/gpzip-codec-cpu/src/backend.rs, crates/gpzip-codec-gpu/src/gpu.rs and
--   crates/gpzip-cli/src/hybrid.rs and app.rs say of the backends and put into the registry; a
--   parameter says whether there is an adapter. Suffix has the string literals, by code points; Serves
--   and Detect are proofs. Members and MembersFound are
--   crates/gpzip-codec-cpu/src/parallel_decompress.rs, with the decoders of flate2 as parameters;
--   Pieces is `plan_chunks`, `gzip_wrap` and `gzip_chunk_fn`, over the encoder of one piece. EncodeOne
--   is `encode_one` of gpu.rs, with the batcher's answer and the emission on the GPU as parameters.
--   Permits is the chunk function of `HybridGzipCompressor` in hybrid.rs, with `try_acquire`: every
--   call is at a phase, a step is one access to what the calls share, and a weak exchange may fail
--   without a cause; PermitsHeld is the proof.
-- Prelude: Boolean tests, lists and results on the native numbers, and lemmas on bit operations.
--
-- Numbers are natural numbers; where the source's width matters the wrap is written out.
--
-- Not modelled: the creation of wgpu's devices, pipelines and bind groups; the emission of bits on the
-- GPU, with its shaders, which is off unless asked for; a panic of a chunk function; the progress
-- channel; reading and writing archives and the parsing of the command line, which are I/O; flate2,
-- zstd, zip, tar, rar and 7z, which are third-party.
pub mod Prelude
pub mod Lz77
pub mod Huffman
pub mod Deflate
pub mod Emit
pub mod Core
pub mod Gpu
pub mod Parallel
