-- ===== src/Emit/DynamicBlock.antt =====
-- What `build_dynamic_huffman` hands to the shader describes the reference encoder's block.
use gpzip.Prelude.{ℕ, ◌+◌, ◌%◌, ◌^◌, ◌≡◌, Option, none, some, ◌>>=◌, List, ◌++◌, length}
use gpzip.Deflate.Accum
use gpzip.Deflate.Accum.{BitWriter, contents}
use gpzip.Deflate.BitWriter.{finish}
use gpzip.Deflate.Rle
use gpzip.Deflate.Dynamic.Plan.{Plan}
use gpzip.Emit.Sized.{Sized}
use gpzip.Emit.Dynamic.{DynamicHuffman}

-- The header's bytes and its size are those of a writer that holds the first bits of the block, and
-- the sizes of the body and the end of the block are those of the bits behind them.
pub record DescribesBlock (d : DynamicHuffman) (w : BitWriter) : Type 0 where
  pub header : BitWriter
  pub body : List ℕ
  pub bytes : d.header_bytes ≡ finish header
  pub count : d.header_bit_count ≡ length (contents header) % 2 ^ 32
  pub whole : contents w ≡ contents header ++ body
  pub rest : d.body_bit_count + d.eob_bits ≡ length body

-- Both fail, both refuse, or the one describes the block that the other writes.
abbrev pub Describes : Option (Option DynamicHuffman) → Option (Option BitWriter) → Type 0
Describes none written = written ≡ none
Describes (some none) written = written ≡ some none
Describes (some (some d)) written = (w : BitWriter) × (written ≡ some (some w)) × DescribesBlock d w
