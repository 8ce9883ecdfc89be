-- ===== src/Deflate/FixedFast.antt =====
-- The fast encoder of fixed-Huffman blocks: `write_fixed_block_fast` of deflate.rs with its tables.
use gpzip.Prelude.{
  ℕ, zero, suc, ◌+◌, ◌-◌, ◌%◌, ◌^◌, leb, ltb, if◌then◌else◌, Option, some, ◌>>=◌, List, [], ◌∷◌,
  get_elem?,
}
use gpzip.Lz77.{Token, is_literal}
use gpzip.Deflate.Mirror.{reverse_bits}
use gpzip.Deflate.Accum.{BitWriter}
use gpzip.Deflate.VecBitWriter.{write_bits, write_pre}
use gpzip.Deflate.Codes.{sub_u32}
use gpzip.Deflate.FastTables.{len_lut, dist_entry}

-- `f` at `i` and the `n - 1` numbers behind it.
unfoldable pub tabulate : {A : Type 0} → (ℕ → A) → ℕ → ℕ → List A
tabulate f i zero = []
tabulate f i (suc n) = f i ∷ tabulate f (i + 1) n

-- The `match` of `fixed_litlen_pre`, whose last arm is for the symbols up to 287: there are no others.
unfoldable pub fixed_litlen_arm : ℕ → ℕ × ℕ
fixed_litlen_arm sym =
    if leb sym 143
    then (0x30 + sym, 8)
    else if leb sym 255
    then (0x190 + (sym - 144), 9)
    else if leb sym 279
    then (sym - 256, 7)
    else (0xc0 + (sym - 280), 8)

abbrev pub pre_entry : ℕ → ℕ × ℕ
pre_entry sym = let (code, bits) = fixed_litlen_arm sym in (reverse_bits code bits, bits)

unfoldable pub fixed_litlen_pre : List (ℕ × ℕ)
fixed_litlen_pre = tabulate pre_entry 0 288

unfoldable pub fixed_dist_pre : List (ℕ × ℕ)
fixed_dist_pre = tabulate (λ sym. (reverse_bits sym 5, 5)) 0 30

-- u16 subtraction wraps.
abbrev pub sub_u16 : ℕ → ℕ → ℕ
sub_u16 a b = (a % 2 ^ 16 + 2 ^ 16 - b) % 2 ^ 16

-- `let (pre, bits) = fixed[sym]; bw.write_pre(pre, bits)`. `none` is an index out of range.
unfoldable pub write_symbol : List (ℕ × ℕ) → ℕ → BitWriter → Option BitWriter
write_symbol table sym w = do (pre, bits) ← get_elem? table sym; some (write_pre pre bits w)

-- `if extra_bits > 0 { bw.write_bits(..) }`
unfoldable pub write_extra_fast : ℕ → ℕ → BitWriter → BitWriter
write_extra_fast value count w = if ltb 0 count then write_bits value count w else w

unfoldable pub write_token_fast : Token → BitWriter → Option BitWriter
write_token_fast t w = if is_literal t then write_symbol fixed_litlen_pre t.distance w else do
  le ← get_elem? len_lut t.length
  w₁ ← write_symbol fixed_litlen_pre le.sym w
  let w₂ = write_extra_fast (sub_u16 t.length le.base) le.extra_bits w₁
  de ← dist_entry t.distance
  w₃ ← write_symbol fixed_dist_pre de.sym w₂
  some (write_extra_fast (sub_u32 t.distance de.base) de.extra_bits w₃)

unfoldable pub write_tokens_fast : List Token → BitWriter → Option BitWriter
write_tokens_fast [] w = some w
write_tokens_fast (t ∷ ts) w = write_token_fast t w >>= write_tokens_fast ts

unfoldable pub write_fixed_block_fast : List Token → BitWriter → Option BitWriter
write_fixed_block_fast tokens w =
    write_tokens_fast tokens (write_bits 0b011 3 w) >>= write_symbol fixed_litlen_pre 256
