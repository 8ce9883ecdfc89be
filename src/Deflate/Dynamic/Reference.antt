-- ===== src/Deflate/Dynamic/Reference.antt =====
-- `try_write_dynamic_block` and `encode_block` of deflate.rs.
use gpzip.Prelude.{ℕ, ◌-◌, if◌then◌else◌, Option, none, some, ◌>>=◌, List, [], ◌∷◌, get_elem?, take}
use gpzip.Lz77.{Token, is_literal}
use gpzip.Deflate.Accum.{BitWriter, new}
use gpzip.Deflate.BitWriter.{write_bits, write_huffman, finish}
use gpzip.Deflate.Codes.{length_code, distance_code}
use gpzip.Deflate.Rle.{RleEntry, rle_encode_lengths}
use gpzip.Deflate.Fixed.{write_extra, encode_fixed_block}
use gpzip.Deflate.Dynamic.Plan.{Plan, trying, frequencies, plan_block, meta_order}

-- `bw.write_huffman(codes[sym], lens[sym] as u32)`. `none` is an index out of range.
unfoldable pub write_code : List ℕ → List ℕ → ℕ → BitWriter → Option BitWriter
write_code codes lens sym w = do
  code ← get_elem? codes sym
  bits ← get_elem? lens sym
  some (write_huffman code bits w)

-- `for i in 0..hclen_count`, on the symbols in their order.
unfoldable pub write_meta_lens : List ℕ → List ℕ → BitWriter → Option BitWriter
write_meta_lens lens [] w = some w
write_meta_lens lens (sym ∷ syms) w = do
  l ← get_elem? lens sym
  write_meta_lens lens syms (write_bits l 3 w)

unfoldable pub write_rle : List ℕ → List ℕ → List RleEntry → BitWriter → Option BitWriter
write_rle codes lens [] w = some w
write_rle codes lens (e ∷ es) w = do
  w₁ ← write_code codes lens e.code w
  write_rle codes lens es (write_extra e.extra_value e.extra_bits w₁)

unfoldable pub write_header : Plan → BitWriter → Option BitWriter
write_header p w = do
  let w₁ = write_bits p.hdist 5 (write_bits p.hlit 5 (write_bits 0b101 3 w))
  w₂ ←
      write_meta_lens p.meta_lens (take p.hclen_count meta_order)
        (write_bits (p.hclen_count - 4) 4 w₁)
  write_rle p.meta_codes p.meta_lens p.rle w₂

unfoldable pub write_dynamic_token : Plan → Token → BitWriter → Option BitWriter
write_dynamic_token p t w =
    if is_literal t then write_code p.litlen_codes p.litlen_lens t.distance w else do
      let (lcode, lex_bits, lex_val) = length_code t.length
      w₁ ← write_code p.litlen_codes p.litlen_lens lcode w
      let (dcode, dex_bits, dex_val) = distance_code t.distance
      w₂ ← write_code p.dist_codes p.dist_lens dcode (write_extra lex_val lex_bits w₁)
      some (write_extra dex_val dex_bits w₂)

unfoldable pub write_dynamic_tokens : Plan → List Token → BitWriter → Option BitWriter
write_dynamic_tokens p [] w = some w
write_dynamic_tokens p (t ∷ ts) w = write_dynamic_token p t w >>= write_dynamic_tokens p ts

-- The header, the tokens, and the end of the block.
unfoldable pub write_planned : Plan → List Token → BitWriter → Option BitWriter
write_planned p tokens w = do
  w₁ ← write_header p w
  w₂ ← write_dynamic_tokens p tokens w₁
  write_code p.litlen_codes p.litlen_lens 256 w₂

abbrev pub length_symbol : ℕ → Option ℕ
length_symbol l = some (length_code l).0

abbrev pub distance_symbol : ℕ → Option ℕ
distance_symbol d = some (distance_code d).0

-- `some none` is `Ok(false)`.
unfoldable pub try_write_dynamic_block : List Token → BitWriter → Option (Option BitWriter)
unfolding frequencies plan_block write_planned
try_write_dynamic_block tokens w = do
  f ← frequencies length_symbol distance_symbol tokens
  trying (plan_block rle_encode_lengths f) (λ p. do w' ← write_planned p tokens w; some (some w'))

unfoldable pub encode_block : List Token → Option (List ℕ)
unfolding try_write_dynamic_block
encode_block tokens = do
  tried ← try_write_dynamic_block tokens new
  elim tried [ none ↦ encode_fixed_block tokens | some w ↦ some (finish w) ]
