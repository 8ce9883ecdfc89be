-- ===== src/Deflate/Dynamic/Fast.antt =====
-- `try_write_dynamic_block_fast` and `encode_block_fast` of deflate.rs.
use gpzip.Prelude.{
  ℕ, ◌-◌, ltb, if◌then◌else◌, Option, none, some, ◌>>=◌, List, [], ◌∷◌, get_elem?, take,
}
use gpzip.Lz77.{Token, is_literal}
use gpzip.Deflate.Mirror.{reverse_bits}
use gpzip.Deflate.Accum.{BitWriter, new}
use gpzip.Deflate.VecBitWriter.{write_bits, write_pre, finish}
use gpzip.Deflate.Codes.{sub_u32}
use gpzip.Deflate.FastTables.{len_lut, dist_entry}
use gpzip.Deflate.FixedFast.{sub_u16, write_extra_fast, write_fixed_block_fast}
use gpzip.Deflate.Rle.{RleEntry, rle_encode_lengths}
use gpzip.Deflate.Dynamic.Plan.{Plan, trying, frequencies, plan_block, meta_order}

abbrev pub pre_code : ℕ → ℕ → ℕ
pre_code code bits = if ltb 0 bits then reverse_bits code bits else 0

-- `for i in 0..codes.len()`: the codes reversed. There are as many lengths as codes.
unfoldable pub pre_codes : List ℕ → List ℕ → List ℕ
pre_codes [] lens = []
pre_codes (c ∷ cs) [] = []
pre_codes (c ∷ cs) (l ∷ ls) = pre_code c l ∷ pre_codes cs ls

-- `bw.write_pre(pre[sym], lens[sym] as u32)`. `none` is an index out of range.
unfoldable pub write_pre_code : List ℕ → List ℕ → ℕ → BitWriter → Option BitWriter
write_pre_code pre lens sym w = do
  code ← get_elem? pre sym
  bits ← get_elem? lens sym
  some (write_pre code bits w)

unfoldable pub write_meta_lens_fast : List ℕ → List ℕ → BitWriter → Option BitWriter
write_meta_lens_fast lens [] w = some w
write_meta_lens_fast lens (sym ∷ syms) w = do
  l ← get_elem? lens sym
  write_meta_lens_fast lens syms (write_bits l 3 w)

unfoldable pub write_rle_fast : List ℕ → List ℕ → List RleEntry → BitWriter → Option BitWriter
write_rle_fast pre lens [] w = some w
write_rle_fast pre lens (e ∷ es) w = do
  w₁ ← write_pre_code pre lens e.code w
  write_rle_fast pre lens es (write_extra_fast e.extra_value e.extra_bits w₁)

unfoldable pub write_header_fast : Plan → BitWriter → Option BitWriter
write_header_fast p w = do
  let w₁ = write_bits p.hdist 5 (write_bits p.hlit 5 (write_bits 0b101 3 w))
  w₂ ←
      write_meta_lens_fast p.meta_lens (take p.hclen_count meta_order)
        (write_bits (p.hclen_count - 4) 4 w₁)
  write_rle_fast (pre_codes p.meta_codes p.meta_lens) p.meta_lens p.rle w₂

unfoldable pub write_dynamic_token_fast : Plan → Token → BitWriter → Option BitWriter
write_dynamic_token_fast p t w =
    let litlen_pre = pre_codes p.litlen_codes p.litlen_lens in
    if is_literal t then write_pre_code litlen_pre p.litlen_lens t.distance w else do
      le ← get_elem? len_lut t.length
      w₁ ← write_pre_code litlen_pre p.litlen_lens le.sym w
      let w₂ = write_extra_fast (sub_u16 t.length le.base) le.extra_bits w₁
      de ← dist_entry t.distance
      w₃ ← write_pre_code (pre_codes p.dist_codes p.dist_lens) p.dist_lens de.sym w₂
      some (write_extra_fast (sub_u32 t.distance de.base) de.extra_bits w₃)

unfoldable pub write_dynamic_tokens_fast : Plan → List Token → BitWriter → Option BitWriter
write_dynamic_tokens_fast p [] w = some w
write_dynamic_tokens_fast p (t ∷ ts) w =
    write_dynamic_token_fast p t w >>= write_dynamic_tokens_fast p ts

unfoldable pub write_planned_fast : Plan → List Token → BitWriter → Option BitWriter
write_planned_fast p tokens w = do
  w₁ ← write_header_fast p w
  w₂ ← write_dynamic_tokens_fast p tokens w₁
  write_pre_code (pre_codes p.litlen_codes p.litlen_lens) p.litlen_lens 256 w₂

abbrev pub length_symbol_fast : ℕ → Option ℕ
length_symbol_fast l = do e ← get_elem? len_lut l; some e.sym

abbrev pub distance_symbol_fast : ℕ → Option ℕ
distance_symbol_fast d = do e ← dist_entry d; some e.sym

-- `some none` is the return of false.
unfoldable pub try_write_dynamic_block_fast : List Token → BitWriter → Option (Option BitWriter)
unfolding frequencies plan_block write_planned_fast
try_write_dynamic_block_fast tokens w = do
  f ← frequencies length_symbol_fast distance_symbol_fast tokens
  trying (plan_block rle_encode_lengths f)
      (λ p. do w' ← write_planned_fast p tokens w; some (some w'))

unfoldable pub encode_block_fast : List Token → Option (List ℕ)
unfolding try_write_dynamic_block_fast
encode_block_fast tokens = do
  tried ← try_write_dynamic_block_fast tokens new
  elim tried [
    | none ↦ do w ← write_fixed_block_fast tokens new; some (finish w)
    | some w ↦ some (finish w)
  ]
