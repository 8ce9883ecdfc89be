-- ===== src/Emit/Dynamic.antt =====
-- `build_dynamic_huffman` and `empty_fixed_block` of huffman_emit_v2.rs: what the shader is given for
-- a block with dynamic codes.
use gpzip.Prelude.{
  ℕ, ◌+◌, ◌-◌, ◌==◌, ltb, if◌then◌else◌, Option, some, ◌>>=◌, List, [], ◌∷◌, get_elem?, set,
  replicate, take,
}
use gpzip.Lz77.{Token, is_literal}
use gpzip.Deflate.Rle.{RleEntry}
use gpzip.Deflate.Dynamic.Plan.{Plan, trying, frequencies, plan_block, meta_order}
use gpzip.Emit.Rle.{rle_encode_lengths}
use gpzip.Emit.Tables.{rev_bits, host_length_code, host_distance_code}
use gpzip.Emit.HostBitWriter.{HostBitWriter, new, write_bits, write_huffman, bit_count, into_bytes}

unfoldable pub empty_fixed_block : List ℕ
empty_fixed_block = set (replicate 2 0) 0 0b011

pub record DynamicHuffman : Type 0 where
  pub lit_lens_u32 : List ℕ
  pub lit_codes_pre : List ℕ
  pub dist_lens_u32 : List ℕ
  pub dist_codes_pre : List ℕ
  pub header_bytes : List ℕ
  pub header_bit_count : ℕ
  pub body_bit_count : ℕ
  pub eob_bits : ℕ

-- `codes.iter().zip(&lens).map(..)`
unfoldable pub pre_reverse : List ℕ → List ℕ → List ℕ
unfolding rev_bits
pre_reverse [] lens = []
pre_reverse (c ∷ cs) [] = []
pre_reverse (c ∷ cs) (l ∷ ls) = (if l == 0 then 0 else rev_bits c l) ∷ pre_reverse cs ls

-- The bits of one token. `none` is an index out of range.
unfoldable pub dynamic_token_bits : Plan → Token → Option ℕ
dynamic_token_bits p t = if is_literal t then get_elem? p.litlen_lens t.distance else do
  (lcode, lextra, lval) ← host_length_code t.length
  lbits ← get_elem? p.litlen_lens lcode
  (dcode, dextra, dval) ← host_distance_code t.distance
  dbits ← get_elem? p.dist_lens dcode
  some (lbits + lextra + (dbits + dextra))

unfoldable pub body_bits : Plan → List Token → ℕ → Option ℕ
body_bits p [] bits = some bits
body_bits p (t ∷ ts) bits = do n ← dynamic_token_bits p t; body_bits p ts (bits + n)

unfoldable pub put_meta_lens : List ℕ → List ℕ → HostBitWriter → Option HostBitWriter
put_meta_lens lens [] h = some h
put_meta_lens lens (sym ∷ syms) h = do
  l ← get_elem? lens sym
  put_meta_lens lens syms (write_bits l 3 h)

-- `if e.extra_bits > 0 { bw.write_bits(..) }`
unfoldable pub put_extra : ℕ → ℕ → HostBitWriter → HostBitWriter
unfolding write_bits
put_extra value count h = if ltb 0 count then write_bits value count h else h

unfoldable pub put_rle : List ℕ → List ℕ → List RleEntry → HostBitWriter → Option HostBitWriter
unfolding put_extra
put_rle codes lens [] h = some h
put_rle codes lens (e ∷ es) h = do
  code ← get_elem? codes e.code
  bits ← get_elem? lens e.code
  put_rle codes lens es (put_extra e.extra_value e.extra_bits (write_huffman code bits h))

unfoldable pub put_header : Plan → HostBitWriter → Option HostBitWriter
unfolding put_meta_lens put_rle
put_header p h = do
  let h₁ = write_bits p.hdist 5 (write_bits p.hlit 5 (write_bits 0b101 3 h))
  h₂ ←
      put_meta_lens p.meta_lens (take p.hclen_count meta_order)
        (write_bits (p.hclen_count - 4) 4 h₁)
  put_rle p.meta_codes p.meta_lens p.rle h₂

unfoldable pub build_planned : Plan → List Token → Option DynamicHuffman
unfolding body_bits put_header
build_planned p tokens = do
  body ← body_bits p tokens 0
  eob ← get_elem? p.litlen_lens 256
  h ← put_header p new
  some (record {
    lit_lens_u32 = p.litlen_lens;
    lit_codes_pre = pre_reverse p.litlen_codes p.litlen_lens;
    dist_lens_u32 = p.dist_lens;
    dist_codes_pre = pre_reverse p.dist_codes p.dist_lens;
    header_bytes = into_bytes h;
    header_bit_count = bit_count h;
    body_bit_count = body;
    eob_bits = eob;
  })

abbrev pub host_length_symbol : ℕ → Option ℕ
host_length_symbol l = do c ← host_length_code l; some c.0

abbrev pub host_distance_symbol : ℕ → Option ℕ
host_distance_symbol d = do c ← host_distance_code d; some c.0

-- `some none` is the source's `None`. `trim_to_min` is, line for line, the one of deflate.rs.
unfoldable pub build_dynamic_huffman : List Token → Option (Option DynamicHuffman)
unfolding frequencies plan_block build_planned
build_dynamic_huffman tokens = do
  f ← frequencies host_length_symbol host_distance_symbol tokens
  trying (plan_block rle_encode_lengths f) (λ p. do d ← build_planned p tokens; some (some d))
