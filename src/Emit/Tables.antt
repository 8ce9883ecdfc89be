-- ===== src/Emit/Tables.antt =====
-- The lookup tables of huffman_emit_v2.rs.
use gpzip.Prelude.{
  ℕ, ◌+◌, ◌-◌, ◌*◌, ◌/◌, ◌%◌, ◌^◌, min, ltb, leb, ◌==◌, if◌then◌else◌, Option, none, some, ◌>>=◌,
  List, [], ◌∷◌, get_elem?, replicate, bit_and, bit_or, map,
}
use gpzip.Deflate.Codes.{Row, distance_table, length_table, sub_u32}
use gpzip.Deflate.Mirror.{reverse_32}
use gpzip.Deflate.Lut.{range_end, fill_range, fill_rows}
use gpzip.Deflate.FastTables.{hi_slot}
use gpzip.Deflate.FixedFast.{tabulate}

-- `none` is `unreachable!()`.
unfoldable pub fixed_litlen : ℕ → Option (ℕ × ℕ)
fixed_litlen symbol =
    if leb symbol 143
    then some (0x30 + symbol, 8)
    else if leb symbol 255
    then some (0x190 + (symbol - 144), 9)
    else if leb symbol 279
    then some (symbol - 256, 7)
    else if leb symbol 287
    then some (0xc0 + (symbol - 280), 8)
    else none

unfoldable pub fixed_dist : ℕ → ℕ × ℕ
fixed_dist symbol = (symbol, 5)

unfoldable pub rev_bits : ℕ → ℕ → ℕ
rev_bits code bits = if bits == 0 then 0 else reverse_32 code / 2 ^ (32 - bits)

-- `.map(..).collect()` over symbols that all have a code.
unfoldable pub collect : {A B : Type 0} → (A → Option B) → List A → Option (List B)
collect f [] = some []
collect f (x ∷ xs) = do y ← f x; ys ← collect f xs; some (y ∷ ys)

-- `0..n`
unfoldable pub symbols : ℕ → List ℕ
unfolding tabulate
symbols n = tabulate (λ s. s) 0 n

unfoldable pub build_fixed_lit_lens : Option (List ℕ)
unfolding fixed_litlen collect symbols
build_fixed_lit_lens = collect (λ s. do c ← fixed_litlen s; some c.1) (symbols 288)

unfoldable pub build_fixed_lit_codes_pre : Option (List ℕ)
unfolding fixed_litlen collect symbols rev_bits
build_fixed_lit_codes_pre =
    collect (λ s. do c ← fixed_litlen s; some (rev_bits c.0 c.1)) (symbols 288)

unfoldable pub build_fixed_dist_lens : List ℕ
unfolding fixed_dist symbols
build_fixed_dist_lens = map (λ s. (fixed_dist s).1) (symbols 30)

unfoldable pub build_fixed_dist_codes_pre : List ℕ
unfolding fixed_dist symbols rev_bits
build_fixed_dist_codes_pre = map (λ s. rev_bits (fixed_dist s).0 (fixed_dist s).1) (symbols 30)

-- `sym | (extra << 8) | (base << 16)`
unfoldable pub pack : ℕ → Row → ℕ
pack sym row = bit_or (bit_or sym (row.1 * 2 ^ 8 % 2 ^ 32)) (row.0 * 2 ^ 16 % 2 ^ 32)

abbrev pub pack_length : Row → ℕ
pack_length row = pack (row.2 - 257) row

abbrev pub pack_distance : Row → ℕ
pack_distance row = pack row.2 row

-- The rows are those of the reference encoder's table.
unfoldable pub build_len_lut : List ℕ
unfolding fill_rows
build_len_lut = fill_rows (λ len. len) pack_length length_table 259 (replicate 259 0)

-- The rows up to 256, with a `break` behind them.
unfoldable pub fill_lo : List Row → List ℕ → List ℕ
fill_lo [] lut = lut
fill_lo (row ∷ rows) lut =
    let end = min (range_end rows 32769) 257 in
    let rest = fill_lo rows (fill_range (λ d. d) (pack_distance row) (end - row.0) row.0 lut) in
    if ltb 256 row.0 then lut else rest

unfoldable pub build_dist_lut_lo : List ℕ
unfolding fill_lo
build_dist_lut_lo = fill_lo distance_table (replicate 257 0)

-- The rows below 257 are skipped.
unfoldable pub fill_hi : List Row → List ℕ → List ℕ
fill_hi [] lut = lut
fill_hi (row ∷ rows) lut =
    let filled = fill_range hi_slot (pack_distance row) (range_end rows 32769 - row.0) row.0 lut in
    fill_hi rows (if ltb row.0 257 then lut else filled)

unfoldable pub build_dist_lut_hi : List ℕ
unfolding fill_hi
build_dist_lut_hi = fill_hi distance_table (replicate 256 0)

-- The symbol, the number of extra bits, and their value, of a packed row.
unfoldable pub unpack : ℕ → ℕ → ℕ → ℕ × ℕ × ℕ
unpack first_symbol packed x = (
  bit_and packed 0xff + first_symbol,
  bit_and (packed / 2 ^ 8) 0xff,
  sub_u32 x (bit_and (packed / 2 ^ 16) 0xffff),
)

-- `none` is an index out of range.
unfoldable pub host_length_code : ℕ → Option (ℕ × ℕ × ℕ)
unfolding unpack
host_length_code length = do
  packed ← get_elem? build_len_lut length
  some (unpack 257 packed length)

unfoldable pub host_distance_code : ℕ → Option (ℕ × ℕ × ℕ)
unfolding unpack
host_distance_code distance = do
  packed ←
      if leb distance 256
      then get_elem? build_dist_lut_lo distance
      else get_elem? build_dist_lut_hi (hi_slot distance)
  some (unpack 0 packed distance)
