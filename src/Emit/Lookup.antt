-- ===== src/Emit/Lookup.antt =====
-- The packed tables of huffman_emit_v2.rs say what the scans of deflate.rs find.
use gpzip.Prelude.{
  ℕ, ◌+◌, ◌-◌, ◌*◌, ◌/◌, ◌%◌, ◌^◌, ◌≤◌, ◌<◌, ◌≡◌, refl, ap, sym, ◌∙◌, leb, Bool-cases, inl, inr,
  some, List, [], ◌∷◌, All, get_elem?, replicate, drop, arith, bit_and, bit_or, length-replicate,
}
use gpzip.Prelude.Bits.{bit_and-mask, bit_or-shift}
use gpzip.Deflate.Codes.{
  Row, length_table, distance_table, sub_u32, length_code, distance_code, fixed_litlen_code,
}
use gpzip.Deflate.Rows.{pick}
use gpzip.Deflate.Lut.{fill_rows, fill_rows_lem}
use gpzip.Deflate.FastTables.{dist_rows_lo, dist_rows_hi, hi_slot}
use gpzip.Deflate.FastLookup.{pick-le, pick-low, pick-high, flat-Apart, hi_slot-Apart, code_of-row}
use gpzip.Emit.Tables.{
  pack, pack_length, pack_distance, unpack, build_len_lut, fill_lo, fill_hi, build_dist_lut_lo,
  build_dist_lut_hi, host_length_code, host_distance_code, fixed_litlen,
}

pick-All :
    (P : Row → Type 0) (cur : Row) (rows : List Row) (x : ℕ)
    → P cur
    → All P rows
    → P (pick cur rows x)
unfolding pick
pick-All P cur [] x h hs = h
pick-All P cur (r ∷ rs) x h (p, ps) = elim (Bool-cases (leb r.0 x)) [
  | inl e ↦ rw (e, pick) (pick-All P r rs x p ps)
  | inr e ↦ rw (e, pick) h
]

-- The three fields of a packed row do not meet.
pack-sum :
    (s : ℕ) (r : Row)
    → s < 2 ^ 8
    → r.1 < 2 ^ 8
    → r.0 < 2 ^ 16
    → pack s r ≡ s + r.1 * 2 ^ 8 + r.0 * 2 ^ 16
unfolding pack
pack-sum s r hs he hb =
    ap (λ e. bit_or (bit_or s e) (r.0 * 2 ^ 16 % 2 ^ 32)) extra
    ∙ ap (λ e. bit_or e (r.0 * 2 ^ 16 % 2 ^ 32)) (bit_or-shift 8 s r.1 hs)
    ∙ ap (bit_or (s + r.1 * 2 ^ 8)) base
    ∙ bit_or-shift 16 (s + r.1 * 2 ^ 8) r.0 (omega (arith, hs, he))
  where
    extra : r.1 * 2 ^ 8 % 2 ^ 32 ≡ r.1 * 2 ^ 8
    extra = omega (arith, he)

    base : r.0 * 2 ^ 16 % 2 ^ 32 ≡ r.0 * 2 ^ 16
    base = omega (arith, hb)

unpack-pack :
    (first s : ℕ) (r : Row) (x : ℕ)
    → s < 2 ^ 8
    → r.1 < 2 ^ 8
    → r.0 < 2 ^ 16
    → r.0 ≤ x
    → x < 2 ^ 16
    → unpack first (pack s r) x ≡ (s + first, r.1, x - r.0)
unfolding unpack
unpack-pack first s r x hs he hb le hx =
    rw (pack-sum s r hs he hb, low, mid, high) (ap (λ k. (s + first, r.1, k)) rest)
  where
    packed : ℕ
    packed = s + r.1 * 2 ^ 8 + r.0 * 2 ^ 16

    low : bit_and packed 0xff ≡ s
    low = bit_and-mask 8 packed ∙ omega (arith, hs)

    mid : bit_and (packed / 2 ^ 8) 0xff ≡ r.1
    mid = bit_and-mask 8 (packed / 2 ^ 8) ∙ omega (arith, hs, he)

    high : bit_and (packed / 2 ^ 16) 0xffff ≡ r.0
    high = bit_and-mask 16 (packed / 2 ^ 16) ∙ omega (arith, hs, he, hb)

    rest : sub_u32 x r.0 ≡ x - r.0
    rest = omega (arith, le, hx)

abbrev Packs : ℕ → Row → Type 0
Packs first r = (first ≤ r.2) × (r.2 - first < 2 ^ 8) × (r.1 < 2 ^ 8) × (r.0 < 2 ^ 16)

-- For every length from 3 to 258 the packed table gives the symbol, the number of extra bits and the
-- extra value that the scan of `length_code` gives.
pub host_length_code-length_code :
    (l : ℕ) → 3 ≤ l → l ≤ 258 → host_length_code l ≡ some (length_code l)
unfolding host_length_code build_len_lut length_code
host_length_code-length_code l lo hi =
    let (first_le, s, e, b) = pick-All (Packs 257) first rows l (omega arith) (omega arith) in
    rw found (
      ap (λ c. some c)
        (unpack-pack 257 (row.2 - 257) row l s e b (pick-le first rows l lo) (omega (arith, hi))
          ∙ ap (λ k. (k, row.1, l - row.0)) (symbol first_le)
          ∙ sym (code_of-row first rows l lo (omega (arith, hi)))))
  where
    first : Row
    first = (3, 0, 257)

    rows : List Row
    rows = drop 1 length_table

    row : Row
    row = pick first rows l

    symbol : 257 ≤ row.2 → row.2 - 257 + 257 ≡ row.2
    symbol h = omega (arith, h)

    found :
        get_elem? (fill_rows (λ len. len) pack_length length_table 259 (replicate 259 0)) l
        ≡ some (pack_length row)
    found =
        fill_rows_lem (λ d. d) pack_length first rows 259 (replicate 259 0) l
          (flat-Apart (first ∷ rows) 259 (omega arith)) lo (omega (arith, hi))
          (omega (arith, hi, length-replicate {A = ℕ} 259 0))

fill_lo-fill_rows :
    fill_lo distance_table (replicate 257 0)
    ≡ fill_rows (λ d. d) pack_distance dist_rows_lo 257 (replicate 257 0)
unfolding fill_lo fill_rows
fill_lo-fill_rows = refl

fill_hi-fill_rows :
    fill_hi distance_table (replicate 256 0)
    ≡ fill_rows hi_slot pack_distance dist_rows_hi 32769 (replicate 256 0)
unfolding fill_hi fill_rows
fill_hi-fill_rows = refl

-- For every distance from 1 to 32768 the packed tables give the symbol, the number of extra bits and
-- the extra value that the scan of `distance_code` gives.
pub host_distance_code-distance_code :
    (d : ℕ) → 1 ≤ d → d ≤ 32768 → host_distance_code d ≡ some (distance_code d)
unfolding host_distance_code build_dist_lut_lo build_dist_lut_hi distance_code
host_distance_code-distance_code d lo hi =
    let (_, s, e, b) = pick-All (Packs 0) first rows d (omega arith) (omega arith) in
    let same : unpack 0 (pack_distance row) d ≡ distance_code d =
      unpack-pack 0 row.2 row d (omega (arith, s)) e b (pick-le first rows d lo) (omega (arith, hi))
      ∙ ap (λ k. (k, row.1, d - row.0)) (omega arith)
      ∙ sym (code_of-row first rows d lo (omega (arith, hi))) in
    elim (Bool-cases (leb d 256)) [
      | inl small ↦ rw (small, low (ground (arith, small))) (ap (λ c. some c) same)
      | inr large ↦ rw (large, high (ground (arith, large))) (ap (λ c. some c) same)
    ]
  where
    first : Row
    first = (1, 0, 0)

    rows : List Row
    rows = drop 1 distance_table

    border : Row
    border = (257, 7, 16)

    row : Row
    row = pick first rows d

    low :
        d ≤ 256 → get_elem? (fill_lo distance_table (replicate 257 0)) d ≡ some (pack_distance row)
    low small =
        ap (λ t. get_elem? t d) fill_lo-fill_rows
        ∙ fill_rows_lem (λ d. d) pack_distance first (drop 1 dist_rows_lo) 257 (replicate 257 0) d
            (flat-Apart (first ∷ drop 1 dist_rows_lo) 257 (omega arith)) lo (omega (arith, small))
            (omega (arith, small, length-replicate {A = ℕ} 257 0))
        ∙ ap (λ r. some (pack_distance r))
            (sym (
              pick-low first (drop 1 dist_rows_lo) border (drop 1 dist_rows_hi) d
                (omega (arith, small))))

    high :
        256 < d
        → get_elem? (fill_hi distance_table (replicate 256 0)) (hi_slot d)
          ≡ some (pack_distance row)
    high large =
        ap (λ t. get_elem? t (hi_slot d)) fill_hi-fill_rows
        ∙ fill_rows_lem hi_slot pack_distance border (drop 1 dist_rows_hi) 32769 (replicate 256 0) d
            (hi_slot-Apart (border ∷ drop 1 dist_rows_hi) 32769 (omega arith) (omega arith))
            (omega (arith, large)) (omega (arith, hi))
            (omega (arith, hi, length-replicate {A = ℕ} 256 0))
        ∙ ap (λ r. some (pack_distance r))
            (sym (
              pick-high first (drop 1 dist_rows_lo) border (drop 1 dist_rows_hi) d
                (omega (arith, large)) (omega (arith, large))))

-- The copy of the fixed code in huffman_emit_v2.rs.
pub fixed_litlen_lem : (s : ℕ) → fixed_litlen s ≡ fixed_litlen_code s
unfolding fixed_litlen fixed_litlen_code
fixed_litlen_lem s = refl
