-- ===== src/Deflate/Accum.antt =====
-- The state that the bit writers share and the loop that moves full bytes out of the accumulator
-- (deflate.rs, huffman_emit_v2.rs). The output is a `Vec<u8>`, whose writes do not fail.
use gpzip.Prelude.{
  ℕ, zero, suc, ◌+◌, ◌-◌, ◌*◌, ◌/◌, ◌%◌, ◌^◌, ◌≤◌, ◌<◌, ◌≡◌, refl, ap, ap₂, sym, ◌∙◌, List, [], ◌∷◌,
  ◌++◌, arith, append_assoc, append-nil, leb, Bool-cases, inl, inr, true, false, replicate,
}
use gpzip.Prelude.Bits.{high-lt, two_pow-le}
use gpzip.Deflate.Stream.{
  stream, stream_one, lsb_bits, stream-append, lsb_bits-fields, lsb_bits-zero,
}

pub record BitWriter : Type 0 where
  pub out : List ℕ
  pub accum : ℕ
  pub nbits : ℕ

abbrev pub new : BitWriter
new = record { out = []; accum = 0; nbits = 0 }

-- The body of `while self.nbits >= 8`: the lowest byte goes out. `low` is the source's way to take it,
-- `accum & 0xff` or `accum as u8`.
abbrev pub put_byte : (ℕ → ℕ) → BitWriter → BitWriter
put_byte low w = record {
  out = w.out ++ (low w.accum ∷ []);
  accum = w.accum / 2 ^ 8;
  nbits = w.nbits - 8;
}

-- The loop. A round takes 8 from `nbits`, so `nbits` rounds of fuel are enough.
unfoldable pub drain : (ℕ → ℕ) → ℕ → BitWriter → BitWriter
drain low zero w = w
drain low (suc fuel) w = elim (leb 8 w.nbits) [ true ↦ drain low fuel (put_byte low w) | false ↦ w ]

-- The accumulator holds less than a byte, and no bit above `nbits`.
pub record IsValid (w : BitWriter) : Type 0 where
  pub fits : w.accum < 2 ^ w.nbits
  pub short : w.nbits < 8

-- The bits that a writer stands for.
abbrev pub contents : BitWriter → List ℕ
contents w = stream w.out ++ lsb_bits w.nbits w.accum

module _ (low : ℕ → ℕ) (low_lem : (a : ℕ) → low a ≡ a % 2 ^ 8) where
  put_byte-contents : (w : BitWriter) → 8 ≤ w.nbits → contents (put_byte low w) ≡ contents w
  put_byte-contents w h =
      ap (λ t. t ++ rest) (stream-append w.out (low w.accum ∷ []))
      ∙ append_assoc (stream w.out) (stream (low w.accum ∷ [])) rest
      ∙ ap (λ t. stream w.out ++ t) last
    where
      rest : List ℕ
      rest = lsb_bits (w.nbits - 8) (w.accum / 2 ^ 8)

      last : stream (low w.accum ∷ []) ++ rest ≡ lsb_bits w.nbits w.accum
      last = rw stream_one (
          sym (
            lsb_bits-fields 8 (w.nbits - 8) (low w.accum) (w.accum / 2 ^ 8)
              (omega (arith, low_lem w.accum)))
          ∙ ap₂ lsb_bits (omega arith) (omega (arith, low_lem w.accum)))

  pub drain-contents :
      (fuel : ℕ) (w : BitWriter)
      → w.nbits < 8 + fuel
      → w.accum < 2 ^ w.nbits
      → (contents (drain low fuel w) ≡ contents w) × IsValid (drain low fuel w)
  unfolding drain
  drain-contents zero w h fits = (refl, record { fits = fits; short = omega arith })
  drain-contents (suc fuel) w h fits = elim (Bool-cases (leb 8 w.nbits)) [
    | inl full ↦
        let full' : 8 ≤ w.nbits = ground (arith, full) in
        let (same, valid) = drain-contents fuel (put_byte low w) (omega arith) (lower full') in
        rw (full, drain) (same ∙ put_byte-contents w full', valid)
    | inr short ↦ rw (short, drain) (refl, record { fits = fits; short = ground (arith, short) })
  ]
    where
      lower : 8 ≤ w.nbits → w.accum / 2 ^ 8 < 2 ^ (w.nbits - 8)
      lower le = high-lt 8 (w.nbits - 8) w.accum (omega (arith, ap (λ (t : ℕ). 2 ^ t) width))
        where
          width : 8 + (w.nbits - 8) ≡ w.nbits
          width = omega arith

  -- What is left goes out as one more byte, padded with zeros.
  pub flush-contents :
      (w : BitWriter)
      → IsValid w
      → stream (w.out ++ (low w.accum ∷ [])) ≡ contents w ++ replicate (8 - w.nbits) 0
  flush-contents w valid =
      stream-append w.out (low w.accum ∷ [])
      ∙ ap (λ t. stream w.out ++ t) (stream_one (low w.accum) ∙ ap₂ lsb_bits width value ∙ split)
      ∙ sym (append_assoc (stream w.out) (lsb_bits w.nbits w.accum) (replicate (8 - w.nbits) 0))
    where
      byte-lt : w.accum < 2 ^ 8
      byte-lt = omega (arith, valid.fits, two_pow-le w.nbits 8 (omega (arith, valid.short)))

      width : 8 ≡ w.nbits + (8 - w.nbits)
      width = omega (arith, valid.short)

      value : low w.accum ≡ w.accum + 0 * 2 ^ w.nbits
      value = omega (arith, low_lem w.accum, byte-lt)

      split :
          lsb_bits (w.nbits + (8 - w.nbits)) (w.accum + 0 * 2 ^ w.nbits)
          ≡ lsb_bits w.nbits w.accum ++ replicate (8 - w.nbits) 0
      split =
          lsb_bits-fields w.nbits (8 - w.nbits) w.accum 0 valid.fits
          ∙ ap (λ t. lsb_bits w.nbits w.accum ++ t) (lsb_bits-zero (8 - w.nbits))

-- With no bits left in the accumulator the writer is its output.
pub contents_empty : (w : BitWriter) → w.nbits ≡ 0 → stream w.out ≡ contents w ++ replicate 0 0
contents_empty w e = sym (
    append-nil (contents w)
    ∙ ap (λ n. stream w.out ++ lsb_bits n w.accum) e
    ∙ (unfold lsb_bits in append-nil (stream w.out)))
