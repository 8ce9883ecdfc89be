-- ===== src/Deflate/VecBitWriter.antt =====
-- `VecBitWriter` of deflate.rs, the writer of the fast encoder: a u64 accumulator, and no mask on the
-- value.
use gpzip.Prelude.{
  ℕ, ◌+◌, ◌-◌, ◌*◌, ◌%◌, ◌^◌, ◌≤◌, ◌<◌, ◌≡◌, refl, ap, sym, ◌∙◌, List, [], ◌∷◌, ◌++◌, arith, bit_or,
  ltb, if◌then◌else◌, Bool-cases, inl, inr, replicate,
}
use gpzip.Prelude.Bits.{bit_or-shift, fields-lt, two_pow-le}
use gpzip.Deflate.Stream.{stream, lsb_bits, fill-contents}
use gpzip.Deflate.Accum.{
  BitWriter, drain, contents, IsValid, drain-contents, flush-contents, contents_empty,
}
use native.Mathlib.Nat.{mod-eq_of_lt}

-- `accum as u8`
abbrev pub as_u8 : ℕ → ℕ
as_u8 a = a % 2 ^ 8

-- `accum |= (value as u64) << nbits`. The source asserts `count <= 32`.
unfoldable pub write_bits : ℕ → ℕ → BitWriter → BitWriter
unfolding drain
write_bits value count w =
    let accum = bit_or w.accum (value * 2 ^ w.nbits % 2 ^ 64) in
    drain as_u8 (w.nbits + count) (record w { accum = accum; nbits = w.nbits + count })

-- The same for a code that is reversed already.
unfoldable pub write_pre : ℕ → ℕ → BitWriter → BitWriter
unfolding drain
write_pre code_pre bits w =
    let accum = bit_or w.accum (code_pre * 2 ^ w.nbits % 2 ^ 64) in
    drain as_u8 (w.nbits + bits) (record w { accum = accum; nbits = w.nbits + bits })

unfoldable pub finish : BitWriter → List ℕ
finish w = if ltb 0 w.nbits then w.out ++ (as_u8 w.accum ∷ []) else w.out

-- A valid writer that is handed a value of at most 32 bits stands for what it stood for, and behind
-- that the bits of the value, lowest first; it stays valid. The value has to fit: nothing masks it.
pub contents-write_bits_u64 :
    (value count : ℕ) (w : BitWriter)
    → IsValid w
    → count ≤ 32
    → value < 2 ^ count
    → (contents (write_bits value count w) ≡ contents w ++ lsb_bits count value)
      × IsValid (write_bits value count w)
unfolding write_bits
contents-write_bits_u64 value count w valid le small =
    let (same, valid') =
      drain-contents as_u8 (λ a. refl) (w.nbits + count) filled (omega arith) fits in
    (
      same
          ∙ ap (λ a. stream w.out ++ lsb_bits (w.nbits + count) a) accum
          ∙ fill-contents w.out w.accum w.nbits value count value valid.fits
              (sym (mod-eq_of_lt small)),
      valid',
    )
  where
    filled : BitWriter
    filled = record w {
      accum = bit_or w.accum (value * 2 ^ w.nbits % 2 ^ 64);
      nbits = w.nbits + count;
    }

    sum-lt : w.accum + value * 2 ^ w.nbits < 2 ^ (w.nbits + count)
    sum-lt = fields-lt w.nbits count w.accum value valid.fits small

    no_wrap : value * 2 ^ w.nbits < 2 ^ 64
    no_wrap = omega (arith, sum-lt, two_pow-le (w.nbits + count) 64 (omega (arith, valid.short)))

    accum : filled.accum ≡ w.accum + value * 2 ^ w.nbits
    accum = rw (mod-eq_of_lt no_wrap) (bit_or-shift w.nbits w.accum value valid.fits)

    fits : filled.accum < 2 ^ filled.nbits
    fits = rw accum sum-lt

-- The bytes that `finish` returns hold the bits of a valid writer, padded with fewer than eight
-- zeros to whole bytes.
pub stream-finish_u64 :
    (w : BitWriter)
    → IsValid w
    → (pad : ℕ) × (stream (finish w) ≡ contents w ++ replicate pad 0) × (pad < 8)
unfolding finish
stream-finish_u64 w valid = elim (Bool-cases (ltb 0 w.nbits)) [
  | inl some_left ↦ (
    8 - w.nbits,
    rw (some_left, finish) (flush-contents as_u8 (λ a. refl) w valid),
    ground (arith, some_left),
  )
  | inr none_left ↦
      (0, rw (none_left, finish) (contents_empty w (ground (arith, none_left))), omega arith)
]
