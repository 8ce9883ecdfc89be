-- ===== src/Deflate/BitWriter.antt =====
-- `BitWriter` of deflate.rs, the writer of the reference encoder.
use gpzip.Prelude.{
  ℕ, ◌+◌, ◌-◌, ◌*◌, ◌%◌, ◌^◌, ◌≤◌, ◌<◌, ◌≡◌, refl, ap, ◌∙◌, List, [], ◌∷◌, ◌++◌, arith, bit_and,
  bit_or, ltb, if◌then◌else◌, Bool-cases, inl, inr, replicate,
}
use gpzip.Prelude.Bits.{bit_and-mask, bit_or-shift, fields-lt, two_pow-le}
use gpzip.Deflate.Stream.{stream, lsb_bits, fill-contents}
use gpzip.Deflate.Mirror.{msb_bits, reversed, reversed-mirror, lsb_bits-mirror}
use gpzip.Deflate.Accum.{
  BitWriter, drain, contents, IsValid, drain-contents, flush-contents, contents_empty,
}
use native.Mathlib.Nat.{mod-lt, one-le-pow, mod-eq_of_lt}

abbrev pub low_byte : ℕ → ℕ
low_byte a = bit_and a 0xff

pub low_byte_lem : (a : ℕ) → low_byte a ≡ a % 2 ^ 8
low_byte_lem a = bit_and-mask 8 a

-- `accum |= (value & ((1 << count) - 1)) << nbits` in a u32. The source asserts `count <= 24`.
unfoldable pub write_bits : ℕ → ℕ → BitWriter → BitWriter
unfolding drain
write_bits value count w =
    let accum = bit_or w.accum (bit_and value (2 ^ count - 1) * 2 ^ w.nbits % 2 ^ 32) in
    drain low_byte (w.nbits + count) (record w { accum = accum; nbits = w.nbits + count })

-- The code goes out highest bit first.
unfoldable pub write_huffman : ℕ → ℕ → BitWriter → BitWriter
unfolding write_bits reversed
write_huffman code bits w = write_bits (reversed code bits) bits w

unfoldable pub flush_byte : BitWriter → BitWriter
flush_byte w =
    if ltb 0 w.nbits
    then record { out = w.out ++ (low_byte w.accum ∷ []); accum = 0; nbits = 0 }
    else w

unfoldable pub finish : BitWriter → List ℕ
unfolding flush_byte
finish w = (flush_byte w).out

-- A valid writer that is handed at most 24 bits stands for what it stood for, and behind that the
-- low bits of the value, lowest first; it stays valid.
pub contents-write_bits :
    (value count : ℕ) (w : BitWriter)
    → IsValid w
    → count ≤ 24
    → (contents (write_bits value count w) ≡ contents w ++ lsb_bits count value)
      × IsValid (write_bits value count w)
unfolding write_bits
contents-write_bits value count w valid le =
    let (same, valid') =
      drain-contents low_byte low_byte_lem (w.nbits + count) filled (omega arith) fits in
    (
      same
          ∙ ap (λ a. stream w.out ++ lsb_bits (w.nbits + count) a) accum
          ∙ fill-contents w.out w.accum w.nbits field count value valid.fits refl,
      valid',
    )
  where
    field : ℕ
    field = value % 2 ^ count

    filled : BitWriter
    filled = record w {
      accum = bit_or w.accum (bit_and value (2 ^ count - 1) * 2 ^ w.nbits % 2 ^ 32);
      nbits = w.nbits + count;
    }

    sum-lt : w.accum + field * 2 ^ w.nbits < 2 ^ (w.nbits + count)
    sum-lt =
        fields-lt w.nbits count w.accum field valid.fits
          (mod-lt value (one-le-pow count 2 (omega arith)))

    no_wrap : field * 2 ^ w.nbits < 2 ^ 32
    no_wrap = omega (arith, sum-lt, two_pow-le (w.nbits + count) 32 (omega (arith, valid.short)))

    accum : filled.accum ≡ w.accum + field * 2 ^ w.nbits
    accum =
        rw (bit_and-mask count value, mod-eq_of_lt no_wrap)
          (bit_or-shift w.nbits w.accum field valid.fits)

    fits : filled.accum < 2 ^ filled.nbits
    fits = rw accum sum-lt

-- The bytes that `finish` returns hold the bits of a valid writer, padded with fewer than eight
-- zeros to whole bytes.
pub stream-finish :
    (w : BitWriter)
    → IsValid w
    → (pad : ℕ) × (stream (finish w) ≡ contents w ++ replicate pad 0) × (pad < 8)
unfolding finish
stream-finish w valid = elim (Bool-cases (ltb 0 w.nbits)) [
  | inl some_left ↦ (
    8 - w.nbits,
    rw (some_left, finish) (flush-contents low_byte low_byte_lem w valid),
    ground (arith, some_left),
  )
  | inr none_left ↦
      (0, rw (none_left, finish) (contents_empty w (ground (arith, none_left))), omega arith)
]

-- A Huffman code of at most 24 bits goes out highest bit first.
pub contents-write_huffman :
    (code bits : ℕ) (w : BitWriter)
    → IsValid w
    → bits ≤ 24
    → (contents (write_huffman code bits w) ≡ contents w ++ msb_bits bits code)
      × IsValid (write_huffman code bits w)
unfolding write_huffman
contents-write_huffman code bits w valid le =
    let (same, valid') = contents-write_bits (reversed code bits) bits w valid le in
    (
      same
          ∙ ap (λ t. contents w ++ t)
              (ap (lsb_bits bits) (reversed-mirror code bits) ∙ lsb_bits-mirror bits code),
      valid',
    )
