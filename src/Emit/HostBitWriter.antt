-- ===== src/Emit/HostBitWriter.antt =====
-- `HostBitWriter` of huffman_emit_v2.rs, which counts the bits that it writes.
use gpzip.Prelude.{
  ℕ, zero, suc, ◌+◌, ◌-◌, ◌*◌, ◌/◌, ◌%◌, ◌^◌, ◌≤◌, ◌≡◌, refl, ap, sym, ◌∙◌, leb, ltb, if◌then◌else◌,
  Bool-cases, inl, inr, true, false, List, [], ◌∷◌, ◌++◌, length, length-append, subst, arith,
  bit_and, bit_or,
}
use gpzip.Deflate.Stream.{stream, lsb_bits, length-lsb_bits}
use gpzip.Deflate.Mirror.{reversed}
use gpzip.Deflate.Accum.{BitWriter, drain, contents, IsValid}
use gpzip.Deflate.BitWriter
use gpzip.Deflate.BitWriter.{low_byte, flush_byte, finish, contents-write_bits}

pub record HostBitWriter : Type 0 where
  pub out : List ℕ
  pub accum : ℕ
  pub nbits : ℕ
  pub total : ℕ

unfoldable pub new : HostBitWriter
new = record { out = []; accum = 0; nbits = 0; total = 0 }

-- `while self.nbits >= 8`, with `nbits` rounds of fuel as for `BitWriter`.
unfoldable pub flush_whole : ℕ → HostBitWriter → HostBitWriter
flush_whole zero h = h
flush_whole (suc fuel) h = elim (leb 8 h.nbits) [
  | true ↦ flush_whole fuel (record {
    out = h.out ++ (bit_and h.accum 0xff ∷ []);
    accum = h.accum / 2 ^ 8;
    nbits = h.nbits - 8;
    total = h.total;
  })
  | false ↦ h
]

unfoldable pub write_bits : ℕ → ℕ → HostBitWriter → HostBitWriter
unfolding flush_whole
write_bits value count h = flush_whole (h.nbits + count) (record {
  out = h.out;
  accum = bit_or h.accum (bit_and value (2 ^ count - 1) * 2 ^ h.nbits % 2 ^ 32);
  nbits = h.nbits + count;
  total = (h.total + count) % 2 ^ 32;
})

-- The loop that reverses is the one of `BitWriter::write_huffman`.
unfoldable pub write_huffman : ℕ → ℕ → HostBitWriter → HostBitWriter
unfolding write_bits
write_huffman code bits h = write_bits (reversed code bits) bits h

abbrev pub bit_count : HostBitWriter → ℕ
bit_count h = h.total

unfoldable pub into_bytes : HostBitWriter → List ℕ
into_bytes h = if ltb 0 h.nbits then h.out ++ (bit_and h.accum 0xff ∷ []) else h.out

-- Without the count, a `BitWriter`.
abbrev pub forget : HostBitWriter → BitWriter
forget h = record { out = h.out; accum = h.accum; nbits = h.nbits }

flush_whole-drain :
    (fuel : ℕ) (h : HostBitWriter)
    → (forget (flush_whole fuel h) ≡ drain low_byte fuel (forget h))
      × ((flush_whole fuel h).total ≡ h.total)
unfolding flush_whole drain
flush_whole-drain zero h = (refl, refl)
flush_whole-drain (suc fuel) h = elim (Bool-cases (leb 8 h.nbits)) [
  | inl e ↦ rw (e, flush_whole, drain) (flush_whole-drain fuel _)
  | inr e ↦ rw (e, flush_whole, drain) (refl, refl)
]

-- The writer is valid, and has counted its bits.
pub record Counts (h : HostBitWriter) : Type 0 where
  pub valid : IsValid (forget h)
  pub counted : bit_count h ≡ length (contents (forget h)) % 2 ^ 32

pub new-Counts : Counts new
unfolding new
new-Counts = record {
  valid = record { fits = omega arith; short = omega arith };
  counted = unfold stream lsb_bits in refl;
}

-- `write_bits` of at most 24 bits does what the reference encoder's does, and counts the bits that it
-- adds.
pub write_bits-forget :
    (value count : ℕ) (h : HostBitWriter)
    → Counts h
    → count ≤ 24
    → (forget (write_bits value count h) ≡ BitWriter.write_bits value count (forget h))
      × Counts (write_bits value count h)
unfolding write_bits BitWriter.write_bits
write_bits-forget value count h c le =
    let (same, kept) = flush_whole-drain (h.nbits + count) filled in
    let (held, v') = contents-write_bits value count (forget h) c.valid le in
    let longer : length (contents (forget (flush_whole (h.nbits + count) filled)))
        ≡ length (contents (forget h)) + count =
      ap (λ w. length (contents w)) same
      ∙ ap length held
      ∙ length-append (contents (forget h)) (lsb_bits count value)
      ∙ ap (λ (k : ℕ). length (contents (forget h)) + k) (length-lsb_bits count value) in
    (
      same,
      record {
        valid = subst IsValid (sym same) v';
        counted = kept ∙ omega (arith, c.counted, longer);
      },
    )
  where
    filled : HostBitWriter
    filled = record {
      out = h.out;
      accum = bit_or h.accum (bit_and value (2 ^ count - 1) * 2 ^ h.nbits % 2 ^ 32);
      nbits = h.nbits + count;
      total = (h.total + count) % 2 ^ 32;
    }

-- So does `write_huffman`.
pub write_huffman-forget :
    (code bits : ℕ) (h : HostBitWriter)
    → Counts h
    → bits ≤ 24
    → (forget (write_huffman code bits h) ≡ BitWriter.write_huffman code bits (forget h))
      × Counts (write_huffman code bits h)
unfolding write_huffman BitWriter.write_huffman
write_huffman-forget code bits h c le = write_bits-forget (reversed code bits) bits h c le

-- The bytes at the end are those of the reference encoder.
pub into_bytes-finish : (h : HostBitWriter) → into_bytes h ≡ finish (forget h)
unfolding into_bytes finish flush_byte
into_bytes-finish h = elim (Bool-cases (ltb 0 h.nbits)) [
  | inl e ↦ rw (e, into_bytes, finish, flush_byte) refl
  | inr e ↦ rw (e, into_bytes, finish, flush_byte) refl
]
