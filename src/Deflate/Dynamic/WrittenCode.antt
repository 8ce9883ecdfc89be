-- ===== src/Deflate/Dynamic/WrittenCode.antt =====
-- What a writer adds for a symbol of a canonical code, and for the header's list of lengths.
use gpzip.Prelude.{
  ℕ, zero, suc, ◌+◌, ◌-◌, ◌^◌, ◌≤◌, ◌<◌, ◌≡◌, refl, sym, ◌∙◌, some, List, [], ◌∷◌, ◌++◌, All,
  append_assoc, append-nil, map, length, get_elem?, get_or, arith, ltb, false, replicate, Option,
  ◌==◌,
}
use gpzip.Huffman.Canonical.{canonical_codes}
use gpzip.Huffman.Bounds.{length-canonical_codes}
use gpzip.Huffman.Total.{maximum-le}
use gpzip.Huffman.Assigned.{get_or-le-maximum}
use gpzip.Huffman.Kraft.{Fits, get_or-lt}
use gpzip.Deflate.Stream.{lsb_bits}
use gpzip.Deflate.Mirror.{msb_bits, length-msb_bits}
use gpzip.Deflate.Accum.{BitWriter, contents, IsValid}
use gpzip.Deflate.BitWriter.{write_bits, write_huffman, contents-write_bits, contents-write_huffman}
use gpzip.Deflate.Inflate.{read_lsb}
use gpzip.Deflate.ReadBack.{read_lsb-lsb_bits}
use gpzip.Deflate.Rle.{RleEntry}
use gpzip.Deflate.RleReader.{meaning, expand, HasWidth}
use gpzip.Deflate.TokenBits.{Adds, Adds-trans}
use gpzip.Deflate.InflateDynamic.{read_symbol, read_fields, read_lengths}
use gpzip.Deflate.ReadCode.{read_symbol-canonical}
use gpzip.Deflate.Dynamic.Reference.{write_code, write_meta_lens, write_rle}
use gpzip.Deflate.Dynamic.Legible.{meaning-pos}

-- Writing a symbol adds bits that read back as the symbol.
abbrev pub WritesCode : List ℕ → List ℕ → ℕ → BitWriter → Type 0
WritesCode lens read s w =
    (w' : BitWriter) × (write_code (canonical_codes lens) lens s w ≡ some w')
    × (bits : List ℕ) × Adds w bits w'
    × (1 ≤ length bits)
    × ((rest : List ℕ) → read_symbol read (bits ++ rest) ≡ some (s, rest))

get_elem?-get_or : (s : ℕ) (xs : List ℕ) → s < length xs → get_elem? xs s ≡ some (get_or xs s 0)
get_elem?-get_or s [] lt = absurd (omega arith)
get_elem?-get_or zero (x ∷ xs) lt = refl
get_elem?-get_or (suc s) (x ∷ xs) lt = get_elem?-get_or s xs (omega arith)

get_or-small : (m s : ℕ) (lens : List ℕ) → All (λ l. l ≤ m) lens → get_or lens s 0 ≤ m
get_or-small m s lens low = omega (arith, get_or-le-maximum lens s, maximum-le lens m low)

-- `read` is the lengths, or the lengths without the zeros at their end.
pub write_code-WritesCode :
    (m : ℕ) (lens read : List ℕ) (s : ℕ) (w : BitWriter)
    → m ≤ 15
    → All (λ l. l ≤ m) lens
    → length lens ≤ 512
    → Fits m lens
    → ((bits : List ℕ) → read_symbol read bits ≡ read_symbol lens bits)
    → 0 < get_or lens s 0
    → IsValid w
    → WritesCode lens read s w
unfolding write_code
write_code-WritesCode m lens read s w le low short fits same pos v =
    let code : ℕ = get_or (canonical_codes lens) s 0 in
    let l : ℕ = get_or lens s 0 in
    let inside = get_or-lt s lens pos in
    let found = get_elem?-get_or s lens inside in
    let found' =
      get_elem?-get_or s (canonical_codes lens) (omega (arith, length-canonical_codes lens)) in
    (
      write_huffman code l w,
      rw (found', found) refl,
      msb_bits l code,
      contents-write_huffman code l w v (omega (arith, get_or-small m s lens low)),
      omega (arith, length-msb_bits l code),
      λ rest.
          same (msb_bits l code ++ rest)
          ∙ read_symbol-canonical m lens s le low short fits pos rest,
    )

-- The lengths of the symbols `syms`, three bits each.
abbrev pub WritesFields : List ℕ → List ℕ → BitWriter → Type 0
WritesFields lens syms w =
    (w' : BitWriter) × (write_meta_lens lens syms w ≡ some w')
    × (bits : List ℕ) × Adds w bits w'
    × ((rest : List ℕ)
        → read_fields (length syms) (bits ++ rest) ≡ some (map (λ s. get_or lens s 0) syms, rest))

pub write_meta_lens-WritesFields :
    (lens syms : List ℕ) (w : BitWriter)
    → length lens ≡ 19
    → All (λ l. l ≤ 7) lens
    → All (λ s. s < 19) syms
    → IsValid w
    → WritesFields lens syms w
unfolding write_meta_lens read_fields
write_meta_lens-WritesFields lens [] w e low h v =
    (w, refl, [], (sym (append-nil (contents w)), v), λ rest. refl)
write_meta_lens-WritesFields lens (s ∷ ss) w e low (h, hs) v =
    let l : ℕ = get_or lens s 0 in
    let found = get_elem?-get_or s lens (omega arith) in
    let small : l < 2 ^ 3 = omega (arith, get_or-small 7 s lens low) in
    let adds : Adds w (lsb_bits 3 l) (write_bits l 3 w) =
      contents-write_bits l 3 w v (omega arith) in
    let (w', ran, bits, adds', reads) =
      write_meta_lens-WritesFields lens ss (write_bits l 3 w) e low hs adds.1 in
    (
      w',
      rw found ran,
      lsb_bits 3 l ++ bits,
      Adds-trans w (write_bits l 3 w) w' (lsb_bits 3 l) bits adds adds',
      λ rest.
          rw (append_assoc (lsb_bits 3 l) bits rest)
            (rw (read_lsb-lsb_bits 3 l (bits ++ rest) small) (rw (reads rest) refl)),
    )

-- The run-length form, behind the length `prev`.
abbrev pub WritesLengths : List ℕ → List RleEntry → BitWriter → Type 0
WritesLengths meta es w =
    (w' : BitWriter) × (write_rle (canonical_codes meta) meta es w ≡ some w')
    × (bits : List ℕ) × Adds w bits w'
    × ((fuel : ℕ) (prev : Option ℕ) (ls rest : List ℕ)
        → expand es prev ≡ some ls
        → length es ≤ fuel
        → read_lengths meta fuel (length ls) prev (bits ++ rest) ≡ some (ls, rest))

pub read_lengths-nil :
    (meta : List ℕ) (fuel : ℕ) (prev : Option ℕ) (bits : List ℕ)
    → read_lengths meta fuel 0 prev bits ≡ some ([], bits)
unfolding read_lengths
read_lengths-nil meta zero prev bits = refl
read_lengths-nil meta (suc fuel) prev bits = refl

pub read_lengths-cons :
    (meta : List ℕ) (fuel : ℕ) (e : RleEntry) (prev : Option ℕ) (m : ℕ × ℕ) (ls : List ℕ)
    (bits bits₁ bits₂ rest : List ℕ)
    → HasWidth e
    → read_symbol meta bits ≡ some (e.code, bits₁)
    → read_lsb e.extra_bits bits₁ ≡ some (e.extra_value, bits₂)
    → meaning e prev ≡ some m
    → read_lengths meta fuel (length ls) (some m.1) bits₂ ≡ some (ls, rest)
    → read_lengths meta (suc fuel) (m.0 + length ls) prev bits
      ≡ some (replicate m.0 m.1 ++ ls, rest)
unfolding read_lengths
read_lengths-cons meta fuel e prev m ls bits bits₁ bits₂ rest width symbol extra means later =
    let enough = meaning-pos e prev m means in
    let more : (m.0 + length ls == 0) ≡ false = ground arith in
    let room : ltb (m.0 + length ls) m.0 ≡ false = ground arith in
    let left : m.0 + length ls - m.0 ≡ length ls = omega arith in
    rw (more, symbol) (rw (sym width, extra) (rw means (rw (room, left, later) refl)))
