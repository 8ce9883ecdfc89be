-- ===== src/Deflate/TokenBits.antt =====
-- What the reference encoder adds to the bit stream for a token, and what the reader makes of it.
use gpzip.Prelude.{
  ℕ, zero, suc, ◌+◌, ◌-◌, ◌≤◌, ◌<◌, ◌≡◌, ap, ap₂, sym, ◌∙◌, ◌*◌, ◌^◌, ltb, Bool-cases, inl, inr,
  ◌⊎◌, some, List, ◌++◌, length, arith, append_assoc, append-nil, true, false,
}
use gpzip.Lz77.{Token, back_ref, is_literal}
use gpzip.Deflate.Stream.{lsb_bits}
use gpzip.Deflate.Mirror.{msb_bits, length-msb_bits}
use gpzip.Deflate.Accum.{BitWriter, contents, IsValid}
use gpzip.Deflate.BitWriter.{write_huffman, contents-write_bits, contents-write_huffman}
use gpzip.Deflate.Codes.{fixed_litlen_code}
use gpzip.Deflate.Inflate.{
  read_litlen, read_back_ref, read_token, length_base, length_extra, distance_base, distance_extra,
}
use gpzip.Deflate.Fixed.{write_extra, write_litlen, write_token}
use gpzip.Deflate.Rows.{IsCode}
use gpzip.Deflate.ReadBack.{read_lsb-lsb_bits, read_msb-msb_bits, read_litlen-fixed}

-- What DEFLATE can say: a byte, or a match of 3 to 258 bytes at most 32768 back.
abbrev pub IsToken : Token → Type 0
IsToken t =
    ((t.length ≡ 0) × (t.distance < 256))
    ⊎ ((3 ≤ t.length) × (t.length ≤ 258) × (1 ≤ t.distance) × (t.distance ≤ 32768))

-- The valid writer `w'` holds what `w` held, and `bits` behind it.
abbrev pub Adds : BitWriter → List ℕ → BitWriter → Type 0
Adds w bits w' = (contents w' ≡ contents w ++ bits) × IsValid w'

pub Adds-trans :
    (w w₁ w₂ : BitWriter) (xs ys : List ℕ) → Adds w xs w₁ → Adds w₁ ys w₂ → Adds w (xs ++ ys) w₂
Adds-trans w w₁ w₂ xs ys (e, v) (e', v') =
    (e' ∙ ap (λ t. t ++ ys) e ∙ append_assoc (contents w) xs ys, v')

-- Extra bits are written only where there are some; none are none.
pub write_extra-Adds :
    (value count : ℕ) (w : BitWriter)
    → IsValid w
    → count ≤ 24
    → Adds w (lsb_bits count value) (write_extra value count w)
unfolding write_extra
write_extra-Adds value zero w v h = (unfold lsb_bits in sym (append-nil (contents w)), v)
write_extra-Adds value (suc n) w v h =
    let more : ltb 0 (suc n) ≡ true = ground arith in
    rw (more, write_extra) (contents-write_bits value (suc n) w v h)

pub fixed_litlen_code_total :
    (symbol : ℕ)
    → symbol < 288
    → (c : ℕ × ℕ) × (fixed_litlen_code symbol ≡ some c) × (c.1 ≤ 9) × (1 ≤ c.1)
unfolding fixed_litlen_code
fixed_litlen_code_total symbol h = elim (Bool-cases (ltb symbol 144)) [
  | inl a ↦ ((0x30 + symbol, 8), ground (arith, a), omega arith, omega arith)
  | inr a ↦ elim (Bool-cases (ltb symbol 256)) [
    | inl b ↦ ((0x190 + (symbol - 144), 9), ground (arith, a, b), omega arith, omega arith)
    | inr b ↦ elim (Bool-cases (ltb symbol 280)) [
      | inl c ↦ ((symbol - 256, 7), ground (arith, b, c), omega arith, omega arith)
      | inr c ↦ ((0xc0 + (symbol - 280), 8), ground (arith, c), omega arith, omega arith)
    ]
  ]
]

-- Writing a symbol adds bits that read back as the symbol.
abbrev pub WritesSymbol : ℕ → BitWriter → Type 0
WritesSymbol symbol w =
    (w' : BitWriter) × (write_litlen symbol w ≡ some w')
    × (bits : List ℕ) × Adds w bits w'
    × (1 ≤ length bits)
    × ((rest : List ℕ) → read_litlen (bits ++ rest) ≡ some (symbol, rest))

pub write_litlen-WritesSymbol :
    (symbol : ℕ) (w : BitWriter) → symbol < 288 → IsValid w → WritesSymbol symbol w
unfolding write_litlen
write_litlen-WritesSymbol symbol w h v =
    let ((code, bits), e, wide, some_bits) = fixed_litlen_code_total symbol h in
    (
      write_huffman code bits w,
      rw e,
      msb_bits bits code,
      contents-write_huffman code bits w v (omega arith),
      omega (arith, length-msb_bits bits code),
      λ rest. read_litlen-fixed symbol code bits rest e,
    )

-- Writing a token adds bits that read back as the token.
abbrev pub WritesToken : Token → BitWriter → Type 0
WritesToken t w =
    (w' : BitWriter) × (write_token t w ≡ some w')
    × (bits : List ℕ) × Adds w bits w'
    × (1 ≤ length bits)
    × ((rest : List ℕ) → read_token (bits ++ rest) ≡ some (some t, rest))

-- `t` is a literal.
pub write_literal :
    (t : Token) (w : BitWriter) → t.length ≡ 0 → t.distance < 256 → IsValid w → WritesToken t w
unfolding write_token read_token
write_literal t w e small v =
    let (w', ran, bits, adds, long, reads) =
      write_litlen-WritesSymbol t.distance w (omega arith) v in
    (
      w',
      rw (is_lit, write_token) ran,
      bits,
      adds,
      long,
      λ rest.
          rw (reads rest)
            (rw is_byte (ap (λ l. some (some (back_ref l t.distance), rest)) (sym e))),
    )
  where
    is_lit : is_literal t ≡ true
    is_lit = ground arith

    is_byte : ltb t.distance 256 ≡ true
    is_byte = ground arith

pub length_extra-le : (s : ℕ) → s ≤ 285 → length_extra s ≤ 24
unfolding length_extra
length_extra-le s h = ground arith

pub distance_extra-le : (s : ℕ) → s ≤ 29 → distance_extra s ≤ 24
unfolding distance_extra
distance_extra-le s h = ground arith

-- The extra bits of a length, the five bits of a distance symbol and its extra bits.
abbrev pub back_ref_bits : ℕ × ℕ × ℕ → ℕ × ℕ × ℕ → List ℕ
back_ref_bits (s, sw, sv) (d, dw, dv) = lsb_bits sw sv ++ (msb_bits 5 d ++ lsb_bits dw dv)

pub read_back_ref-bits :
    (l distance : ℕ) (s d : ℕ × ℕ × ℕ) (rest : List ℕ)
    → IsCode length_base length_extra 257 285 l s
    → IsCode distance_base distance_extra 0 29 distance d
    → read_back_ref s.0 (back_ref_bits s d ++ rest) ≡ some (back_ref l distance, rest)
unfolding read_back_ref
read_back_ref-bits l distance (s, sw, sv) (d, dw, dv) rest cl cd =
    ap (read_back_ref s) (
      append_assoc (lsb_bits sw sv) _ rest
      ∙ ap (λ t. lsb_bits sw sv ++ t) (append_assoc (msb_bits 5 d) (lsb_bits dw dv) rest))
    ∙ rw (sym cl.width, read_lsb-lsb_bits sw sv _ cl.fits)
        (rw (read_msb-msb_bits 5 0 d (lsb_bits dw dv ++ rest) (omega (arith, cd.symbol)), symbol)
          (rw (sym cd.width, read_lsb-lsb_bits dw dv rest cd.fits)
            (rw known (ap₂ (λ x y. some (back_ref x y, rest)) cl.adds_up cd.adds_up))))
  where
    symbol : 0 * 2 ^ 5 + d ≡ d
    symbol = omega arith

    known : ltb 29 d ≡ false
    known = ground (arith, cd.symbol)
