-- ===== src/Deflate/FixedFastEq.antt =====
-- The fast encoder writes fixed blocks bit for bit as the reference encoder does.
use gpzip.Prelude.{
  ℕ, zero, suc, ◌+◌, ◌-◌, ◌*◌, ◌%◌, ◌^◌, ◌≤◌, ◌<◌, ◌≡◌, refl, ap, sym, ◌∙◌, ltb, leb, Bool-cases,
  inl, inr, some, ◌>>=◌, List, [], ◌∷◌, ◌++◌, All, get_elem?, arith, subst, fun_ext, bit_and,
  bit_or, true, false,
}
use gpzip.Prelude.Bits.{bit_and-mask, fields-lt, two_pow-le}
use native.Mathlib.Nat.{mod-eq_of_lt}
use gpzip.Lz77.{Token, is_literal}
use gpzip.Deflate.Mirror.{reverse_bits, reversed, reversed-mirror, mirror-lt, reversed-reverse_bits}
use gpzip.Deflate.Accum.{BitWriter, new, drain, IsValid}
use gpzip.Deflate.BitWriter.{
  write_bits, write_huffman, finish, flush_byte, low_byte, low_byte_lem, contents-write_huffman,
}
use gpzip.Deflate.VecBitWriter
use gpzip.Deflate.VecBitWriter.{as_u8}
use gpzip.Deflate.Codes.{sub_u32, fixed_litlen_code, fixed_dist_code}
use gpzip.Deflate.Inflate.{length_base, length_extra, distance_base, distance_extra}
use gpzip.Deflate.Rows.{IsCode, length_code-IsCode, distance_code-IsCode}
use gpzip.Deflate.FastLookup.{len_lut-length_code, dist_entry-distance_code}
use gpzip.Deflate.Fixed.{
  write_extra, write_litlen, write_token, write_tokens, write_fixed_block, encode_fixed_block,
}
use gpzip.Deflate.TokenBits.{
  IsToken, write_extra-Adds, write_litlen-WritesSymbol, length_extra-le, distance_extra-le,
}
use gpzip.Deflate.FixedRoundTrip.{
  new-IsValid, header_written, write_token-WritesToken, write_tokens-WritesTokens,
}
use gpzip.Deflate.FixedFast.{
  tabulate, fixed_litlen_arm, pre_entry, fixed_litlen_pre, fixed_dist_pre, sub_u16, write_symbol,
  write_extra_fast, write_token_fast, write_tokens_fast, write_fixed_block_fast,
}

same_byte : as_u8 ≡ low_byte
same_byte = fun_ext (λ a. sym (low_byte_lem a))

-- A value that fits goes out alike, with the mask and without.
pub write_bits-write_bits :
    (value count : ℕ) (w : BitWriter)
    → IsValid w
    → count ≤ 24
    → value < 2 ^ count
    → VecBitWriter.write_bits value count w ≡ write_bits value count w
unfolding write_bits VecBitWriter.write_bits
write_bits-write_bits value count w v le small =
    ap (λ f. drain f (w.nbits + count) (filled (bit_or w.accum (value * 2 ^ w.nbits % 2 ^ 64))))
      same_byte
    ∙ ap (λ (x : ℕ). drain low_byte (w.nbits + count) (filled (bit_or w.accum x))) field
  where
    filled : ℕ → BitWriter
    filled a = record w { accum = a; nbits = w.nbits + count }

    no_wrap : value * 2 ^ w.nbits < 2 ^ 32
    no_wrap = omega (
      arith,
      fields-lt w.nbits count w.accum value v.fits small,
      two_pow-le (w.nbits + count) 32 (omega (arith, v.short)),
    )

    field : value * 2 ^ w.nbits % 2 ^ 64 ≡ bit_and value (2 ^ count - 1) * 2 ^ w.nbits % 2 ^ 32
    field = rw (bit_and-mask count value, mod-eq_of_lt small) (omega (arith, no_wrap))

-- So does a code that is reversed beforehand.
pub write_pre-write_huffman :
    (code bits : ℕ) (w : BitWriter)
    → IsValid w
    → bits ≤ 24
    → VecBitWriter.write_pre (reverse_bits code bits) bits w ≡ write_huffman code bits w
unfolding write_huffman VecBitWriter.write_pre
write_pre-write_huffman code bits w v le =
    ap (λ c. VecBitWriter.write_pre c bits w)
      (sym (reversed-reverse_bits code bits (omega (arith, le))))
    ∙ (unfold VecBitWriter.write_bits in
        write_bits-write_bits (reversed code bits) bits w v le fits)
  where
    fits : reversed code bits < 2 ^ bits
    fits = subst (λ c. c < 2 ^ bits) (sym (reversed-mirror code bits)) (mirror-lt bits code)

get_elem?-tabulate :
    {A : Type 0} (f : ℕ → A) (i n k : ℕ) → k < n → get_elem? (tabulate f i n) k ≡ some (f (i + k))
unfolding tabulate
get_elem?-tabulate f i zero k h = absurd (omega (arith, h))
get_elem?-tabulate f i (suc n) zero h = ap (λ k. some (f k)) (omega arith)
get_elem?-tabulate f i (suc n) (suc k) h =
    get_elem?-tabulate f (i + 1) n k (omega (arith, h)) ∙ ap (λ k. some (f k)) (omega arith)

-- The arms of the table are those of the reference encoder.
fixed_litlen_arm-code :
    (symbol : ℕ)
    → symbol < 288
    → (fixed_litlen_code symbol ≡ some (fixed_litlen_arm symbol))
      × ((fixed_litlen_arm symbol).1 ≤ 9)
unfolding fixed_litlen_code fixed_litlen_arm
fixed_litlen_arm-code symbol h = elim (Bool-cases (leb symbol 143)) [
  | inl a ↦ rw a (refl, omega arith)
  | inr a ↦ elim (Bool-cases (leb symbol 255)) [
    | inl b ↦ rw (a, b) (refl, omega arith)
    | inr b ↦ elim (Bool-cases (leb symbol 279)) [
      | inl c ↦ rw (a, b, c) (refl, omega arith)
      | inr c ↦
          let last : leb symbol 287 ≡ true = ground arith in rw (a, b, c, last) (refl, omega arith)
    ]
  ]
]

write_symbol-write_litlen :
    (symbol : ℕ) (w : BitWriter)
    → symbol < 288
    → IsValid w
    → write_symbol fixed_litlen_pre symbol w ≡ write_litlen symbol w
unfolding write_symbol fixed_litlen_pre write_litlen
write_symbol-write_litlen symbol w h v =
    let (code, small) = fixed_litlen_arm-code symbol h in
    rw (found, code)
      (ap (λ w'. some w')
        (write_pre-write_huffman (fixed_litlen_arm symbol).0 (fixed_litlen_arm symbol).1 w v
          (omega (arith, small))))
  where
    found : get_elem? fixed_litlen_pre symbol ≡ some (pre_entry symbol)
    found = get_elem?-tabulate pre_entry 0 288 symbol h ∙ ap (λ k. some (pre_entry k)) (omega arith)

write_symbol-write_dist :
    (symbol : ℕ) (w : BitWriter)
    → symbol < 30
    → IsValid w
    → write_symbol fixed_dist_pre symbol w ≡ some (write_huffman symbol 5 w)
unfolding write_symbol fixed_dist_pre
write_symbol-write_dist symbol w h v =
    rw found (ap (λ w'. some w') (write_pre-write_huffman symbol 5 w v (omega arith)))
  where
    found : get_elem? fixed_dist_pre symbol ≡ some (reverse_bits symbol 5, 5)
    found =
        get_elem?-tabulate (λ sym. (reverse_bits sym 5, 5)) 0 30 symbol h
        ∙ ap (λ k. some (reverse_bits k 5, 5)) (omega arith)

pub write_extra_fast-write_extra :
    (value count : ℕ) (w : BitWriter)
    → IsValid w
    → count ≤ 24
    → value < 2 ^ count
    → write_extra_fast value count w ≡ write_extra value count w
unfolding write_extra_fast write_extra
write_extra_fast-write_extra value count w v le small =
    rw (write_bits-write_bits value count w v le small) refl

-- A back-reference.
write_match_fast :
    (t : Token) (w : BitWriter)
    → is_literal t ≡ false
    → (3 ≤ t.length) × (t.length ≤ 258) × (1 ≤ t.distance) × (t.distance ≤ 32768)
    → IsValid w
    → write_token_fast t w ≡ write_token t w
unfolding write_token_fast write_token fixed_dist_code
write_match_fast t w e (l₁, l₂, d₁, d₂) v =
    let (le, found, lcode, lbase) = len_lut-length_code t.length l₁ l₂ in
    let (de, dfound, dcode, dbase) = dist_entry-distance_code t.distance d₁ d₂ in
    let cl =
      subst (IsCode length_base length_extra 257 285 t.length) lcode
        (length_code-IsCode t.length l₁ l₂) in
    let cd =
      subst (IsCode distance_base distance_extra 0 29 t.distance) dcode
        (distance_code-IsCode t.distance d₁ d₂) in
    let lx : ℕ = t.length - le.base in
    let dx : ℕ = t.distance - de.base in
    let lwide : le.extra_bits ≤ 24 = omega (arith, cl.width, length_extra-le le.sym cl.symbol.1) in
    let dwide : de.extra_bits ≤ 24 =
      omega (arith, cd.width, distance_extra-le de.sym cd.symbol.1) in
    let (w₁, ran, bits, (held, v₁), _, more) =
      write_litlen-WritesSymbol le.sym w (omega (arith, cl.symbol.1)) v in
    let (held₂, v₂) = write_extra-Adds lx le.extra_bits w₁ v₁ lwide in
    let w₂ : BitWriter = write_extra lx le.extra_bits w₁ in
    let (held₃, v₃) = contents-write_huffman de.sym 5 w₂ v₂ (omega arith) in
    let w₃ : BitWriter = write_huffman de.sym 5 w₂ in
    let lsame : sub_u16 t.length le.base ≡ lx = omega (arith, l₂, lbase) in
    let dsame : sub_u32 t.distance de.base ≡ dx = omega (arith, d₂, dbase) in
    rw
      (
        e,
        found,
        dfound,
        lcode,
        dcode,
        write_symbol-write_litlen le.sym w (omega (arith, cl.symbol.1)) v,
        ran,
        lsame,
        dsame,
      )
      (rw
        (
          write_extra_fast-write_extra lx le.extra_bits w₁ v₁ lwide cl.fits,
          write_symbol-write_dist de.sym w₂ (omega (arith, cd.symbol.1)) v₂,
          write_extra_fast-write_extra dx de.extra_bits w₃ v₃ dwide cd.fits,
        )
        refl)

-- Token by token, on every valid writer.
write_token_fast-write_token :
    (t : Token) (w : BitWriter) → IsToken t → IsValid w → write_token_fast t w ≡ write_token t w
write_token_fast-write_token t w (inl (l, d)) v =
    unfold write_token_fast write_token in
    let e : is_literal t ≡ true = ground arith in
    rw e (write_symbol-write_litlen t.distance w (omega (arith, d)) v)
write_token_fast-write_token t w (inr (l₁, l₂, d₁, d₂)) v =
    let e : is_literal t ≡ false = ground arith in write_match_fast t w e (l₁, l₂, d₁, d₂) v

write_tokens_fast-write_tokens :
    (ts : List Token) (w : BitWriter)
    → All IsToken ts
    → IsValid w
    → write_tokens_fast ts w ≡ write_tokens ts w
unfolding write_tokens_fast write_tokens
write_tokens_fast-write_tokens [] w h v = refl
write_tokens_fast-write_tokens (t ∷ ts) w (h, hs) v =
    let (w₁, ran, bits, (held, v₁), _, more) = write_token-WritesToken t w h v in
    rw (write_token_fast-write_token t w h v, ran) (write_tokens_fast-write_tokens ts w₁ hs v₁)

pub finish-finish : (w : BitWriter) → VecBitWriter.finish w ≡ finish w
unfolding VecBitWriter.finish finish flush_byte
finish-finish w = elim (Bool-cases (ltb 0 w.nbits)) [
  | inl e ↦
      rw (e, finish, flush_byte) (ap (λ (b : ℕ). w.out ++ (b ∷ [])) (sym (low_byte_lem w.accum)))
  | inr e ↦ rw (e, finish, flush_byte) refl
]

-- For every list of tokens that DEFLATE can say, the fast encoder's fixed block, with its writer and
-- its tables, is byte for byte the reference encoder's.
pub write_fixed_block_fast-encode_fixed_block :
    (tokens : List Token)
    → All IsToken tokens
    → (do w ← write_fixed_block_fast tokens new; some (VecBitWriter.finish w))
      ≡ encode_fixed_block tokens
unfolding write_fixed_block_fast encode_fixed_block write_fixed_block
write_fixed_block_fast-encode_fixed_block tokens h =
    let (held, v) = header_written in
    let start : BitWriter = write_bits 0b011 3 new in
    let (w₁, ran, bits, (held₁, v₁), _, more) = write_tokens-WritesTokens tokens start h v in
    let (w₂, ran₂, bits₂, more₂, _, _) = write_litlen-WritesSymbol 256 w₁ (omega arith) v₁ in
    rw
      (
        write_bits-write_bits 0b011 3 new new-IsValid (omega arith) (omega arith),
        write_tokens_fast-write_tokens tokens start h v,
        ran,
      )
      (rw (write_symbol-write_litlen 256 w₁ (omega arith) v₁, ran₂)
        (ap (λ b. some b) (finish-finish w₂)))
