-- ===== src/Deflate/FixedRoundTrip.antt =====
-- Blocks with fixed Huffman codes read back as the tokens that were written.
use gpzip.Prelude.{
  ℕ, suc, ◌+◌, ◌-◌, ◌≤◌, ◌<◌, ◌≡◌, refl, ap, sym, ◌∙◌, ltb, ◌==◌, inl, inr, none, some, List, [],
  ◌∷◌, ◌++◌, length, length-append, arith, append_assoc, append-nil, false, All, replicate,
}
use gpzip.Lz77.{Token, is_literal}
use gpzip.Deflate.Stream.{stream, lsb_bits}
use gpzip.Deflate.Mirror.{msb_bits}
use gpzip.Deflate.Accum.{BitWriter, contents, IsValid, new}
use gpzip.Deflate.BitWriter.{
  write_bits, write_huffman, finish, contents-write_bits, contents-write_huffman, stream-finish,
}
use gpzip.Deflate.Codes.{length_code, distance_code, fixed_dist_code}
use gpzip.Deflate.Inflate.{read_lsb, read_litlen, read_token, read_tokens, inflate_fixed}
use gpzip.Deflate.Fixed.{
  write_extra, write_token, write_tokens, write_fixed_block, encode_fixed_block,
}
use gpzip.Deflate.Rows.{length_code-IsCode, distance_code-IsCode}
use gpzip.Deflate.TokenBits.{
  IsToken, Adds, Adds-trans, WritesToken, write_litlen-WritesSymbol, write_literal,
  write_extra-Adds, length_extra-le, distance_extra-le, back_ref_bits, read_back_ref-bits,
}

-- `t` is a back-reference.
write_back_ref :
    (t : Token) (w : BitWriter)
    → (3 ≤ t.length) × (t.length ≤ 258) × (1 ≤ t.distance) × (t.distance ≤ 32768)
    → IsValid w
    → WritesToken t w
unfolding write_token read_token fixed_dist_code
write_back_ref t w (l3, l258, d1, dmax) v =
    let cl = length_code-IsCode t.length l3 l258 in
    let cd = distance_code-IsCode t.distance d1 dmax in
    let (s, sw, sv) = length_code t.length in
    let (d, dw, dv) = distance_code t.distance in
    let (w₁, ran, bits, adds, long, reads) =
      write_litlen-WritesSymbol s w (omega (arith, cl.symbol)) v in
    let w₂ : BitWriter = write_extra sv sw w₁ in
    let adds₂ : Adds w₁ (lsb_bits sw sv) w₂ =
      write_extra-Adds sv sw w₁ adds.1 (omega (arith, cl.width, length_extra-le s cl.symbol.1)) in
    let w₃ : BitWriter = write_huffman d 5 w₂ in
    let adds₃ : Adds w₂ (msb_bits 5 d) w₃ = contents-write_huffman d 5 w₂ adds₂.1 (omega arith) in
    let adds₄ : Adds w₃ (lsb_bits dw dv) (write_extra dv dw w₃) =
      write_extra-Adds dv dw w₃ adds₃.1
        (omega (arith, cd.width, distance_extra-le d cd.symbol.1)) in
    let extras : List ℕ = back_ref_bits (length_code t.length) (distance_code t.distance) in
    let not_byte : ltb s 256 ≡ false = ground (arith, cl.symbol) in
    let not_end : (s == 256) ≡ false = ground (arith, cl.symbol) in
    let known : ltb 285 s ≡ false = ground (arith, cl.symbol) in
    (
      write_extra dv dw w₃,
      rw (is_ref, write_token) (rw ran),
      bits ++ extras,
      Adds-trans w w₁ _ bits extras adds
          (Adds-trans w₁ w₂ _ _ _ adds₂ (Adds-trans w₂ w₃ _ _ _ adds₃ adds₄)),
      omega (arith, length-append bits extras),
      λ rest. rw (append_assoc bits extras rest) (
          rw (reads (extras ++ rest)) (
            rw (not_byte, not_end, known)
              (rw
                (read_back_ref-bits t.length t.distance (length_code t.length)
                  (distance_code t.distance) rest cl cd)
                refl))),
    )
  where
    is_ref : is_literal t ≡ false
    is_ref = ground arith

pub write_token-WritesToken : (t : Token) (w : BitWriter) → IsToken t → IsValid w → WritesToken t w
write_token-WritesToken t w (inl (e, small)) v = write_literal t w e small v
write_token-WritesToken t w (inr h) v = write_back_ref t w h v

-- Writing tokens adds bits that read back as the tokens, whatever block follows them.
abbrev pub WritesTokens : List Token → BitWriter → Type 0
WritesTokens ts w =
    (w' : BitWriter) × (write_tokens ts w ≡ some w')
    × (bits : List ℕ) × Adds w bits w'
    × (length ts ≤ length bits)
    × ((fuel : ℕ) (us : List Token) (rest rest' : List ℕ)
        → read_tokens fuel rest ≡ some (us, rest')
        → read_tokens (length ts + fuel) (bits ++ rest) ≡ some (ts ++ us, rest'))

read_tokens-cons :
    (fuel : ℕ) (bits rest rest' : List ℕ) (t : Token) (ts : List Token)
    → read_token bits ≡ some (some t, rest)
    → read_tokens fuel rest ≡ some (ts, rest')
    → read_tokens (suc fuel) bits ≡ some (t ∷ ts, rest')
unfolding read_tokens
read_tokens-cons fuel bits rest rest' t ts e e' = rw (e, read_tokens) (rw e')

pub write_tokens-WritesTokens :
    (ts : List Token) (w : BitWriter) → All IsToken ts → IsValid w → WritesTokens ts w
unfolding write_tokens
write_tokens-WritesTokens [] w h v = (
  w,
  refl,
  [],
  (sym (append-nil (contents w)), v),
  omega arith,
  λ fuel us rest rest' e. ap (λ k. read_tokens k rest) (omega arith) ∙ e,
)
write_tokens-WritesTokens (t ∷ ts) w (h, hs) v =
    let (w₁, ran₁, bits₁, adds₁, long₁, reads₁) = write_token-WritesToken t w h v in
    let (w₂, ran₂, bits₂, adds₂, long₂, reads₂) = write_tokens-WritesTokens ts w₁ hs adds₁.1 in
    (
      w₂,
      rw ran₁ ran₂,
      bits₁ ++ bits₂,
      Adds-trans w w₁ w₂ bits₁ bits₂ adds₁ adds₂,
      omega (arith, length-append bits₁ bits₂),
      λ fuel us rest rest' e.
          ap (read_tokens (suc (length ts) + fuel)) (append_assoc bits₁ bits₂ rest)
          ∙ ap (λ k. read_tokens k (bits₁ ++ (bits₂ ++ rest))) (omega arith)
          ∙ read_tokens-cons (length ts + fuel) (bits₁ ++ (bits₂ ++ rest)) (bits₂ ++ rest) rest' t
              (ts ++ us) (reads₁ (bits₂ ++ rest)) (reads₂ fuel us rest rest' e),
    )

-- The end-of-block symbol reads as the end.
read_tokens-end :
    (fuel : ℕ) (bits rest : List ℕ)
    → read_litlen bits ≡ some (256, rest)
    → read_tokens (suc fuel) bits ≡ some ([], rest)
unfolding read_tokens
read_tokens-end fuel bits rest e = rw (end_token, read_tokens) refl
  where
    end_token : read_token bits ≡ some (none, rest)
    end_token = unfold read_token in rw e refl

-- The three header bits, and then the tokens.
inflate_fixed-header :
    (body : List ℕ)
    → inflate_fixed (lsb_bits 3 0b011 ++ body) ≡ read_tokens (suc (suc (suc (length body)))) body
unfolding inflate_fixed read_lsb lsb_bits
inflate_fixed-header body = refl

inflate_fixed-body :
    (ts : List Token) (bits eob zeros : List ℕ)
    → length ts ≤ length bits
    → ((fuel : ℕ) (us : List Token) (rest rest' : List ℕ)
        → read_tokens fuel rest ≡ some (us, rest')
        → read_tokens (length ts + fuel) (bits ++ rest) ≡ some (ts ++ us, rest'))
    → read_litlen (eob ++ zeros) ≡ some (256, zeros)
    → inflate_fixed (lsb_bits 3 0b011 ++ (bits ++ (eob ++ zeros))) ≡ some (ts, zeros)
inflate_fixed-body ts bits eob zeros long reads ends =
    inflate_fixed-header body
    ∙ ap (λ k. read_tokens k body) (omega (arith, length-append bits (eob ++ zeros)))
    ∙ reads (suc (length body + 2 - length ts)) [] (eob ++ zeros) zeros
        (read_tokens-end (length body + 2 - length ts) (eob ++ zeros) zeros ends)
    ∙ ap (λ us. some (us, zeros)) (append-nil ts)
  where
    body : List ℕ
    body = bits ++ (eob ++ zeros)

pub new-IsValid : IsValid new
new-IsValid = record { fits = omega arith; short = omega arith }

pub contents-new : contents new ≡ []
contents-new = unfold stream lsb_bits in refl

pub header_written :
    (contents (write_bits 0b011 3 new) ≡ lsb_bits 3 0b011) × IsValid (write_bits 0b011 3 new)
header_written =
    let (same, valid) = contents-write_bits 0b011 3 new new-IsValid (omega arith) in
    (same ∙ ap (λ t. t ++ lsb_bits 3 0b011) contents-new, valid)

-- Every list of tokens that DEFLATE can say is written without a panic, and the reader of blocks
-- gives back exactly those tokens from the bytes, with fewer than eight padding zeros left over.
pub inflate_fixed-encode_fixed_block :
    (tokens : List Token)
    → All IsToken tokens
    → (bytes : List ℕ) × (encode_fixed_block tokens ≡ some bytes)
      × (pad : ℕ) × (inflate_fixed (stream bytes) ≡ some (tokens, replicate pad 0))
      × (pad < 8)
unfolding encode_fixed_block write_fixed_block
inflate_fixed-encode_fixed_block tokens h =
    let (same₀, valid₀) = header_written in
    let (w₁, ran₁, bits, (same₁, valid₁), long, reads) =
      write_tokens-WritesTokens tokens (write_bits 0b011 3 new) h valid₀ in
    let (w₂, ran₂, eob, (same₂, valid₂), _, ends) =
      write_litlen-WritesSymbol 256 w₁ (omega arith) valid₁ in
    let (pad, filled, small) = stream-finish w₂ valid₂ in
    let zeros : List ℕ = replicate pad 0 in
    let held : contents w₂ ≡ lsb_bits 3 0b011 ++ (bits ++ eob) =
      same₂ ∙ ap (λ t. t ++ eob) (same₁ ∙ ap (λ t. t ++ bits) same₀) ∙ append_assoc _ bits eob in
    let whole : stream (finish w₂) ≡ lsb_bits 3 0b011 ++ (bits ++ (eob ++ zeros)) =
      filled
      ∙ ap (λ t. t ++ zeros) held
      ∙ append_assoc (lsb_bits 3 0b011) (bits ++ eob) zeros
      ∙ ap (λ t. lsb_bits 3 0b011 ++ t) (append_assoc bits eob zeros) in
    (
      finish w₂,
      rw ran₁ (rw ran₂),
      pad,
      ap inflate_fixed whole ∙ inflate_fixed-body tokens bits eob zeros long reads (ends zeros),
      small,
    )
