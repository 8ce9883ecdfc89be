-- ===== src/Emit/FixedSize.antt =====
-- `total_bits_for_fixed` of huffman_emit_v2.rs: the size of a fixed block, known before it is written.
use gpzip.Prelude.{
  ℕ, ◌+◌, ◌≤◌, ◌<◌, ◌≡◌, refl, ap, ◌∙◌, if◌then◌else◌, inl, inr, true, false, Option, some, ◌>>=◌,
  List, [], ◌∷◌, ◌++◌, All, length, length-append, arith,
}
use gpzip.Lz77.{Token, is_literal}
use gpzip.Deflate.Stream.{lsb_bits, length-lsb_bits}
use gpzip.Deflate.Accum.{BitWriter, new, contents}
use gpzip.Deflate.BitWriter.{write_bits}
use gpzip.Deflate.Codes.{length_code, distance_code, fixed_dist_code}
use gpzip.Deflate.Rows.{length_code-IsCode, distance_code-IsCode}
use gpzip.Deflate.Fixed.{write_litlen, write_token, write_tokens, write_fixed_block}
use gpzip.Deflate.FixedRoundTrip.{header_written}
use gpzip.Deflate.TokenBits.{IsToken, fixed_litlen_code_total, length_extra-le, distance_extra-le}
use gpzip.Emit.Tables.{fixed_litlen, host_length_code, host_distance_code}
use gpzip.Emit.Lookup.{
  host_length_code-length_code, host_distance_code-distance_code, fixed_litlen_lem,
}
use gpzip.Emit.Sized.{Sized, Sized-none, Sized-cast, Sized-then, Sized-extra, Sized-huffman}

-- The body of the loop. `none` is a panic.
unfoldable pub token_bits : Token → Option ℕ
token_bits t = if is_literal t then (do (code, b) ← fixed_litlen t.distance; some b) else (do
  (lcode, lextra, lval) ← host_length_code t.length
  (code, lb) ← fixed_litlen lcode
  (dcode, dextra, dval) ← host_distance_code t.distance
  some (lb + lextra + (5 + dextra)))

-- A u64 does not overflow here: a token has at most 48 bits.
unfoldable pub add_bits : List Token → ℕ → Option ℕ
add_bits [] bits = some bits
add_bits (t ∷ ts) bits = do n ← token_bits t; add_bits ts (bits + n)

unfoldable pub total_bits_for_fixed : List Token → Option ℕ
unfolding add_bits
total_bits_for_fixed tokens = do
  bits ← add_bits tokens 3
  (code, eob_bits) ← fixed_litlen 256
  some (bits + eob_bits)

Sized-litlen :
    (s : ℕ) → s < 288 → (c : ℕ × ℕ) × (fixed_litlen s ≡ some c) × Sized c.1 (write_litlen s)
unfolding write_litlen
Sized-litlen s h =
    let (c, e, wide, some_bits) = fixed_litlen_code_total s h in
    (c, fixed_litlen_lem s ∙ e, λ w v. rw e (Sized-huffman c.0 c.1 (omega (arith, wide)) w v))

Sized-token : (t : Token) → IsToken t → (n : ℕ) × (token_bits t ≡ some n) × Sized n (write_token t)
unfolding token_bits write_token fixed_dist_code
Sized-token t (inl (e, small)) =
    let lit : is_literal t ≡ true = ground arith in
    let (c, found, sized) = Sized-litlen t.distance (omega (arith, small)) in
    (c.1, rw (lit, found) refl, λ w v. rw lit (sized w v))
Sized-token t (inr (l₁, l₂, d₁, d₂)) =
    let ref : is_literal t ≡ false = ground arith in
    let cl = length_code-IsCode t.length l₁ l₂ in
    let cd = distance_code-IsCode t.distance d₁ d₂ in
    let (s, sw, sv) = length_code t.length in
    let (d, dw, dv) = distance_code t.distance in
    let (c, found, sized) = Sized-litlen s (omega (arith, cl.symbol)) in
    let lwide : sw ≤ 24 = omega (arith, cl.width, length_extra-le s cl.symbol.1) in
    let dwide : dw ≤ 24 = omega (arith, cd.width, distance_extra-le d cd.symbol.1) in
    (
      c.1 + sw + (5 + dw),
      rw
          (
            ref,
            host_length_code-length_code t.length l₁ l₂,
            found,
            host_distance_code-distance_code t.distance d₁ d₂,
          )
          refl,
      λ w v. rw ref (
          Sized-cast (c.1 + (sw + (5 + dw))) (c.1 + sw + (5 + dw)) _ (omega arith)
            (Sized-then c.1 (sw + (5 + dw)) _ _ sized (
              Sized-then sw (5 + dw) _ _ (Sized-extra sv sw lwide)
                (Sized-then 5 dw _ _ (Sized-huffman d 5 (omega arith)) (Sized-extra dv dw dwide))))
            w v),
    )

Sized-tokens :
    (ts : List Token) (bits : ℕ)
    → All IsToken ts
    → (n : ℕ) × (add_bits ts bits ≡ some (bits + n)) × Sized n (write_tokens ts)
unfolding add_bits write_tokens
Sized-tokens [] bits h = (0, ap (λ (k : ℕ). some k) (omega arith), Sized-none)
Sized-tokens (t ∷ ts) bits (h, hs) =
    let (m, found, sized) = Sized-token t h in
    let (n, found', sized') = Sized-tokens ts (bits + m) hs in
    (
      m + n,
      rw found (found' ∙ ap (λ (k : ℕ). some k) (omega arith)),
      Sized-then m n (write_token t) (write_tokens ts) sized sized',
    )

-- For every list of tokens that DEFLATE can say, `total_bits_for_fixed` is the number of bits that the
-- reference encoder writes for the fixed block.
pub total_bits_for_fixed-write_fixed_block :
    (tokens : List Token)
    → All IsToken tokens
    → (w : BitWriter) × (write_fixed_block tokens new ≡ some w)
      × (total_bits_for_fixed tokens ≡ some (length (contents w)))
unfolding total_bits_for_fixed write_fixed_block
total_bits_for_fixed-write_fixed_block tokens h =
    let (held, v) = header_written in
    let (n, found, sized) = Sized-tokens tokens 3 h in
    let (c, eob, sized') = Sized-litlen 256 (omega arith) in
    let (w₁, ran₁, v₁, b₁, e₁, l₁) = sized (write_bits 0b011 3 new) v in
    let (w₂, ran₂, v₂, b₂, e₂, l₂) = sized' w₁ v₁ in
    (
      w₂,
      rw ran₁ ran₂,
      rw (found, eob)
          (ap (λ (k : ℕ). some k)
            (omega (
              arith,
              l₁,
              l₂,
              length-lsb_bits 3 0b011,
              longer (contents start) (contents w₁) b₁ e₁,
              longer (contents w₁) (contents w₂) b₂ e₂,
              longer [] (contents start) (lsb_bits 3 0b011) held,
            ))),
    )
  where
    start : BitWriter
    start = write_bits 0b011 3 new

    longer : (xs ys bits : List ℕ) → ys ≡ xs ++ bits → length ys ≡ length xs + length bits
    longer xs ys bits e = ap length e ∙ length-append xs bits
