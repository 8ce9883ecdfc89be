-- ===== src/Emit/AtomsBits.antt =====
-- The atoms of a fixed block say the bits that the reference encoder writes.
use gpzip.Prelude.{
  ℕ, zero, suc, ◌+◌, ◌%◌, ◌^◌, ◌≤◌, ◌<◌, ◌==◌, ◌≡◌, refl, ap, sym, ◌∙◌, ltb, Bool-cases, inl, inr,
  ◌⊎◌, true, false, Option, some, ◌>>=◌, List, [], ◌∷◌, ◌++◌, All, append_assoc, append-nil, arith,
}
use gpzip.Lz77.{Token, is_literal}
use gpzip.Deflate.Stream.{lsb_bits}
use gpzip.Deflate.Mirror.{msb_bits, reverse_bits-mirror, lsb_bits-mirror}
use gpzip.Deflate.Accum.{BitWriter, new, contents, IsValid}
use gpzip.Deflate.BitWriter.{write_bits, write_huffman, contents-write_huffman}
use gpzip.Deflate.Codes
use gpzip.Deflate.Codes.{fixed_litlen_code, fixed_dist_code}
use gpzip.Deflate.Rows.{length_code-IsCode, distance_code-IsCode}
use gpzip.Deflate.Fixed.{write_extra, write_litlen, write_token, write_tokens, write_fixed_block}
use gpzip.Deflate.FixedRoundTrip.{header_written}
use gpzip.Deflate.TokenBits.{
  IsToken, fixed_litlen_code_total, write_extra-Adds, length_extra-le, distance_extra-le,
}
use gpzip.Emit.Scan.{
  rev_bits, length_code-length_code, distance_code-distance_code, fixed_litlen-fixed_litlen_code,
  rev_bits-reverse_bits,
}
use gpzip.Emit.Atoms.{
  Atom, Atoms, push_atom, push_symbol, push_extra, push_token, push_tokens, build_atoms_fixed,
  atoms_bits, Adjoin,
}

-- The atoms stand for what the valid writer holds.
record Holds (a : Atoms) (w : BitWriter) : Type 0 where
  bits : atoms_bits a.0 ≡ contents w
  adjoin : Adjoin 0 a.0 a.1
  valid : IsValid w

atoms_bits-append : (xs ys : List Atom) → atoms_bits (xs ++ ys) ≡ atoms_bits xs ++ atoms_bits ys
atoms_bits-append [] ys = refl
atoms_bits-append (a ∷ xs) ys =
    ap (λ t. lsb_bits a.n_bits a.value ++ t) (atoms_bits-append xs ys)
    ∙ sym (append_assoc (lsb_bits a.n_bits a.value) (atoms_bits xs) (atoms_bits ys))

Adjoin-last :
    (offset : ℕ) (xs : List Atom) (a : Atom) (end : ℕ)
    → Adjoin offset xs end
    → a.bit_offset ≡ end
    → Adjoin offset (xs ++ (a ∷ [])) ((end + a.n_bits) % 2 ^ 32)
Adjoin-last offset [] a end h e = (e ∙ sym h, ap (λ (k : ℕ). (k + a.n_bits) % 2 ^ 32) h)
Adjoin-last offset (x ∷ xs) a end (h, hs) e =
    (h, Adjoin-last ((offset + x.n_bits) % 2 ^ 32) xs a end hs e)

-- One atom more says what a step adds to the writer.
push_atom-Holds :
    (value n_bits : ℕ) (a : Atoms) (w w' : BitWriter)
    → Holds a w
    → contents w' ≡ contents w ++ lsb_bits n_bits value
    → IsValid w'
    → Holds (push_atom value n_bits a) w'
unfolding push_atom
push_atom-Holds value zero (xs, off) w w' h e v = record {
  bits = h.bits ∙ sym (append-nil (contents w)) ∙ sym (e ∙ (unfold lsb_bits in refl));
  adjoin = h.adjoin;
  valid = v;
}
push_atom-Holds value (suc n) (xs, off) w w' h e v =
    let some_bits : (suc n == 0) ≡ false = ground arith in
    rw some_bits (record {
      bits =
          atoms_bits-append xs (last ∷ [])
          ∙ ap (λ t. atoms_bits xs ++ t) (append-nil (lsb_bits (suc n) value))
          ∙ ap (λ t. t ++ lsb_bits (suc n) value) h.bits
          ∙ sym e;
      adjoin = Adjoin-last 0 xs last off h.adjoin refl;
      valid = v;
    })
  where
    last : Atom
    last = record { bit_offset = off; value = value; n_bits = suc n }

-- Where the atoms stand for the writer's bits, both steps succeed, and the atoms still do.
abbrev Follows : (Atoms → Option Atoms) → (BitWriter → Option BitWriter) → Type 0
Follows f g =
    (a : Atoms) (w : BitWriter)
    → Holds a w
    → (a' : Atoms) × (w' : BitWriter) × (f a ≡ some a') × (g w ≡ some w') × Holds a' w'

Follows-then :
    (f f' : Atoms → Option Atoms) (g g' : BitWriter → Option BitWriter)
    → Follows f g
    → Follows f' g'
    → Follows (λ a. f a >>= f') (λ w. g w >>= g')
Follows-then f f' g g' h h' a w holds =
    let (a₁, w₁, e₁, r₁, holds₁) = h a w holds in
    let (a₂, w₂, e₂, r₂, holds₂) = h' a₁ w₁ holds₁ in (a₂, w₂, rw e₁ e₂, rw r₁ r₂, holds₂)

Follows-code :
    (code bits : ℕ)
    → bits ≤ 24
    → Follows
        (λ a. some (push_atom (rev_bits code bits) bits a))
        (λ w. some (write_huffman code bits w))
Follows-code code bits le a w holds =
    let (held, v) = contents-write_huffman code bits w holds.valid le in
    (
      push_atom (rev_bits code bits) bits a,
      write_huffman code bits w,
      refl,
      refl,
      push_atom-Holds (rev_bits code bits) bits a w (write_huffman code bits w) holds
          (held ∙ ap (λ t. contents w ++ t) (sym mirrored)) v,
    )
  where
    mirrored : lsb_bits bits (rev_bits code bits) ≡ msb_bits bits code
    mirrored =
        ap (lsb_bits bits)
          (rev_bits-reverse_bits code bits ∙ reverse_bits-mirror code bits (omega (arith, le)))
        ∙ lsb_bits-mirror bits code

Follows-extra :
    (value count : ℕ)
    → count ≤ 24
    → Follows (λ a. some (push_extra value count a)) (λ w. some (write_extra value count w))
unfolding push_extra
Follows-extra value count le a w holds =
    let (held, v) = write_extra-Adds value count w holds.valid le in
    (
      push_extra value count a,
      write_extra value count w,
      refl,
      refl,
      skip (Bool-cases (ltb 0 count))
          (push_atom-Holds value count a w (write_extra value count w) holds held v),
    )
  where
    skip :
        (ltb 0 count ≡ true) ⊎ (ltb 0 count ≡ false)
        → Holds (push_atom value count a) (write_extra value count w)
        → Holds (push_extra value count a) (write_extra value count w)
    skip (inl e) h = rw (e, push_extra) h
    skip (inr e) h =
        let none_left : (count == 0) ≡ true = ground (arith, e) in
        rw (e, push_extra) (unfold push_atom in rw none_left at h)

Follows-symbol : (s : ℕ) → s < 288 → Follows (push_symbol s) (write_litlen s)
unfolding push_symbol write_litlen
Follows-symbol s h a w holds =
    let (c, e, wide, some_bits) = fixed_litlen_code_total s h in
    rw (fixed_litlen-fixed_litlen_code s, e) (Follows-code c.0 c.1 (omega (arith, wide)) a w holds)

Follows-token : (t : Token) → IsToken t → Follows (push_token t) (write_token t)
unfolding push_token write_token fixed_dist_code
Follows-token t (inl (e, small)) a w holds =
    let lit : is_literal t ≡ true = ground arith in
    rw lit (Follows-symbol t.distance (omega (arith, small)) a w holds)
Follows-token t (inr (l₁, l₂, d₁, d₂)) a w holds =
    let ref : is_literal t ≡ false = ground arith in
    let cl = length_code-IsCode t.length l₁ l₂ in
    let cd = distance_code-IsCode t.distance d₁ d₂ in
    let (s, sw, sv) = Codes.length_code t.length in
    let (d, dw, dv) = Codes.distance_code t.distance in
    let lwide : sw ≤ 24 = omega (arith, cl.width, length_extra-le s cl.symbol.1) in
    let dwide : dw ≤ 24 = omega (arith, cd.width, distance_extra-le d cd.symbol.1) in
    rw (ref, length_code-length_code t.length, distance_code-distance_code t.distance)
      (Follows-then _ _ _ _ (Follows-symbol s (omega (arith, cl.symbol)))
        (Follows-then _ _ _ _ (Follows-extra sv sw lwide)
          (Follows-then _ _ _ _ (Follows-code d 5 (omega arith)) (Follows-extra dv dw dwide)))
        a w holds)

Follows-tokens : (ts : List Token) → All IsToken ts → Follows (push_tokens ts) (write_tokens ts)
unfolding push_tokens write_tokens
Follows-tokens [] h a w holds = (a, w, refl, refl, holds)
Follows-tokens (t ∷ ts) (h, hs) a w holds =
    Follows-then _ _ _ _ (Follows-token t h) (Follows-tokens ts hs) a w holds

-- For every list of tokens that DEFLATE can say, the atoms together say exactly the bits of the
-- reference encoder's fixed block, and each lies where the one before it ends, the first at 0 and the
-- last up to the total.
pub build_atoms_fixed-write_fixed_block :
    (tokens : List Token)
    → All IsToken tokens
    → (atoms : List Atom) × (total : ℕ) × (w : BitWriter) × (build_atoms_fixed tokens
        ≡ some (atoms, total))
      × (write_fixed_block tokens new ≡ some w)
      × (atoms_bits atoms ≡ contents w)
      × Adjoin 0 atoms total
unfolding build_atoms_fixed write_fixed_block
build_atoms_fixed-write_fixed_block tokens h =
    let (held, v) = header_written in
    let start : Holds (push_atom 0b011 3 ([], 0)) (write_bits 0b011 3 new) =
      unfold push_atom in
      record {
        bits = append-nil (lsb_bits 3 0b011) ∙ sym held;
        adjoin = (refl, refl);
        valid = v;
      } in
    let (a, w, built, ran, holds) =
      Follows-then _ _ _ _ (Follows-tokens tokens h) (Follows-symbol 256 (omega arith))
        (push_atom 0b011 3 ([], 0)) (write_bits 0b011 3 new) start in
    (a.0, a.1, w, built, ran, holds.bits, holds.adjoin)
