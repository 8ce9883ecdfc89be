-- ===== src/Deflate/Dynamic/Steps.antt =====
-- Steps of the two writers that do the same, and their chains.
use gpzip.Prelude.{
  ℕ, zero, suc, ◌^◌, ◌≤◌, ◌<◌, ◌≡◌, refl, ap, ◌∙◌, ltb, Option-cases, inl, inr, Option, none, some,
  ◌>>=◌, List, [], ◌∷◌, All, get_elem?, arith, subst, true, get_elem?-All,
}
use gpzip.Deflate.Mirror.{reverse_bits}
use gpzip.Deflate.Accum.{BitWriter, IsValid}
use gpzip.Deflate.BitWriter.{write_bits, write_huffman, contents-write_bits, contents-write_huffman}
use gpzip.Deflate.VecBitWriter
use gpzip.Deflate.Fixed.{write_extra}
use gpzip.Deflate.TokenBits.{write_extra-Adds}
use gpzip.Deflate.FixedFast.{write_extra_fast}
use gpzip.Deflate.FixedFastEq.{
  write_bits-write_bits, write_pre-write_huffman, write_extra_fast-write_extra,
}
use gpzip.Deflate.Rle.{RleEntry}
use gpzip.Deflate.Dynamic.Reference.{write_code, write_meta_lens, write_rle}
use gpzip.Deflate.Dynamic.Fast.{
  pre_code, pre_codes, write_pre_code, write_meta_lens_fast, write_rle_fast,
}

abbrev pub Step : Type 0
Step = BitWriter → Option BitWriter

-- On valid writers both steps do the same, and leave a valid writer.
abbrev pub Same : Step → Step → Type 0
Same f g =
    (w : BitWriter) → IsValid w → (f w ≡ g w) × ((w' : BitWriter) → g w ≡ some w' → IsValid w')

pub Same-then :
    (f g f' g' : Step) → Same f g → Same f' g' → Same (λ w. f w >>= f') (λ w. g w >>= g')
Same-then f g f' g' h h' w v = elim (Option-cases (g w)) [
  | inl e ↦ (rw (h w v).0 (rw e refl), λ w' k. absurd (let no : none ≡ some w' = rw e at k in cc))
  | inr (w₁, e) ↦ (
    rw (h w v).0 (rw e (h' w₁ ((h w v).1 w₁ e)).0),
    λ w' k. (h' w₁ ((h w v).1 w₁ e)).1 w' (rw e at k),
  )
]

-- A step that always succeeds.
pub Same-sure :
    (f g : BitWriter → BitWriter)
    → ((w : BitWriter) → IsValid w → (f w ≡ g w) × IsValid (g w))
    → Same (λ w. some (f w)) (λ w. some (g w))
Same-sure f g h w v =
    (ap (λ u. some u) (h w v).0, λ w' k. let same : g w ≡ w' = cc in subst IsValid same (h w v).1)

pub Same-bits :
    (value count : ℕ)
    → count ≤ 24
    → value < 2 ^ count
    → Same
        (λ w. some (VecBitWriter.write_bits value count w))
        (λ w. some (write_bits value count w))
Same-bits value count le small =
    Same-sure (VecBitWriter.write_bits value count) (write_bits value count) (λ w v.
      (write_bits-write_bits value count w v le small, (contents-write_bits value count w v le).1))

pub Same-extra :
    (value count : ℕ)
    → count ≤ 24
    → value < 2 ^ count
    → Same (λ w. some (write_extra_fast value count w)) (λ w. some (write_extra value count w))
Same-extra value count le small =
    Same-sure (write_extra_fast value count) (write_extra value count) (λ w v. (
      write_extra_fast-write_extra value count w v le small,
      (write_extra-Adds value count w v le).1,
    ))

-- A code of no bits is 0 either way.
pre_code-reverse_bits : (code bits : ℕ) → pre_code code bits ≡ reverse_bits code bits
pre_code-reverse_bits code zero = unfold reverse_bits in refl
pre_code-reverse_bits code (suc n) = let more : ltb 0 (suc n) ≡ true = ground arith in rw more refl

write_one :
    (code bits : ℕ) (w : BitWriter)
    → bits ≤ 24
    → IsValid w
    → (VecBitWriter.write_pre (pre_code code bits) bits w ≡ write_huffman code bits w)
      × IsValid (write_huffman code bits w)
write_one code bits w le v = (
  ap (λ c. VecBitWriter.write_pre c bits w) (pre_code-reverse_bits code bits)
      ∙ write_pre-write_huffman code bits w v le,
  (contents-write_huffman code bits w v le).1,
)

-- A code that is reversed beforehand, and one that is reversed on the way.
pub Same-code :
    (codes lens : List ℕ) (symbol : ℕ)
    → All (λ l. l ≤ 24) lens
    → Same (write_pre_code (pre_codes codes lens) lens symbol) (write_code codes lens symbol)
unfolding write_pre_code write_code pre_codes
Same-code [] lens i h w v = (refl, λ w' k. absurd cc)
Same-code (c ∷ cs) [] zero h w v = (refl, λ w' k. absurd cc)
Same-code (c ∷ cs) [] (suc i) h w v = elim (Option-cases (get_elem? cs i)) [
  | inl e ↦ rw e (refl, λ w' k. absurd cc)
  | inr (x, e) ↦ rw e (refl, λ w' k. absurd cc)
]
Same-code (c ∷ cs) (l ∷ ls) zero h w v =
    Same-sure (VecBitWriter.write_pre (pre_code c l) l) (write_huffman c l)
      (λ w v. write_one c l w h.0 v) w v
Same-code (c ∷ cs) (l ∷ ls) (suc i) h w v = Same-code cs ls i h.1 w v

pub Same-meta_lens :
    (lens symbols : List ℕ)
    → All (λ l. l ≤ 7) lens
    → Same (write_meta_lens_fast lens symbols) (write_meta_lens lens symbols)
unfolding write_meta_lens_fast write_meta_lens
Same-meta_lens lens [] h w v = (refl, λ w' k. let same : w ≡ w' = cc in subst IsValid same v)
Same-meta_lens lens (s ∷ ss) h w v = elim (Option-cases (get_elem? lens s)) [
  | inl e ↦ rw e (refl, λ w' k. absurd cc)
  | inr (l, e) ↦ rw e (
      Same-then _ _ _ _
        (Same-bits l 3 (omega arith) (omega (arith, get_elem?-All (λ l. l ≤ 7) lens s l h e)))
        (Same-meta_lens lens ss h) w v)
]

-- One of the nineteen symbols, with an extra value that fits its bits.
abbrev pub FitsExtra : RleEntry → Type 0
FitsExtra e = (e.extra_bits ≤ 24) × (e.extra_value < 2 ^ e.extra_bits) × (e.code < 19)

pub Same-rle :
    (codes lens : List ℕ) (es : List RleEntry)
    → All (λ l. l ≤ 24) lens
    → All FitsExtra es
    → Same (write_rle_fast (pre_codes codes lens) lens es) (write_rle codes lens es)
unfolding write_rle_fast write_rle
Same-rle codes lens [] h b w v = (refl, λ w' k. let same : w ≡ w' = cc in subst IsValid same v)
Same-rle codes lens (e ∷ es) h (b, bs) w v =
    Same-then _ _ _ _ (Same-code codes lens e.code h)
      (Same-then _ _ _ _ (Same-extra e.extra_value e.extra_bits b.0 b.1)
        (Same-rle codes lens es h bs))
      w v
