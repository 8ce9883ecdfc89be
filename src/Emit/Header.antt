-- ===== src/Emit/Header.antt =====
-- The header that `build_dynamic_huffman` writes on the host is the one of the reference encoder.
use gpzip.Prelude.{
  ℕ, ◌-◌, ◌≤◌, ◌<◌, ◌≡◌, refl, ap, ◌∙◌, ltb, Bool-cases, inl, inr, Option, some, ◌>>=◌, List, [],
  ◌∷◌, All, length, get_elem?-lt, take, arith, get_elem?-All,
}
use gpzip.Deflate.Accum.{BitWriter}
use gpzip.Deflate.BitWriter
use gpzip.Deflate.BitWriter.{finish}
use gpzip.Deflate.Rle.{RleEntry}
use gpzip.Deflate.Fixed.{write_extra}
use gpzip.Deflate.Dynamic.Plan.{Plan, meta_order}
use gpzip.Deflate.Dynamic.PlanBounds.{FitsBlock}
use gpzip.Deflate.Dynamic.Steps.{FitsExtra}
use gpzip.Deflate.Dynamic.RleBounds.{All-take}
use gpzip.Deflate.Dynamic.Reference.{write_code, write_meta_lens, write_rle, write_header}
use gpzip.Emit.HostBitWriter.{
  HostBitWriter, write_bits, write_huffman, forget, Counts, write_bits-forget, write_huffman-forget,
}
use gpzip.Emit.Dynamic.{put_meta_lens, put_extra, put_rle, put_header}

-- Both steps succeed alike, and the count stays right.
abbrev pub Mirrors :
    (HostBitWriter → Option HostBitWriter) → (BitWriter → Option BitWriter) → Type 0
Mirrors f g =
    (h : HostBitWriter) (w : BitWriter)
    → forget h ≡ w
    → Counts h
    → (h' : HostBitWriter) × (w' : BitWriter) × (f h ≡ some h')
      × (g w ≡ some w')
      × (forget h' ≡ w')
      × Counts h'

Mirrors-then :
    (f f' : HostBitWriter → Option HostBitWriter) (g g' : BitWriter → Option BitWriter)
    → Mirrors f g
    → Mirrors f' g'
    → Mirrors (λ h. f h >>= f') (λ w. g w >>= g')
Mirrors-then f f' g g' m m' h w s c =
    let (h₁, w₁, e₁, r₁, s₁, c₁) = m h w s c in
    let (h₂, w₂, e₂, r₂, s₂, c₂) = m' h₁ w₁ s₁ c₁ in (h₂, w₂, rw e₁ e₂, rw r₁ r₂, s₂, c₂)

Mirrors-sure :
    (f : HostBitWriter → HostBitWriter) (g : BitWriter → BitWriter)
    → ((h : HostBitWriter) → Counts h → (forget (f h) ≡ g (forget h)) × Counts (f h))
    → Mirrors (λ h. some (f h)) (λ w. some (g w))
Mirrors-sure f g m h w s c = (f h, g w, refl, refl, (m h c).0 ∙ ap g s, (m h c).1)

Mirrors-bits :
    (value count : ℕ)
    → count ≤ 24
    → Mirrors
        (λ h. some (write_bits value count h))
        (λ w. some (BitWriter.write_bits value count w))
Mirrors-bits value count le =
    Mirrors-sure (write_bits value count) (BitWriter.write_bits value count)
      (λ h c. write_bits-forget value count h c le)

Mirrors-extra :
    (value count : ℕ)
    → count ≤ 24
    → Mirrors (λ h. some (put_extra value count h)) (λ w. some (write_extra value count w))
unfolding put_extra write_extra
Mirrors-extra value count le h w s c = elim (Bool-cases (ltb 0 count)) [
  | inl e ↦ rw e (Mirrors-bits value count le h w s c)
  | inr e ↦ rw e (h, w, refl, refl, s, c)
]

Mirrors-meta_lens :
    (lens symbols : List ℕ)
    → All (λ s. s < length lens) symbols
    → Mirrors (put_meta_lens lens symbols) (write_meta_lens lens symbols)
unfolding put_meta_lens write_meta_lens
Mirrors-meta_lens lens [] b h w s c = (h, w, refl, refl, s, c)
Mirrors-meta_lens lens (s ∷ ss) (b, bs) h w same c =
    let (l, e) = get_elem?-lt s lens b in
    rw e (
      Mirrors-then _ _ _ _ (Mirrors-bits l 3 (omega arith)) (Mirrors-meta_lens lens ss bs) h w same
        c)

-- Where there are nineteen codes and lengths, of at most 7 bits.
Mirrors-rle :
    (codes lens : List ℕ) (es : List RleEntry)
    → length codes ≡ 19
    → length lens ≡ 19
    → All (λ l. l ≤ 7) lens
    → All FitsExtra es
    → Mirrors (put_rle codes lens es) (write_rle codes lens es)
unfolding put_rle write_rle write_code
Mirrors-rle codes lens [] lc ll small b h w s c = (h, w, refl, refl, s, c)
Mirrors-rle codes lens (e ∷ es) lc ll small (b, bs) h w s c =
    let (code, ec) = get_elem?-lt e.code codes (omega (arith, lc, b)) in
    let (bits, el) = get_elem?-lt e.code lens (omega (arith, ll, b)) in
    let le : bits ≤ 24 = omega (arith, get_elem?-All (λ l. l ≤ 7) lens e.code bits small el) in
    rw (ec, el)
      (Mirrors-then _ _ _ _
        (Mirrors-sure (write_huffman code bits) (BitWriter.write_huffman code bits)
          (λ h c. write_huffman-forget code bits h c le))
        (Mirrors-then _ _ _ _ (Mirrors-extra e.extra_value e.extra_bits b.0)
          (Mirrors-rle codes lens es lc ll small bs))
        h w s c)

All-meta_order :
    (n : ℕ) (lens : List ℕ) → length lens ≡ 19 → All (λ s. s < length lens) (take n meta_order)
All-meta_order n lens e = All-take (λ s. s < length lens) n meta_order (omega (arith, e))

pub Mirrors-header : (p : Plan) → FitsBlock p → Mirrors (put_header p) (write_header p)
unfolding put_header write_header
Mirrors-header p fits h w s c =
    Mirrors-then _ _ _ _ (Mirrors-bits 0b101 3 (omega arith))
      (Mirrors-then _ _ _ _ (Mirrors-bits p.hlit 5 (omega arith)) (
        Mirrors-then _ _ _ _ (Mirrors-bits p.hdist 5 (omega arith)) (
          Mirrors-then _ _ _ _ (Mirrors-bits (p.hclen_count - 4) 4 (omega arith)) (
            Mirrors-then _ _ _ _
              (Mirrors-meta_lens p.meta_lens (take p.hclen_count meta_order)
                (All-meta_order p.hclen_count p.meta_lens fits.meta.enough))
              (Mirrors-rle p.meta_codes p.meta_lens p.rle fits.meta_coded fits.meta.enough
                fits.meta.small fits.extras)))))
      h w s c
