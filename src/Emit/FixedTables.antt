-- ===== src/Emit/FixedTables.antt =====
-- The tables of codes that the shader looks up.
use gpzip.Prelude.{
  ℕ, zero, suc, ◌+◌, ◌<◌, ◌==◌, ◌≡◌, refl, ap, sym, ◌∙◌, ltb, Option, some, ◌>>=◌, List, [], ◌∷◌,
  get_elem?, arith, true, false,
}
use gpzip.Deflate.Mirror.{reverse_bits}
use gpzip.Deflate.Codes.{fixed_litlen_code}
use gpzip.Deflate.TokenBits.{fixed_litlen_code_total}
use gpzip.Deflate.FixedFast.{tabulate}
use gpzip.Deflate.Dynamic.Fast.{pre_codes}
use gpzip.Emit.Tables.{
  fixed_litlen, rev_bits, collect, symbols, build_fixed_lit_lens, build_fixed_lit_codes_pre,
}
use gpzip.Emit.Lookup.{fixed_litlen_lem}
use gpzip.Emit.Dynamic.{pre_reverse}

rev_bits_lem : (code bits : ℕ) → rev_bits code bits ≡ reverse_bits code bits
unfolding rev_bits reverse_bits
rev_bits_lem code bits = refl

-- Where `f` gives something at every number, the collected list has it at each place.
collect-tabulate :
    {B : Type 0} (f : ℕ → Option B) (i n : ℕ)
    → ((k : ℕ) → k < i + n → (y : B) × (f k ≡ some y))
    → (ys : List B) × (collect f (tabulate (λ s. s) i n) ≡ some ys)
      × ((k : ℕ) → k < n → get_elem? ys k ≡ f (i + k))
unfolding collect tabulate
collect-tabulate f i zero h = ([], refl, λ k lt. absurd (omega (arith, lt)))
collect-tabulate {B = B} f i (suc n) h =
    let (y, e) = h i (omega arith) in
    let (ys, ran, found) = collect-tabulate f (i + 1) n (λ k lt. h k (omega (arith, lt))) in
    (y ∷ ys, rw (e, ran) refl, at y e ys found)
  where
    at :
        (y : B)
        → f i ≡ some y
        → (ys : List B) → ((k : ℕ) → k < n → get_elem? ys k ≡ f (i + 1 + k))
        → (k : ℕ) → k < suc n
        → get_elem? (y ∷ ys) k ≡ f (i + k)
    at y e ys found zero lt = sym e ∙ ap f (omega arith)
    at y e ys found (suc k) lt = found k (omega (arith, lt)) ∙ ap f (omega arith)

-- Both tables of the fixed literal codes are built, and at each of the 288 symbols they hold the number
-- of bits of the symbol's code and the code, reversed.
pub build_fixed_lit-fixed_litlen_code :
    (codes : List ℕ) × (lens : List ℕ) × (build_fixed_lit_codes_pre ≡ some codes)
    × (build_fixed_lit_lens ≡ some lens)
    × ((s : ℕ)
        → s < 288
        → (c : ℕ × ℕ) × (fixed_litlen_code s ≡ some c)
          × (get_elem? codes s ≡ some (reverse_bits c.0 c.1))
          × (get_elem? lens s ≡ some c.1))
unfolding build_fixed_lit_codes_pre build_fixed_lit_lens symbols
build_fixed_lit-fixed_litlen_code =
    let (codes, built, at) = collect-tabulate code 0 288 (λ s h. (_, code_lem s h)) in
    let (lens, built', at') = collect-tabulate bits 0 288 (λ s h. (_, bits_lem s h)) in
    (
      codes,
      lens,
      built,
      built',
      λ s h. (
        (fixed_litlen_code_total s h).0,
        (fixed_litlen_code_total s h).1,
        at s h ∙ ap code (start s) ∙ code_lem s h,
        at' s h ∙ ap bits (start s) ∙ bits_lem s h,
      ),
    )
  where
    start : (s : ℕ) → 0 + s ≡ s
    start s = omega arith

    code : ℕ → Option ℕ
    code s = do c ← fixed_litlen s; some (rev_bits c.0 c.1)

    bits : ℕ → Option ℕ
    bits s = do c ← fixed_litlen s; some c.1

    known : (s : ℕ) (h : s < 288) → fixed_litlen s ≡ some (fixed_litlen_code_total s h).0
    known s h = fixed_litlen_lem s ∙ (fixed_litlen_code_total s h).1

    code_lem :
        (s : ℕ) (h : s < 288)
        → code s
          ≡ some (reverse_bits (fixed_litlen_code_total s h).0.0 (fixed_litlen_code_total s h).0.1)
    code_lem s h = rw (known s h) (ap (λ r. some r) (rev_bits_lem _ _))

    bits_lem : (s : ℕ) (h : s < 288) → bits s ≡ some (fixed_litlen_code_total s h).0.1
    bits_lem s h = rw (known s h) refl

-- The reversed codes of a dynamic block are those that the fast encoder of deflate.rs writes.
pre_reverse-pre_codes : (codes lens : List ℕ) → pre_reverse codes lens ≡ pre_codes codes lens
unfolding pre_reverse pre_codes reverse_bits
pre_reverse-pre_codes [] lens = refl
pre_reverse-pre_codes (c ∷ cs) [] = refl
pre_reverse-pre_codes (c ∷ cs) (zero ∷ ls) = ap (λ t. 0 ∷ t) (pre_reverse-pre_codes cs ls)
pre_reverse-pre_codes (c ∷ cs) (suc l ∷ ls) =
    let more : ltb 0 (suc l) ≡ true = ground arith in
    let some_bits : (suc l == 0) ≡ false = ground arith in
    rw (more, some_bits, pre_reverse-pre_codes cs ls) refl
