-- ===== src/Deflate/Dynamic/Equal.antt =====
-- The fast encoder writes the blocks that the reference encoder writes.
use gpzip.Prelude.{
  ℕ, ◌-◌, ◌≤◌, ◌≡◌, refl, ap, ◌∙◌, Option-cases, inl, inr, Option, none, some, ◌>>=◌, List, [], ◌∷◌,
  All, take, replicate, arith, subst, true, false,
}
use gpzip.Lz77.{Token, is_literal}
use gpzip.Deflate.Accum.{BitWriter, new, IsValid}
use gpzip.Deflate.BitWriter.{finish}
use gpzip.Deflate.VecBitWriter
use gpzip.Deflate.Codes.{sub_u32}
use gpzip.Deflate.Inflate.{length_base, length_extra, distance_base, distance_extra}
use gpzip.Deflate.Rows.{IsCode, length_code-IsCode, distance_code-IsCode}
use gpzip.Deflate.TokenBits.{IsToken, length_extra-le, distance_extra-le}
use gpzip.Deflate.Fixed.{encode_fixed_block}
use gpzip.Deflate.FixedRoundTrip.{new-IsValid}
use gpzip.Deflate.FastLookup.{len_lut-length_code, dist_entry-distance_code}
use gpzip.Deflate.FixedFast.{sub_u16, write_fixed_block_fast}
use gpzip.Deflate.FixedFastEq.{finish-finish, write_fixed_block_fast-encode_fixed_block}
use gpzip.Deflate.Rle.{rle_encode_lengths}
use gpzip.Deflate.Dynamic.Plan.{
  Freqs, Plan, trying, count_token, count_tokens, frequencies, plan_block, meta_order,
}
use gpzip.Deflate.Dynamic.PlanBounds.{FitsBlock, IsFreqs, frequencies-IsFreqs, plan_block-FitsBlock}
use gpzip.Deflate.Dynamic.Reference.{
  write_header, write_dynamic_token, write_dynamic_tokens, write_planned, length_symbol,
  distance_symbol, try_write_dynamic_block, encode_block,
}
use gpzip.Deflate.Dynamic.Fast.{
  write_header_fast, write_dynamic_token_fast, write_dynamic_tokens_fast, write_planned_fast,
  length_symbol_fast, distance_symbol_fast, try_write_dynamic_block_fast, encode_block_fast,
}
use gpzip.Deflate.Dynamic.TotalWrites.{try_write_dynamic_block_total}
use gpzip.Deflate.Dynamic.Steps.{
  Same, Same-then, Same-bits, Same-extra, Same-code, Same-meta_lens, Same-rle,
}

All-mono : (m n : ℕ) (xs : List ℕ) → m ≤ n → All (λ l. l ≤ m) xs → All (λ l. l ≤ n) xs
All-mono m n [] h b = tt
All-mono m n (x ∷ xs) h (b, bs) = (omega (arith, b, h), All-mono m n xs h bs)

-- The writer's steps for a plan that fits.
module _ (p : Plan) (fits : FitsBlock p) where
  litlen_small : All (λ l. l ≤ 24) p.litlen_lens
  litlen_small = All-mono 15 24 p.litlen_lens (omega arith) fits.litlen.small

  dist_small : All (λ l. l ≤ 24) p.dist_lens
  dist_small = All-mono 15 24 p.dist_lens (omega arith) fits.dist.small

  Same-header : Same (write_header_fast p) (write_header p)
  unfolding write_header_fast write_header
  Same-header = Same-then _ _ _ _ (Same-bits 0b101 3 (omega arith) (omega arith)) (
      Same-then _ _ _ _ (Same-bits p.hlit 5 (omega arith) (omega (arith, fits.hlit))) (
        Same-then _ _ _ _ (Same-bits p.hdist 5 (omega arith) (omega (arith, fits.hdist))) (
          Same-then _ _ _ _
            (Same-bits (p.hclen_count - 4) 4 (omega arith) (omega (arith, fits.hclen)))
            (Same-then _ _ _ _
              (Same-meta_lens p.meta_lens (take p.hclen_count meta_order) fits.meta.small)
              (Same-rle p.meta_codes p.meta_lens p.rle
                (All-mono 7 24 p.meta_lens (omega arith) fits.meta.small) fits.extras)))))

  Same-match :
      (t : Token)
      → is_literal t ≡ false
      → (3 ≤ t.length) × (t.length ≤ 258) × (1 ≤ t.distance) × (t.distance ≤ 32768)
      → Same (write_dynamic_token_fast p t) (write_dynamic_token p t)
  unfolding write_dynamic_token_fast write_dynamic_token
  Same-match t e (l₁, l₂, d₁, d₂) w v =
      let (le, found, lcode, lbase) = len_lut-length_code t.length l₁ l₂ in
      let (de, dfound, dcode, dbase) = dist_entry-distance_code t.distance d₁ d₂ in
      let cl =
        subst (IsCode length_base length_extra 257 285 t.length) lcode
          (length_code-IsCode t.length l₁ l₂) in
      let cd =
        subst (IsCode distance_base distance_extra 0 29 t.distance) dcode
          (distance_code-IsCode t.distance d₁ d₂) in
      let lwide : le.extra_bits ≤ 24 =
        omega (arith, cl.width, length_extra-le le.sym cl.symbol.1) in
      let dwide : de.extra_bits ≤ 24 =
        omega (arith, cd.width, distance_extra-le de.sym cd.symbol.1) in
      let lsame : sub_u16 t.length le.base ≡ t.length - le.base = omega (arith, l₂, lbase) in
      let dsame : sub_u32 t.distance de.base ≡ t.distance - de.base = omega (arith, d₂, dbase) in
      rw (e, found, dfound, lcode, dcode, lsame, dsame)
        (Same-then _ _ _ _ (Same-code p.litlen_codes p.litlen_lens le.sym litlen_small)
          (Same-then _ _ _ _ (Same-extra (t.length - le.base) le.extra_bits lwide cl.fits) (
            Same-then _ _ _ _ (Same-code p.dist_codes p.dist_lens de.sym dist_small)
              (Same-extra (t.distance - de.base) de.extra_bits dwide cd.fits)))
          w v)

  Same-token :
      (t : Token) → IsToken t → Same (write_dynamic_token_fast p t) (write_dynamic_token p t)
  Same-token t (inl (l, d)) w v =
      unfold write_dynamic_token_fast write_dynamic_token in
      let e : is_literal t ≡ true = ground arith in
      rw e (Same-code p.litlen_codes p.litlen_lens t.distance litlen_small w v)
  Same-token t (inr h) w v = let e : is_literal t ≡ false = ground arith in Same-match t e h w v

  Same-tokens :
      (ts : List Token)
      → All IsToken ts
      → Same (write_dynamic_tokens_fast p ts) (write_dynamic_tokens p ts)
  unfolding write_dynamic_tokens_fast write_dynamic_tokens
  Same-tokens [] h w v = (refl, λ w' k. let same : w ≡ w' = cc in subst IsValid same v)
  Same-tokens (t ∷ ts) (h, hs) w v = Same-then _ _ _ _ (Same-token t h) (Same-tokens ts hs) w v

  Same-planned :
      (ts : List Token) → All IsToken ts → Same (write_planned_fast p ts) (write_planned p ts)
  unfolding write_planned_fast write_planned
  Same-planned ts h = Same-then _ _ _ _ Same-header (
      Same-then _ _ _ _ (Same-tokens ts h)
        (Same-code p.litlen_codes p.litlen_lens 256 litlen_small))

-- The tables count what the scans count.
count_token_fast :
    (t : Token) (f : Freqs)
    → IsToken t
    → count_token length_symbol_fast distance_symbol_fast t f
      ≡ count_token length_symbol distance_symbol t f
unfolding count_token
count_token_fast t f (inl (l, d)) = let e : is_literal t ≡ true = ground arith in rw e refl
count_token_fast t f (inr (l₁, l₂, d₁, d₂)) =
    let e : is_literal t ≡ false = ground arith in
    let (le, found, lcode, lbase) = len_lut-length_code t.length l₁ l₂ in
    let (de, dfound, dcode, dbase) = dist_entry-distance_code t.distance d₁ d₂ in
    rw (e, found, dfound, lcode, dcode) refl

count_tokens_fast :
    (ts : List Token) (f : Freqs)
    → All IsToken ts
    → count_tokens length_symbol_fast distance_symbol_fast ts f
      ≡ count_tokens length_symbol distance_symbol ts f
unfolding count_tokens
count_tokens_fast [] f h = refl
count_tokens_fast (t ∷ ts) f (h, hs) =
    rw (count_token_fast t f h)
      (elim (Option-cases (count_token length_symbol distance_symbol t f)) [
        | inl e ↦ rw e refl
        | inr (f', e) ↦ rw e (count_tokens_fast ts f' hs)
      ])

frequencies_fast :
    (ts : List Token)
    → All IsToken ts
    → frequencies length_symbol_fast distance_symbol_fast ts
      ≡ frequencies length_symbol distance_symbol ts
unfolding frequencies
frequencies_fast ts h =
    rw
      (count_tokens_fast ts (record { litlen_freq = replicate 286 0; dist_freq = replicate 30 0 })
        h)
      refl

-- Both write the block alike, or both refuse to.
try_write_fast :
    (tokens : List Token)
    → All IsToken tokens
    → try_write_dynamic_block_fast tokens new ≡ try_write_dynamic_block tokens new
unfolding try_write_dynamic_block_fast try_write_dynamic_block
try_write_fast tokens h = rw (frequencies_fast tokens h) (
    go (frequencies length_symbol distance_symbol tokens)
      (λ f e. frequencies-IsFreqs length_symbol distance_symbol tokens f e))
  where
    planned :
        (planned : Option (Option Plan))
        → ((p : Plan) → planned ≡ some (some p) → FitsBlock p)
        → trying planned (λ p. do w' ← write_planned_fast p tokens new; some (some w'))
          ≡ trying planned (λ p. do w' ← write_planned p tokens new; some (some w'))
    planned none k = refl
    planned (some none) k = refl
    planned (some (some p)) k = rw (Same-planned p (k p refl) tokens h new new-IsValid).0 refl

    go :
        (counted : Option Freqs)
        → ((f : Freqs) → counted ≡ some f → IsFreqs f)
        → (do
          f ← counted
          trying
              (plan_block rle_encode_lengths f)
              (λ p. do w' ← write_planned_fast p tokens new; some (some w')))
          ≡ (do
            f ← counted
            trying
                (plan_block rle_encode_lengths f)
                (λ p. do w' ← write_planned p tokens new; some (some w')))
    go none k = refl
    go (some f) k =
        planned (plan_block rle_encode_lengths f) (λ p e. plan_block-FitsBlock f p (k f refl) e)

same_block :
    (tokens : List Token) → All IsToken tokens → encode_block_fast tokens ≡ encode_block tokens
unfolding encode_block_fast encode_block
same_block tokens h = rw (try_write_fast tokens h) (go (try_write_dynamic_block tokens new))
  where
    go :
        (tried : Option (Option BitWriter))
        → (tried >>= (λ t. elim t [
          | none ↦ do w ← write_fixed_block_fast tokens new; some (VecBitWriter.finish w)
          | some w ↦ some (VecBitWriter.finish w)
        ]))
          ≡ (tried
              >>= (λ t. elim t [ none ↦ encode_fixed_block tokens | some w ↦ some (finish w) ]))
    go none = refl
    go (some none) = write_fixed_block_fast-encode_fixed_block tokens h
    go (some (some w)) = ap (λ b. some b) (finish-finish w)

-- For every list of tokens that DEFLATE can say, `encode_block` and `encode_block_fast`, which has its
-- own writer, tables and reversed codes, return, and return the same bytes.
pub encode_block_fast-encode_block :
    (tokens : List Token)
    → All IsToken tokens
    → (bytes : List ℕ) × (encode_block tokens ≡ some bytes)
      × (encode_block_fast tokens ≡ some bytes)
encode_block_fast-encode_block tokens h =
    let (_, _, w, _, _, _, written) = try_write_dynamic_block_total tokens h new in
    let returned : encode_block tokens ≡ some (finish w) = unfold encode_block in rw written refl in
    (finish w, returned, same_block tokens h ∙ returned)
