-- ===== src/Deflate/Dynamic/TotalWrites.antt =====
-- Every plan is written: no index is out of range, and the fixed block is never needed.
use gpzip.Prelude.{
  ℕ, ◌<◌, ◌≡◌, refl, inl, inr, true, false, Option, some, List, [], ◌∷◌, All, ◌-◌, length,
  get_elem?-lt, take, arith,
}
use gpzip.Lz77.{Token, is_literal}
use gpzip.Deflate.Accum.{BitWriter}
use gpzip.Deflate.BitWriter.{write_bits, write_huffman}
use gpzip.Deflate.Codes.{length_code, distance_code}
use gpzip.Deflate.Rows.{length_code-IsCode, distance_code-IsCode}
use gpzip.Deflate.TokenBits.{IsToken}
use gpzip.Deflate.Rle.{RleEntry, rle_encode_lengths}
use gpzip.Deflate.Fixed.{write_extra}
use gpzip.Deflate.Dynamic.Plan.{Freqs, Plan, frequencies, plan_block, meta_order}
use gpzip.Deflate.Dynamic.PlanBounds.{FitsBlock}
use gpzip.Deflate.Dynamic.Reference.{
  write_code, write_meta_lens, write_rle, write_header, write_dynamic_token, write_dynamic_tokens,
  write_planned, length_symbol, distance_symbol, try_write_dynamic_block,
}
use gpzip.Deflate.Dynamic.RleBounds.{All-take}
use gpzip.Deflate.Dynamic.Steps.{FitsExtra}
use gpzip.Deflate.Dynamic.Total.{frequencies_total, plan_block_total}

-- The step writes, on every writer.
abbrev Writes : (BitWriter → Option BitWriter) → Type 0
Writes f = (w : BitWriter) → (w' : BitWriter) × (f w ≡ some w')

write_code_total :
    (codes lens : List ℕ) (n sym : ℕ)
    → sym < n
    → length codes ≡ n
    → length lens ≡ n
    → Writes (write_code codes lens sym)
unfolding write_code
write_code_total codes lens n sym lt ec el w =
    let (code, found) = get_elem?-lt sym codes (omega arith) in
    let (bits, found') = get_elem?-lt sym lens (omega arith) in
    (write_huffman code bits w, rw (found, found') refl)

write_meta_lens_total :
    (lens syms : List ℕ)
    → length lens ≡ 19
    → All (λ s. s < 19) syms
    → Writes (write_meta_lens lens syms)
unfolding write_meta_lens
write_meta_lens_total lens [] e h w = (w, refl)
write_meta_lens_total lens (s ∷ ss) e (h, hs) w =
    let (l, found) = get_elem?-lt s lens (omega arith) in
    let (w', ran) = write_meta_lens_total lens ss e hs (write_bits l 3 w) in (w', rw found ran)

write_rle_total :
    (codes lens : List ℕ) (es : List RleEntry)
    → length codes ≡ 19
    → length lens ≡ 19
    → All FitsExtra es
    → Writes (write_rle codes lens es)
unfolding write_rle
write_rle_total codes lens [] ec el h w = (w, refl)
write_rle_total codes lens (e ∷ es) ec el (h, hs) w =
    let (w₁, ran) = write_code_total codes lens 19 e.code h.2 ec el w in
    let (w₂, ran') =
      write_rle_total codes lens es ec el hs (write_extra e.extra_value e.extra_bits w₁) in
    (w₂, rw ran ran')

module _ (p : Plan) (fits : FitsBlock p) where
  write_header_total : Writes (write_header p)
  unfolding write_header
  write_header_total w =
      let (w₂, ran) =
        write_meta_lens_total p.meta_lens (take p.hclen_count meta_order) fits.meta.enough
          (All-take (λ s. s < 19) p.hclen_count meta_order (omega arith))
          (write_bits (p.hclen_count - 4) 4
            (write_bits p.hdist 5 (write_bits p.hlit 5 (write_bits 0b101 3 w)))) in
      let (w₃, ran') =
        write_rle_total p.meta_codes p.meta_lens p.rle fits.meta_coded fits.meta.enough fits.extras
          w₂ in
      (w₃, rw ran ran')

  write_litlen_total : (sym : ℕ) → sym < 286 → Writes (write_code p.litlen_codes p.litlen_lens sym)
  write_litlen_total sym lt =
      write_code_total p.litlen_codes p.litlen_lens 286 sym lt fits.litlen_coded fits.litlen.enough

  write_dynamic_token_total : (t : Token) → IsToken t → Writes (write_dynamic_token p t)
  unfolding write_dynamic_token
  write_dynamic_token_total t (inl (l, d)) w =
      let e : is_literal t ≡ true = ground arith in
      rw e (write_litlen_total t.distance (omega arith) w)
  write_dynamic_token_total t (inr (l₁, l₂, d₁, d₂)) w =
      let e : is_literal t ≡ false = ground arith in
      let sl = (length_code-IsCode t.length l₁ l₂).symbol in
      let sd = (distance_code-IsCode t.distance d₁ d₂).symbol in
      let (s, sw, sv) = length_code t.length in
      let (d, dw, dv) = distance_code t.distance in
      let (w₁, ran) = write_litlen_total s (omega arith) w in
      let (w₂, ran') =
        write_code_total p.dist_codes p.dist_lens 30 d (omega arith) fits.dist_coded
          fits.dist.enough (write_extra sv sw w₁) in
      (write_extra dv dw w₂, rw (e, ran, ran') refl)

  write_dynamic_tokens_total :
      (ts : List Token) → All IsToken ts → Writes (write_dynamic_tokens p ts)
  unfolding write_dynamic_tokens
  write_dynamic_tokens_total [] h w = (w, refl)
  write_dynamic_tokens_total (t ∷ ts) (h, hs) w =
      let (w₁, ran) = write_dynamic_token_total t h w in
      let (w₂, ran') = write_dynamic_tokens_total ts hs w₁ in (w₂, rw ran ran')

  pub write_planned_total : (ts : List Token) → All IsToken ts → Writes (write_planned p ts)
  unfolding write_planned
  write_planned_total ts h w =
      let (w₁, ran) = write_header_total w in
      let (w₂, ran') = write_dynamic_tokens_total ts h w₁ in
      let (w₃, ran'') = write_litlen_total 256 (omega arith) w₂ in (w₃, rw (ran, ran') ran'')

-- The dynamic block is written: the fixed block is never needed.
pub try_write_dynamic_block_total :
    (tokens : List Token)
    → All IsToken tokens
    → (w : BitWriter)
    → (f : Freqs) × (p : Plan) × (w' : BitWriter) × (frequencies length_symbol distance_symbol
          tokens
        ≡ some f)
      × (plan_block rle_encode_lengths f ≡ some (some p))
      × (write_planned p tokens w ≡ some w')
      × (try_write_dynamic_block tokens w ≡ some (some w'))
try_write_dynamic_block_total tokens h w =
    let (f, counted, cl, cd) = frequencies_total tokens h in
    let (p, made, fits) = plan_block_total f cl cd in
    let (w', ran) = write_planned_total p fits tokens h w in
    let written : try_write_dynamic_block tokens w ≡ some (some w') =
      unfold try_write_dynamic_block in rw (counted, made, ran) refl in
    (f, p, w', counted, made, ran, written)
