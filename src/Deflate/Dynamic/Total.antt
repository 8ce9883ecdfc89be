-- ===== src/Deflate/Dynamic/Total.antt =====
-- The dynamic block is always planned and written: no panic, no end of fuel, no early return.
use gpzip.Prelude.{
  ℕ, ◌+◌, ◌%◌, ◌^◌, ◌≤◌, ◌<◌, ◌≡◌, refl, ◌∙◌, subst, inl, inr, true, false, some, List, [], ◌∷◌,
  All, length, get_elem?-lt, set, replicate, length-replicate, arith,
}
use gpzip.Lz77.{Token, is_literal}
use gpzip.Huffman.Lengths.{used_symbols, try_build_code_lengths}
use gpzip.Huffman.Bounds.{IsLimited, All-set, All-replicate}
use gpzip.Huffman.Total.{AreU32, try_build_code_lengths_total}
use gpzip.Deflate.Codes.{length_code, distance_code}
use gpzip.Deflate.Rows.{length_code-IsCode, distance_code-IsCode}
use gpzip.Deflate.TokenBits.{IsToken}
use gpzip.Deflate.Rle.{RleEntry, rle_encode_lengths}
use gpzip.Deflate.Dynamic.Plan.{
  Freqs, Plan, bump, count_token, count_tokens, frequencies, count_codes, fix_dist, fix_litlen,
  listed_lengths, plan_lengths, plan_block,
}
use gpzip.Deflate.Dynamic.PlanBounds.{
  FitsBlock, length-bump, plan_block-FitsBlock, fix_dist-IsLimited, fix_litlen-IsLimited,
  listed_lengths-small, planned,
}
use gpzip.Deflate.Dynamic.Reference.{length_symbol, distance_symbol}
use gpzip.Deflate.Dynamic.RleBounds.{rle_encode_lengths-FitsExtra}
use gpzip.Deflate.Dynamic.Steps.{FitsExtra}

-- As many counters of 32 bits.
abbrev pub Counters : ℕ → List ℕ → Type 0
Counters n freq = (length freq ≡ n) × AreU32 freq

pub zeros-Counters : (n : ℕ) → Counters n (replicate n 0)
zeros-Counters n = (length-replicate n 0, All-replicate _ n 0 (omega arith))

bump_total :
    (n i : ℕ) (freq : List ℕ)
    → i < n
    → Counters n freq
    → (freq' : List ℕ) × (bump i freq ≡ some freq') × Counters n freq'
bump_total n i freq lt (len, small) =
    let (x, e) = get_elem?-lt i freq (omega arith) in
    let ran : bump i freq ≡ some (set freq i ((x + 1) % 2 ^ 32)) = unfold bump in rw e refl in
    (
      set freq i ((x + 1) % 2 ^ 32),
      ran,
      (
        length-bump i freq _ ran ∙ len,
        All-set (λ g. g < 2 ^ 32) freq i ((x + 1) % 2 ^ 32) small (omega arith),
      ),
    )

length-used_symbols : (i : ℕ) (freq : List ℕ) → length (used_symbols i freq) ≤ length freq
unfolding used_symbols
length-used_symbols i [] = omega arith
length-used_symbols i (f ∷ fs) = ground (arith, length-used_symbols (i + 1) fs)

-- Where the limit has codes enough for all the counters, there are code lengths.
pub lengths_total :
    (n m : ℕ) (freq : List ℕ)
    → 1 ≤ m
    → n ≤ 2 ^ m
    → Counters n freq
    → (lens : List ℕ) × (try_build_code_lengths freq m ≡ some (some lens)) × IsLimited n m lens
lengths_total n m freq pos room (len, small) =
    elim (try_build_code_lengths_total freq m small pos) [
      | inl (le, lens, e, b) ↦ (lens, e, subst (λ k. IsLimited k m lens) len b)
      | inr (lt, e) ↦ absurd (omega (arith, length-used_symbols 0 freq))
    ]

pub count_codes_total :
    (es : List RleEntry) (freq : List ℕ)
    → All FitsExtra es
    → Counters 19 freq
    → (freq' : List ℕ) × (count_codes es freq ≡ some freq') × Counters 19 freq'
unfolding count_codes
count_codes_total [] freq h c = (freq, refl, c)
count_codes_total (e ∷ es) freq (h, hs) c =
    let (mid, ran, c₁) = bump_total 19 e.code freq h.2 c in
    let (freq', ran', c₂) = count_codes_total es mid hs c₁ in (freq', rw ran ran', c₂)

plan_lengths_total :
    (litlen dist : List ℕ)
    → IsLimited 286 15 litlen
    → IsLimited 30 15 dist
    → (p : Plan) × (plan_lengths rle_encode_lengths litlen dist ≡ some (some p))
unfolding plan_lengths
plan_lengths_total litlen dist l d =
    let (freq, counted, c) =
      count_codes_total (rle_encode_lengths (listed_lengths litlen dist)) (replicate 19 0)
        (rle_encode_lengths-FitsExtra _ (listed_lengths-small litlen dist l.small d.small))
        (zeros-Counters 19) in
    let (meta, built, _) = lengths_total 19 7 freq (omega arith) (omega arith) c in
    (planned litlen dist meta, rw (counted, built) refl)

pub plan_block_total :
    (f : Freqs)
    → Counters 286 f.litlen_freq
    → Counters 30 f.dist_freq
    → (p : Plan) × (plan_block rle_encode_lengths f ≡ some (some p)) × FitsBlock p
plan_block_total f cl cd =
    let (litlen, built, l) = lengths_total 286 15 f.litlen_freq (omega arith) (omega arith) cl in
    let (dist, built', d) = lengths_total 30 15 f.dist_freq (omega arith) (omega arith) cd in
    let (p, made) =
      plan_lengths_total (fix_litlen litlen) (fix_dist dist) (fix_litlen-IsLimited litlen l)
        (fix_dist-IsLimited dist d) in
    let planned : plan_block rle_encode_lengths f ≡ some (some p) =
      unfold plan_block in rw (built, built') made in
    (p, planned, plan_block-FitsBlock f p (cl.0, cd.0) planned)

count_token_total :
    (t : Token) (f : Freqs)
    → IsToken t
    → Counters 286 f.litlen_freq
    → Counters 30 f.dist_freq
    → (f' : Freqs) × (count_token length_symbol distance_symbol t f ≡ some f')
      × Counters 286 f'.litlen_freq
      × Counters 30 f'.dist_freq
unfolding count_token
count_token_total t f (inl (l, d)) cl cd =
    let e : is_literal t ≡ true = ground arith in
    let (litlen, ran, c) = bump_total 286 t.distance f.litlen_freq (omega arith) cl in
    (record f { litlen_freq = litlen }, rw (e, ran) refl, c, cd)
count_token_total t f (inr (l₁, l₂, d₁, d₂)) cl cd =
    let e : is_literal t ≡ false = ground arith in
    let sl = (length_code-IsCode t.length l₁ l₂).symbol in
    let sd = (distance_code-IsCode t.distance d₁ d₂).symbol in
    let (litlen, ran, c) = bump_total 286 (length_code t.length).0 f.litlen_freq (omega arith) cl in
    let (dist, ran', c') =
      bump_total 30 (distance_code t.distance).0 f.dist_freq (omega arith) cd in
    (record { litlen_freq = litlen; dist_freq = dist }, rw (e, ran, ran') refl, c, c')

count_tokens_total :
    (ts : List Token) (f : Freqs)
    → All IsToken ts
    → Counters 286 f.litlen_freq
    → Counters 30 f.dist_freq
    → (f' : Freqs) × (count_tokens length_symbol distance_symbol ts f ≡ some f')
      × Counters 286 f'.litlen_freq
      × Counters 30 f'.dist_freq
unfolding count_tokens
count_tokens_total [] f h cl cd = (f, refl, cl, cd)
count_tokens_total (t ∷ ts) f (h, hs) cl cd =
    let (mid, ran, cl₁, cd₁) = count_token_total t f h cl cd in
    let (f', ran', cl₂, cd₂) = count_tokens_total ts mid hs cl₁ cd₁ in (f', rw ran ran', cl₂, cd₂)

pub frequencies_total :
    (tokens : List Token)
    → All IsToken tokens
    → (f : Freqs) × (frequencies length_symbol distance_symbol tokens ≡ some f)
      × Counters 286 f.litlen_freq
      × Counters 30 f.dist_freq
unfolding frequencies
frequencies_total tokens h =
    let (mid, ran, cl, cd) =
      count_tokens_total tokens no_tokens h (zeros-Counters 286) (zeros-Counters 30) in
    let (litlen, ran', c) = bump_total 286 256 mid.litlen_freq (omega arith) cl in
    (record mid { litlen_freq = litlen }, rw (ran, ran') refl, c, cd)
  where
    no_tokens : Freqs
    no_tokens = record { litlen_freq = replicate 286 0; dist_freq = replicate 30 0 }
