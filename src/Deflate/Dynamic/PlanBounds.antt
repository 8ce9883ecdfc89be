-- ===== src/Deflate/Dynamic/PlanBounds.antt =====
-- The plan of a dynamic block keeps to the widths that its header has.
use gpzip.Prelude.{
  ℕ, zero, suc, ◌+◌, ◌-◌, ◌^◌, ◌%◌, ◌≤◌, ◌<◌, ◌≡◌, refl, ap, ◌∙◌, ◌==◌, ltb, Bool-cases, bind_some,
  ◌⊎◌, true, false, inl, inr, Option, none, some, List, [], ◌∷◌, All, All-append, length, get_elem?,
  set, replicate, take, arith, subst, min, length-replicate, length-set,
}
use gpzip.Lz77.{Token, is_literal}
use gpzip.Huffman.Canonical.{canonical_codes}
use gpzip.Huffman.Bounds.{
  IsLimited, set-IsLimited, try_build_code_lengths-IsLimited, length-canonical_codes,
}
use gpzip.Huffman.Lengths.{try_build_code_lengths}
use gpzip.Deflate.Rle.{RleEntry, rle_encode_lengths}
use gpzip.Deflate.Trim.{trim_to_min, trim_to_min-IsTrimmed}
use gpzip.Deflate.Dynamic.Plan.{
  Freqs, Plan, trying, bump, count_token, count_tokens, frequencies, count_codes, fix_dist,
  fix_litlen, hclen_loop, listed_lengths, plan_lengths, plan_block, first_used, count_used,
}
use gpzip.Deflate.Dynamic.Steps.{FitsExtra}
use gpzip.Deflate.Dynamic.RleBounds.{All-take, rle_encode_lengths-FitsExtra}

-- The widths of the header's fields, and of the codes.
pub record FitsBlock (p : Plan) : Type 0 where
  pub litlen : IsLimited 286 15 p.litlen_lens
  pub dist : IsLimited 30 15 p.dist_lens
  pub meta : IsLimited 19 7 p.meta_lens
  pub hlit : p.hlit < 32
  pub hdist : p.hdist < 32
  pub hclen : p.hclen_count < 20
  pub extras : All FitsExtra p.rle
  pub litlen_coded : length p.litlen_codes ≡ 286
  pub dist_coded : length p.dist_codes ≡ 30
  pub meta_coded : length p.meta_codes ≡ 19

pub fix_dist-IsLimited : (lens : List ℕ) → IsLimited 30 15 lens → IsLimited 30 15 (fix_dist lens)
unfolding fix_dist
fix_dist-IsLimited lens b = elim (Bool-cases (count_used lens == 0)) [
  | inl e ↦ rw e (twice 0 1)
  | inr e ↦ elim (Bool-cases (count_used lens == 1)) [
    | inl e' ↦ rw (e, e') (twice (first_used 0 lens) (1 - min (first_used 0 lens) 1))
    | inr e' ↦ rw (e, e') b
  ]
]
  where
    twice : (i j : ℕ) → IsLimited 30 15 (set (set lens i 1) j 1)
    twice i j =
        set-IsLimited 30 15 (set lens i 1) j (omega arith)
          (set-IsLimited 30 15 lens i (omega arith) b)

pub fix_litlen-IsLimited :
    (lens : List ℕ) → IsLimited 286 15 lens → IsLimited 286 15 (fix_litlen lens)
unfolding fix_litlen
fix_litlen-IsLimited lens b = elim (Bool-cases (ltb (count_used lens) 2)) [
  | inl e ↦ rw e (
      set-IsLimited 286 15 (set lens 0 1) 256 (omega arith)
        (set-IsLimited 286 15 lens 0 (omega arith) b))
  | inr e ↦ rw e b
]

hclen_loop-le : (lens : List ℕ) (n : ℕ) → hclen_loop lens n ≤ n
unfolding hclen_loop
hclen_loop-le lens zero = omega arith
hclen_loop-le lens (suc n) = ground (arith, hclen_loop-le lens n)

pub length-bump :
    (i : ℕ) (freq freq' : List ℕ) → bump i freq ≡ some freq' → length freq' ≡ length freq
unfolding bump
length-bump i freq freq' e =
    let (n, _, put) = bind_some (get_elem? freq i) _ freq' e in
    let same : freq' ≡ set freq i ((n + 1) % 2 ^ 32) = cc in
    ap length same ∙ length-set freq i ((n + 1) % 2 ^ 32)

count_codes-length :
    (es : List RleEntry) (freq freq' : List ℕ)
    → count_codes es freq ≡ some freq'
    → length freq' ≡ length freq
unfolding count_codes
count_codes-length [] freq freq' e = let same : freq' ≡ freq = cc in ap length same
count_codes-length (r ∷ rs) freq freq' e =
    let (mid, first, rest) = bind_some _ _ freq' e in
    count_codes-length rs mid freq' rest ∙ length-bump r.code freq mid first

-- What the source returns early with, or a chain's last part.
trying_inv :
    {A B : Type 0} (o : Option (Option A)) (f : A → Option (Option B)) (b : B)
    → trying o f ≡ some (some b)
    → (a : A) × (o ≡ some (some a)) × (f a ≡ some (some b))
trying_inv none f b e = absurd cc
trying_inv (some none) f b e = absurd cc
trying_inv (some (some a)) f b e = (a, refl, e)

pub listed_lengths-small :
    (litlen dist : List ℕ)
    → All (λ l. l ≤ 15) litlen
    → All (λ l. l ≤ 15) dist
    → All (λ l. l ≤ 15) (listed_lengths litlen dist)
unfolding listed_lengths
listed_lengths-small litlen dist l d =
    All-append (λ k. k ≤ 15) (take (trim_to_min litlen 257) litlen) (take (trim_to_min dist 1) dist)
      (All-take (λ k. k ≤ 15) (trim_to_min litlen 257) litlen l)
      (All-take (λ k. k ≤ 15) (trim_to_min dist 1) dist d)

-- The plan for given code lengths.
abbrev pub planned : (litlen dist meta_lens : List ℕ) → Plan
planned litlen dist meta_lens = record {
  litlen_lens = litlen;
  dist_lens = dist;
  litlen_codes = canonical_codes litlen;
  dist_codes = canonical_codes dist;
  hlit = trim_to_min litlen 257 - 257;
  hdist = trim_to_min dist 1 - 1;
  rle = rle_encode_lengths (listed_lengths litlen dist);
  meta_lens = meta_lens;
  meta_codes = canonical_codes meta_lens;
  hclen_count = hclen_loop meta_lens 19;
}

plan_lengths-FitsBlock :
    (litlen dist : List ℕ) (p : Plan)
    → IsLimited 286 15 litlen
    → IsLimited 30 15 dist
    → plan_lengths rle_encode_lengths litlen dist ≡ some (some p)
    → FitsBlock p
unfolding plan_lengths
plan_lengths-FitsBlock litlen dist p l d e =
    let (meta_freq, counted, next) = bind_some (count_codes rle (replicate 19 0)) _ (some p) e in
    let (meta_lens, built, made) = trying_inv (try_build_code_lengths meta_freq 7) _ p next in
    let meta = try_build_code_lengths-IsLimited meta_freq 7 meta_lens (omega arith) built in
    let same : planned litlen dist meta_lens ≡ p = cc in
    subst FitsBlock same (record {
      litlen = l;
      dist = d;
      meta =
          subst (λ n. IsLimited n 7 meta_lens)
            (count_codes-length rle (replicate 19 0) meta_freq counted) meta;
      hlit =
          omega
            (arith, l.enough, (trim_to_min-IsTrimmed litlen 257 (omega (arith, l.enough))).within);
      hdist =
          omega (arith, d.enough, (trim_to_min-IsTrimmed dist 1 (omega (arith, d.enough))).within);
      hclen = omega (arith, hclen_loop-le meta_lens 19);
      extras =
          rle_encode_lengths-FitsExtra (listed_lengths litlen dist)
            (listed_lengths-small litlen dist l.small d.small);
      litlen_coded = length-canonical_codes litlen ∙ l.enough;
      dist_coded = length-canonical_codes dist ∙ d.enough;
      meta_coded =
          length-canonical_codes meta_lens
          ∙ meta.enough
          ∙ count_codes-length rle (replicate 19 0) meta_freq counted;
    })
  where
    rle : List RleEntry
    rle = rle_encode_lengths (listed_lengths litlen dist)

-- The counters keep their number.
abbrev pub IsFreqs : Freqs → Type 0
IsFreqs f = (length f.litlen_freq ≡ 286) × (length f.dist_freq ≡ 30)

-- A plan that `plan_block` makes of 286 and 30 counters has code lengths for all symbols, of at most
-- 15 bits, for the meta code at most 7, and every number of its header fits the field for it.
pub plan_block-FitsBlock :
    (f : Freqs) (p : Plan)
    → IsFreqs f
    → plan_block rle_encode_lengths f ≡ some (some p)
    → FitsBlock p
unfolding plan_block
plan_block-FitsBlock f p (hl, hd) e =
    let (litlen, built, next) = trying_inv (try_build_code_lengths f.litlen_freq 15) _ p e in
    let (dist, built', made) = trying_inv (try_build_code_lengths f.dist_freq 15) _ p next in
    plan_lengths-FitsBlock (fix_litlen litlen) (fix_dist dist) p
      (fix_litlen-IsLimited litlen (
        subst (λ n. IsLimited n 15 litlen) hl
          (try_build_code_lengths-IsLimited f.litlen_freq 15 litlen (omega arith) built)))
      (fix_dist-IsLimited dist (
        subst (λ n. IsLimited n 15 dist) hd
          (try_build_code_lengths-IsLimited f.dist_freq 15 dist (omega arith) built')))
      made

module _ (length_symbol distance_symbol : ℕ → Option ℕ) where
  count_token-IsFreqs :
      (t : Token) (f f' : Freqs)
      → IsFreqs f
      → count_token length_symbol distance_symbol t f ≡ some f'
      → IsFreqs f'
  unfolding count_token
  count_token-IsFreqs t f f' (hl, hd) e = go (Bool-cases (is_literal t))
    where
      go : (is_literal t ≡ true) ⊎ (is_literal t ≡ false) → IsFreqs f'
      go (inl lit) =
          let (litlen, ran, last) =
            bind_some (bump t.distance f.litlen_freq) _ f' (rw (lit, count_token) at e) in
          let same : record f { litlen_freq = litlen } ≡ f' = cc in
          subst IsFreqs same (length-bump t.distance f.litlen_freq litlen ran ∙ hl, hd)
      go (inr match) =
          let (lcode, _, e₁) =
            bind_some (length_symbol t.length) _ f' (rw (match, count_token) at e) in
          let (litlen, ran, e₂) = bind_some (bump lcode f.litlen_freq) _ f' e₁ in
          let (dcode, _, e₃) = bind_some (distance_symbol t.distance) _ f' e₂ in
          let (dist, ran', e₄) = bind_some (bump dcode f.dist_freq) _ f' e₃ in
          let made : Freqs = record { litlen_freq = litlen; dist_freq = dist } in
          let same : made ≡ f' = cc in
          subst IsFreqs same (
            length-bump lcode f.litlen_freq litlen ran ∙ hl,
            length-bump dcode f.dist_freq dist ran' ∙ hd,
          )

  count_tokens-IsFreqs :
      (ts : List Token) (f f' : Freqs)
      → IsFreqs f
      → count_tokens length_symbol distance_symbol ts f ≡ some f'
      → IsFreqs f'
  unfolding count_tokens
  count_tokens-IsFreqs [] f f' h e = let same : f ≡ f' = cc in subst IsFreqs same h
  count_tokens-IsFreqs (t ∷ ts) f f' h e =
      let (mid, first, rest) = bind_some (count_token length_symbol distance_symbol t f) _ f' e in
      count_tokens-IsFreqs ts mid f' (count_token-IsFreqs t f mid h first) rest

  pub frequencies-IsFreqs :
      (tokens : List Token) (f : Freqs)
      → frequencies length_symbol distance_symbol tokens ≡ some f
      → IsFreqs f
  unfolding frequencies
  frequencies-IsFreqs tokens f e =
      let (counted, ran, e₁) =
        bind_some (count_tokens length_symbol distance_symbol tokens zeros) _ f e in
      let (litlen, ran', e₂) = bind_some (bump 256 counted.litlen_freq) _ f e₁ in
      let (hl, hd) =
        count_tokens-IsFreqs tokens zeros counted
          (length-replicate {A = ℕ} 286 0, length-replicate {A = ℕ} 30 0) ran in
      let same : record counted { litlen_freq = litlen } ≡ f = cc in
      subst IsFreqs same (length-bump 256 counted.litlen_freq litlen ran' ∙ hl, hd)
    where
      zeros : Freqs
      zeros = record { litlen_freq = replicate 286 0; dist_freq = replicate 30 0 }
