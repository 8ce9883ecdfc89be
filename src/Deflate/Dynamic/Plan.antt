-- ===== src/Deflate/Dynamic/Plan.antt =====
-- What a dynamic block is written from: frequencies, code lengths, codes, and the run-length form
-- of the lengths. Both encoders of deflate.rs and the one of
-- huffman_emit_v2.rs compute it alike, each with its own symbol lookup.
use gpzip.Prelude.{
  ℕ, zero, suc, ◌+◌, ◌-◌, ◌%◌, ◌^◌, min, ltb, ◌==◌, ◌&&◌, if◌then◌else◌, Option, none, some, ◌>>=◌,
  List, [], ◌∷◌, ◌++◌, get_elem?, get_or, set, replicate, take,
}
use gpzip.Lz77.{Token, is_literal}
use gpzip.Huffman.Lengths.{try_build_code_lengths}
use gpzip.Huffman.Canonical.{canonical_codes}
use gpzip.Deflate.Rle.{RleEntry}
use gpzip.Deflate.Trim.{trim_to_min}

-- A chain of results where `some none` is the return of false that ends it early.
abbrev pub trying : {A B : Type 0} → Option (Option A) → (A → Option (Option B)) → Option (Option B)
trying none f = none
trying (some none) f = some none
trying (some (some a)) f = f a

-- `freq[i] += 1` in a u32. `none` is an index out of range.
unfoldable pub bump : ℕ → List ℕ → Option (List ℕ)
bump i freq = do n ← get_elem? freq i; some (set freq i ((n + 1) % 2 ^ 32))

pub record Freqs : Type 0 where
  pub litlen_freq : List ℕ
  pub dist_freq : List ℕ

module _ (length_symbol distance_symbol : ℕ → Option ℕ) where
  unfoldable pub count_token : Token → Freqs → Option Freqs
  unfolding bump
  count_token t f =
      if is_literal t
      then (do litlen ← bump t.distance f.litlen_freq; some (record f { litlen_freq = litlen }))
      else (do
        lcode ← length_symbol t.length
        litlen ← bump lcode f.litlen_freq
        dcode ← distance_symbol t.distance
        dist ← bump dcode f.dist_freq
        some (record { litlen_freq = litlen; dist_freq = dist }))

  unfoldable pub count_tokens : List Token → Freqs → Option Freqs
  count_tokens [] f = some f
  count_tokens (t ∷ ts) f = count_token t f >>= count_tokens ts

  -- The end of the block counts once.
  unfoldable pub frequencies : List Token → Option Freqs
  unfolding bump
  frequencies tokens = do
    f ← count_tokens tokens (record { litlen_freq = replicate 286 0; dist_freq = replicate 30 0 })
    litlen ← bump 256 f.litlen_freq
    some (record f { litlen_freq = litlen })

-- `lens.iter().filter(|&&l| l > 0).count()`
unfoldable pub count_used : List ℕ → ℕ
count_used [] = 0
count_used (l ∷ ls) = if ltb 0 l then suc (count_used ls) else count_used ls

-- `lens.iter().position(|&l| l > 0)`, from `i` on, where there is one.
unfoldable pub first_used : ℕ → List ℕ → ℕ
first_used i [] = i
first_used i (l ∷ ls) = let later = first_used (i + 1) ls in if ltb 0 l then i else later

-- There have to be two distance codes.
unfoldable pub fix_dist : List ℕ → List ℕ
unfolding count_used first_used
fix_dist lens =
    if count_used lens == 0
    then set (set lens 0 1) 1 1
    else if count_used lens == 1
    then (let only = first_used 0 lens in set (set lens only 1) (1 - min only 1) 1)
    else lens

unfoldable pub fix_litlen : List ℕ → List ℕ
unfolding count_used
fix_litlen lens = if ltb (count_used lens) 2 then set (set lens 0 1) 256 1 else lens

abbrev pub meta_order : List ℕ
meta_order = 16 ∷ 17 ∷ 18 ∷ 0 ∷ 8 ∷ 7 ∷ 9 ∷ 6 ∷ 10 ∷ 5 ∷ 11 ∷ 4 ∷ 12 ∷ 3 ∷ 13 ∷ 2 ∷ 14 ∷ 1 ∷ 15 ∷ []

-- `while hclen_count > 4 && meta_lens[META_ORDER[hclen_count - 1]] == 0`
unfoldable pub hclen_loop : List ℕ → ℕ → ℕ
hclen_loop meta_lens zero = zero
hclen_loop meta_lens (suc n) =
    let less = hclen_loop meta_lens n in
    if ltb 4 (suc n) && (get_or meta_lens (get_or meta_order n 0) 0 == 0) then less else suc n

-- `for e in &rle { meta_freq[e.code as usize] += 1 }`
unfoldable pub count_codes : List RleEntry → List ℕ → Option (List ℕ)
count_codes [] freq = some freq
count_codes (e ∷ es) freq = bump e.code freq >>= count_codes es

pub record Plan : Type 0 where
  pub litlen_lens : List ℕ
  pub dist_lens : List ℕ
  pub litlen_codes : List ℕ
  pub dist_codes : List ℕ
  pub hlit : ℕ
  pub hdist : ℕ
  pub rle : List RleEntry
  pub meta_lens : List ℕ
  pub meta_codes : List ℕ
  pub hclen_count : ℕ

-- `combined`: the lengths that the header lists.
unfoldable pub listed_lengths : List ℕ → List ℕ → List ℕ
unfolding trim_to_min
listed_lengths litlen_lens dist_lens =
    take (trim_to_min litlen_lens 257) litlen_lens ++ take (trim_to_min dist_lens 1) dist_lens

-- From the lengths on. `encode` is the encoder's own `rle_encode_lengths`.
unfoldable pub plan_lengths : (List ℕ → List RleEntry) → List ℕ → List ℕ → Option (Option Plan)
unfolding listed_lengths
plan_lengths encode litlen_lens dist_lens =
    let rle = encode (listed_lengths litlen_lens dist_lens) in
    do
      meta_freq ← count_codes rle (replicate 19 0)
      trying (try_build_code_lengths meta_freq 7) (λ meta_lens. some (
          some (record {
            litlen_lens = litlen_lens;
            dist_lens = dist_lens;
            litlen_codes = canonical_codes litlen_lens;
            dist_codes = canonical_codes dist_lens;
            hlit = trim_to_min litlen_lens 257 - 257;
            hdist = trim_to_min dist_lens 1 - 1;
            rle = rle;
            meta_lens = meta_lens;
            meta_codes = canonical_codes meta_lens;
            hclen_count = hclen_loop meta_lens 19;
          })))

unfoldable pub plan_block : (List ℕ → List RleEntry) → Freqs → Option (Option Plan)
unfolding fix_litlen fix_dist plan_lengths
plan_block encode f = trying (try_build_code_lengths f.litlen_freq 15) (λ litlen.
    trying (try_build_code_lengths f.dist_freq 15)
      (λ dist. plan_lengths encode (fix_litlen litlen) (fix_dist dist)))
