-- ===== src/Deflate/Dynamic/Counts.antt =====
-- Every symbol of the tokens is counted: no counter wraps, and none stays 0.
use gpzip.Prelude.{
  ℕ, zero, suc, ◌+◌, ◌%◌, ◌^◌, ◌≤◌, ◌<◌, ◌≡◌, refl, ◌∙◌, subst, inl, inr, ◌⊎◌, true, false, some,
  List, [], ◌∷◌, All, length, get_elem?, get_elem?-lt, get_or, set, replicate, length-replicate,
  length-set, arith,
}
use native.Mathlib.Decide.{ℕ_discrete}
use gpzip.Lz77.{Token, is_literal}
use gpzip.Huffman.Bounds.{All-set, All-replicate}
use gpzip.Huffman.Kraft.{get_or-set_self, get_or-set_other}
use gpzip.Deflate.Codes.{length_code, distance_code}
use gpzip.Deflate.Rows.{length_code-IsCode, distance_code-IsCode}
use gpzip.Deflate.TokenBits.{IsToken}
use gpzip.Deflate.Rle.{RleEntry}
use gpzip.Deflate.Dynamic.Plan.{Freqs, bump, count_token, count_tokens, frequencies, count_codes}
use gpzip.Deflate.Dynamic.Reference.{length_symbol, distance_symbol}

-- As many counters, each up to `k`.
pub record Counted (n k : ℕ) (freq : List ℕ) : Type 0 where
  pub enough : length freq ≡ n
  pub small : All (λ g. g ≤ k) freq

-- Every counter is as high or higher.
abbrev pub Grows : List ℕ → List ℕ → Type 0
Grows freq freq' = (s : ℕ) → 0 < get_or freq s 0 → 0 < get_or freq' s 0

pub zeros-Counted : (n : ℕ) → Counted n 0 (replicate n 0)
zeros-Counted n = record {
  enough = length-replicate n 0;
  small = All-replicate (λ g. g ≤ 0) n 0 (omega arith);
}

All-up : (k : ℕ) (xs : List ℕ) → All (λ g. g ≤ k) xs → All (λ g. g ≤ k + 1) xs
All-up k [] h = tt
All-up k (x ∷ xs) h = (omega arith, All-up k xs h.1)

Counted-up : (n k : ℕ) (freq : List ℕ) → Counted n k freq → Counted n (k + 1) freq
Counted-up n k freq c = record { enough = c.enough; small = All-up k freq c.small }

at :
    (k : ℕ) (xs : List ℕ) (i x : ℕ)
    → All (λ g. g ≤ k) xs
    → get_elem? xs i ≡ some x
    → (x ≤ k) × (get_or xs i 0 ≡ x)
at k [] i x h e = absurd cc
at k (y ∷ ys) zero x h e = let same : y ≡ x = cc in (omega arith, same)
at k (y ∷ ys) (suc i) x h e = at k ys i x h.1 e

pub bump_counts :
    (n k i : ℕ) (freq : List ℕ)
    → i < n
    → k + 1 < 2 ^ 32
    → Counted n k freq
    → (freq' : List ℕ) × (bump i freq ≡ some freq')
      × Counted n (k + 1) freq'
      × (0 < get_or freq' i 0)
      × Grows freq freq'
unfolding bump
bump_counts n k i freq lt room c =
    let (x, e) = get_elem?-lt i freq (omega (arith, c.enough)) in
    let (le, held) = at k freq i x c.small e in
    let next : ℕ = (x + 1) % 2 ^ 32 in
    let here = get_or-set_self freq i next (omega (arith, c.enough)) in
    (
      set freq i next,
      rw e refl,
      record {
        enough = length-set freq i next ∙ c.enough;
        small = All-set (λ g. g ≤ k + 1) freq i next (All-up k freq c.small) (omega arith);
      },
      omega arith,
      λ s h. elim (ℕ_discrete s i) [
        | yes same ↦ rw same (omega arith)
        | no ne ↦ let other = get_or-set_other freq s i next ne in omega arith
      ],
    )

-- The token's symbols have entries above 0.
abbrev pub Has : List ℕ → List ℕ → Token → Type 0
Has litlen dist t =
    ((t.length ≡ 0) × (0 < get_or litlen t.distance 0))
    ⊎ (((3 ≤ t.length) × (t.length ≤ 258) × (1 ≤ t.distance) × (t.distance ≤ 32768))
        × (0 < get_or litlen (length_code t.length).0 0)
        × (0 < get_or dist (distance_code t.distance).0 0))

pub Has-Grows :
    (litlen litlen' dist dist' : List ℕ) (ts : List Token)
    → Grows litlen litlen'
    → Grows dist dist'
    → All (Has litlen dist) ts
    → All (Has litlen' dist') ts
Has-Grows litlen litlen' dist dist' [] gl gd h = tt
Has-Grows litlen litlen' dist dist' (t ∷ ts) gl gd h = (
  elim h.0 [
    | inl (e, k) ↦ inl (e, gl t.distance k)
    | inr (r, k, k') ↦ inr (r, gl (length_code t.length).0 k, gd (distance_code t.distance).0 k')
  ],
  Has-Grows litlen litlen' dist dist' ts gl gd h.1,
)

abbrev CountedBoth : ℕ → Freqs → Type 0
CountedBoth k f = Counted 286 k f.litlen_freq × Counted 30 k f.dist_freq

abbrev GrowBoth : Freqs → Freqs → Type 0
GrowBoth f f' = Grows f.litlen_freq f'.litlen_freq × Grows f.dist_freq f'.dist_freq

count_token_counts :
    (t : Token) (k : ℕ) (f : Freqs)
    → IsToken t
    → k + 1 < 2 ^ 32
    → CountedBoth k f
    → (f' : Freqs) × (count_token length_symbol distance_symbol t f ≡ some f')
      × CountedBoth (k + 1) f'
      × GrowBoth f f'
      × Has f'.litlen_freq f'.dist_freq t
unfolding count_token
count_token_counts t k f (inl (l, d)) room (cl, cd) =
    let e : is_literal t ≡ true = ground arith in
    let (litlen, ran, c, pos, grows) =
      bump_counts 286 k t.distance f.litlen_freq (omega arith) room cl in
    (
      record f { litlen_freq = litlen },
      rw (e, ran) refl,
      (c, Counted-up 30 k f.dist_freq cd),
      (grows, λ s h. h),
      inl (l, pos),
    )
count_token_counts t k f (inr (l₁, l₂, d₁, d₂)) room (cl, cd) =
    let e : is_literal t ≡ false = ground arith in
    let sl = (length_code-IsCode t.length l₁ l₂).symbol in
    let sd = (distance_code-IsCode t.distance d₁ d₂).symbol in
    let (litlen, ran, c, pos, grows) =
      bump_counts 286 k (length_code t.length).0 f.litlen_freq (omega arith) room cl in
    let (dist, ran', c', pos', grows') =
      bump_counts 30 k (distance_code t.distance).0 f.dist_freq (omega arith) room cd in
    (
      record { litlen_freq = litlen; dist_freq = dist },
      rw (e, ran, ran') refl,
      (c, c'),
      (grows, grows'),
      inr ((l₁, l₂, d₁, d₂), pos, pos'),
    )

count_tokens_counts :
    (ts : List Token) (k : ℕ) (f : Freqs)
    → All IsToken ts
    → k + length ts < 2 ^ 32
    → CountedBoth k f
    → (f' : Freqs) × (count_tokens length_symbol distance_symbol ts f ≡ some f')
      × CountedBoth (k + length ts) f'
      × GrowBoth f f'
      × All (Has f'.litlen_freq f'.dist_freq) ts
unfolding count_tokens
count_tokens_counts [] k f h room c =
    let e : k ≡ k + 0 = omega arith in
    (f, refl, subst (λ j. CountedBoth j f) e c, (λ s p. p, λ s p. p), tt)
count_tokens_counts (t ∷ ts) k f (h, hs) room c =
    let (mid, ran, c₁, g₁, has) = count_token_counts t k f h (omega arith) c in
    let (f', ran', c₂, g₂, all) = count_tokens_counts ts (k + 1) mid hs (omega arith) c₁ in
    let e : k + 1 + length ts ≡ k + suc (length ts) = omega arith in
    let kept =
      Has-Grows mid.litlen_freq f'.litlen_freq mid.dist_freq f'.dist_freq (t ∷ []) g₂.0 g₂.1
        (has, tt) in
    (
      f',
      rw ran ran',
      subst (λ j. CountedBoth j f') e c₂,
      (λ s p. g₂.0 s (g₁.0 s p), λ s p. g₂.1 s (g₁.1 s p)),
      (kept.0, all),
    )

-- Fewer than 2^32 - 1 tokens leave an entry above 0 for each of their symbols, and for the end.
pub frequencies_counts :
    (tokens : List Token)
    → All IsToken tokens
    → length tokens + 1 < 2 ^ 32
    → (f : Freqs) × (frequencies length_symbol distance_symbol tokens ≡ some f)
      × All (Has f.litlen_freq f.dist_freq) tokens
      × (0 < get_or f.litlen_freq 256 0)
unfolding frequencies
frequencies_counts tokens h room =
    let (mid, ran, (cl, cd), grow, all) =
      count_tokens_counts tokens 0 zeros h (omega arith) (zeros-Counted 286, zeros-Counted 30) in
    let (litlen, ran', c, pos, grows) =
      bump_counts 286 (0 + length tokens) 256 mid.litlen_freq (omega arith) (omega arith) cl in
    (
      record mid { litlen_freq = litlen },
      rw (ran, ran') refl,
      Has-Grows mid.litlen_freq litlen mid.dist_freq mid.dist_freq tokens grows (λ s p. p) all,
      pos,
    )
  where
    zeros : Freqs
    zeros = record { litlen_freq = replicate 286 0; dist_freq = replicate 30 0 }

-- The symbols of the run-length form.
pub count_codes_counts :
    (es : List RleEntry) (k : ℕ) (freq : List ℕ)
    → All (λ e. e.code < 19) es
    → k + length es < 2 ^ 32
    → Counted 19 k freq
    → (freq' : List ℕ) × (count_codes es freq ≡ some freq')
      × Grows freq freq'
      × All (λ e. 0 < get_or freq' e.code 0) es
unfolding count_codes
count_codes_counts [] k freq h room c = (freq, refl, λ s p. p, tt)
count_codes_counts (e ∷ es) k freq (h, hs) room c =
    let (mid, ran, c₁, pos, g₁) = bump_counts 19 k e.code freq h (omega arith) c in
    let (freq', ran', g₂, all) = count_codes_counts es (k + 1) mid hs (omega arith) c₁ in
    (freq', rw ran ran', λ s p. g₂ s (g₁ s p), (g₂ e.code pos, all))
