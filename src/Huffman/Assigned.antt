-- ===== src/Huffman/Assigned.antt =====
-- `canonical_codes` gives each symbol its canonical code.
use gpzip.Prelude.{
  ℕ, zero, suc, ◌+◌, ◌%◌, ◌^◌, ◌≤◌, ◌<◌, ◌≡◌, refl, ap, sym, ◌∙◌, ltb, ◌==◌, true, false, List, [],
  ◌∷◌, All, length, get_or, take, replicate, length-replicate, length-set, arith,
}
use gpzip.Prelude.Bits.{two_pow-le}
use native.Mathlib.Decide.{ℕ_discrete}
use gpzip.Huffman.Canonical.{
  maximum, increment, count_lengths, first_codes, assign_codes, canonical_codes,
}
use gpzip.Huffman.Total.{maximum-le}
use gpzip.Huffman.Kraft.{Fits, get_or-set_other}
use gpzip.Huffman.Order.{count, first, first-Fits}
use gpzip.Huffman.FirstCodes.{
  get_or-replicate, get_or-increment_self, count_lengths-count, count_lengths-zero,
  first_codes-first, length-first_codes, Small,
}

assign_codes-count :
    (lens next : List ℕ) (s l : ℕ)
    → get_or lens s 0 ≡ l
    → 1 ≤ l
    → l < length next
    → get_or next l 0 + length lens < 2 ^ 32
    → get_or (assign_codes lens next) s 0 ≡ get_or next l 0 + count l (take s lens)
unfolding assign_codes count
assign_codes-count [] next s l e pos lt small = absurd (omega (arith, e))
assign_codes-count (x ∷ xs) next zero l e pos lt small =
    let t : ltb 0 x ≡ true = ground (arith, e) in rw (t, e) (omega arith)
assign_codes-count (zero ∷ xs) next (suc s) l e pos lt small =
    let ne : (zero == l) ≡ false = ground arith in
    rw ne (assign_codes-count xs next s l e pos lt (omega arith))
assign_codes-count (suc x ∷ xs) next (suc s) l e pos lt small =
    let t : ltb 0 (suc x) ≡ true = ground arith in
    let inside = length-set next (suc x) ((get_or next (suc x) 0 + 1) % 2 ^ 32) in
    elim (ℕ_discrete (suc x) l) [
      | yes same ↦
          let k : (suc x == l) ≡ true = ground (arith, same) in
          let at : get_or (increment next (suc x)) l 0 ≡ get_or next l 0 + 1 =
            rw same (get_or-increment_self next l lt (omega arith)) in
          rw (t, k)
            (assign_codes-count xs (increment next (suc x)) s l e pos (omega arith) (omega arith)
              ∙ omega arith)
      | no ne ↦
          let k : (suc x == l) ≡ false = ground (arith, ne) in
          let at : get_or (increment next (suc x)) l 0 ≡ get_or next l 0 =
            get_or-set_other next l (suc x) _ (λ j. ne (sym j)) in
          rw (t, k)
            (assign_codes-count xs (increment next (suc x)) s l e pos (omega arith) (omega arith)
              ∙ omega arith)
    ]

pub get_or-le-maximum : (lens : List ℕ) (s : ℕ) → get_or lens s 0 ≤ maximum lens
unfolding maximum
get_or-le-maximum [] s = omega arith
get_or-le-maximum (x ∷ xs) zero = ground arith
get_or-le-maximum (x ∷ xs) (suc s) = ground (arith, get_or-le-maximum xs s)

-- A symbol with a code gets the first code of its length, and the number of symbols before it with codes
-- of that length added.
pub canonical_codes-first :
    (m : ℕ) (lens : List ℕ) (s : ℕ)
    → m ≤ 30
    → All (λ l. l ≤ m) lens
    → length lens ≤ 512
    → Fits m lens
    → 0 < get_or lens s 0
    → get_or (canonical_codes lens) s 0
      ≡ first lens (get_or lens s 0) + count (get_or lens s 0) (take s lens)
unfolding canonical_codes
canonical_codes-first m lens s le low short fits pos =
    let most : ℕ = maximum lens in
    let l : ℕ = get_or lens s 0 in
    let below = maximum-le lens m low in
    let within = get_or-le-maximum lens s in
    let e : (most == 0) ≡ false = ground arith in
    let zeros : List ℕ = replicate (suc most) 0 in
    let long : length zeros ≡ suc most = length-replicate {A = ℕ} (suc most) 0 in
    let next : List ℕ = first_codes (count_lengths lens zeros) most 1 0 zeros in
    let no_wrap : Small lens most = λ k lo hi. small k lo (omega arith) in
    let at : get_or next l 0 ≡ first lens l =
      first_codes-first lens (count_lengths lens zeros) most most 0 0 zeros
        (
          count_lengths-zero lens zeros ∙ get_or-replicate (suc most) 0,
          λ k lo hi.
              let z = get_or-replicate (suc most) k in
              count_lengths-count lens zeros k lo (omega arith) (omega arith) ∙ omega arith,
        )
        no_wrap (omega arith) long (unfold first in refl) (λ k lo hi. absurd (omega arith)) l pos
        within in
    let bound = no_wrap l pos within in
    let size = length-first_codes (count_lengths lens zeros) most 1 0 zeros in
    rw e (
      assign_codes-count lens next s l refl pos (omega arith) (omega arith)
      ∙ ap (λ (k : ℕ). k + count l (take s lens)) at)
  where
    small : (k : ℕ) → 1 ≤ k → k ≤ m → first lens k + count k lens < 2 ^ 31
    small zero lo hi = absurd (omega arith)
    small (suc j) lo hi =
        let f = first-Fits m lens j fits hi in
        let b = two_pow-le (suc j) 30 (omega arith) in omega arith

count-take-lt :
    (l : ℕ) (lens : List ℕ) (s : ℕ)
    → s < length lens
    → get_or lens s 0 ≡ l
    → count l (take s lens) < count l lens
unfolding count
count-take-lt l [] s lt e = absurd (omega arith)
count-take-lt l (x ∷ xs) zero lt e =
    let t : (x == l) ≡ true = ground (arith, e) in rw t (omega arith)
count-take-lt l (x ∷ xs) (suc s) lt e = ground (arith, count-take-lt l xs s (omega arith) e)

-- The code of a symbol has no more bits than its length says.
pub code-Fits :
    (m : ℕ) (lens : List ℕ) (s j : ℕ)
    → Fits m lens
    → suc j ≤ m
    → s < length lens
    → get_or lens s 0 ≡ suc j
    → (first lens (suc j) + count (suc j) (take s lens) < first lens (suc j) + count (suc j) lens)
      × (first lens (suc j) + count (suc j) (take s lens) < 2 ^ suc j)
code-Fits m lens s j fits le lt e =
    let rank = count-take-lt (suc j) lens s lt e in
    let f = first-Fits m lens j fits le in (omega arith, omega arith)
