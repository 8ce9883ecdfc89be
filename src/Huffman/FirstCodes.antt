-- ===== src/Huffman/FirstCodes.antt =====
-- `bl_count` and `next_code` of `canonical_codes`: how many codes there are of each length, and the first.
use gpzip.Prelude.{
  ℕ, zero, suc, ◌+◌, ◌-◌, ◌*◌, ◌%◌, ◌^◌, ◌≤◌, ◌<◌, ◌≡◌, refl, ap, sym, ◌∙◌, ltb, ◌==◌, true, false,
  List, [], ◌∷◌, length, get_or, set, replicate, length-set, arith,
}
use native.Mathlib.Decide.{ℕ_discrete}
use gpzip.Huffman.Canonical.{increment, count_lengths, first_codes}
use gpzip.Huffman.Kraft.{get_or-set_self, get_or-set_other}
use gpzip.Huffman.Order.{count, first}

pub get_or-replicate : (n i : ℕ) → ◌≡◌ {A = ℕ} (get_or (replicate n 0) i 0) 0
get_or-replicate zero i = refl
get_or-replicate (suc n) zero = refl
get_or-replicate (suc n) (suc i) = get_or-replicate n i

pub get_or-increment_self :
    (xs : List ℕ) (i : ℕ)
    → i < length xs
    → get_or xs i 0 + 1 < 2 ^ 32
    → get_or (increment xs i) i 0 ≡ get_or xs i 0 + 1
get_or-increment_self xs i lt small =
    get_or-set_self xs i ((get_or xs i 0 + 1) % 2 ^ 32) lt ∙ omega arith

count-le : (l : ℕ) (lens : List ℕ) → count l lens ≤ length lens
unfolding count
count-le l [] = omega arith
count-le l (x ∷ xs) = ground (arith, count-le l xs)

-- Every length above 0 has been counted.
pub count_lengths-count :
    (lens bl : List ℕ) (l : ℕ)
    → 1 ≤ l
    → l < length bl
    → get_or bl l 0 + length lens < 2 ^ 32
    → get_or (count_lengths lens bl) l 0 ≡ get_or bl l 0 + count l lens
unfolding count_lengths count
count_lengths-count [] bl l pos lt small = omega arith
count_lengths-count (zero ∷ xs) bl l pos lt small =
    let ne : (zero == l) ≡ false = ground arith in
    rw ne (count_lengths-count xs bl l pos lt (omega arith))
count_lengths-count (suc x ∷ xs) bl l pos lt small =
    let e : ltb 0 (suc x) ≡ true = ground arith in
    let inside = length-set bl (suc x) ((get_or bl (suc x) 0 + 1) % 2 ^ 32) in
    elim (ℕ_discrete (suc x) l) [
      | yes same ↦
          let t : (suc x == l) ≡ true = ground (arith, same) in
          let at : get_or (increment bl (suc x)) l 0 ≡ get_or bl l 0 + 1 =
            rw same (get_or-increment_self bl l lt (omega arith)) in
          rw (e, t)
            (count_lengths-count xs (increment bl (suc x)) l pos (omega arith) (omega arith)
              ∙ omega arith)
      | no ne ↦
          let t : (suc x == l) ≡ false = ground (arith, ne) in
          let at : get_or (increment bl (suc x)) l 0 ≡ get_or bl l 0 =
            get_or-set_other bl l (suc x) _ (λ k. ne (sym k)) in
          rw (e, t)
            (count_lengths-count xs (increment bl (suc x)) l pos (omega arith) (omega arith)
              ∙ omega arith)
    ]

pub count_lengths-zero : (lens bl : List ℕ) → get_or (count_lengths lens bl) 0 0 ≡ get_or bl 0 0
unfolding count_lengths
count_lengths-zero [] bl = refl
count_lengths-zero (zero ∷ xs) bl = count_lengths-zero xs bl
count_lengths-zero (suc x ∷ xs) bl =
    let e : ltb 0 (suc x) ≡ true = ground arith in
    rw e (
      count_lengths-zero xs (increment bl (suc x))
      ∙ get_or-set_other bl 0 (suc x) _ (λ k. absurd (omega (arith, k))))

-- `bl_count`, with 0 for the length 0.
abbrev Counted : List ℕ → ℕ → List ℕ → Type 0
Counted lens most bl =
    (get_or bl 0 0 ≡ 0) × ((l : ℕ) → 1 ≤ l → l ≤ most → get_or bl l 0 ≡ count l lens)

-- The sums do not wrap.
abbrev pub Small : List ℕ → ℕ → Type 0
Small lens most = (l : ℕ) → 1 ≤ l → l ≤ most → first lens l + count l lens < 2 ^ 31

first_code :
    (lens bl : List ℕ) (most b : ℕ)
    → Counted lens most bl
    → Small lens most
    → b ≤ most
    → (first lens b + get_or bl b 0) * 2 % 2 ^ 32 ≡ first lens (suc b)
unfolding first
first_code lens bl most zero (z, c) small le = rw z refl
first_code lens bl most (suc b) (z, c) small le =
    let e = c (suc b) (omega arith) le in
    let s = small (suc b) (omega arith) le in rw e (omega arith)

pub first_codes-first :
    (lens bl : List ℕ) (most left b code : ℕ) (next : List ℕ)
    → Counted lens most bl
    → Small lens most
    → b + left ≡ most
    → length next ≡ suc most
    → code ≡ first lens b
    → ((l : ℕ) → 1 ≤ l → l ≤ b → get_or next l 0 ≡ first lens l)
    → (l : ℕ) → 1 ≤ l
    → l ≤ most
    → get_or (first_codes bl left (b + 1) code next) l 0 ≡ first lens l
unfolding first_codes
first_codes-first lens bl most zero b code next c small sum long e done l lo hi =
    done l lo (omega arith)
first_codes-first lens bl most (suc left) b code next c small sum long e done l lo hi =
    let back : b + 1 - 1 ≡ b = omega arith in
    let code' : ℕ = (code + get_or bl (b + 1 - 1) 0) * 2 % 2 ^ 32 in
    let same : code' ≡ first lens (b + 1) =
      rw (e, back)
        (first_code lens bl most b c small (omega arith) ∙ ap (first lens) (omega arith)) in
    first_codes-first lens bl most left (b + 1) code' (set next (b + 1) code') c small (omega arith)
      (length-set next (b + 1) code' ∙ long) same
      (λ k lo' hi'. elim (ℕ_discrete k (b + 1)) [
        | yes at ↦ rw at (get_or-set_self next (b + 1) code' (omega arith) ∙ same)
        | no ne ↦ get_or-set_other next k (b + 1) code' ne ∙ done k lo' (omega arith)
      ])
      l lo hi

pub length-first_codes :
    (bl : List ℕ) (left bits code : ℕ) (next : List ℕ)
    → length (first_codes bl left bits code next) ≡ length next
unfolding first_codes
length-first_codes bl zero bits code next = refl
length-first_codes bl (suc left) bits code next =
    let code' : ℕ = (code + get_or bl (bits - 1) 0) * 2 % 2 ^ 32 in
    length-first_codes bl left (bits + 1) code' (set next bits code') ∙ length-set next bits code'
