-- ===== src/Huffman/Kraft.antt =====
-- The sum of Kraft over the code lengths of a tree: codes of these lengths fit side by side.
use gpzip.Prelude.{
  ℕ, zero, suc, ◌+◌, ◌-◌, ◌*◌, ◌%◌, ◌^◌, ◌≤◌, ◌<◌, ◌≡◌, ◌≢◌, refl, ap, ◌∙◌, ltb, ◌⊎◌, inl, inr,
  true, false, some, List, [], ◌∷◌, ◌++◌, length, get_or, set, length-set, arith,
}
use gpzip.Prelude.Bits.{two_pow-le}
use native.Mathlib.Nat.{pow-suc}
use gpzip.Huffman.Tree.{Children, walk, at_least_one}
use gpzip.Huffman.Forest.{IsTree, leaf, fork}

abbrev pub In : ℕ → List ℕ → Type 0
In s [] = ⊥
In s (x ∷ xs) = (s ≡ x) ⊎ In s xs

pub In-append : (s : ℕ) (xs ys : List ℕ) → In s (xs ++ ys) → In s xs ⊎ In s ys
In-append s [] ys h = inr h
In-append s (x ∷ xs) ys (inl e) = inl (inl e)
In-append s (x ∷ xs) ys (inr h) = elim (In-append s xs ys h) [ inl a ↦ inl (inr a) | inr b ↦ inr b ]

pub In-left : (s : ℕ) (xs ys : List ℕ) → In s xs → In s (xs ++ ys)
In-left s [] ys h = absurd h
In-left s (x ∷ xs) ys (inl e) = inl e
In-left s (x ∷ xs) ys (inr h) = inr (In-left s xs ys h)

pub In-right : (s : ℕ) (xs ys : List ℕ) → In s ys → In s (xs ++ ys)
In-right s [] ys h = h
In-right s (x ∷ xs) ys h = inr (In-right s xs ys h)

-- What a code of `l` bits takes of `2 ^ m`, and no code takes nothing.
abbrev pub share : ℕ → ℕ → ℕ
share m zero = 0
share m (suc l) = 2 ^ (m - suc l)

pub share-le : (m l : ℕ) → share m l ≤ 2 ^ (m - l)
share-le m zero = omega arith
share-le m (suc l) = omega arith

abbrev pub weight : ℕ → List ℕ → ℕ
weight m [] = 0
weight m (l ∷ ls) = share m l + weight m ls

-- Codes of these lengths fit.
abbrev pub Fits : ℕ → List ℕ → Type 0
Fits m lens = weight m lens ≤ 2 ^ m

pub weight-set :
    (m : ℕ) (xs : List ℕ) (i v : ℕ)
    → i < length xs
    → weight m (set xs i v) + share m (get_or xs i 0) ≡ weight m xs + share m v
weight-set m [] i v lt = absurd (omega arith)
weight-set m (x ∷ xs) zero v lt = omega arith
weight-set m (x ∷ xs) (suc i) v lt = omega (arith, weight-set m xs i v (omega arith))

pub weight-set-le :
    (m : ℕ) (xs : List ℕ) (i v : ℕ) → weight m (set xs i v) ≤ weight m xs + share m v
weight-set-le m [] i v = omega arith
weight-set-le m (x ∷ xs) zero v = omega arith
weight-set-le m (x ∷ xs) (suc i) v = omega (arith, weight-set-le m xs i v)

pub get_or-set_self : (xs : List ℕ) (i v : ℕ) → i < length xs → get_or (set xs i v) i 0 ≡ v
get_or-set_self [] i v lt = absurd (omega arith)
get_or-set_self (x ∷ xs) zero v lt = refl
get_or-set_self (x ∷ xs) (suc i) v lt = get_or-set_self xs i v (omega arith)

pub get_or-set_other : (xs : List ℕ) (i j v : ℕ) → i ≢ j → get_or (set xs j v) i 0 ≡ get_or xs i 0
get_or-set_other [] i j v ne = refl
get_or-set_other (x ∷ xs) zero zero v ne = absurd (ne refl)
get_or-set_other (x ∷ xs) zero (suc j) v ne = refl
get_or-set_other (x ∷ xs) (suc i) zero v ne = refl
get_or-set_other (x ∷ xs) (suc i) (suc j) v ne = get_or-set_other xs i j v (λ e. ne (ap suc e))

pub get_or-lt : (s : ℕ) (xs : List ℕ) → 0 < get_or xs s 0 → s < length xs
get_or-lt s [] k = absurd (omega arith)
get_or-lt zero (x ∷ xs) k = omega arith
get_or-lt (suc s) (x ∷ xs) k = omega (arith, get_or-lt s xs k)

-- A write of a length that is not 0 keeps what is not 0.
pub set-pos : (xs : List ℕ) (i v s : ℕ) → 0 < v → 0 < get_or xs s 0 → 0 < get_or (set xs i v) s 0
set-pos [] i v s pos h = h
set-pos (x ∷ xs) zero v zero pos h = pos
set-pos (x ∷ xs) zero v (suc s) pos h = h
set-pos (x ∷ xs) (suc i) v zero pos h = h
set-pos (x ∷ xs) (suc i) v (suc s) pos h = set-pos xs i v s pos h

-- The walk over a tree of less than 256 levels gives its leaves lengths that fit below the tree's own
-- depth.
pub walk_fits :
    (fuel : ℕ) {n next : ℕ} {c : Children} {i h : ℕ} {ls : List ℕ} (m depth : ℕ) (lens : List ℕ)
    → IsTree n next c i h ls
    → i < fuel
    → 1 ≤ m
    → m < 256
    → depth + h ≤ m
    → (lens' : List ℕ) × (walk fuel i depth c n lens ≡ some lens')
      × (length lens' ≡ length lens)
      × (weight m lens' ≤ weight m lens + 2 ^ (m - depth))
      × ((s : ℕ) → 0 < get_or lens s 0 → 0 < get_or lens' s 0)
      × ((s : ℕ) → In s ls → s < length lens → 0 < get_or lens' s 0)
unfolding walk
walk_fits zero m depth lens t lt pos byte deep = absurd (omega arith)
walk_fits (suc fuel) {n = n} {i = i} m depth lens (leaf lo) lt pos byte deep =
    let e : ltb i n ≡ true = ground arith in
    let v : ℕ = at_least_one depth % 2 ^ 8 in
    let some_bits : 0 < v = ground arith in
    let low : depth ≤ v = ground arith in
    let room : 2 ^ (m - v) ≤ 2 ^ (m - depth) = two_pow-le (m - v) (m - depth) (omega arith) in
    (
      set lens i v,
      rw e refl,
      length-set lens i v,
      omega (arith, weight-set-le m lens i v, share-le m v),
      λ s h. set-pos lens i v s some_bits h,
      λ s h inside. elim h [
        | inl same ↦ let at = get_or-set_self lens i v (omega arith) in rw same (omega arith)
        | inr no_more ↦ absurd no_more
      ],
    )
walk_fits (suc fuel) {n = n} {i = i} m depth lens
      (fork {h = h} {ls = ls} {rs = rs} lo hi x y el er tl tr) lt pos byte deep =
    let e : ltb i n ≡ false = ground arith in
    let (mid, ran, len, fit, kept, set_l) =
      walk_fits fuel m (depth + 1) lens tl (omega arith) pos byte (omega arith) in
    let (last, ran', len', fit', kept', set_r) =
      walk_fits fuel m (depth + 1) mid tr (omega arith) pos byte (omega arith) in
    let width : m - depth ≡ suc (m - (depth + 1)) = omega arith in
    let halves : 2 ^ (m - depth) ≡ 2 ^ (m - (depth + 1)) * 2 =
      ap (λ (k : ℕ). 2 ^ k) width ∙ pow-suc 2 (m - (depth + 1)) in
    (
      last,
      rw (e, el, er, ran) ran',
      len' ∙ len,
      omega arith,
      λ s k. kept' s (kept s k),
      λ s k inside. elim (In-append s ls rs k) [
        | inl a ↦ kept' s (set_l s a inside)
        | inr b ↦ set_r s b (omega arith)
      ],
    )
