-- ===== src/Huffman/Balanced.antt =====
-- Symbols that are all as frequent as one another: the tree of huffman.rs is balanced.
use gpzip.Prelude.{
  ℕ, zero, suc, ◌+◌, ◌*◌, ◌^◌, ◌≤◌, ◌<◌, ◌≡◌, ◌≢◌, refl, sym, ◌∙◌, subst, leb, Bool-cases, ◌⊎◌,
  false, inl, inr, some, List, [], ◌∷◌, All, length, get_elem?-All, arith,
}
use gpzip.Prelude.Bits.{two_pow-le}
use native.Mathlib.Nat.{pow-suc, one-le-pow}
use gpzip.Huffman.Tree.{Node, before, push, push_leaves, standard_huffman, at_least_one}
use gpzip.Huffman.Lengths.{used_symbols, ceil_log2}
use gpzip.Huffman.Merging.{push-All, push_leaves-All, length-push_leaves, standard_huffman-le}

pub ceil_log2-le : (fuel k n j : ℕ) → k ≤ j → n ≤ 2 ^ j → ceil_log2 fuel k n ≤ j
unfolding ceil_log2
ceil_log2-le zero k n j le h = le
ceil_log2-le (suc fuel) k n j le h = elim (Bool-cases (leb n (2 ^ k))) [
  | inl e ↦ rw (e, ceil_log2) le
  | inr e ↦
      let far : k ≢ j =
        λ same. absurd (let h' : n ≤ 2 ^ k = rw (← same) at h in ground (arith, e, h')) in
      rw (e, ceil_log2) (ceil_log2-le fuel (k + 1) n j (omega arith) h)
]

lt_of_two_pow : (a b : ℕ) → 2 ^ a < 2 ^ b → a < b
lt_of_two_pow a b h = elim (Bool-cases (leb b a)) [
  | inl e ↦ absurd (let low = two_pow-le b a (ground (arith, e)) in omega arith)
  | inr e ↦ ground (arith, e)
]

pub ceil_log2-gt : (fuel k n j : ℕ) → 2 ^ j < n → j < k + fuel → j < ceil_log2 fuel k n
unfolding ceil_log2
ceil_log2-gt zero k n j h lt = omega arith
ceil_log2-gt (suc fuel) k n j h lt = elim (Bool-cases (leb n (2 ^ k))) [
  | inl e ↦
      rw (e, ceil_log2) (let le : n ≤ 2 ^ k = ground (arith, e) in lt_of_two_pow j k (omega arith))
  | inr e ↦ rw (e, ceil_log2) (ceil_log2-gt fuel (k + 1) n j h (omega arith))
]

lt-two_pow : (j : ℕ) → j < 2 ^ j
lt-two_pow zero = omega arith
lt-two_pow (suc j) = let e = pow-suc 2 j in omega (arith, lt-two_pow j)

-- The bits that `n` symbols need.
abbrev pub bits_for : ℕ → ℕ
bits_for n = ceil_log2 n 0 n

pub bits_for-le : (n j : ℕ) → n ≤ 2 ^ j → bits_for n ≤ j
bits_for-le n j h = ceil_log2-le n 0 n j (omega arith) h

pub bits_for-gt : (n j : ℕ) → 2 ^ j < n → j < bits_for n
bits_for-gt n j h = ceil_log2-gt n 0 n j h (omega (arith, lt-two_pow j))

-- The frequencies of the heap from the front: some are `p`, one may lie between `p` and `2 * p`, and
-- the others are `2 * p`.
abbrev Mixed : ℕ → List Node → Type 0
Mixed p [] = Unit {0}
Mixed p (x ∷ xs) =
    ((x.0 ≡ p) × Mixed p xs) ⊎ ((p < x.0) × (x.0 ≤ 2 * p) × All (λ y. y.0 ≡ 2 * p) xs)

-- The largest node goes to the end.
push_largest-Mixed :
    (p f i : ℕ) (heap : List Node)
    → p < f
    → f ≤ 2 * p
    → All (λ y. y.0 ≡ p) heap
    → Mixed p (push (f, i) heap)
unfolding push
push_largest-Mixed p f i [] lo hi h = inr (lo, hi, tt)
push_largest-Mixed p f i ((g, j) ∷ ys) lo hi h =
    let e : before (f, i) (g, j) ≡ false = unfold before in ground (arith, h.0) in
    rw (e, push) (inl (h.0, push_largest-Mixed p f i ys lo hi h.1))

push_double-Mixed :
    (p f i : ℕ) (heap : List Node) → 0 < p → f ≡ 2 * p → Mixed p heap → Mixed p (push (f, i) heap)
unfolding push
push_double-Mixed p f i [] pos e h = inr (omega arith, omega arith, tt)
push_double-Mixed p f i ((g, j) ∷ ys) pos e (inl (low, h)) =
    let k : before (f, i) (g, j) ≡ false = unfold before in ground (arith, low) in
    rw (k, push) (inl (low, push_double-Mixed p f i ys pos e h))
push_double-Mixed p f i ((g, j) ∷ ys) pos e (inr (lo, hi, h)) =
    elim (Bool-cases (before (f, i) (g, j))) [
      | inl k ↦
          let same : g ≡ 2 * p = unfold before in ground (arith, k) in
          rw (k, push) (inr (omega arith, omega arith, (same, h)))
      | inr k ↦ rw (k, push) (inr (lo, hi, push-All (λ y. y.0 ≡ 2 * p) (f, i) ys e h))
    ]

unfoldable pub total : List Node → ℕ
total [] = 0
total (x ∷ xs) = x.0 + total xs

pub total-push : (x : Node) (heap : List Node) → total (push x heap) ≡ x.0 + total heap
unfolding push total
total-push x [] = refl
total-push x (y ∷ ys) = elim (Bool-cases (before x y)) [
  | inl e ↦ rw (e, push) refl
  | inr e ↦ rw (e, push) (omega (arith, total-push x ys))
]

-- The heap in each phase, with the symbols that its nodes stand for together.
abbrev Even : ℕ → List Node → Type 0
Even n heap = (k : ℕ) × Mixed (2 ^ k) heap × (total heap ≡ n)

abbrev height : Node → ℕ
height x = bits_for x.0

-- Merging the first two nodes keeps the phase or comes to the next, and needs one bit more.
join :
    (n : ℕ) (x y : Node) (heap : List Node) (next : ℕ)
    → x.1 < next
    → y.1 < next
    → Even n (x ∷ (y ∷ heap))
    → Even n (push (x.0 + y.0, next) heap)
      × (height x < height (x.0 + y.0, next))
      × (height y < height (x.0 + y.0, next))
unfolding total
join n x y heap next lx ly (k, mixed, sum) = go mixed
  where
    p : ℕ
    p = 2 ^ k

    twice : 2 ^ suc k ≡ 2 * p
    twice = omega (arith, pow-suc 2 k)

    pos : 0 < p
    pos = one-le-pow k 2 (omega arith)

    counted : total (push (x.0 + y.0, next) heap) ≡ n
    counted = total-push (x.0 + y.0, next) heap ∙ omega (arith, sum)

    -- Both are the least there can be.
    same_phase : x.0 ≡ p → y.0 ≡ p → Mixed p heap → Even n (push (x.0 + y.0, next) heap)
    same_phase ex ey h =
        (k, push_double-Mixed p (x.0 + y.0) next heap pos (omega (arith, ex, ey)) h, counted)

    next_phase :
        2 * p < x.0 + y.0
        → x.0 + y.0 ≤ 2 * (2 * p)
        → All (λ z. z.0 ≡ 2 * p) heap
        → Even n (push (x.0 + y.0, next) heap)
    next_phase lo hi h = (
      suc k,
      subst (λ q. Mixed q (push (x.0 + y.0, next) heap)) (sym twice)
          (push_largest-Mixed (2 * p) (x.0 + y.0) next heap lo hi h),
      counted,
    )

    higher :
        (j : ℕ)
        → x.0 ≤ 2 ^ j
        → y.0 ≤ 2 ^ j
        → 2 ^ j < x.0 + y.0
        → (height x < height (x.0 + y.0, next)) × (height y < height (x.0 + y.0, next))
    higher j hx hy h =
        let lx = bits_for-le x.0 j hx in
        let ly = bits_for-le y.0 j hy in
        let g = bits_for-gt (x.0 + y.0) j h in (omega arith, omega arith)

    go :
        Mixed p (x ∷ (y ∷ heap))
        → Even n (push (x.0 + y.0, next) heap)
          × (height x < height (x.0 + y.0, next))
          × (height y < height (x.0 + y.0, next))
    go (inl (ex, inl (ey, h))) =
        let up = higher k (omega (arith, ex)) (omega (arith, ey)) (omega (arith, ex, ey, pos)) in
        (same_phase ex ey h, up.0, up.1)
    go (inl (ex, inr (lo, hi, h))) =
        let up =
          higher (suc k) (omega (arith, ex, twice)) (omega (arith, hi, twice))
            (omega (arith, ex, lo, twice)) in
        (next_phase (omega (arith, ex, lo)) (omega (arith, ex, hi)) h, up.0, up.1)
    go (inr (lo, hi, (ey, h))) =
        let up =
          higher (suc k) (omega (arith, hi, twice)) (omega (arith, ey, twice))
            (omega (arith, ey, lo, twice)) in
        (next_phase (omega (arith, ey, lo)) (omega (arith, ey, hi)) h, up.0, up.1)

-- Leaves that all count once.
ones-Mixed : (heap : List Node) → All (λ x. x.0 ≡ 1) heap → Mixed (2 ^ 0) heap
ones-Mixed [] h = tt
ones-Mixed (x ∷ xs) h = inl (h.0, ones-Mixed xs h.1)

ones-total : (heap : List Node) → All (λ x. x.0 ≡ 1) heap → total heap ≡ length heap
unfolding total
ones-total [] h = refl
ones-total (x ∷ xs) h = omega (arith, h.0, ones-total xs h.1)

-- With frequencies of 0 and 1, two or more of them 1, no length is above the bits that so many symbols
-- need.
pub standard_huffman-balanced :
    (freq : List ℕ)
    → All (λ f. f < 2) freq
    → 2 ≤ length (used_symbols 0 freq)
    → (lens : List ℕ) × (standard_huffman freq ≡ some lens)
      × All (λ l. l ≤ bits_for (length (used_symbols 0 freq))) lens
unfolding total
standard_huffman-balanced freq small used =
    let (root, lens, built, (k, _, sum), low) =
      standard_huffman-le height (Even n) (join n) freq (omega arith)
        (0, ones-Mixed leaves once, ones-total leaves once ∙ count) in
    let whole : root.0 ≡ n = omega (arith, sum) in
    let e : at_least_one (height root) ≡ bits_for n =
      rw whole (let many = bits_for-gt n 0 (omega arith) in ground arith) in
    (lens, built, subst (λ m. All (λ l. l ≤ m) lens) e low)
  where
    n : ℕ
    n = length (used_symbols 0 freq)

    leaves : List Node
    leaves = push_leaves 0 freq []

    count : length leaves ≡ n
    count = length-push_leaves 0 freq [] ∙ omega arith

    once : All (λ x. x.0 ≡ 1) leaves
    once =
        push_leaves-All (λ x. x.0 ≡ 1) 0 freq []
          (λ k f found pos.
            let lt : f < 2 = get_elem?-All (λ g. g < 2) freq k f small found in omega arith)
          tt
