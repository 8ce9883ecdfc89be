-- ===== src/Huffman/Leaves.antt =====
-- The leaves of a Huffman tree: every symbol in use is one, and the lengths of all fit side by side.
use gpzip.Prelude.{
  ℕ, zero, suc, ◌+◌, ◌*◌, ◌/◌, ◌^◌, ◌≤◌, ◌<◌, ◌≡◌, refl, ◌∙◌, ltb, leb, Bool-cases, inl, inr, ◌⊎◌,
  true, false, some, if◌then◌else◌, List, [], ◌∷◌, All, length, get_or, get_elem?-some_lt,
  replicate, length-replicate, arith,
}
use gpzip.Prelude.Bits.{two_pow-le}
use gpzip.Huffman.Tree.{
  Node, Children, before, push, push_leaves, no_children, leaf_depths, standard_huffman,
}
use gpzip.Huffman.Lengths.{used_symbols}
use gpzip.Huffman.Forest.{IsTree}
use gpzip.Huffman.Merging.{push_leaves-All, length-push_leaves}
use gpzip.Huffman.Balanced.{total, total-push}
use gpzip.Huffman.Total.{AreU32}
use gpzip.Huffman.Kraft.{In, get_or-lt, In-append, Fits, weight, walk_fits}
use gpzip.Huffman.Growth.{
  fib, two_pow-fib, Sorted, push-Sorted, Forest, bare, plant, Grown, merge_loop-Grown,
}

-- The leaves, before any two are merged.
ids : List Node → List ℕ
ids [] = []
ids (x ∷ xs) = x.1 ∷ ids xs

In-push : (s : ℕ) (x : Node) (heap : List Node) → In s (x.1 ∷ ids heap) → In s (ids (push x heap))
unfolding push ids
In-push s x [] h = h
In-push s x (y ∷ ys) h = elim (Bool-cases (before x y)) [
  | inl e ↦ rw (e, push) h
  | inr e ↦
      rw (e, push)
        (elim h [
          | inl same ↦ inr (In-push s x ys (inl same))
          | inr (inl same) ↦ inl same
          | inr (inr k) ↦ inr (In-push s x ys (inr k))
        ])
]

In-push_leaves :
    (s i : ℕ) (fs : List ℕ) (heap : List Node)
    → In s (ids heap)
    → In s (ids (push_leaves i fs heap))
unfolding push_leaves ids
In-push_leaves s i [] heap h = h
In-push_leaves s i (f ∷ fs) heap h = elim (Bool-cases (ltb 0 f)) [
  | inl e ↦
      rw (e, push_leaves)
        (In-push_leaves s (i + 1) fs (push (f, i) heap) (In-push s (f, i) heap (inr h)))
  | inr e ↦ rw (e, push_leaves) (In-push_leaves s (i + 1) fs heap h)
]

-- Every symbol in use is a leaf.
used-In :
    (i : ℕ) (fs : List ℕ) (heap : List Node) (k : ℕ)
    → 0 < get_or fs k 0
    → In (i + k) (ids (push_leaves i fs heap))
unfolding push_leaves ids
used-In i [] heap k h = absurd (omega arith)
used-In i (f ∷ fs) heap zero h =
    let e : ltb 0 f ≡ true = ground arith in
    let here : i + 0 ≡ i = omega arith in
    rw (e, push_leaves)
      (In-push_leaves (i + 0) (i + 1) fs (push (f, i) heap)
        (In-push (i + 0) (f, i) heap (inl here)))
used-In i (f ∷ fs) heap (suc k) h =
    let e : i + suc k ≡ i + 1 + k = omega arith in
    rw e (used-In (i + 1) fs (if ltb 0 f then push (f, i) heap else heap) k h)

push_leaves-Sorted :
    (i : ℕ) (fs : List ℕ) (heap : List Node) → Sorted heap → Sorted (push_leaves i fs heap)
unfolding push_leaves
push_leaves-Sorted i [] heap h = h
push_leaves-Sorted i (f ∷ fs) heap h = elim (Bool-cases (ltb 0 f)) [
  | inl e ↦
      rw (e, push_leaves)
        (push_leaves-Sorted (i + 1) fs (push (f, i) heap) (push-Sorted (f, i) heap h))
  | inr e ↦ rw (e, push_leaves) (push_leaves-Sorted (i + 1) fs heap h)
]

total-push_leaves :
    (i : ℕ) (fs : List ℕ) (heap : List Node)
    → AreU32 fs
    → total (push_leaves i fs heap) ≤ length fs * 2 ^ 32 + total heap
unfolding push_leaves
total-push_leaves i [] heap h = omega arith
total-push_leaves i (f ∷ fs) heap h = elim (Bool-cases (ltb 0 f)) [
  | inl e ↦
      let p = total-push (f, i) heap in
      let r = total-push_leaves (i + 1) fs (push (f, i) heap) h.1 in
      rw (e, push_leaves) (omega arith)
  | inr e ↦ let r = total-push_leaves (i + 1) fs heap h.1 in rw (e, push_leaves) (omega arith)
]

leaves-Forest :
    (n : ℕ) (c : Children) (heap : List Node)
    → All (λ x. (x.1 < n) × (1 ≤ x.0)) heap
    → Forest n n c 1 heap (ids heap)
unfolding ids fib
leaves-Forest n c [] h = bare
leaves-Forest n c (x ∷ xs) h =
    plant {x = x} {h = 0} h.0.0 (IsTree.leaf h.0.0) h.0.1 (omega arith) h.0.1
      (leaves-Forest n c xs h.1)

pub weight-replicate : (m n : ℕ) → weight m (replicate n 0) ≡ 0
weight-replicate m zero = refl
weight-replicate m (suc n) = omega (arith, weight-replicate m n)

root_fits :
    {n next : ℕ} {c : Children} {lo : ℕ} {x : Node} {xs : List Node} {ls : List ℕ}
    → Forest n next c lo (x ∷ xs) ls
    → x.0 < 2 ^ 42
    → xs ≡ []
    → (x.1 < next)
      × (h : ℕ) × (top : List ℕ) × IsTree n next c x.1 h top
      × (h < 84)
      × ((s : ℕ) → In s ls → In s top)
root_fits {x = x} (plant {h = h} {ls = top} lt t heavy low above bare) small e = (
  lt,
  h,
  top,
  t,
  short (Bool-cases (leb 84 h)),
  λ s k. elim (In-append s top [] k) [ inl a ↦ a | inr b ↦ absurd b ],
)
  where
    short : (leb 84 h ≡ true) ⊎ (leb 84 h ≡ false) → h < 84
    short (inl long) =
        let le : 84 ≤ h = ground (arith, long) in
        let big = two_pow-le 42 (h / 2) (omega arith) in
        let grown = two_pow-fib h in absurd (omega arith)
    short (inr k) = ground (arith, k)
root_fits (plant lt t heavy low above (plant lt' t' heavy' low' above' f)) small e = cc

-- The lengths of up to 512 u32 frequencies, at least one of them in use, fit side by side, and no symbol
-- in use is left out.
pub standard_huffman-Fits :
    (freq : List ℕ)
    → AreU32 freq
    → length freq ≤ 512
    → 1 ≤ length (used_symbols 0 freq)
    → (lens : List ℕ) × (standard_huffman freq ≡ some lens)
      × (length lens ≡ length freq)
      × Fits 255 lens
      × ((s : ℕ) → 0 < get_or freq s 0 → 0 < get_or lens s 0)
unfolding standard_huffman leaf_depths Grown
standard_huffman-Fits freq small short used =
    let n : ℕ = length freq in
    let leaves : List Node = push_leaves 0 freq [] in
    let count = length-push_leaves 0 freq [] in
    let (root, lo, all, only, f, sum, kept) =
      merge_loop-Grown (length leaves) leaves n n (no_children n) 1 (ids leaves) (omega arith)
        (omega arith) (omega arith) (push_leaves-Sorted 0 freq [] tt)
        (leaves-Forest n (no_children n) leaves planted) in
    let most = total-push_leaves 0 freq [] small in
    let one : total (root ∷ []) ≡ root.0 + 0 = unfold total in refl in
    let none_yet : total [] ≡ 0 = unfold total in refl in
    let (lt, h, top, t, low, covers) = root_fits f (omega arith) refl in
    let (lens, walked, len, fit, _, set_top) =
      walk_fits _ 255 0 (replicate n 0) t lt (omega arith) (omega arith) (omega arith) in
    let zeros = weight-replicate 255 n in
    let zeros_list : List ℕ = replicate n 0 in
    let long : length zeros_list ≡ n = length-replicate {A = ℕ} n 0 in
    (
      lens,
      rw only walked,
      len ∙ long,
      omega arith,
      λ s k.
          set_top s (covers s (kept s (rw zero_plus at (used-In 0 freq [] s k))))
            (omega (arith, get_or-lt s freq k)),
    )
  where
    zero_plus : {s : ℕ} → 0 + s ≡ s
    zero_plus = omega arith

    planted : All (λ x. (x.1 < length freq) × (1 ≤ x.0)) (push_leaves 0 freq [])
    planted =
        push_leaves-All (λ x. (x.1 < length freq) × (1 ≤ x.0)) 0 freq []
          (λ k f found pos.
            let lt : k < length freq = get_elem?-some_lt k freq f found in (omega arith, pos))
          tt
