-- ===== src/Huffman/Growth.antt =====
-- Every two levels of a Huffman tree double its frequency, so no depth wraps in the u8 that holds it.
use gpzip.Prelude.{
  ℕ, zero, suc, ◌+◌, ◌-◌, ◌/◌, ◌^◌, ◌≤◌, ◌<◌, ◌≡◌, refl, ◌∙◌, leb, Bool-cases, inl, inr, List, [],
  ◌∷◌, ◌++◌, All, length, arith,
}
use native.Mathlib.Nat.{pow-suc}
use gpzip.Huffman.Tree.{Node, Children, before, push, merge_loop, add_node}
use gpzip.Huffman.Forest.{IsTree, IsTree-le, IsTree-add_node, IsTree-added}
use gpzip.Huffman.Merging.{push-All, length-push}
use gpzip.Huffman.Balanced.{total, total-push}
use gpzip.Huffman.Kraft.{In, In-append, In-left, In-right}

-- The least frequency of a tree of the height.
unfoldable pub fib : ℕ → ℕ
fib zero = 1
fib (suc zero) = 1
fib (suc (suc n)) = fib (suc n) + fib n

fib_step : (h : ℕ) → fib (suc h) ≤ fib h + fib (h - 1)
unfolding fib
fib_step zero = omega arith
fib_step (suc n) = let e : suc n - 1 ≡ n = omega arith in rw e (omega arith)

fib_grows : (h : ℕ) → fib h ≤ fib (suc h)
unfolding fib
fib_grows zero = omega arith
fib_grows (suc n) = omega arith

pub two_pow-fib : (h : ℕ) → 2 ^ (h / 2) ≤ fib h
unfolding fib
two_pow-fib zero = omega arith
two_pow-fib (suc zero) = omega arith
two_pow-fib (suc (suc n)) =
    let e : suc (suc n) / 2 ≡ suc (n / 2) = omega arith in
    let p = pow-suc 2 (n / 2) in rw e (omega (arith, two_pow-fib n, fib_grows n))

abbrev pub Sorted : List Node → Type 0
Sorted [] = Unit {0}
Sorted (x ∷ xs) = All (λ y. x.0 ≤ y.0) xs × Sorted xs

pub push-Sorted : (x : Node) (heap : List Node) → Sorted heap → Sorted (push x heap)
unfolding push
push-Sorted x [] h = (tt, tt)
push-Sorted x (y ∷ ys) (least, h) = elim (Bool-cases (before x y)) [
  | inl e ↦
      let le : x.0 ≤ y.0 = unfold before in ground (arith, e) in
      rw (e, push) ((le, All-above x.0 y.0 ys le least), (least, h))
  | inr e ↦
      let le : y.0 ≤ x.0 = unfold before in ground (arith, e) in
      rw (e, push) (push-All (λ z. y.0 ≤ z.0) x ys le least, push-Sorted x ys h)
]
  where
    All-above : (a b : ℕ) (zs : List Node) → a ≤ b → All (λ z. b ≤ z.0) zs → All (λ z. a ≤ z.0) zs
    All-above a b [] le k = tt
    All-above a b (z ∷ zs) le (k, ks) = (omega arith, All-above a b zs le ks)

-- Trees that are heavy for their heights; `lo` is the least frequency in the heap.
pub data Forest (n next : ℕ) (c : Children) (lo : ℕ) : List Node → List ℕ → Type 0 where
  bare : Forest n next c lo [] []
  plant :
      {x : Node} {xs : List Node} {h : ℕ} {ls rest : List ℕ}
      → x.1 < next
      → IsTree n next c x.1 h ls
      → fib h ≤ x.0
      → fib (h - 1) ≤ lo
      → lo ≤ x.0
      → Forest n next c lo xs rest
      → Forest n next c lo (x ∷ xs) (ls ++ rest)

Forest-add_node :
    {n next : ℕ} {c : Children} {lo : ℕ} {heap : List Node} {ls : List ℕ} (a b lo' : ℕ)
    → lo ≤ lo'
    → All (λ y. lo' ≤ y.0) heap
    → Forest n next c lo heap ls
    → Forest n (next + 1) (add_node next a b c) lo' heap ls
Forest-add_node a b lo' le h bare = bare
Forest-add_node a b lo' le k (plant lt t heavy low above f) =
    plant (omega arith) (IsTree-add_node a b t) heavy (omega arith) k.0
      (Forest-add_node a b lo' le k.1 f)

-- A tree in its place in the heap.
Forest-push :
    {n next : ℕ} {c : Children} {lo : ℕ} {heap : List Node} {rest : List ℕ} (x : Node) (h : ℕ)
    (ls : List ℕ)
    → x.1 < next
    → IsTree n next c x.1 h ls
    → fib h ≤ x.0
    → fib (h - 1) ≤ lo
    → lo ≤ x.0
    → Forest n next c lo heap rest
    → (all : List ℕ) × Forest n next c lo (push x heap) all
      × ((s : ℕ) → In s ls → In s all)
      × ((s : ℕ) → In s rest → In s all)
unfolding push
Forest-push x h ls lt t heavy low above bare =
    (ls ++ [], plant lt t heavy low above bare, λ s k. In-left s ls [] k, λ s k. absurd k)
Forest-push x h ls lt t heavy low above
      (plant {x = y} {xs = ys} {ls = ms} {rest = rest} lt' t' heavy' low' above' f) =
    elim (Bool-cases (before x y)) [
      | inl e ↦ (
        ls ++ (ms ++ rest),
        rw (e, push) (plant lt t heavy low above (plant lt' t' heavy' low' above' f)),
        λ s k. In-left s ls (ms ++ rest) k,
        λ s k. In-right s ls (ms ++ rest) k,
      )
      | inr e ↦
          let (all, g, here, there) = Forest-push x h ls lt t heavy low above f in
          (
            ms ++ all,
            rw (e, push) (plant lt' t' heavy' low' above' g),
            λ s k. In-right s ms all (here s k),
            λ s k. elim (In-append s ms rest k) [
              | inl a ↦ In-left s ms all a
              | inr b ↦ In-right s ms all (there s b)
            ],
          )
    ]

-- The taller of two trees that merge.
taller :
    (lo f₁ f₂ h₁ h₂ : ℕ)
    → fib h₁ ≤ f₁
    → fib h₂ ≤ f₂
    → fib (h₁ - 1) ≤ lo
    → fib (h₂ - 1) ≤ lo
    → lo ≤ f₁
    → f₁ ≤ f₂
    → (top : ℕ) × (h₁ ≤ top) × (h₂ ≤ top) × (fib top ≤ f₂) × (fib (suc top) ≤ f₁ + f₂)
taller lo f₁ f₂ h₁ h₂ a b a' b' l o = elim (Bool-cases (leb h₁ h₂)) [
  | inl e ↦ let s = fib_step h₂ in (h₂, ground (arith, e), omega arith, omega arith, omega arith)
  | inr e ↦ let s = fib_step h₁ in (h₁, omega arith, ground (arith, e), omega arith, omega arith)
]

-- The loop leaves one tree, which has all leaves and the frequencies of all.
unfoldable pub Grown : ℕ → List Node → List ℕ → List Node × ℕ × Children → Type 0
Grown n heap ls r =
    (root : Node) × (lo : ℕ) × (all : List ℕ) × (r.0 ≡ root ∷ [])
    × Forest n r.1 r.2 lo (root ∷ []) all
    × (total (root ∷ []) ≡ total heap)
    × ((s : ℕ) → In s ls → In s all)

pub merge_loop-Grown :
    (fuel : ℕ) (heap : List Node) (n next : ℕ) (c : Children) (lo : ℕ) (ls : List ℕ)
    → n ≤ next
    → 1 ≤ length heap
    → length heap ≤ suc fuel
    → Sorted heap
    → Forest n next c lo heap ls
    → Grown n heap ls (merge_loop fuel heap next c)
unfolding merge_loop Grown
merge_loop-Grown zero [] n next c lo ls le some_node enough h f = absurd (omega arith)
merge_loop-Grown zero (x ∷ []) n next c lo ls le some_node enough h f =
    (x, lo, ls, refl, f, refl, λ s k. k)
merge_loop-Grown zero (x ∷ (y ∷ heap)) n next c lo ls le some_node enough h f = absurd (omega arith)
merge_loop-Grown (suc fuel) [] n next c lo ls le some_node enough h f = absurd (omega arith)
merge_loop-Grown (suc fuel) (x ∷ []) n next c lo ls le some_node enough h f =
    (x, lo, ls, refl, f, refl, λ s k. k)
merge_loop-Grown (suc fuel) ((f₁, i₁) ∷ ((f₂, i₂) ∷ heap)) n next c lo ls le some_node enough sorted
      (plant {h = h₁} {ls = l₁} lt₁ t₁ heavy₁ low₁ above₁
        (plant {h = h₂} {ls = l₂} {rest = rest} lt₂ t₂ heavy₂ low₂ above₂ f)) =
    let (top, a, b, low, heavy) = taller lo f₁ f₂ h₁ h₂ heavy₁ heavy₂ low₁ low₂ above₁ sorted.0.0 in
    let x : Node = (f₁ + f₂, next) in
    let t = IsTree-added i₁ i₂ le lt₁ lt₂ (IsTree-le top a t₁) (IsTree-le top b t₂) in
    let e : suc top - 1 ≡ top = omega arith in
    let (all, g, here, there) =
      Forest-push x (suc top) (l₁ ++ l₂) (omega arith) t heavy (rw e low) (omega arith)
        (Forest-add_node i₁ i₂ f₂ above₂ sorted.1.0 f) in
    let (root, lo', all', found, last, sum, kept) =
      merge_loop-Grown fuel (push x heap) n (next + 1) (add_node next i₁ i₂ c) f₂ all (omega arith)
        (omega (arith, length-push x heap)) (omega (arith, length-push x heap))
        (push-Sorted x heap sorted.1.1) g in
    (
      root,
      lo',
      all',
      found,
      last,
      sum ∙ total-push x heap ∙ regroup,
      λ s k. elim (In-append s l₁ (l₂ ++ rest) k) [
        | inl k₁ ↦ kept s (here s (In-left s l₁ l₂ k₁))
        | inr k₂₃ ↦ elim (In-append s l₂ rest k₂₃) [
          | inl k₂ ↦ kept s (here s (In-right s l₁ l₂ k₂))
          | inr k₃ ↦ kept s (there s k₃)
        ]
      ],
    )
  where
    regroup : f₁ + f₂ + total heap ≡ total ((f₁, i₁) ∷ ((f₂, i₂) ∷ heap))
    regroup = unfold total in omega arith
