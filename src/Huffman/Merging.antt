-- ===== src/Huffman/Merging.antt =====
-- The loop of `standard_huffman` that merges the nodes of the heap, and the lengths that it leads to.
use gpzip.Prelude.{
  ℕ, zero, suc, ◌+◌, ◌-◌, ◌≤◌, ◌<◌, ◌≡◌, refl, ap, ◌∙◌, ltb, Bool-cases, inl, inr, some, List, [],
  ◌∷◌, All, length, get_elem?, get_elem?-some_lt, replicate, arith,
}
use gpzip.Huffman.Tree.{
  Node, Children, before, push, push_leaves, merge_loop, no_children, leaf_depths, standard_huffman,
  at_least_one, add_node,
}
use gpzip.Huffman.Lengths.{used_symbols}
use gpzip.Huffman.Bounds.{All-replicate}
use gpzip.Huffman.Forest.{IsTree, IsTree-le, IsTree-add_node, IsTree-added, walk_total}

pub push-All :
    (P : Node → Type 0) (x : Node) (heap : List Node) → P x → All P heap → All P (push x heap)
unfolding push
push-All P x [] p h = (p, tt)
push-All P x (y ∷ ys) p h = elim (Bool-cases (before x y)) [
  | inl e ↦ rw (e, push) (p, h)
  | inr e ↦ rw (e, push) (h.0, push-All P x ys p h.1)
]

pub length-push : (x : Node) (heap : List Node) → length (push x heap) ≡ suc (length heap)
unfolding push
length-push x [] = refl
length-push x (y ∷ ys) = elim (Bool-cases (before x y)) [
  | inl e ↦ rw (e, push) refl
  | inr e ↦ rw (e, push) (ap suc (length-push x ys))
]

-- What holds of each symbol in use holds of each leaf.
pub push_leaves-All :
    (P : Node → Type 0) (i : ℕ) (fs : List ℕ) (heap : List Node)
    → ((k f : ℕ) → get_elem? fs k ≡ some f → 0 < f → P (f, i + k))
    → All P heap
    → All P (push_leaves i fs heap)
unfolding push_leaves
push_leaves-All P i [] heap h hs = hs
push_leaves-All P i (f ∷ fs) heap h hs = elim (Bool-cases (ltb 0 f)) [
  | inl e ↦
      rw (e, push_leaves)
        (push_leaves-All P (i + 1) fs (push (f, i) heap) later
          (push-All P (f, i) heap (rw here at (h 0 f refl (ground (arith, e)))) hs))
  | inr e ↦ rw (e, push_leaves) (push_leaves-All P (i + 1) fs heap later hs)
]
  where
    here : i + 0 ≡ i
    here = omega arith

    later : (k g : ℕ) → get_elem? fs k ≡ some g → 0 < g → P (g, i + 1 + k)
    later k g found pos =
        let e : i + suc k ≡ i + 1 + k = omega arith in rw e at (h (suc k) g found pos)

-- There are as many leaves as symbols in use.
pub length-push_leaves :
    (i : ℕ) (fs : List ℕ) (heap : List Node)
    → length (push_leaves i fs heap) ≡ length (used_symbols i fs) + length heap
unfolding push_leaves used_symbols
length-push_leaves i [] heap = omega arith
length-push_leaves i (f ∷ fs) heap = elim (Bool-cases (ltb 0 f)) [
  | inl e ↦
      rw (e, push_leaves)
        (length-push_leaves (i + 1) fs (push (f, i) heap) ∙ omega (arith, length-push (f, i) heap))
  | inr e ↦ rw (e, push_leaves) (length-push_leaves (i + 1) fs heap)
]

-- An invariant of the heap under which a merged node has a greater height than both its parts.
module _ (height : Node → ℕ) (Inv : List Node → Type 0)
    (join : (x y : Node) (heap : List Node) (next : ℕ)
      → x.1 < next
      → y.1 < next
      → Inv (x ∷ (y ∷ heap))
      → Inv (push (x.0 + y.0, next) heap)
        × (height x < height (x.0 + y.0, next))
        × (height y < height (x.0 + y.0, next))) where
  -- Each node of the heap is the root of a tree of its height.
  abbrev IsPlanted : ℕ → ℕ → Children → List Node → Type 0
  IsPlanted n next c heap =
      All (λ x. (x.1 < next) × (ls : List ℕ) × IsTree n next c x.1 (height x) ls) heap

  IsPlanted-add_node :
      (n next : ℕ) (c : Children) (a b : ℕ) (heap : List Node)
      → IsPlanted n next c heap
      → IsPlanted n (next + 1) (add_node next a b c) heap
  IsPlanted-add_node n next c a b [] h = tt
  IsPlanted-add_node n next c a b (x ∷ xs) h =
      ((omega arith, h.0.1, IsTree-add_node a b h.0.2), IsPlanted-add_node n next c a b xs h.1)

  merge_loop_total :
      (fuel : ℕ) (heap : List Node) (n next : ℕ) (c : Children)
      → n ≤ next
      → 1 ≤ length heap
      → length heap ≤ suc fuel
      → IsPlanted n next c heap
      → Inv heap
      → (root : Node) × (next' : ℕ) × (c' : Children) × (merge_loop fuel heap next c
          ≡ (root ∷ [], next', c'))
        × (root.1 < next')
        × (ls : List ℕ) × IsTree n next' c' root.1 (height root) ls
        × Inv (root ∷ [])
  unfolding merge_loop
  merge_loop_total zero [] n next c lo some_node enough h v = absurd (omega arith)
  merge_loop_total zero (x ∷ []) n next c lo some_node enough h v =
      (x, next, c, refl, h.0.0, h.0.1, h.0.2, v)
  merge_loop_total zero (x ∷ (y ∷ heap)) n next c lo some_node enough h v = absurd (omega arith)
  merge_loop_total (suc fuel) [] n next c lo some_node enough h v = absurd (omega arith)
  merge_loop_total (suc fuel) (x ∷ []) n next c lo some_node enough h v =
      (x, next, c, refl, h.0.0, h.0.1, h.0.2, v)
  merge_loop_total (suc fuel) ((f₁, i₁) ∷ ((f₂, i₂) ∷ heap)) n next c lo some_node enough
        ((lt₁, _, t₁), ((lt₂, _, t₂), h)) v =
      let (v', hx, hy) = join (f₁, i₁) (f₂, i₂) heap next lt₁ lt₂ v in
      let top : ℕ = height (f₁ + f₂, next) in
      merge_loop_total fuel (push (f₁ + f₂, next) heap) n (next + 1) (add_node next i₁ i₂ c)
        (omega arith) (omega (arith, length-push (f₁ + f₂, next) heap))
        (omega (arith, length-push (f₁ + f₂, next) heap))
        (push-All _ (f₁ + f₂, next) heap
          (
            omega arith,
            _,
            IsTree-le top (omega arith) (
                IsTree-added i₁ i₂ lo lt₁ lt₂ (IsTree-le (top - 1) (omega arith) t₁)
                  (IsTree-le (top - 1) (omega arith) t₂)),
          )
          (IsPlanted-add_node n next c i₁ i₂ heap h))
        v'

  -- With a symbol in use the lengths are built, and none is above the root's height, or 1.
  pub standard_huffman-le :
      (freq : List ℕ)
      → 1 ≤ length (used_symbols 0 freq)
      → Inv (push_leaves 0 freq [])
      → (root : Node) × (lens : List ℕ) × (standard_huffman freq ≡ some lens)
        × Inv (root ∷ [])
        × All (λ l. l ≤ at_least_one (height root)) lens
  unfolding standard_huffman leaf_depths
  standard_huffman-le freq used v =
      let n : ℕ = length freq in
      let leaves : List Node = push_leaves 0 freq [] in
      let count : length leaves ≡ length (used_symbols 0 freq) + 0 = length-push_leaves 0 freq [] in
      let (root, next', c', ran, lt, _, t, v') =
        merge_loop_total (length leaves) leaves n n (no_children n) (omega arith)
          (omega (arith, count)) (omega arith) planted v in
      let (lens, walked, small) =
        walk_total next' 0 (at_least_one (height root)) (replicate n 0) t lt (ground arith)
          (ground arith) (All-replicate _ n 0 (omega arith)) in
      (root, lens, rw ran walked, v', small)
    where
      planted :
          IsPlanted (length freq) (length freq) (no_children (length freq)) (push_leaves 0 freq [])
      planted =
          push_leaves-All _ 0 freq []
            (λ k f found pos.
              let lt : k < length freq = get_elem?-some_lt k freq f found in
              (omega arith, (0 + k) ∷ [], IsTree.leaf (omega arith)))
            tt
