-- ===== src/Huffman/Tree.antt =====
-- `standard_huffman` and `walk` of huffman.rs: the Huffman tree of the frequencies, and the depths of
-- its leaves.
use gpzip.Prelude.{
  ℕ, zero, suc, ◌+◌, ◌-◌, ◌*◌, ◌%◌, ◌^◌, ltb, leb, ◌==◌, Bool, ◌&&◌, ◌||◌, if◌then◌else◌, Option,
  none, some, ◌>>=◌, List, [], ◌∷◌, ◌++◌, length, get_elem?, set, replicate,
}

-- (frequency, id): the leaves have their symbols as ids.
abbrev pub Node : Type 0
Node = ℕ × ℕ

-- The order of the pairs.
unfoldable pub before : Node → Node → Bool
before (f, i) (g, j) = ltb f g || ((f == g) && ltb i j)

-- The standard library's `BinaryHeap<Reverse<_>>` hands out the smallest node first: a sorted list
-- does too, from its front. No two nodes are equal, since the ids differ.
unfoldable pub push : Node → List Node → List Node
push x [] = x ∷ []
push x (y ∷ ys) = let rest = push x ys in if before x y then x ∷ (y ∷ ys) else y ∷ rest

-- `for (i, &f) in freq.iter().enumerate()`
unfoldable pub push_leaves : ℕ → List ℕ → List Node → List Node
push_leaves i [] heap = heap
push_leaves i (f ∷ fs) heap = push_leaves (i + 1) fs (if ltb 0 f then push (f, i) heap else heap)

-- The vectors `left` and `right`, with `none` for -1.
pub record Children : Type 0 where
  pub left : List (Option ℕ)
  pub right : List (Option ℕ)

-- `resize(id + 1, -1)` when `id` is out of range.
unfoldable pub make_room : ℕ → List (Option ℕ) → List (Option ℕ)
make_room id xs = if leb (length xs) id then xs ++ replicate (suc id - length xs) none else xs

unfoldable pub add_node : ℕ → ℕ → ℕ → Children → Children
unfolding make_room
add_node id i₁ i₂ c = record {
  left = set (make_room id c.left) id (some i₁);
  right = set (make_room id c.right) id (some i₂);
}

-- `while heap.len() > 1`: a round takes one node off the heap, so its length is fuel enough.
unfoldable pub merge_loop : ℕ → List Node → ℕ → Children → List Node × ℕ × Children
unfolding add_node push
merge_loop (suc fuel) ((f₁, i₁) ∷ ((f₂, i₂) ∷ heap)) id c =
    merge_loop fuel (push (f₁ + f₂, id) heap) (id + 1) (add_node id i₁ i₂ c)
merge_loop fuel heap id c = (heap, id, c)

abbrev pub at_least_one : ℕ → ℕ
at_least_one depth = if depth == 0 then 1 else depth

-- Fuel above the node's id is enough. `none` is a panic or the end of the fuel.
unfoldable pub walk : ℕ → ℕ → ℕ → Children → ℕ → List ℕ → Option (List ℕ)
walk zero node depth c n_leaves lens = none
walk (suc fuel) node depth c n_leaves lens =
    if ltb node n_leaves then some (set lens node (at_least_one depth % 2 ^ 8)) else do
      l ← get_elem? c.left node
      r ← get_elem? c.right node
      lens' ← elim l [ none ↦ some lens | some child ↦ walk fuel child (depth + 1) c n_leaves lens ]
      elim r [ none ↦ some lens' | some child ↦ walk fuel child (depth + 1) c n_leaves lens' ]

unfoldable pub no_children : ℕ → Children
no_children n = record { left = replicate (2 * n) none; right = replicate (2 * n) none }

-- The depths below the node that is left. `none` is the `unwrap` of an empty heap.
unfoldable pub leaf_depths : ℕ → List Node → ℕ → Children → Option (List ℕ)
unfolding walk
leaf_depths n heap next_id c = do root ← get_elem? heap 0; walk next_id root.1 0 c n (replicate n 0)

unfoldable pub standard_huffman : List ℕ → Option (List ℕ)
unfolding merge_loop push_leaves no_children leaf_depths
standard_huffman freq =
    let n = length freq in
    let leaves = push_leaves 0 freq [] in
    let (heap, next_id, c) = merge_loop (length leaves) leaves n (no_children n) in
    leaf_depths n heap next_id c
