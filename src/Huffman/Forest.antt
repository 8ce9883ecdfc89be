-- ===== src/Huffman/Forest.antt =====
-- The trees below the nodes of the heap of huffman.rs, and the walk over such a tree.
use gpzip.Prelude.{
  ℕ, zero, suc, ◌+◌, ◌-◌, ◌%◌, ◌^◌, ◌≤◌, ◌<◌, ◌≡◌, refl, ◌∙◌, ltb, leb, Bool-cases, inl, inr, true,
  false, Option, none, some, List, [], ◌∷◌, ◌++◌, All, length, get_elem?, set, replicate,
  length-append, length-replicate, get_elem?-append, arith,
}
use gpzip.Huffman.Tree.{Children, make_room, add_node, walk, at_least_one}
use gpzip.Huffman.Bounds.{All-set}

-- Below the node `i` there is a tree of at most the height and with the leaves, whose inner nodes are
-- below `next` and have their children below themselves.
pub data IsTree (n next : ℕ) (c : Children) : ℕ → ℕ → List ℕ → Type 0 where
  leaf : {i h : ℕ} → i < n → IsTree n next c i h (i ∷ [])
  fork :
      {i h l r : ℕ} {ls rs : List ℕ}
      → n ≤ i
      → i < next
      → l < i
      → r < i
      → get_elem? c.left i ≡ some (some l)
      → get_elem? c.right i ≡ some (some r)
      → IsTree n next c l h ls
      → IsTree n next c r h rs
      → IsTree n next c i (suc h) (ls ++ rs)

pub IsTree-le :
    {n next : ℕ} {c : Children} {i h : ℕ} {ls : List ℕ} (h' : ℕ)
    → h ≤ h'
    → IsTree n next c i h ls
    → IsTree n next c i h' ls
IsTree-le h' le (leaf lt) = leaf lt
IsTree-le zero le (fork a b x y el er tl tr) = absurd (omega arith)
IsTree-le (suc h') le (fork a b x y el er tl tr) =
    fork a b x y el er (IsTree-le h' (omega arith) tl) (IsTree-le h' (omega arith) tr)

-- A write behind an element leaves it, also where room is made for it.
pub get_elem?-set_other :
    {A : Type 0} (xs : List A) (i j : ℕ) (a : A) → i < j → get_elem? (set xs j a) i ≡ get_elem? xs i
get_elem?-set_other [] i j a lt = refl
get_elem?-set_other (x ∷ xs) i zero a lt = absurd (omega arith)
get_elem?-set_other (x ∷ xs) zero (suc j) a lt = refl
get_elem?-set_other (x ∷ xs) (suc i) (suc j) a lt = get_elem?-set_other xs i j a (omega arith)

pub get_elem?-set_self :
    {A : Type 0} (xs : List A) (i : ℕ) (a : A) → i < length xs → get_elem? (set xs i a) i ≡ some a
get_elem?-set_self [] i a lt = absurd (omega arith)
get_elem?-set_self (x ∷ xs) zero a lt = refl
get_elem?-set_self (x ∷ xs) (suc i) a lt = get_elem?-set_self xs i a (omega arith)

make_room_self :
    (id : ℕ) (xs : List (Option ℕ)) (v : Option ℕ)
    → get_elem? (set (make_room id xs) id v) id ≡ some v
unfolding make_room
make_room_self id xs v = elim (Bool-cases (leb (length xs) id)) [
  | inl e ↦ rw e (
      get_elem?-set_self _ id v (
        omega (
          arith,
          length-append xs (more),
          length-replicate {A = Option ℕ} (suc id - length xs) none,
        )))
  | inr e ↦ rw e (get_elem?-set_self xs id v (ground (arith, e)))
]
  where
    more : List (Option ℕ)
    more = replicate (suc id - length xs) none

make_room_other :
    (id : ℕ) (xs : List (Option ℕ)) (v : Option ℕ) (i : ℕ) (x : Option ℕ)
    → i < id
    → get_elem? xs i ≡ some x
    → get_elem? (set (make_room id xs) id v) i ≡ some x
unfolding make_room
make_room_other id xs v i x lt e = elim (Bool-cases (leb (length xs) id)) [
  | inl k ↦ rw k (
      get_elem?-set_other (xs ++ replicate (suc id - length xs) none) i id v lt
      ∙ get_elem?-append xs (replicate (suc id - length xs) none) i x e)
  | inr k ↦ rw k (get_elem?-set_other xs i id v lt ∙ e)
]

-- The trees stay when the next node is added.
pub IsTree-add_node :
    {n next : ℕ} {c : Children} {i h : ℕ} {ls : List ℕ} (a b : ℕ)
    → IsTree n next c i h ls
    → IsTree n (next + 1) (add_node next a b c) i h ls
unfolding add_node
IsTree-add_node a b (leaf lt) = leaf lt
IsTree-add_node {next = next} {c = c} a b (fork {i = i} {l = l} {r = r} lo hi x y el er tl tr) =
    fork lo (omega arith) x y (make_room_other next c.left (some a) i (some l) hi el)
      (make_room_other next c.right (some b) i (some r) hi er) (IsTree-add_node a b tl)
      (IsTree-add_node a b tr)

-- The node that is added has the two trees below it.
pub IsTree-added :
    {n next : ℕ} {c : Children} {h : ℕ} {ls rs : List ℕ} (a b : ℕ)
    → n ≤ next
    → a < next
    → b < next
    → IsTree n next c a h ls
    → IsTree n next c b h rs
    → IsTree n (next + 1) (add_node next a b c) next (suc h) (ls ++ rs)
unfolding add_node
IsTree-added {next = next} {c = c} a b lo x y ta tb =
    fork lo (omega arith) x y (make_room_self next c.left (some a))
      (make_room_self next c.right (some b)) (IsTree-add_node a b ta) (IsTree-add_node a b tb)

-- The walk over a tree ends, and sets no length above the depth of the tree's lowest leaves.
pub walk_total :
    (fuel : ℕ) {n next : ℕ} {c : Children} {i h : ℕ} {ls : List ℕ} (depth most : ℕ) (lens : List ℕ)
    → IsTree n next c i h ls
    → i < fuel
    → 1 ≤ most
    → depth + h ≤ most
    → All (λ l. l ≤ most) lens
    → (lens' : List ℕ) × (walk fuel i depth c n lens ≡ some lens') × All (λ l. l ≤ most) lens'
unfolding walk
walk_total zero depth most lens t lt pos deep small = absurd (omega arith)
walk_total (suc fuel) {n = n} {i = i} depth most lens (leaf lo) lt pos deep small =
    let e : ltb i n ≡ true = ground arith in
    (
      set lens i (at_least_one depth % 2 ^ 8),
      rw e refl,
      All-set (λ l. l ≤ most) lens i (at_least_one depth % 2 ^ 8) small (ground arith),
    )
walk_total (suc fuel) {n = n} {i = i} depth most lens (fork {l = l} {r = r} lo hi x y el er tl tr)
      lt pos deep small =
    let e : ltb i n ≡ false = ground arith in
    let (mid, ran, small₁) =
      walk_total fuel (depth + 1) most lens tl (omega arith) pos (omega arith) small in
    let (last, ran', small₂) =
      walk_total fuel (depth + 1) most mid tr (omega arith) pos (omega arith) small₁ in
    (last, rw (e, el, er, ran) ran', small₂)
