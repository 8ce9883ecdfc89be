-- ===== src/Huffman/Bounds.antt =====
-- What the code lengths keep to, and how many there are.
use gpzip.Prelude.{
  ℕ, zero, suc, ◌+◌, ◌%◌, ◌^◌, ◌≤◌, ◌≡◌, refl, subst, ap, ◌∙◌, ltb, leb, ◌==◌, Bool-cases,
  bind_some, ◌⊎◌, inl, inr, Option, none, some, ◌>>=◌, List, [], ◌∷◌, true, false, if◌then◌else◌,
  All, length, get_elem?, set, replicate, map, length-map, arith, length-replicate, length-set,
}
use gpzip.Huffman.Tree.{Node, Children, leaf_depths, walk, standard_huffman, at_least_one}
use gpzip.Huffman.Canonical.{maximum, increment, canonical_codes, assign_codes}
use gpzip.Huffman.Lengths.{
  halve, limit_loop, limit_rounds, ceil_log2, lengths_for, used_symbols, try_build_code_lengths,
}

pub All-set :
    {A : Type 0} (P : A → Type 0) (xs : List A) (i : ℕ) (a : A)
    → All P xs
    → P a
    → All P (set xs i a)
All-set P [] i a h p = h
All-set P (x ∷ xs) zero a h p = (p, h.1)
All-set P (x ∷ xs) (suc i) a h p = (h.0, All-set P xs i a h.1 p)

pub All-replicate : {A : Type 0} (P : A → Type 0) (n : ℕ) (a : A) → P a → All P (replicate n a)
All-replicate P zero a p = tt
All-replicate P (suc n) a p = (p, All-replicate P n a p)

-- The walk sets lengths of symbols that are there.
walk-length :
    (fuel node depth : ℕ) (c : Children) (n : ℕ) (lens lens' : List ℕ)
    → walk fuel node depth c n lens ≡ some lens'
    → length lens' ≡ length lens
unfolding walk
walk-length zero node depth c n lens lens' e = cc
walk-length (suc fuel) node depth c n lens lens' e =
    go (Bool-cases (ltb node n)) (λ child d ls ls'. walk-length fuel child d c n ls ls')
  where
    Lengthwise : Type 0
    Lengthwise =
        (child d : ℕ) (ls ls' : List ℕ)
        → walk fuel child d c n ls ≡ some ls'
        → length ls' ≡ length ls

    visit :
        Lengthwise
        → (r : Option ℕ) (ls ls' : List ℕ)
        → (elim r [ none ↦ some ls | some child ↦ walk fuel child (depth + 1) c n ls ]) ≡ some ls'
        → length ls' ≡ length ls
    visit ih none ls ls' k = let same : ls' ≡ ls = cc in ap length same
    visit ih (some child) ls ls' k = ih child (depth + 1) ls ls' k

    visits : Type 0
    visits =
        (do
          l ← get_elem? c.left node
          r ← get_elem? c.right node
          mid ← elim l [ none ↦ some lens | some child ↦ walk fuel child (depth + 1) c n lens ]
          elim r [ none ↦ some mid | some child ↦ walk fuel child (depth + 1) c n mid ])
        ≡ some lens'

    go : (ltb node n ≡ true) ⊎ (ltb node n ≡ false) → Lengthwise → length lens' ≡ length lens
    go (inl leaf) ih =
        let k : some (set lens node (at_least_one depth % 2 ^ 8)) ≡ some lens' =
          rw (leaf, walk) at e in
        (let same : lens' ≡ set lens node (at_least_one depth % 2 ^ 8) = cc in ap length same)
        ∙ length-set lens node (at_least_one depth % 2 ^ 8)
    go (inr inner) ih =
        let k : visits = rw (inner, walk) at e in
        let (l, _, k₁) = bind_some (get_elem? c.left node) _ lens' k in
        let (r, _, k₂) = bind_some (get_elem? c.right node) _ lens' k₁ in
        let (mid, first, second) = bind_some _ _ lens' k₂ in
        visit ih r mid lens' second ∙ visit ih l lens mid first

pub maximum-bounds : (xs : List ℕ) (m : ℕ) → maximum xs ≤ m → All (λ x. x ≤ m) xs
unfolding maximum
maximum-bounds [] m h = tt
maximum-bounds (x ∷ xs) m h = (ground (arith, h), maximum-bounds xs m (ground (arith, h)))

leaf_depths-length :
    (n : ℕ) (heap : List Node) (next_id : ℕ) (c : Children) (lens : List ℕ)
    → leaf_depths n heap next_id c ≡ some lens
    → length lens ≡ n
unfolding leaf_depths
leaf_depths-length n heap next_id c lens e =
    let (root, _, walked) = bind_some (get_elem? heap 0) _ lens e in
    walk-length next_id root.1 0 c n (replicate n 0) lens walked ∙ length-replicate n 0

standard_huffman-length :
    (freq lens : List ℕ) → standard_huffman freq ≡ some lens → length lens ≡ length freq
unfolding standard_huffman
standard_huffman-length freq lens e = leaf_depths-length (length freq) _ _ _ lens e

-- Code lengths for `n` symbols, none above `m`.
pub record IsLimited (n m : ℕ) (lens : List ℕ) : Type 0 where
  pub enough : length lens ≡ n
  pub small : All (λ l. l ≤ m) lens

limit_loop-IsLimited :
    (fuel m : ℕ) (work lens : List ℕ)
    → limit_loop fuel m work ≡ some lens
    → IsLimited (length work) m lens
unfolding limit_loop
limit_loop-IsLimited zero m work lens e = cc
limit_loop-IsLimited (suc fuel) m work lens e =
    let (built, first, next) = bind_some (standard_huffman work) _ lens e in
    go built first next (limit_loop-IsLimited fuel m (map halve work) lens)
      (Bool-cases (leb (maximum built) m))
  where
    go :
        (built : List ℕ)
        → standard_huffman work ≡ some built
        → (if leb (maximum built) m then some built else limit_loop fuel m (map halve work))
          ≡ some lens
        → (limit_loop fuel m (map halve work) ≡ some lens
            → IsLimited (length (map halve work)) m lens)
        → (leb (maximum built) m ≡ true) ⊎ (leb (maximum built) m ≡ false)
        → IsLimited (length work) m lens
    go built first next ih (inl fits) =
        let done : some built ≡ some lens = rw fits at next in
        let same : built ≡ lens = cc in
        subst (IsLimited (length work) m) same (record {
          enough = standard_huffman-length work built first;
          small = maximum-bounds built m (ground (arith, fits));
        })
    go built first next ih (inr high) =
        subst (λ n. IsLimited n m lens) (length-map halve work) (ih (rw high at next))

zeros-IsLimited : (n m : ℕ) → IsLimited n m (replicate n 0)
zeros-IsLimited n m = record {
  enough = length-replicate n 0;
  small = All-replicate (λ l. l ≤ m) n 0 (omega arith);
}

-- One symbol more.
pub set-IsLimited :
    (n m : ℕ) (lens : List ℕ) (i : ℕ) → 1 ≤ m → IsLimited n m lens → IsLimited n m (set lens i 1)
set-IsLimited n m lens i h b = record {
  enough = length-set lens i 1 ∙ b.enough;
  small = All-set (λ l. l ≤ m) lens i 1 b.small h;
}

lengths_for-IsLimited :
    (freq : List ℕ) (m : ℕ) (used lens : List ℕ)
    → 1 ≤ m
    → lengths_for freq m used ≡ some (some lens)
    → IsLimited (length freq) m lens
unfolding lengths_for
lengths_for-IsLimited freq m [] lens h e =
    let same : replicate (length freq) 0 ≡ lens = cc in
    subst (IsLimited (length freq) m) same (zeros-IsLimited (length freq) m)
lengths_for-IsLimited freq m (only ∷ []) lens h e =
    let same : set (replicate (length freq) 0) only 1 ≡ lens = cc in
    subst (IsLimited (length freq) m) same (
      set-IsLimited (length freq) m (replicate (length freq) 0) only h
        (zeros-IsLimited (length freq) m))
lengths_for-IsLimited freq m (s ∷ (s' ∷ more)) lens h e =
    go (Bool-cases (ltb m (ceil_log2 n_used 0 n_used)))
  where
    n_used : ℕ
    n_used = suc (suc (length more))

    refused : Option (Option (List ℕ))
    refused = some none

    go :
        (ltb m (ceil_log2 n_used 0 n_used) ≡ true) ⊎ (ltb m (ceil_log2 n_used 0 n_used) ≡ false)
        → IsLimited (length freq) m lens
    go (inl large) = let no : refused ≡ some (some lens) = rw (large, lengths_for) at e in cc
    go (inr fits) =
        let ran : (limit_loop limit_rounds m freq >>= (λ ls. some (some ls))) ≡ some (some lens) =
          rw (fits, lengths_for) at e in
        let (ls, first, last) = bind_some _ _ (some lens) ran in
        let same : ls ≡ lens = cc in
        limit_loop-IsLimited limit_rounds m freq lens (first ∙ ap some same)

-- The code lengths that `try_build_code_lengths` returns are as many as the frequencies, and none is
-- above a limit of 1 or more.
pub try_build_code_lengths-IsLimited :
    (freq : List ℕ) (max_bits : ℕ) (lens : List ℕ)
    → 1 ≤ max_bits
    → try_build_code_lengths freq max_bits ≡ some (some lens)
    → IsLimited (length freq) max_bits lens
unfolding try_build_code_lengths
try_build_code_lengths-IsLimited freq max_bits lens h e =
    lengths_for-IsLimited freq max_bits (used_symbols 0 freq) lens h e

length-assign_codes : (lens next_code : List ℕ) → length (assign_codes lens next_code) ≡ length lens
unfolding assign_codes
length-assign_codes [] next_code = refl
length-assign_codes (l ∷ ls) next_code =
    ap suc (length-assign_codes ls (if ltb 0 l then increment next_code l else next_code))

-- There are as many codes as lengths.
pub length-canonical_codes : (lens : List ℕ) → length (canonical_codes lens) ≡ length lens
unfolding canonical_codes
length-canonical_codes lens = elim (Bool-cases (maximum lens == 0)) [
  | inl e ↦ rw e (length-replicate (length lens) 0)
  | inr e ↦ rw e (length-assign_codes lens _)
]
