-- ===== src/Huffman/Total.antt =====
-- `try_build_code_lengths` ends: halving makes all frequencies alike, and then the tree is balanced.
use gpzip.Prelude.{
  ℕ, zero, suc, ◌+◌, ◌^◌, ◌≤◌, ◌<◌, ◌≡◌, refl, ap, ltb, leb, Bool-cases, ◌⊎◌, true, false, ◌>>=◌,
  inl, inr, none, some, List, [], ◌∷◌, All, length, map, arith,
}
use native.Mathlib.Nat.{pow-suc, one-le-pow}
use gpzip.Huffman.Tree.{standard_huffman}
use gpzip.Huffman.Canonical.{maximum}
use gpzip.Huffman.Lengths.{used_symbols, halve, limit_loop, lengths_for, try_build_code_lengths}
use gpzip.Huffman.Bounds.{IsLimited, try_build_code_lengths-IsLimited}
use gpzip.Huffman.Merging.{standard_huffman-le}
use gpzip.Huffman.Balanced.{bits_for, bits_for-le, bits_for-gt, standard_huffman-balanced}

-- The tree is built, with no panic, whatever the frequencies in use are.
standard_huffman_total :
    (freq : List ℕ)
    → 1 ≤ length (used_symbols 0 freq)
    → (lens : List ℕ) × (standard_huffman freq ≡ some lens)
standard_huffman_total freq used =
    let (_, lens, built, _, _) =
      standard_huffman-le (λ x. x.1) (λ _. Unit {0}) (λ x y heap next lx ly v. (tt, lx, ly)) freq
        used tt in
    (lens, built)

-- Halving keeps the symbols in use.
pub length-used_symbols-halve :
    (i : ℕ) (freq : List ℕ)
    → length (used_symbols i (map halve freq)) ≡ length (used_symbols i freq)
unfolding used_symbols
length-used_symbols-halve i [] = refl
length-used_symbols-halve i (f ∷ fs) = ground (arith, length-used_symbols-halve (i + 1) fs)

halve-small :
    (j : ℕ) (freq : List ℕ)
    → All (λ f. f < 2 ^ suc (suc j)) freq
    → All (λ f. f < 2 ^ suc j) (map halve freq)
halve-small j [] h = tt
halve-small j (f ∷ fs) h =
    let e = pow-suc 2 (suc j) in
    let e' = pow-suc 2 j in
    let pos = one-le-pow j 2 (omega arith) in (ground arith, halve-small j fs h.1)

pub maximum-le : (xs : List ℕ) (m : ℕ) → All (λ x. x ≤ m) xs → maximum xs ≤ m
unfolding maximum
maximum-le [] m h = omega arith
maximum-le (x ∷ xs) m h = ground (arith, maximum-le xs m h.1)

-- One round more than the bits of the largest frequency is enough.
limit_loop_total :
    (j m : ℕ) (work : List ℕ)
    → All (λ f. f < 2 ^ suc j) work
    → 2 ≤ length (used_symbols 0 work)
    → length (used_symbols 0 work) ≤ 2 ^ m
    → (lens : List ℕ) × (limit_loop (suc j) m work ≡ some lens)
unfolding limit_loop
limit_loop_total zero m work small used fits =
    let (lens, built, low) = standard_huffman-balanced work small used in
    let most = bits_for-le (length (used_symbols 0 work)) m fits in
    let le : maximum lens ≤ m = omega (arith, maximum-le lens _ low) in
    let e : leb (maximum lens) m ≡ true = ground arith in (lens, rw (built, e) refl)
limit_loop_total (suc j) m work small used fits =
    let (lens, built) = standard_huffman_total work (omega arith) in
    let same = length-used_symbols-halve 0 work in
    let (later, ran) =
      limit_loop_total j m (map halve work) (halve-small j work small) (omega arith)
        (omega arith) in
    elim (Bool-cases (leb (maximum lens) m)) [
      | inl e ↦ (lens, rw (built, e) refl)
      | inr e ↦ (later, rw (built, e) ran)
    ]

-- Frequencies of 32 bits.
abbrev pub AreU32 : List ℕ → Type 0
AreU32 freq = All (λ f. f < 2 ^ 32) freq

u32-small : (freq : List ℕ) → AreU32 freq → All (λ f. f < 2 ^ suc 32) freq
u32-small [] h = tt
u32-small (f ∷ fs) h = (omega arith, u32-small fs h.1)

lengths_for_total :
    (freq : List ℕ) (m : ℕ) (used : List ℕ)
    → used_symbols 0 freq ≡ used
    → AreU32 freq
    → 1 ≤ m
    → ((length used ≤ 2 ^ m) × (lens : List ℕ) × (lengths_for freq m used ≡ some (some lens)))
      ⊎ ((2 ^ m < length used) × (lengths_for freq m used ≡ some none))
unfolding lengths_for
lengths_for_total freq m [] e h pos = inl (omega arith, _, refl)
lengths_for_total freq m (only ∷ []) e h pos =
    let many = one-le-pow m 2 (omega arith) in inl (omega arith, _, refl)
lengths_for_total freq m (s ∷ (s' ∷ more)) e h pos = elim (Bool-cases (leb n (2 ^ m))) [
  | inl k ↦
      let le : n ≤ 2 ^ m = ground (arith, k) in
      let most = bits_for-le n m le in
      let few : ltb m (bits_for n) ≡ false = ground (arith, most) in
      let count : length (used_symbols 0 freq) ≡ n = ap length e in
      let (lens, ran) = limit_loop_total 32 m freq (u32-small freq h) (omega arith) (omega arith) in
      inl (le, lens, rw (few, lengths_for) (ap (λ r. r >>= (λ ls. some (some ls))) ran))
  | inr k ↦
      let lt : 2 ^ m < n = ground (arith, k) in
      let least = bits_for-gt n m lt in
      let many : ltb m (bits_for n) ≡ true = ground (arith, least) in
      inr (lt, rw (many, lengths_for) refl)
]
  where
    n : ℕ
    n = suc (suc (length more))

-- For u32 frequencies and a limit of 1 or more, `try_build_code_lengths` returns: where the limit has
-- codes enough for the symbols in use, as many code lengths as frequencies, none above the limit, and
-- otherwise `None`.
pub try_build_code_lengths_total :
    (freq : List ℕ) (max_bits : ℕ)
    → AreU32 freq
    → 1 ≤ max_bits
    → ((length (used_symbols 0 freq) ≤ 2 ^ max_bits)
        × (lens : List ℕ) × (try_build_code_lengths freq max_bits ≡ some (some lens))
        × IsLimited (length freq) max_bits lens)
      ⊎ ((2 ^ max_bits < length (used_symbols 0 freq))
          × (try_build_code_lengths freq max_bits ≡ some none))
try_build_code_lengths_total freq m h pos =
    elim (lengths_for_total freq m (used_symbols 0 freq) refl h pos) [
      | inl (le, lens, e) ↦
          let built : try_build_code_lengths freq m ≡ some (some lens) =
            unfold try_build_code_lengths in e in
          inl (le, lens, built, try_build_code_lengths-IsLimited freq m lens pos built)
      | inr (lt, e) ↦ inr (lt, unfold try_build_code_lengths in e)
    ]
