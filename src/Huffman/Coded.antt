-- ===== src/Huffman/Coded.antt =====
-- What `try_build_code_lengths` returns: lengths of codes that fit side by side, for every symbol in use.
use gpzip.Prelude.{
  ℕ, zero, suc, ◌+◌, ◌-◌, ◌*◌, ◌^◌, ◌≤◌, ◌<◌, ◌≡◌, refl, ap, ◌∙◌, subst, ltb, leb, Bool-cases,
  bind_some, ◌⊎◌, inl, inr, true, false, Option, none, some, ◌>>=◌, List, [], ◌∷◌, All, length,
  get_or, set, replicate, length-replicate, map, length-map, arith,
}
use gpzip.Prelude.Bits.{two_pow-add, two_pow-le}
use native.Mathlib.Nat.{one-le-pow}
use gpzip.Huffman.Tree.{standard_huffman}
use gpzip.Huffman.Canonical.{maximum}
use gpzip.Huffman.Lengths.{
  used_symbols, ceil_log2, halve, limit_loop, limit_rounds, lengths_for, try_build_code_lengths,
}
use gpzip.Huffman.Bounds.{maximum-bounds}
use gpzip.Huffman.Total.{AreU32, length-used_symbols-halve}
use gpzip.Huffman.Kraft.{In, weight, Fits, get_or-lt, weight-set-le, get_or-set_self}
use gpzip.Huffman.Leaves.{weight-replicate, standard_huffman-Fits}

pub record IsCoded (m : ℕ) (freq lens : List ℕ) : Type 0 where
  pub fits : Fits m lens
  pub all : (s : ℕ) → 0 < get_or freq s 0 → 0 < get_or lens s 0

-- The same sum, counted in larger units.
weight-scaled :
    (k m : ℕ) (lens : List ℕ) → All (λ l. l ≤ m) lens → weight (k + m) lens ≡ 2 ^ k * weight m lens
weight-scaled k m [] h = omega arith
weight-scaled k m (zero ∷ ls) h = omega (arith, weight-scaled k m ls h.1)
weight-scaled k m (suc l ∷ ls) h =
    let e : k + m - suc l ≡ k + (m - suc l) = omega arith in
    let p : 2 ^ (k + m - suc l) ≡ 2 ^ k * 2 ^ (m - suc l) =
      ap (λ (i : ℕ). 2 ^ i) e ∙ two_pow-add k (m - suc l) in
    omega (arith, weight-scaled k m ls h.1)

pub cancel : (p a b : ℕ) → 1 ≤ p → p * a ≤ p * b → a ≤ b
cancel p a b pos h = grind arith

Fits-scaled :
    (m : ℕ) (lens : List ℕ) → m ≤ 255 → All (λ l. l ≤ m) lens → Fits 255 lens → Fits m lens
Fits-scaled m lens le h f =
    let e : 255 - m + m ≡ 255 = omega arith in
    cancel (2 ^ (255 - m)) (weight m lens) (2 ^ m) (one-le-pow (255 - m) 2 (omega arith)) (
      omega (
        arith,
        weight-scaled (255 - m) m lens h,
        ap (λ (i : ℕ). weight i lens) e,
        two_pow-add (255 - m) m,
        ap (λ (i : ℕ). 2 ^ i) e,
        f,
      ))

halve-AreU32 : (freq : List ℕ) → AreU32 freq → AreU32 (map halve freq)
halve-AreU32 [] h = tt
halve-AreU32 (f ∷ fs) h = (ground arith, halve-AreU32 fs h.1)

halve-pos : (freq : List ℕ) (s : ℕ) → 0 < get_or freq s 0 → 0 < get_or (map halve freq) s 0
halve-pos [] s h = h
halve-pos (f ∷ fs) zero h = ground arith
halve-pos (f ∷ fs) (suc s) h = halve-pos fs s h

limit_loop-IsCoded :
    (fuel m : ℕ) (work lens : List ℕ)
    → m ≤ 255
    → AreU32 work
    → length work ≤ 512
    → 1 ≤ length (used_symbols 0 work)
    → limit_loop fuel m work ≡ some lens
    → IsCoded m work lens
unfolding limit_loop
limit_loop-IsCoded zero m work lens le small short used e = cc
limit_loop-IsCoded (suc fuel) m work lens le small short used e =
    let (built, first, long, fit, covers) = standard_huffman-Fits work small short used in
    go built first fit covers
      (limit_loop-IsCoded fuel m (map halve work) lens le (halve-AreU32 work small)
        (omega (arith, length-map halve work)) (omega (arith, length-used_symbols-halve 0 work)))
      (Bool-cases (leb (maximum built) m))
  where
    go :
        (built : List ℕ)
        → standard_huffman work ≡ some built
        → Fits 255 built
        → ((s : ℕ) → 0 < get_or work s 0 → 0 < get_or built s 0)
        → (limit_loop fuel m (map halve work) ≡ some lens → IsCoded m (map halve work) lens)
        → (leb (maximum built) m ≡ true) ⊎ (leb (maximum built) m ≡ false)
        → IsCoded m work lens
    go built first fit covers ih (inl low) =
        let done : some built ≡ some lens = rw (first, low, limit_loop) at e in
        let same : built ≡ lens = cc in
        subst (IsCoded m work) same (record {
          fits = Fits-scaled m built le (maximum-bounds built m (ground (arith, low))) fit;
          all = covers;
        })
    go built first fit covers ih (inr high) =
        let later : limit_loop fuel m (map halve work) ≡ some lens =
          rw (first, high, limit_loop) at e in
        let c = ih later in record { fits = c.fits; all = λ s k. c.all s (halve-pos work s k) }

-- Every symbol in use is among the used ones.
used_symbols-In : (i : ℕ) (fs : List ℕ) (k : ℕ) → 0 < get_or fs k 0 → In (i + k) (used_symbols i fs)
unfolding used_symbols
used_symbols-In i [] k h = absurd (omega arith)
used_symbols-In i (f ∷ fs) zero h =
    let e : ltb 0 f ≡ true = ground arith in rw (e, used_symbols) (inl (omega arith))
used_symbols-In i (f ∷ fs) (suc k) h =
    let e : i + suc k ≡ i + 1 + k = omega arith in
    let later = used_symbols-In (i + 1) fs k h in
    rw e (elim (Bool-cases (ltb 0 f)) [
      | inl u ↦ rw (u, used_symbols) (inr later)
      | inr u ↦ rw (u, used_symbols) later
    ])

lengths_for-IsCoded :
    (freq : List ℕ) (m : ℕ) (used lens : List ℕ)
    → used_symbols 0 freq ≡ used
    → 1 ≤ m
    → m ≤ 255
    → AreU32 freq
    → length freq ≤ 512
    → lengths_for freq m used ≡ some (some lens)
    → IsCoded m freq lens
unfolding lengths_for
lengths_for-IsCoded freq m [] lens u pos le small short e =
    let same : replicate (length freq) 0 ≡ lens = cc in
    subst (IsCoded m freq) same (record {
      fits = let z = weight-replicate m (length freq) in omega arith;
      all = λ s k. absurd (subst (In (0 + s)) u (used_symbols-In 0 freq s k));
    })
lengths_for-IsCoded freq m (only ∷ []) lens u pos le small short e =
    let same : set (replicate (length freq) 0) only 1 ≡ lens = cc in
    subst (IsCoded m freq) same (record {
      fits =
          let z = weight-replicate m (length freq) in
          let w = weight-set-le m (replicate (length freq) 0) only 1 in
          let b = two_pow-le (m - 1) m (omega arith) in omega arith;
      all = λ s k. one s k (subst (In (0 + s)) u (used_symbols-In 0 freq s k));
    })
  where
    zeros : List ℕ
    zeros = replicate (length freq) 0

    one : (s : ℕ) → 0 < get_or freq s 0 → In (0 + s) (only ∷ []) → 0 < get_or (set zeros only 1) s 0
    one s k (inl at) =
        let here : s ≡ only = omega arith in
        let inside : only < length zeros =
          omega (arith, get_or-lt s freq k, length-replicate {A = ℕ} (length freq) 0) in
        rw here (omega (arith, get_or-set_self zeros only 1 inside))
    one s k (inr no_more) = absurd no_more
lengths_for-IsCoded freq m (s ∷ (s' ∷ more)) lens u pos le small short e =
    go (Bool-cases (ltb m (ceil_log2 n_used 0 n_used)))
  where
    n_used : ℕ
    n_used = suc (suc (length more))

    count : length (used_symbols 0 freq) ≡ n_used
    count = ap length u

    many : 1 ≤ length (used_symbols 0 freq)
    many = omega (arith, count)

    refused : Option (Option (List ℕ))
    refused = some none

    go :
        (ltb m (ceil_log2 n_used 0 n_used) ≡ true) ⊎ (ltb m (ceil_log2 n_used 0 n_used) ≡ false)
        → IsCoded m freq lens
    go (inl large) = let no : refused ≡ some (some lens) = rw (large, lengths_for) at e in cc
    go (inr fits) =
        let ran : (limit_loop limit_rounds m freq >>= (λ ls. some (some ls))) ≡ some (some lens) =
          rw (fits, lengths_for) at e in
        let (ls, first, last) = bind_some _ _ (some lens) ran in
        let same : ls ≡ lens = cc in
        limit_loop-IsCoded limit_rounds m freq lens le small short many
          (first ∙ ap (λ (ks : List ℕ). some ks) same)

-- The code lengths of up to 512 u32 frequencies are those of codes that fit side by side, and every
-- symbol in use has one.
pub try_build_code_lengths-IsCoded :
    (freq : List ℕ) (m : ℕ) (lens : List ℕ)
    → 1 ≤ m
    → m ≤ 255
    → AreU32 freq
    → length freq ≤ 512
    → try_build_code_lengths freq m ≡ some (some lens)
    → IsCoded m freq lens
unfolding try_build_code_lengths
try_build_code_lengths-IsCoded freq m lens pos le small short e =
    lengths_for-IsCoded freq m (used_symbols 0 freq) lens refl pos le small short e
