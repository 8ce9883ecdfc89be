-- ===== src/Deflate/Dynamic/Repair.antt =====
-- Where a dynamic block has fewer than two codes, the encoder adds some: the codes still fit.
use gpzip.Prelude.{
  ℕ, zero, suc, ◌+◌, ◌-◌, ◌≤◌, ◌<◌, ◌≡◌, refl, ◌∙◌, ltb, ◌==◌, min, Bool-cases, inl, inr, true,
  List, [], ◌∷◌, length, get_or, set, length-set, arith,
}
use gpzip.Huffman.Kraft.{
  share, weight, Fits, weight-set, weight-set-le, get_or-set_other, set-pos, get_or-lt,
}
use gpzip.Deflate.Dynamic.Plan.{count_used, first_used, fix_dist, fix_litlen}

count_used-pos : (lens : List ℕ) (s : ℕ) → 0 < get_or lens s 0 → 1 ≤ count_used lens
unfolding count_used
count_used-pos [] s h = absurd (omega arith)
count_used-pos (x ∷ xs) zero h = let e : ltb 0 x ≡ true = ground arith in rw e (omega arith)
count_used-pos (x ∷ xs) (suc s) h = ground (arith, count_used-pos xs s h)

weight-none : (m : ℕ) (lens : List ℕ) → count_used lens ≡ 0 → weight m lens ≡ 0
unfolding count_used
weight-none m [] h = refl
weight-none m (zero ∷ xs) h = omega (arith, weight-none m xs h)
weight-none m (suc x ∷ xs) h = absurd (ground (arith, h))

-- One symbol alone has the whole weight.
weight-one :
    (m : ℕ) (lens : List ℕ) (s : ℕ)
    → count_used lens < 2
    → 0 < get_or lens s 0
    → weight m lens ≡ share m (get_or lens s 0)
unfolding count_used
weight-one m [] s few h = absurd (omega arith)
weight-one m (x ∷ xs) zero few h =
    let none_left : count_used xs ≡ 0 = ground (arith, few, h) in
    omega (arith, weight-none m xs none_left)
weight-one m (zero ∷ xs) (suc s) few h = omega (arith, weight-one m xs s few h)
weight-one m (suc x ∷ xs) (suc s) few h =
    absurd (let another = count_used-pos xs s h in ground (arith, few))

first_used-pos :
    (i : ℕ) (lens : List ℕ)
    → 1 ≤ count_used lens
    → (k : ℕ) × (first_used i lens ≡ i + k) × (0 < get_or lens k 0)
unfolding count_used first_used
first_used-pos i [] h = absurd (omega arith)
first_used-pos i (zero ∷ xs) h =
    let (k, at, pos) = first_used-pos (i + 1) xs h in (suc k, at ∙ omega arith, pos)
first_used-pos i (suc x ∷ xs) h =
    let e : ltb 0 (suc x) ≡ true = ground arith in (0, rw e (omega arith), omega arith)

pub fix_dist-Fits : (lens : List ℕ) → Fits 15 lens → Fits 15 (fix_dist lens)
unfolding fix_dist
fix_dist-Fits lens fits = elim (Bool-cases (count_used lens == 0)) [
  | inl e ↦
      let z = weight-none 15 lens (ground (arith, e)) in
      let a = weight-set-le 15 lens 0 1 in
      let b = weight-set-le 15 (set lens 0 1) 1 1 in rw e (omega arith)
  | inr e ↦ elim (Bool-cases (count_used lens == 1)) [
    | inl e' ↦
        let one : count_used lens ≡ 1 = ground (arith, e') in
        let (k, at, pos) = first_used-pos 0 lens (omega arith) in
        let here : first_used 0 lens ≡ k = at ∙ omega arith in
        let whole = weight-one 15 lens k (omega arith) pos in
        let a = weight-set 15 lens k 1 (get_or-lt k lens pos) in
        let b = weight-set-le 15 (set lens k 1) (1 - min k 1) 1 in rw (e, e', here) (omega arith)
    | inr e' ↦ rw (e, e') fits
  ]
]

pub fix_dist-pos : (lens : List ℕ) (s : ℕ) → 0 < get_or lens s 0 → 0 < get_or (fix_dist lens) s 0
unfolding fix_dist
fix_dist-pos lens s h = elim (Bool-cases (count_used lens == 0)) [
  | inl e ↦ rw e (set-pos (set lens 0 1) 1 1 s (omega arith) (set-pos lens 0 1 s (omega arith) h))
  | inr e ↦ elim (Bool-cases (count_used lens == 1)) [
    | inl e' ↦
        let only : ℕ = first_used 0 lens in
        rw (e, e')
          (set-pos (set lens only 1) (1 - min only 1) 1 s (omega arith)
            (set-pos lens only 1 s (omega arith) h))
    | inr e' ↦ rw (e, e') h
  ]
]

-- The end of the block is in use.
pub fix_litlen-Fits :
    (lens : List ℕ) → 0 < get_or lens 256 0 → Fits 15 lens → Fits 15 (fix_litlen lens)
unfolding fix_litlen
fix_litlen-Fits lens h fits = elim (Bool-cases (ltb (count_used lens) 2)) [
  | inl e ↦
      let few : count_used lens < 2 = ground (arith, e) in
      let whole = weight-one 15 lens 256 few h in
      let a = weight-set-le 15 lens 0 1 in
      let inside : 256 < length (set lens 0 1) =
        omega (arith, length-set lens 0 1, get_or-lt 256 lens h) in
      let b = weight-set 15 (set lens 0 1) 256 1 inside in
      let kept = get_or-set_other lens 256 0 1 (λ k. absurd (omega (arith, k))) in
      let b' : weight 15 (set (set lens 0 1) 256 1) + share 15 (get_or lens 256 0)
          ≡ weight 15 (set lens 0 1) + share 15 1 =
        rw kept at b in
      rw e (omega arith)
  | inr e ↦ rw e fits
]

pub fix_litlen-pos :
    (lens : List ℕ) (s : ℕ) → 0 < get_or lens s 0 → 0 < get_or (fix_litlen lens) s 0
unfolding fix_litlen
fix_litlen-pos lens s h = elim (Bool-cases (ltb (count_used lens) 2)) [
  | inl e ↦ rw e (set-pos (set lens 0 1) 256 1 s (omega arith) (set-pos lens 0 1 s (omega arith) h))
  | inr e ↦ rw e h
]
