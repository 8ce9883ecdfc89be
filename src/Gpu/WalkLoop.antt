-- ===== src/Gpu/WalkLoop.antt =====
-- The loops of the walk shaders against the plain walk: what they write, and where they stop.
use gpzip.Prelude.{
  ℕ, zero, suc, ◌+◌, ◌-◌, ◌/◌, ◌^◌, ◌≤◌, ◌<◌, ◌≡◌, refl, ap, sym, ◌∙◌, ◌==◌, leb, true, false,
  if◌then◌else◌, some, List, [], ◌∷◌, length, get_elem?, get_or, set, drop, All, arith, Bool-cases,
  inl, inr, ◌⊎◌, subst, get_elem?-some_lt, length-set,
}
use native.Mathlib.Decide.{ℕ_discrete}
use gpzip.Gpu.Buffer.{add_u32}
use gpzip.Gpu.Bytes.{get_elem?-set_self, get_elem?-set_ne}
use gpzip.Gpu.Walk.{next, emit_loop, summary_loop}

-- The element `j` of `walked` is that of `tokens`.
abbrev pub Right : List ℕ → List ℕ → ℕ → Type 0
Right tokens walked j = get_elem? walked j ≡ get_elem? tokens j

pub Right-set :
    (tokens walked : List ℕ) (idx t j : ℕ)
    → idx < length walked
    → get_elem? tokens idx ≡ some t
    → (j ≡ idx) ⊎ Right tokens walked j
    → Right tokens (set walked idx t) j
Right-set tokens walked idx t j h e (inl same) =
    subst (Right tokens (set walked idx t)) (sym same) (get_elem?-set_self walked idx t h ∙ sym e)
Right-set tokens walked idx t j h e (inr right) = elim (ℕ_discrete idx j) [
  | yes same ↦
      subst (Right tokens (set walked idx t)) same (get_elem?-set_self walked idx t h ∙ sym e)
  | no other ↦ get_elem?-set_ne walked idx j t other ∙ right
]

head_of_drop :
    (tokens : List ℕ) (i t : ℕ) (ts : List ℕ)
    → drop i tokens ≡ t ∷ ts
    → (get_elem? tokens i ≡ some t) × (drop (suc i) tokens ≡ ts)
head_of_drop [] zero t ts e = absurd cc
head_of_drop [] (suc i) t ts e = absurd cc
head_of_drop (x ∷ xs) zero t ts e = (cc, cc)
head_of_drop (x ∷ xs) (suc i) t ts e = head_of_drop xs i t ts e

get_or-lt : (xs : List ℕ) (i : ℕ) → All (λ t. t < 2 ^ 32) xs → get_or xs i 0 < 2 ^ 32
get_or-lt [] i h = omega arith
get_or-lt (x ∷ xs) zero (h, hs) = h
get_or-lt (x ∷ xs) (suc i) (h, hs) = get_or-lt xs i hs

-- The plain walk: the tokens from place `p` on, with `rounds` rounds.
abbrev pub step : ℕ → ℕ → ℕ
step t p = if t / 2 ^ 16 == 0 then p + 1 else p + t / 2 ^ 16

module _ (per_position : List ℕ) where
  pub walk_rounds : ℕ → ℕ → List ℕ
  walk_rounds zero p = []
  walk_rounds (suc rounds) p =
      let t = get_or per_position p 0 in
      let rest = walk_rounds rounds (step t p) in
      if leb (length per_position) p then [] else t ∷ rest

  pub walk_from : ℕ → List ℕ
  unfolding walk_rounds
  walk_from p = walk_rounds (length per_position - p) p

  walk_rounds_enough :
      (m n p : ℕ)
      → length per_position ≤ p + m
      → length per_position ≤ p + n
      → walk_rounds m p ≡ walk_rounds n p
  unfolding walk_rounds
  walk_rounds_enough zero zero p hm hn = refl
  walk_rounds_enough zero (suc n) p hm hn =
      let end : leb (length per_position) p ≡ true = ground (arith, hm) in rw end refl
  walk_rounds_enough (suc m) zero p hm hn =
      let end : leb (length per_position) p ≡ true = ground (arith, hn) in rw end refl
  walk_rounds_enough (suc m) (suc n) p hm hn =
      ap (λ rest. if leb (length per_position) p then [] else get_or per_position p 0 ∷ rest)
        (walk_rounds_enough m n (step (get_or per_position p 0) p) (ground (arith, hm))
          (ground (arith, hn)))

  pub walk_from-lt :
      (p : ℕ)
      → p < length per_position
      → walk_from p ≡ get_or per_position p 0 ∷ walk_from (step (get_or per_position p 0) p)
  unfolding walk_from walk_rounds
  walk_from-lt p h =
      walk_rounds_enough (length per_position - p) (suc (length per_position)) p (omega arith)
        (omega arith)
      ∙ rw more (
          ap (λ rest. get_or per_position p 0 ∷ rest)
            (walk_rounds_enough (length per_position)
              (length per_position - step (get_or per_position p 0) p)
              (step (get_or per_position p 0) p) (omega arith) (omega arith)))
    where
      more : leb (length per_position) p ≡ false
      more = ground (arith, h)

  pub walk_from-le : (p : ℕ) → length per_position ≤ p → walk_from p ≡ []
  unfolding walk_from
  walk_from-le p h = ap (λ k. walk_rounds k p) none_left ∙ unfold walk_rounds in refl
    where
      none_left : length per_position - p ≡ 0
      none_left = omega arith

  length-walk_rounds : (rounds p : ℕ) → length (walk_rounds rounds p) ≤ rounds
  unfolding walk_rounds
  length-walk_rounds zero p = omega arith
  length-walk_rounds (suc rounds) p =
      ground (arith, length-walk_rounds rounds (step (get_or per_position p 0) p))

  pub length-walk_from : (p : ℕ) → length (walk_from p) ≤ length per_position - p
  unfolding walk_from
  length-walk_from p = length-walk_rounds (length per_position - p) p

  -- What a run of the loops does from `cur`, which is at the token `idx`.
  pub record Emits (tokens : List ℕ) (end cur idx count : ℕ) (walked : List ℕ) (summary : ℕ × ℕ)
      (emitted : List ℕ × ℕ) : Type 0 where
    pub cur' : ℕ
    pub k : ℕ
    pub summarised : summary ≡ (cur', count + k)
    pub stops : emitted.1 ≡ idx + k
    pub past : end ≤ cur'
    pub near : cur' < length per_position + 2 ^ 16
    pub rest : drop (idx + k) tokens ≡ walk_from cur'
    pub inside : idx + k ≤ length tokens
    pub same_length : length emitted.0 ≡ length walked
    pub kept : (j : ℕ) → Right tokens walked j → Right tokens emitted.0 j
    pub written : (j : ℕ) → idx ≤ j → j < idx + k → Right tokens emitted.0 j

  module _ (small : All (λ t. t < 2 ^ 32) per_position)
      (fits : length per_position + 2 ^ 16 < 2 ^ 32) (tokens : List ℕ)
      (few : length tokens ≤ length per_position) (end : ℕ)
      (within : end ≤ length per_position) where
    stopped :
        (cur idx count : ℕ) (walked : List ℕ)
        → end ≤ cur
        → cur < length per_position + 2 ^ 16
        → drop idx tokens ≡ walk_from cur
        → idx ≤ length tokens
        → Emits tokens end cur idx count walked (cur, count) (walked, idx)
    stopped cur idx count walked past near rest inside = record {
      cur' = cur;
      k = 0;
      summarised = ap (λ (c : ℕ). (cur, c)) (omega arith);
      stops = omega arith;
      past = past;
      near = near;
      rest = ap (λ i. drop i tokens) (omega arith) ∙ rest;
      inside = omega arith;
      same_length = refl;
      kept = λ j right. right;
      written = λ j low high. absurd (omega arith);
    }

    -- One token, and a run behind it.
    emitted :
        (cur idx count t : ℕ) (walked : List ℕ) (onward : ℕ) (summary : ℕ × ℕ) (done : List ℕ × ℕ)
        → get_elem? tokens idx ≡ some t
        → idx < length walked
        → Emits tokens end onward (idx + 1) (count + 1) (set walked idx t) summary done
        → Emits tokens end cur idx count walked summary done
    emitted cur idx count t walked onward summary done at_idx room run = record {
      cur' = run.cur';
      k = suc run.k;
      summarised = run.summarised ∙ ap (λ (c : ℕ). (run.cur', c)) (omega arith);
      stops = run.stops ∙ omega arith;
      past = run.past;
      near = run.near;
      rest = ap (λ i. drop i tokens) (omega arith) ∙ run.rest;
      inside = omega (arith, run.inside);
      same_length = run.same_length ∙ length-set walked idx t;
      kept = λ j right. run.kept j (Right-set tokens walked idx t j room at_idx (inr right));
      written = written;
    }
      where
        written : (j : ℕ) → idx ≤ j → j < idx + suc run.k → Right tokens done.0 j
        written j low high = elim (ℕ_discrete j idx) [
          | yes same ↦ run.kept j (Right-set tokens walked idx t j room at_idx (inl same))
          | no other ↦ run.written j (omega (arith, other)) (omega arith)
        ]

    pub loops-Emits :
        (rounds cur idx count : ℕ) (walked : List ℕ)
        → end ≤ cur + rounds
        → cur < length per_position + 2 ^ 16
        → drop idx tokens ≡ walk_from cur
        → idx ≤ length tokens
        → count ≤ idx
        → length tokens ≤ length walked
        → Emits tokens end cur idx count walked
            (summary_loop rounds per_position end cur count)
            (emit_loop rounds per_position end cur idx walked)
    unfolding summary_loop emit_loop
    loops-Emits zero cur idx count walked enough near rest inside le room =
        stopped cur idx count walked (omega arith) near rest inside
    loops-Emits (suc rounds) cur idx count walked enough near rest inside le room =
        elim (Bool-cases (leb end cur)) [
          | inl e ↦ rw e (stopped cur idx count walked (ground (arith, e)) near rest inside)
          | inr e ↦
              let here : cur < length per_position = ground (arith, e, within) in
              let (at_idx, later) = head_of_drop tokens idx t _ (rest ∙ walk_from-lt cur here) in
              let lt : idx < length tokens = get_elem?-some_lt idx tokens t at_idx in
              let at_next : next t cur ≡ step t cur = ground (arith, t_small, here, fits) in
              let one_more : add_u32 idx 1 ≡ idx + 1 = omega (arith, lt, few, fits) in
              let count_more : add_u32 count 1 ≡ count + 1 = omega (arith, lt, le, few, fits) in
              rw (e, at_next, one_more, count_more)
                (emitted cur idx count t walked (step t cur) _ _ at_idx (omega (arith, lt, room)) (
                  loops-Emits rounds (step t cur) (idx + 1) (count + 1) (set walked idx t)
                    (ground (arith, enough)) (ground (arith, t_small, here))
                    (ap (λ i. drop i tokens) {y = suc idx} (omega arith) ∙ later) (omega arith)
                    (omega arith) (omega (arith, length-set walked idx t, room))))
        ]
      where
        t : ℕ
        t = get_or per_position cur 0

        t_small : t < 2 ^ 32
        t_small = get_or-lt per_position cur small
