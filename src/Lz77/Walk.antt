-- ===== src/Lz77/Walk.antt =====
-- The lazy and the strict walk over a table of matches: they end, and what they choose stands for
-- the input.
use gpzip.Prelude.{
  ℕ, zero, suc, ◌+◌, ◌≤◌, ◌<◌, ◌≡◌, refl, ap, ◌∙◌, Option, some, subst, List, [], ◌∷◌, ◌++◌, length,
  get_elem?, take, arith, take_all, get_elem?-lt, get_elem?-some_lt, get_elem?-none_le, Bool-cases,
  Option-cases, inl, inr, false, if◌then◌else◌, ltb,
}
use gpzip.Lz77.{
  Token, literal, is_literal, greedy_choice, defers, reconstruct_loop, reconstruct, greedy_loop,
  greedy_walk, strict_loop, host_strict_greedy,
}
use gpzip.Lz77.Match.{IsMatch, put_token-take, reconstruct_loop-append}

-- A table with a true match for every position of the input.
pub record IsTable (per_position : List Token) (input : List ℕ) : Type 0 where
  pub same_length : length per_position ≡ length input
  pub bytes : (p b : ℕ) → get_elem? input p ≡ some b → b < 256
  pub matches : (p : ℕ) (t : Token) → get_elem? per_position p ≡ some t → IsMatch input p t

-- The tokens so far stand for the first `p` bytes.
abbrev Covers : List Token → ℕ → List ℕ → Type 0
Covers out p input = (reconstruct_loop out [] ≡ some (take p input)) × (p ≤ length input)

Covers-append :
    (input : List ℕ) (out : List Token) (p : ℕ) (t : Token)
    → IsMatch input p t
    → Covers out p input
    → p < length input
    → Covers (out ++ (t ∷ [])) (p + (if is_literal t then 1 else t.length)) input
Covers-append input out p t m (c, le) h =
    (reconstruct_loop-append out t [] ∙ rw c (put_token-take input p t m), ground (arith, m.inside))

pub literal-IsMatch :
    (input : List ℕ) (p b : ℕ) → get_elem? input p ≡ some b → b < 256 → IsMatch input p (literal b)
literal-IsMatch input p b e h = record {
  is_byte = λ _. (e, h);
  inside = omega (arith, get_elem?-some_lt p input b e);
  behind = λ k. absurd (k refl);
  equal = λ k h. absurd (omega arith);
}

-- A walk that starts where its tokens end, with fuel for what is left, ends with tokens that stand
-- for the whole input.
abbrev pub Walked : Option (List Token) → List ℕ → Type 0
Walked r input = (ts : List Token) × (r ≡ some ts) × (reconstruct ts ≡ some input)

Covers-Walked :
    (out : List Token) (p : ℕ) (input : List ℕ)
    → Covers out p input
    → length input ≤ p
    → Walked (some out) input
unfolding reconstruct
Covers-Walked out p input c h = (out, refl, c.0 ∙ ap some (take_all p input h))

module _ (per_position : List Token) (input : List ℕ) (table : IsTable per_position input) where
  -- A round of the lazy walk keeps the tokens in step with the position, and moves on.
  greedy_choice-Covers :
      (p : ℕ) (t : Token) (out : List Token)
      → get_elem? per_position p ≡ some t
      → Covers out p input
      → (c : Token × ℕ) × (greedy_choice per_position input p t ≡ some c)
        × Covers (out ++ (c.0 ∷ [])) c.1 input
        × (p < c.1)
  unfolding greedy_choice
  greedy_choice-Covers p t out e c = elim (Bool-cases (is_literal t)) [
    | inl lit ↦ ((t, p + 1), rw lit, rw lit at (Covers-append input out p t m c here), omega arith)
    | inr ref ↦ elim (Bool-cases (defers t (get_elem? per_position (p + 1)))) [
      | inl later ↦
          let (b, hb) = get_elem?-lt p input here in
          (
            (literal b, p + 1),
            rw (ref, later, hb),
            Covers-append input out p (literal b)
                (literal-IsMatch input p b hb (table.bytes p b hb)) c here,
            omega arith,
          )
      | inr now ↦ (
        (t, p + t.length),
        rw (ref, now),
        rw ref at (Covers-append input out p t m c here),
        ground (arith, ref),
      )
    ]
  ]
    where
      m : IsMatch input p t
      m = table.matches p t e

      here : p < length input
      here = omega (arith, get_elem?-some_lt p per_position t e, table.same_length)

  greedy_loop-Walked :
      (fuel p : ℕ) (out : List Token)
      → Covers out p input
      → length input ≤ p + fuel
      → Walked (greedy_loop fuel per_position input p out) input
  unfolding greedy_loop
  greedy_loop-Walked zero p out c h =
      let spent : ltb p (length per_position) ≡ false = ground (arith, table.same_length) in
      rw spent (Covers-Walked out p input c (omega arith))
  greedy_loop-Walked (suc fuel) p out c h = elim (Option-cases (get_elem? per_position p)) [
    | inl e ↦
        rw (e, greedy_loop)
          (Covers-Walked out p input c
            (omega (arith, get_elem?-none_le p per_position e, table.same_length)))
    | inr (t, e) ↦
        let ((chosen, p'), hc, cover, lt) = greedy_choice-Covers p t out e c in
        rw (e, greedy_loop)
          (rw hc (greedy_loop-Walked fuel p' (out ++ (chosen ∷ [])) cover (omega arith)))
  ]

  strict_loop-Walked :
      (fuel p : ℕ) (out : List Token)
      → Covers out p input
      → length input ≤ p + fuel
      → Walked (strict_loop fuel per_position p out) input
  unfolding strict_loop
  strict_loop-Walked zero p out c h =
      let spent : ltb p (length per_position) ≡ false = ground (arith, table.same_length) in
      rw spent (Covers-Walked out p input c (omega arith))
  strict_loop-Walked (suc fuel) p out c h = elim (Option-cases (get_elem? per_position p)) [
    | inl e ↦
        rw (e, strict_loop)
          (Covers-Walked out p input c
            (omega (arith, get_elem?-none_le p per_position e, table.same_length)))
    | inr (t, e) ↦
        rw (e, strict_loop)
          (strict_loop-Walked fuel (if is_literal t then p + 1 else p + t.length) (out ++ (t ∷ []))
            (subst (λ k. Covers (out ++ (t ∷ [])) k input) (ground arith)
              (Covers-append input out p t (table.matches p t e) c
                (omega (arith, get_elem?-some_lt p per_position t e, table.same_length))))
            (ground arith))
  ]

-- On a table with a true match for every position, the lazy walk of the host ends without a panic,
-- and the tokens that it chooses stand for exactly the input.
pub reconstruct-greedy_walk :
    (per_position : List Token) (input : List ℕ)
    → IsTable per_position input
    → Walked (greedy_walk per_position input) input
unfolding greedy_walk
reconstruct-greedy_walk per_position input table =
    greedy_loop-Walked per_position input table (length per_position) 0 []
      (unfold reconstruct_loop in refl, omega arith) (omega (arith, table.same_length))

-- On a table with a true match for every position, the strict walk, the reference for the walk on the GPU, ends and its tokens stand
-- for the input too.
pub reconstruct-host_strict_greedy :
    (per_position : List Token) (input : List ℕ)
    → IsTable per_position input
    → Walked (host_strict_greedy per_position) input
unfolding host_strict_greedy
reconstruct-host_strict_greedy per_position input table =
    strict_loop-Walked per_position input table (length per_position) 0 []
      (unfold reconstruct_loop in refl, omega arith) (omega (arith, table.same_length))
