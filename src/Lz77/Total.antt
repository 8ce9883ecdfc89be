-- ===== src/Lz77/Total.antt =====
-- The lazy walk on tables that may hold anything: it ends, and it never drops a position.
use gpzip.Prelude.{
  ℕ, zero, suc, ◌+◌, ◌≤◌, ◌<◌, ◌≡◌, ltb, Bool-cases, Option-cases, inl, inr, false, some, List, [],
  ◌∷◌, ◌++◌, length, get_elem?, arith, get_elem?-lt, get_elem?-some_lt,
}
use gpzip.Lz77.{Token, literal, is_literal, defers, greedy_choice, greedy_loop, greedy_walk}

module _ (per_position : List Token) (input : List ℕ)
    (same : length per_position ≡ length input) where
  greedy_choice_moves :
      (p : ℕ) (t : Token)
      → get_elem? per_position p ≡ some t
      → (c : Token × ℕ) × (greedy_choice per_position input p t ≡ some c) × (p < c.1)
  unfolding greedy_choice
  greedy_choice_moves p t e = elim (Bool-cases (is_literal t)) [
    | inl lit ↦ ((t, p + 1), rw lit, omega arith)
    | inr ref ↦ elim (Bool-cases (defers t (get_elem? per_position (p + 1)))) [
      | inl later ↦
          let (b, hb) =
            get_elem?-lt p input (omega (arith, get_elem?-some_lt p per_position t e, same)) in
          ((literal b, p + 1), rw (ref, later, hb), omega arith)
      | inr now ↦ ((t, p + t.length), rw (ref, now), ground (arith, ref))
    ]
  ]

  greedy_loop_total :
      (fuel p : ℕ) (out : List Token)
      → length per_position ≤ p + fuel
      → (ts : List Token) × (greedy_loop fuel per_position input p out ≡ some ts)
  unfolding greedy_loop
  greedy_loop_total zero p out h =
      let spent : ltb p (length per_position) ≡ false = ground arith in (out, rw spent)
  greedy_loop_total (suc fuel) p out h = elim (Option-cases (get_elem? per_position p)) [
    | inl e ↦ (out, rw (e, greedy_loop))
    | inr (t, e) ↦
        let ((chosen, p'), hc, lt) = greedy_choice_moves p t e in
        let (ts, rest) = greedy_loop_total fuel p' (out ++ (chosen ∷ [])) (omega arith) in
        (ts, rw (e, greedy_loop) (rw hc rest))
  ]

-- The lazy walk ends without a panic on every table that is as long as the input, whatever the
-- tokens in it are.
pub greedy_walk_total :
    (per_position : List Token) (input : List ℕ)
    → length per_position ≡ length input
    → (ts : List Token) × (greedy_walk per_position input ≡ some ts)
unfolding greedy_walk
greedy_walk_total per_position input same =
    greedy_loop_total per_position input same (length per_position) 0 [] (omega arith)
