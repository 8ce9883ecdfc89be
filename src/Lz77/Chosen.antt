-- ===== src/Lz77/Chosen.antt =====
-- What the lazy walk can choose: entries of the table and bytes of the input, one a round at most.
use gpzip.Prelude.{
  ℕ, zero, suc, ◌+◌, ◌≤◌, ◌≡◌, ◌>>=◌, subst, ltb, Bool-cases, Option-cases, inl, inr, ◌⊎◌, false,
  true, none, some, List, [], ◌∷◌, ◌++◌, All, All-append, get_elem?-All, bind_some, length,
  length-append, get_elem?, arith,
}
use gpzip.Lz77.{Token, literal, is_literal, defers, greedy_choice, greedy_loop, greedy_walk}

module _ (P : Token → Type 0) (per_position : List Token) (input : List ℕ)
    (entries : All P per_position)
    (literals : (p b : ℕ) → get_elem? input p ≡ some b → P (literal b)) where
  greedy_choice_chosen :
      (p : ℕ) (t : Token) (c : Token × ℕ)
      → get_elem? per_position p ≡ some t
      → greedy_choice per_position input p t ≡ some c
      → P c.0
  greedy_choice_chosen p t c found e =
      go (Bool-cases (is_literal t)) (Bool-cases (defers t (get_elem? per_position (p + 1))))
    where
      entry : (n : ℕ) → some (t, n) ≡ some c → P c.0
      entry n same =
          let at : t ≡ c.0 = cc in subst P at (get_elem?-All P per_position p t entries found)

      go :
          (is_literal t ≡ true) ⊎ (is_literal t ≡ false)
          → (defers t (get_elem? per_position (p + 1)) ≡ true)
            ⊎ (defers t (get_elem? per_position (p + 1)) ≡ false)
          → P c.0
      go (inl lit) d =
          let same : some (t, p + 1) ≡ some c = unfold greedy_choice in rw lit at e in
          entry (p + 1) same
      go (inr ref) (inl later) =
          let ran : (get_elem? input p >>= λ b. some (literal b, p + 1)) ≡ some c =
            unfold greedy_choice in rw (ref, later) at e in
          let (b, hb, last) = bind_some (get_elem? input p) _ c ran in
          let at : literal b ≡ c.0 = cc in subst P at (literals p b hb)
      go (inr ref) (inr now) =
          let same : some (t, p + t.length) ≡ some c = unfold greedy_choice in rw (ref, now) at e in
          entry (p + t.length) same

  greedy_loop_chosen :
      (fuel p : ℕ) (out ts : List Token)
      → All P out
      → greedy_loop fuel per_position input p out ≡ some ts
      → All P ts × (length ts ≤ length out + fuel)
  unfolding greedy_loop
  greedy_loop_chosen zero p out ts h e = elim (Bool-cases (ltb p (length per_position))) [
    | inl more ↦ let no : none ≡ some ts = rw more at e in absurd cc
    | inr spent ↦
        let done : some out ≡ some ts = rw spent at e in
        let same : out ≡ ts = cc in
        subst (λ us. All P us × (length us ≤ length out + 0)) same (h, omega arith)
  ]
  greedy_loop_chosen (suc fuel) p out ts h e = elim (Option-cases (get_elem? per_position p)) [
    | inl past ↦
        let done : some out ≡ some ts = rw (past, greedy_loop) at e in
        let same : out ≡ ts = cc in
        subst (λ us. All P us × (length us ≤ length out + suc fuel)) same (h, omega arith)
    | inr (t, found) ↦ elim (Option-cases (greedy_choice per_position input p t)) [
      | inl panics ↦ let no : none ≡ some ts = rw (found, panics, greedy_loop) at e in absurd cc
      | inr (c, chose) ↦
          let rest : greedy_loop fuel per_position input c.1 (out ++ (c.0 ∷ [])) ≡ some ts =
            rw (found, chose, greedy_loop) at e in
          let grown = All-append P out (c.0 ∷ []) h (greedy_choice_chosen p t c found chose, tt) in
          let (all, few) = greedy_loop_chosen fuel c.1 (out ++ (c.0 ∷ [])) ts grown rest in
          (all, omega (arith, few, length-append out (c.0 ∷ [])))
    ]
  ]

  -- What holds of the entries and of the input's literals holds of the tokens, and they are not more
  -- than the entries.
  pub greedy_walk_chosen :
      (ts : List Token)
      → greedy_walk per_position input ≡ some ts
      → All P ts × (length ts ≤ length per_position)
  unfolding greedy_walk
  greedy_walk_chosen ts e =
      let (all, few) = greedy_loop_chosen (length per_position) 0 [] ts tt e in (all, omega arith)
