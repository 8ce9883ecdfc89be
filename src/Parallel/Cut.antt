-- ===== src/Parallel/Cut.antt =====
-- How the input is cut into the chunks that are dispatched and the buffer, and that the u32 index
-- counts them.
use gpzip.Prelude.{
  ℕ, suc, ◌-◌, ◌*◌, ◌^◌, ◌≤◌, ◌<◌, leb, ◌≡◌, ap, sym, ◌∙◌, inl, inr, List, [], ◌∷◌, ◌++◌, length,
  All, arith, Bool-cases, length-append, append_assoc, append-nil,
}
use native.Mathlib.Nat.{mul-le-mul_left}

unfoldable pub concat : List (List ℕ) → List ℕ
concat [] = []
concat (c ∷ cs) = c ++ concat cs

pub concat-append : (xs : List (List ℕ)) (c : List ℕ) → concat (xs ++ (c ∷ [])) ≡ concat xs ++ c
unfolding concat
concat-append [] c = append-nil c
concat-append (x ∷ xs) c =
    ap (λ t. x ++ t) (concat-append xs c) ∙ sym (append_assoc x (concat xs) c)

module _ (size : ℕ) (pos : 0 < size) where
  -- Where the input stands: the chunks that are dispatched are full, and the rest of the input is in the
  -- buffer, which is not.
  pub record Cut (input : List ℕ) (chunks : List (List ℕ)) (current : List ℕ) : Type 0 where
    pub joined : concat chunks ++ current ≡ input
    pub full : All (λ c. length c ≡ size) chunks
    pub room : length current < size

  -- The input is short enough for the u32 index.
  abbrev pub Short : List ℕ → Type 0
  Short input = length input < size * (2 ^ 32 - 1)

  length-concat :
      (chunks : List (List ℕ))
      → All (λ c. length c ≡ size) chunks
      → length (concat chunks) ≡ length chunks * size
  unfolding concat
  length-concat [] h = omega arith
  length-concat (c ∷ cs) (h, hs) =
      omega (arith, length-append c (concat cs), h, length-concat cs hs)

  mul_mono : (s n m : ℕ) → n ≤ m → s * n ≤ m * s
  mul_mono s n m h = omega (arith, mul-le-mul_left s h)

  pub few :
      (chunks : List (List ℕ))
      → All (λ c. length c ≡ size) chunks
      → length (concat chunks) < size * (2 ^ 32 - 1)
      → suc (length chunks) < 2 ^ 32
  few chunks full short = elim (Bool-cases (leb (2 ^ 32 - 1) (length chunks))) [
    | inr e ↦ ground (arith, e)
    | inl e ↦ absurd (over (ground (arith, e)))
  ]
    where
      over : 2 ^ 32 - 1 ≤ length chunks → ⊥
      over h =
          omega
            (arith, short, length-concat chunks full, mul_mono size (2 ^ 32 - 1) (length chunks) h)
