-- ===== src/Deflate/Dynamic/Ordered.antt =====
-- The lengths of the header's own code come back to their places.
use gpzip.Prelude.{
  ℕ, zero, suc, ◌≤◌, ◌<◌, ◌≡◌, refl, ap, sym, ◌∙◌, ◌==◌, ltb, Bool-cases, inl, inr, List, [], ◌∷◌,
  All, map, length, get_or, take, arith, true,
}
use native.Mathlib.Decide.{ℕ_discrete}
use gpzip.Deflate.Dynamic.Plan.{hclen_loop, meta_order}
use gpzip.Deflate.InflateDynamic.{positions, in_order}

abbrev ordered : List ℕ → ℕ → ℕ
ordered meta i = get_or meta (get_or meta_order i 0) 0

-- The loop stops at four, and passes zeros only.
pub hclen_loop-enough : (meta : List ℕ) (n : ℕ) → 4 ≤ n → 4 ≤ hclen_loop meta n
unfolding hclen_loop
hclen_loop-enough meta zero h = absurd (omega arith)
hclen_loop-enough meta (suc n) h = elim (Bool-cases (ltb 4 (suc n))) [
  | inr e ↦ rw e h
  | inl e ↦ elim (Bool-cases (ordered meta n == 0)) [
    | inl e' ↦ rw (e, e') (hclen_loop-enough meta n (ground (arith, e)))
    | inr e' ↦ rw (e, e') h
  ]
]

is_zero : (v : ℕ) → (v == 0) ≡ true → v ≡ 0
is_zero v e = ground (arith, e)

hclen_loop-zeros : (meta : List ℕ) (n i : ℕ) → hclen_loop meta n ≤ i → i < n → ordered meta i ≡ 0
unfolding hclen_loop
hclen_loop-zeros meta zero i lo hi = absurd (omega arith)
hclen_loop-zeros meta (suc n) i lo hi = elim (Bool-cases (ltb 4 (suc n))) [
  | inr e ↦ absurd (let past : suc n ≤ i = rw e at lo in omega arith)
  | inl e ↦ elim (Bool-cases (ordered meta n == 0)) [
    | inr e' ↦ absurd (let past : suc n ≤ i = rw (e, e') at lo in omega arith)
    | inl e' ↦
        let lo' : hclen_loop meta n ≤ i = rw (e, e', hclen_loop) at lo in
        elim (ℕ_discrete i n) [
          | yes k ↦ ap (ordered meta) k ∙ is_zero (ordered meta n) e'
          | no k ↦ hclen_loop-zeros meta n i lo' (omega arith)
        ]
  ]
]

get_or-map-take :
    (f : ℕ → ℕ) (k i : ℕ) (xs : List ℕ)
    → i < k
    → i < length xs
    → get_or (map f (take k xs)) i 0 ≡ f (get_or xs i 0)
get_or-map-take f zero i xs h le = absurd (omega arith)
get_or-map-take f (suc k) i [] h le = absurd (omega arith)
get_or-map-take f (suc k) zero (x ∷ xs) h le = refl
get_or-map-take f (suc k) (suc i) (x ∷ xs) h le =
    get_or-map-take f k i xs (omega arith) (omega arith)

get_or-map-past : (f : ℕ → ℕ) (k i : ℕ) (xs : List ℕ) → k ≤ i → get_or (map f (take k xs)) i 0 ≡ 0
get_or-map-past f zero i xs h = refl
get_or-map-past f (suc k) i [] h = refl
get_or-map-past f (suc k) zero (x ∷ xs) h = absurd (omega arith)
get_or-map-past f (suc k) (suc i) (x ∷ xs) h = get_or-map-past f k i xs (omega arith)

field :
    (meta : List ℕ) (i : ℕ)
    → i < 19
    → get_or (map (λ s. get_or meta s 0) (take (hclen_loop meta 19) meta_order)) i 0
      ≡ ordered meta i
field meta i h = elim (Bool-cases (ltb i (hclen_loop meta 19))) [
  | inl e ↦
      get_or-map-take (λ s. get_or meta s 0) (hclen_loop meta 19) i meta_order (ground (arith, e)) h
  | inr e ↦
      get_or-map-past (λ s. get_or meta s 0) (hclen_loop meta 19) i meta_order (ground (arith, e))
      ∙ sym (hclen_loop-zeros meta 19 i (ground (arith, e)) h)
]

-- The list of what a function gives from 0 on.
abbrev tabulate : ℕ → (ℕ → ℕ) → List ℕ
tabulate zero f = []
tabulate (suc n) f = f 0 ∷ tabulate n (λ i. f (suc i))

tabulate-get_or : (xs : List ℕ) → tabulate (length xs) (λ i. get_or xs i 0) ≡ xs
tabulate-get_or [] = refl
tabulate-get_or (x ∷ xs) = ap (λ t. x ∷ t) (tabulate-get_or xs)

map-places :
    (fields : List ℕ) (meta ps : List ℕ)
    → ((i : ℕ) → i < 19 → get_or fields i 0 ≡ ordered meta i)
    → All (λ p. p < 19) ps
    → map (λ p. get_or fields p 0) ps ≡ map (ordered meta) ps
map-places fields meta [] same h = refl
map-places fields meta (p ∷ ps) same h = rw (same p h.0, map-places fields meta ps same h.1) refl

-- The fields in the header's order, as many as it lists, put in the order of the symbols.
pub in_order-meta :
    (meta : List ℕ)
    → length meta ≡ 19
    → in_order (map (λ s. get_or meta s 0) (take (hclen_loop meta 19) meta_order)) ≡ meta
unfolding in_order
in_order-meta meta e =
    map-places _ meta positions (field meta) (omega arith)
    ∙ ap (λ (n : ℕ). tabulate n (λ i. get_or meta i 0)) (sym e)
    ∙ tabulate-get_or meta
