-- ===== src/Gpu/Orders.antt =====
-- An order in which a device can run its invocations: one after the other.
use gpzip.Prelude.{
  ℕ, zero, suc, ◌+◌, ◌≤◌, ◌<◌, ◌≡◌, ap, ◌∙◌, some, List, [], ◌∷◌, length, get_elem?, arith,
}
use gpzip.Gpu.Buffer.{Runs, RunsEach, invocations}

-- The `n` invocations from `k` on.
unfoldable pub in_order : ℕ → ℕ → List ℕ
in_order zero k = []
in_order (suc n) k = k ∷ in_order n (k + 1)

in_order-at : (n k i : ℕ) → i < n → get_elem? (in_order n k) i ≡ some (k + i)
unfolding in_order
in_order-at zero k i h = absurd (omega (arith, h))
in_order-at (suc n) k zero h = ap some (omega arith)
in_order-at (suc n) k (suc i) h = in_order-at n (k + 1) i (omega (arith, h)) ∙ ap some (omega arith)

pub in_order-Runs : (m n : ℕ) → m ≤ n → Runs m (in_order n 0)
in_order-Runs m n le pos h =
    (pos, in_order-at n 0 pos (omega (arith, le, h)) ∙ ap some (omega arith))

-- Invocations enough for each of the chunks.
abbrev pub total : List (List ℕ) → ℕ
total [] = 0
total (input ∷ inputs) = invocations (length input) + total inputs

pub in_order-RunsEach :
    (n k : ℕ) (inputs : List (List ℕ))
    → total inputs ≤ n
    → RunsEach (λ i. (in_order n 0, in_order n 0)) k inputs
in_order-RunsEach n k [] h = tt
in_order-RunsEach n k (input ∷ inputs) h = (
  in_order-Runs (invocations (length input)) n (omega (arith, h)),
  in_order-RunsEach n (k + 1) inputs (omega (arith, h)),
)
