-- ===== src/Deflate/Trim.antt =====
-- `trim_to_min` of deflate.rs: how many code lengths a dynamic block's header lists.
use gpzip.Prelude.{
  ℕ, zero, suc, ◌-◌, ◌≤◌, ◌<◌, ◌==◌, ltb, ◌≡◌, ◌≢◌, ◌⊎◌, inl, inr, ◌&&◌, if◌then◌else◌, List,
  length, get_or, arith, Bool-cases,
}
use native.Mathlib.Decide.{ℕ_discrete}

-- `while n > min && lens[n - 1] == 0`, from `n` at most the length, so that the index is in range.
unfoldable pub trim_loop : ℕ → List ℕ → ℕ → ℕ
trim_loop min lens zero = zero
trim_loop min lens (suc n) =
    let less = trim_loop min lens n in
    if ltb min (suc n) && (get_or lens n 0 == 0) then less else suc n

unfoldable pub trim_to_min : List ℕ → ℕ → ℕ
trim_to_min lens min = trim_loop min lens (length lens)

-- `r` keeps `min` of the first `n` lengths at least, only zeros are cut off, and no more can be.
pub record IsTrimmed (min : ℕ) (lens : List ℕ) (n r : ℕ) : Type 0 where
  pub enough : min ≤ r
  pub within : r ≤ n
  pub zeros : (i : ℕ) → r ≤ i → i < n → get_or lens i 0 ≡ 0
  pub tight : (r ≡ min) ⊎ (get_or lens (r - 1) 0 ≢ 0)

trim_loop-IsTrimmed :
    (min : ℕ) (lens : List ℕ) (n : ℕ) → min ≤ n → IsTrimmed min lens n (trim_loop min lens n)
unfolding trim_loop
trim_loop-IsTrimmed min lens zero h = record {
  enough = h;
  within = omega arith;
  zeros = λ i lo hi. absurd (omega (arith, hi));
  tight = inl (omega (arith, h));
}
trim_loop-IsTrimmed min lens (suc n) h = elim (Bool-cases (ltb min (suc n))) [
  | inr e ↦ rw (e, trim_loop) (stays (inl (ground (arith, e, h))))
  | inl e ↦ elim (Bool-cases (get_or lens n 0 == 0)) [
    | inr e' ↦ rw (e, e', trim_loop) (stays (inr (ground (arith, e'))))
    | inl e' ↦
        let t = trim_loop-IsTrimmed min lens n (ground (arith, e)) in
        rw (e, e', trim_loop)
          (record {
            enough = t.enough;
            within = omega (arith, t.within);
            zeros = λ i lo hi. elim (ℕ_discrete i n) [
              | yes k ↦ rw k (ground (arith, e'))
              | no k ↦ t.zeros i lo (omega (arith, hi, k))
            ];
            tight = t.tight;
          })
  ]
]
  where
    stays : (suc n ≡ min) ⊎ (get_or lens (suc n - 1) 0 ≢ 0) → IsTrimmed min lens (suc n) (suc n)
    stays t = record {
      enough = h;
      within = omega arith;
      zeros = λ i lo hi. absurd (omega (arith, lo, hi));
      tight = t;
    }

-- Of at least `min` code lengths, `trim_to_min` keeps `min` or more; it cuts off only zeros, and either
-- keeps `min` of them or the last that it keeps is not zero.
pub trim_to_min-IsTrimmed :
    (lens : List ℕ) (min : ℕ)
    → min ≤ length lens
    → IsTrimmed min lens (length lens) (trim_to_min lens min)
unfolding trim_to_min
trim_to_min-IsTrimmed lens min h = trim_loop-IsTrimmed min lens (length lens) h
