-- ===== src/Deflate/Dynamic/RleBounds.antt =====
-- The run-length form of the lengths keeps to the widths of its extra bits.
use gpzip.Prelude.{
  ℕ, zero, suc, ◌+◌, ◌-◌, ◌^◌, ◌≤◌, ◌<◌, ◌==◌, leb, Bool-cases, inl, inr, List, [], ◌∷◌, All,
  All-append, length, drop, take, arith, min, All-drop,
}
use native.Mathlib.Nat.{one-le-pow}
use gpzip.Huffman.Bounds.{All-replicate}
use gpzip.Deflate.Rle.{
  run_length, entry, repeat_loop, zero_run, value_run, rle_loop, rle_encode_lengths,
}
use gpzip.Deflate.Dynamic.Steps.{FitsExtra}

repeat_loop-FitsExtra :
    (code extra_bits low high fuel run : ℕ)
    → code < 19
    → extra_bits ≤ 24
    → high < low + 2 ^ extra_bits
    → All FitsExtra (repeat_loop code extra_bits low high fuel run).0
unfolding repeat_loop
repeat_loop-FitsExtra code extra_bits low high zero run c le h = tt
repeat_loop-FitsExtra code extra_bits low high (suc fuel) run c le h =
    elim (Bool-cases (leb low run)) [
      | inl e ↦
          rw (e, repeat_loop)
            (
              (le, omega (arith, h, two_pow), c),
              repeat_loop-FitsExtra code extra_bits low high fuel (run - min run high) c le h,
            )
      | inr e ↦ rw (e, repeat_loop) tt
    ]
  where
    two_pow : 1 ≤ 2 ^ extra_bits
    two_pow = one-le-pow extra_bits 2 (omega arith)

zero_run-FitsExtra : (run : ℕ) → All FitsExtra (zero_run run)
unfolding zero_run
zero_run-FitsExtra run =
    All-append FitsExtra _ _
      (repeat_loop-FitsExtra 18 7 11 138 run run (omega arith) (omega arith) (omega arith))
      (All-append FitsExtra _ _
        (repeat_loop-FitsExtra 17 3 3 10 _ _ (omega arith) (omega arith) (omega arith))
        (All-replicate FitsExtra _ (entry 0 0 0) (omega arith)))

value_run-FitsExtra : (cur run : ℕ) → cur ≤ 15 → All FitsExtra (value_run cur run)
unfolding value_run
value_run-FitsExtra cur run c = (
  omega (arith, c),
  All-append FitsExtra _ _
      (repeat_loop-FitsExtra 16 2 3 6 (run - 1) (run - 1) (omega arith) (omega arith) (omega arith))
      (All-replicate FitsExtra _ (entry cur 0 0) (omega (arith, c))),
)

pub All-take : {A : Type 0} (P : A → Type 0) (n : ℕ) (xs : List A) → All P xs → All P (take n xs)
All-take P zero xs h = tt
All-take P (suc n) [] h = tt
All-take P (suc n) (x ∷ xs) h = (h.0, All-take P n xs h.1)

rle_loop-FitsExtra :
    (fuel : ℕ) (lens : List ℕ) → All (λ l. l ≤ 15) lens → All FitsExtra (rle_loop fuel lens)
unfolding rle_loop
rle_loop-FitsExtra fuel [] h = tt
rle_loop-FitsExtra zero (cur ∷ rest) h = tt
rle_loop-FitsExtra (suc fuel) (cur ∷ rest) h =
    let run : ℕ = suc (run_length cur rest) in
    let more =
      rle_loop-FitsExtra fuel (drop run (cur ∷ rest)) (All-drop (λ l. l ≤ 15) run (cur ∷ rest) h) in
    elim (Bool-cases (cur == 0)) [
      | inl e ↦ rw e (All-append FitsExtra _ _ (zero_run-FitsExtra run) more)
      | inr e ↦ rw e (All-append FitsExtra _ _ (value_run-FitsExtra cur run h.0) more)
    ]

-- Every entry of the run-length form of lengths up to 15 has its symbol and its extra value in range.
pub rle_encode_lengths-FitsExtra :
    (lens : List ℕ) → All (λ l. l ≤ 15) lens → All FitsExtra (rle_encode_lengths lens)
unfolding rle_encode_lengths
rle_encode_lengths-FitsExtra lens h = rle_loop-FitsExtra (length lens) lens h
