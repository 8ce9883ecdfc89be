-- ===== src/Emit/Rle.antt =====
-- `rle_encode_lengths` of huffman_emit_v2.rs, which has its own copy.
use gpzip.Prelude.{
  ℕ, zero, suc, ◌-◌, ◌==◌, ◌≡◌, ap, sym, ◌∙◌, leb, min, Bool-cases, inl, inr, if◌then◌else◌, List,
  [], ◌∷◌, ◌++◌, length, drop, replicate, append_assoc, append-nil,
}
use gpzip.Deflate.Rle
use gpzip.Deflate.Rle.{RleEntry, entry, run_length, repeat_loop, zero_run, value_run, rle_loop}

-- `while run >= low { .. out.push(..) .. }`: what is out, and the run that is left. `run` rounds of fuel
-- are enough.
unfoldable pub push_repeats : ℕ → ℕ → ℕ → ℕ → ℕ → ℕ → List RleEntry → List RleEntry × ℕ
push_repeats code extra_bits low high zero run out = (out, run)
push_repeats code extra_bits low high (suc fuel) run out =
    let n = min run high in
    let next =
      push_repeats code extra_bits low high fuel (run - n)
        (out ++ (entry code extra_bits (n - low) ∷ [])) in
    if leb low run then next else (out, run)

-- `while run > 0`
unfoldable pub push_each : ℕ → ℕ → List RleEntry → List RleEntry
push_each code zero out = out
push_each code (suc run) out = push_each code run (out ++ (entry code 0 0 ∷ []))

-- The body of the outer loop, for the value `cur` and its run.
unfoldable pub push_run : ℕ → ℕ → List RleEntry → List RleEntry
unfolding push_repeats push_each
push_run cur run out =
    if cur == 0
    then (let (out₁, left) = push_repeats 18 7 11 138 run run out in
        let (out₂, left') = push_repeats 17 3 3 10 left left out₁ in push_each 0 left' out₂)
    else (let (out₁, left) =
          push_repeats 16 2 3 6 (run - 1) (run - 1) (out ++ (entry cur 0 0 ∷ [])) in
        push_each cur left out₁)

unfoldable pub encode_loop : ℕ → List ℕ → List RleEntry → List RleEntry
unfolding push_run
encode_loop fuel [] out = out
encode_loop zero (cur ∷ rest) out = out
encode_loop (suc fuel) (cur ∷ rest) out =
    let run = suc (run_length cur rest) in
    encode_loop fuel (drop run (cur ∷ rest)) (push_run cur run out)

unfoldable pub rle_encode_lengths : List ℕ → List RleEntry
unfolding encode_loop
rle_encode_lengths lens = encode_loop (length lens) lens []

push_repeats-repeat_loop :
    (code extra_bits low high fuel run : ℕ) (out : List RleEntry)
    → let (es, left) = repeat_loop code extra_bits low high fuel run in
      push_repeats code extra_bits low high fuel run out ≡ (out ++ es, left)
unfolding push_repeats repeat_loop
push_repeats-repeat_loop code extra_bits low high zero run out =
    ap (λ o. (o, run)) (sym (append-nil out))
push_repeats-repeat_loop code extra_bits low high (suc fuel) run out =
    elim (Bool-cases (leb low run)) [
      | inl e ↦
          rw (e, push_repeats, repeat_loop)
            (push_repeats-repeat_loop code extra_bits low high fuel (run - min run high)
                (out ++ (item ∷ []))
              ∙ ap (λ o. (o, left)) (append_assoc out (item ∷ []) _))
      | inr e ↦ rw (e, push_repeats, repeat_loop) (ap (λ o. (o, run)) (sym (append-nil out)))
    ]
  where
    item : RleEntry
    item = entry code extra_bits (min run high - low)

    left : ℕ
    left = (repeat_loop code extra_bits low high fuel (run - min run high)).1

push_each-replicate :
    (code run : ℕ) (out : List RleEntry)
    → push_each code run out ≡ out ++ replicate run (entry code 0 0)
unfolding push_each
push_each-replicate code zero out = sym (append-nil out)
push_each-replicate code (suc run) out =
    push_each-replicate code run (out ++ (entry code 0 0 ∷ []))
    ∙ append_assoc out (entry code 0 0 ∷ []) (replicate run (entry code 0 0))

push_run-run :
    (cur run : ℕ) (out : List RleEntry)
    → push_run cur run out ≡ out ++ (if cur == 0 then zero_run run else value_run cur run)
unfolding push_run zero_run value_run
push_run-run cur run out = elim (Bool-cases (cur == 0)) [
  | inl e ↦ rw e (
      rw (push_repeats-repeat_loop 18 7 11 138 run run out) (
        rw (push_repeats-repeat_loop 17 3 3 10 long.1 long.1 (out ++ long.0)) (
          push_each-replicate 0 short.1 (out ++ long.0 ++ short.0)
          ∙ append_assoc (out ++ long.0) short.0 _
          ∙ append_assoc out long.0 _)))
  | inr e ↦ rw e (
      rw (push_repeats-repeat_loop 16 2 3 6 (run - 1) (run - 1) (out ++ (entry cur 0 0 ∷ []))) (
        push_each-replicate cur again.1 (out ++ (entry cur 0 0 ∷ []) ++ again.0)
        ∙ append_assoc (out ++ (entry cur 0 0 ∷ [])) again.0 _
        ∙ append_assoc out (entry cur 0 0 ∷ []) _))
]
  where
    long : List RleEntry × ℕ
    long = repeat_loop 18 7 11 138 run run

    short : List RleEntry × ℕ
    short = repeat_loop 17 3 3 10 long.1 long.1

    again : List RleEntry × ℕ
    again = repeat_loop 16 2 3 6 (run - 1) (run - 1)

encode_loop-rle_loop :
    (fuel : ℕ) (lens : List ℕ) (out : List RleEntry)
    → encode_loop fuel lens out ≡ out ++ rle_loop fuel lens
unfolding encode_loop rle_loop
encode_loop-rle_loop fuel [] out = sym (append-nil out)
encode_loop-rle_loop zero (cur ∷ rest) out = sym (append-nil out)
encode_loop-rle_loop (suc fuel) (cur ∷ rest) out =
    encode_loop-rle_loop fuel (drop run (cur ∷ rest)) (push_run cur run out)
    ∙ ap (λ o. o ++ rle_loop fuel (drop run (cur ∷ rest))) (push_run-run cur run out)
    ∙ append_assoc out _ _
  where
    run : ℕ
    run = suc (run_length cur rest)

-- The copy gives the same run-length form as the one in deflate.rs.
pub rle_encode_lengths-rle_encode_lengths :
    (lens : List ℕ) → rle_encode_lengths lens ≡ Rle.rle_encode_lengths lens
unfolding rle_encode_lengths Rle.rle_encode_lengths
rle_encode_lengths-rle_encode_lengths lens = encode_loop-rle_loop (length lens) lens []
