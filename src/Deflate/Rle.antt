-- ===== src/Deflate/Rle.antt =====
-- The run-length form of the code lengths in a dynamic block's header: `rle_encode_lengths`
-- of deflate.rs.
use gpzip.Prelude.{
  ℕ, zero, suc, ◌-◌, ◌==◌, leb, min, if◌then◌else◌, List, [], ◌∷◌, ◌++◌, length, drop, replicate,
}

pub record RleEntry : Type 0 where
  pub code : ℕ
  pub extra_bits : ℕ
  pub extra_value : ℕ

abbrev pub entry : ℕ → ℕ → ℕ → RleEntry
entry code extra_bits extra_value = record {
  code = code;
  extra_bits = extra_bits;
  extra_value = extra_value;
}

-- `lens[i + run] == cur`: how many entries from the front equal `cur`.
unfoldable pub run_length : ℕ → List ℕ → ℕ
run_length cur [] = 0
run_length cur (x ∷ xs) = let more = run_length cur xs in if x == cur then suc more else 0

-- `while run >= low { let n = run.min(high); .. }`, three times in the source: what it pushes and the
-- run that is left. A round takes `low` from `run`, so `run` rounds of fuel are enough.
unfoldable pub repeat_loop : ℕ → ℕ → ℕ → ℕ → ℕ → ℕ → List RleEntry × ℕ
repeat_loop code extra_bits low high zero run = ([], run)
repeat_loop code extra_bits low high (suc fuel) run =
    let n = min run high in
    let (es, left) = repeat_loop code extra_bits low high fuel (run - n) in
    if leb low run then (entry code extra_bits (n - low) ∷ es, left) else ([], run)

-- The branch `cur == 0`: 18, then 17, then literal zeros.
unfoldable pub zero_run : ℕ → List RleEntry
zero_run run =
    let (long, left) = repeat_loop 18 7 11 138 run run in
    let (short, left') = repeat_loop 17 3 3 10 left left in
    long ++ (short ++ replicate left' (entry 0 0 0))

-- The other branch: the value, then 16, then the value again.
unfoldable pub value_run : ℕ → ℕ → List RleEntry
value_run cur run =
    let (again, left) = repeat_loop 16 2 3 6 (run - 1) (run - 1) in
    entry cur 0 0 ∷ (again ++ replicate left (entry cur 0 0))

-- The outer loop on what is left of the lengths.
unfoldable pub rle_loop : ℕ → List ℕ → List RleEntry
rle_loop fuel [] = []
rle_loop zero (cur ∷ rest) = []
rle_loop (suc fuel) (cur ∷ rest) =
    let run = suc (run_length cur rest) in
    (if cur == 0 then zero_run run else value_run cur run) ++ rle_loop fuel (drop run (cur ∷ rest))

unfoldable pub rle_encode_lengths : List ℕ → List RleEntry
rle_encode_lengths lens = rle_loop (length lens) lens
