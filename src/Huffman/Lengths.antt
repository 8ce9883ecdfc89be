-- ===== src/Huffman/Lengths.antt =====
-- `try_build_code_lengths` of huffman.rs: code lengths up to a limit.
use gpzip.Prelude.{
  ℕ, zero, suc, ◌+◌, ◌/◌, ◌^◌, ltb, leb, if◌then◌else◌, Option, none, some, ◌>>=◌, List, [], ◌∷◌,
  length, set, replicate, map,
}
use gpzip.Huffman.Tree.{standard_huffman}
use gpzip.Huffman.Canonical.{maximum}

-- The symbols in use, from `i` on.
unfoldable pub used_symbols : ℕ → List ℕ → List ℕ
used_symbols i [] = []
used_symbols i (f ∷ fs) = let rest = used_symbols (i + 1) fs in if ltb 0 f then i ∷ rest else rest

-- `(n as f64).log2().ceil()`, exact on the numbers of symbols: the first power of two, `2 ^ k` or one
-- of the next `fuel`, that is `n` or more. `n` rounds from 0 are enough, since `n < 2 ^ n`.
unfoldable pub ceil_log2 : ℕ → ℕ → ℕ → ℕ
ceil_log2 zero k n = k
ceil_log2 (suc fuel) k n =
    let later = ceil_log2 fuel (k + 1) n in if leb n (2 ^ k) then k else later

-- `if *f > 1 { *f /= 2 }`
abbrev pub halve : ℕ → ℕ
halve f = if ltb 1 f then f / 2 else f

-- `loop { .. }`, at most `fuel` rounds. `none` is a panic or the end of the fuel.
unfoldable pub limit_loop : ℕ → ℕ → List ℕ → Option (List ℕ)
unfolding standard_huffman maximum
limit_loop zero max_bits work = none
limit_loop (suc fuel) max_bits work = do
  lens ← standard_huffman work
  let later = limit_loop fuel max_bits (map halve work)
  if leb (maximum lens) max_bits then some lens else later

-- u32 frequencies are all 0 or 1 after 32 rounds.
abbrev pub limit_rounds : ℕ
limit_rounds = 33

-- By the symbols in use. `some none` is the source's `None`: the alphabet is too large for the limit.
unfoldable pub lengths_for : List ℕ → ℕ → List ℕ → Option (Option (List ℕ))
unfolding ceil_log2 limit_loop
lengths_for freq max_bits [] = some (some (replicate (length freq) 0))
lengths_for freq max_bits (only ∷ []) = some (some (set (replicate (length freq) 0) only 1))
lengths_for freq max_bits (s ∷ (s' ∷ more)) =
    let n_used = suc (suc (length more)) in
    if ltb max_bits (ceil_log2 n_used 0 n_used)
    then some none
    else do lens ← limit_loop limit_rounds max_bits freq; some (some lens)

unfoldable pub try_build_code_lengths : List ℕ → ℕ → Option (Option (List ℕ))
unfolding used_symbols lengths_for
try_build_code_lengths freq max_bits = lengths_for freq max_bits (used_symbols 0 freq)

-- All 0 where the alphabet is too large.
unfoldable pub build_code_lengths : List ℕ → ℕ → Option (List ℕ)
unfolding try_build_code_lengths
build_code_lengths freq max_bits = do
  tried ← try_build_code_lengths freq max_bits
  elim tried [ none ↦ some (replicate (length freq) 0) | some lens ↦ some lens ]
