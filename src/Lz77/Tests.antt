-- ===== src/Lz77/Tests.antt =====
-- Runs of the walks on "aaaa", and the theorems at that input.
use gpzip.Prelude.{◌≡◌, refl, some, List, [], ◌∷◌, arith}
use gpzip.Lz77.{
  Token, literal, back_ref, reconstruct, greedy_walk, host_strict_greedy, pack_per_position,
  unpack_tokens,
}
use gpzip.Lz77.Walk.{Walked, reconstruct-greedy_walk, reconstruct-host_strict_greedy}
use gpzip.Lz77.Sample.{input, table, table-IsTable}
use gpzip.Lz77.Total.{greedy_walk_total}
use gpzip.Lz77.Pack.{unpack_tokens-pack_per_position}

walk-table : greedy_walk table input ≡ some (literal 97 ∷ back_ref 3 1 ∷ [])
unfolding greedy_walk
walk-table = refl

reconstruct-chosen : reconstruct (literal 97 ∷ back_ref 3 1 ∷ []) ≡ some input
unfolding reconstruct
reconstruct-chosen = refl

-- A longer match one byte on: the lazy walk puts the byte out first.
lazy_defers :
    greedy_walk
      (literal 1 ∷ back_ref 3 1 ∷ back_ref 4 1 ∷ literal 1 ∷ literal 1 ∷ literal 1 ∷ [])
      (1 ∷ 1 ∷ 1 ∷ 1 ∷ 1 ∷ 1 ∷ [])
    ≡ some (literal 1 ∷ literal 1 ∷ back_ref 4 1 ∷ [])
unfolding greedy_walk
lazy_defers = refl

reconstruct-greedy_walk_example : Walked (greedy_walk table input) input
reconstruct-greedy_walk_example = reconstruct-greedy_walk table input table-IsTable

reconstruct-host_strict_greedy_example : Walked (host_strict_greedy table) input
reconstruct-host_strict_greedy_example = reconstruct-host_strict_greedy table input table-IsTable

greedy_walk_total_example : (ts : List Token) × (greedy_walk (back_ref 9 9 ∷ []) (1 ∷ []) ≡ some ts)
greedy_walk_total_example = greedy_walk_total (back_ref 9 9 ∷ []) (1 ∷ []) refl

unpack_tokens-pack_per_position_example : unpack_tokens (pack_per_position table) ≡ table
unpack_tokens-pack_per_position_example = unpack_tokens-pack_per_position table (omega arith)
