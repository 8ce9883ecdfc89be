-- ===== src/Huffman/Tests.antt =====
-- The Huffman trees at concrete frequencies.
use gpzip.Prelude.{ℕ, ◌^◌, ◌≤◌, ◌<◌, ◌≡◌, ◌⊎◌, refl, none, some, length, List, [], ◌∷◌, arith}
use gpzip.Huffman.Tree.{
  before, push, push_leaves, make_room, add_node, merge_loop, walk, no_children, leaf_depths,
  standard_huffman,
}
use gpzip.Huffman.Canonical.{maximum, count_lengths, first_codes, assign_codes, canonical_codes}
use gpzip.Huffman.Lengths.{used_symbols, ceil_log2, limit_loop, lengths_for, try_build_code_lengths}
use gpzip.Huffman.Bounds.{IsLimited}
use gpzip.Huffman.Total.{AreU32, try_build_code_lengths_total}

abbrev freq : List ℕ
freq = 100 ∷ 50 ∷ 25 ∷ 0 ∷ 5 ∷ []

lengths_of_freq : try_build_code_lengths freq 15 ≡ some (some (1 ∷ 2 ∷ 3 ∷ 0 ∷ 3 ∷ []))
unfolding try_build_code_lengths lengths_for used_symbols ceil_log2 limit_loop standard_huffman
    leaf_depths merge_loop push_leaves push before add_node make_room no_children walk maximum
lengths_of_freq = refl

codes_of_freq : canonical_codes (1 ∷ 2 ∷ 3 ∷ 0 ∷ 3 ∷ []) ≡ 0 ∷ 2 ∷ 6 ∷ 0 ∷ 7 ∷ []
unfolding canonical_codes maximum count_lengths first_codes assign_codes
codes_of_freq = refl

freq-AreU32 : AreU32 freq
freq-AreU32 = omega arith

try_build_code_lengths_total_example :
    ((length (used_symbols 0 freq) ≤ 2 ^ 15)
      × (lens : List ℕ) × (try_build_code_lengths freq 15 ≡ some (some lens))
      × IsLimited (length freq) 15 lens)
    ⊎ ((2 ^ 15 < length (used_symbols 0 freq)) × (try_build_code_lengths freq 15 ≡ some none))
try_build_code_lengths_total_example =
    try_build_code_lengths_total freq 15 freq-AreU32 (omega arith)
