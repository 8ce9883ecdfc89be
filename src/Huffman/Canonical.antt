-- ===== src/Huffman/Canonical.antt =====
-- `canonical_codes` of huffman.rs: the codes of RFC 1951, section 3.2.2, for given code lengths.
use gpzip.Prelude.{
  ℕ, zero, suc, ◌+◌, ◌-◌, ◌*◌, ◌%◌, ◌^◌, ltb, ◌==◌, if◌then◌else◌, List, [], ◌∷◌, length, get_or,
  set, replicate,
}

-- `lens.iter().max()`, 0 where there are none.
unfoldable pub maximum : List ℕ → ℕ
maximum [] = 0
maximum (x ∷ xs) = let rest = maximum xs in if ltb rest x then x else rest

-- `xs[i] += 1` in a u32.
abbrev pub increment : List ℕ → ℕ → List ℕ
increment xs i = set xs i ((get_or xs i 0 + 1) % 2 ^ 32)

-- `for &l in lens { if l > 0 { bl_count[l as usize] += 1 } }`
unfoldable pub count_lengths : List ℕ → List ℕ → List ℕ
count_lengths [] bl_count = bl_count
count_lengths (l ∷ ls) bl_count =
    count_lengths ls (if ltb 0 l then increment bl_count l else bl_count)

-- `for bits in 1..=max_bits`, `left` rounds before its end.
unfoldable pub first_codes : List ℕ → ℕ → ℕ → ℕ → List ℕ → List ℕ
first_codes bl_count zero bits code next_code = next_code
first_codes bl_count (suc left) bits code next_code =
    let code' = (code + get_or bl_count (bits - 1) 0) * 2 % 2 ^ 32 in
    first_codes bl_count left (bits + 1) code' (set next_code bits code')

-- `for (sym, &l) in lens.iter().enumerate()`
unfoldable pub assign_codes : List ℕ → List ℕ → List ℕ
assign_codes [] next_code = []
assign_codes (l ∷ ls) next_code =
    (if ltb 0 l then get_or next_code l 0 else 0)
    ∷ assign_codes ls (if ltb 0 l then increment next_code l else next_code)

unfoldable pub canonical_codes : List ℕ → List ℕ
unfolding maximum count_lengths first_codes assign_codes
canonical_codes lens =
    let max_bits = maximum lens in
    let bl_count = count_lengths lens (replicate (suc max_bits) 0) in
    if max_bits == 0
    then replicate (length lens) 0
    else assign_codes lens (first_codes bl_count max_bits 1 0 (replicate (suc max_bits) 0))
