-- ===== src/Deflate/Codes.antt =====
-- The symbol tables of deflate.rs: lengths, distances and the fixed Huffman codes.
use gpzip.Prelude.{
  ℕ, ◌+◌, ◌-◌, ◌%◌, ◌^◌, leb, if◌then◌else◌, List, [], ◌∷◌, get_or, Option, none, some,
}

-- (base, extra bits, symbol)
abbrev pub Row : Type 0
Row = ℕ × ℕ × ℕ

abbrev pub length_table : List Row
length_table =
    (3, 0, 257)
    ∷ (4, 0, 258)
    ∷ (5, 0, 259)
    ∷ (6, 0, 260)
    ∷ (7, 0, 261)
    ∷ (8, 0, 262)
    ∷ (9, 0, 263)
    ∷ (10, 0, 264)
    ∷ (11, 1, 265)
    ∷ (13, 1, 266)
    ∷ (15, 1, 267)
    ∷ (17, 1, 268)
    ∷ (19, 2, 269)
    ∷ (23, 2, 270)
    ∷ (27, 2, 271)
    ∷ (31, 2, 272)
    ∷ (35, 3, 273)
    ∷ (43, 3, 274)
    ∷ (51, 3, 275)
    ∷ (59, 3, 276)
    ∷ (67, 4, 277)
    ∷ (83, 4, 278)
    ∷ (99, 4, 279)
    ∷ (115, 4, 280)
    ∷ (131, 5, 281)
    ∷ (163, 5, 282)
    ∷ (195, 5, 283)
    ∷ (227, 5, 284)
    ∷ (258, 0, 285)
    ∷ []

abbrev pub distance_table : List Row
distance_table =
    (1, 0, 0)
    ∷ (2, 0, 1)
    ∷ (3, 0, 2)
    ∷ (4, 0, 3)
    ∷ (5, 1, 4)
    ∷ (7, 1, 5)
    ∷ (9, 2, 6)
    ∷ (13, 2, 7)
    ∷ (17, 3, 8)
    ∷ (25, 3, 9)
    ∷ (33, 4, 10)
    ∷ (49, 4, 11)
    ∷ (65, 5, 12)
    ∷ (97, 5, 13)
    ∷ (129, 6, 14)
    ∷ (193, 6, 15)
    ∷ (257, 7, 16)
    ∷ (385, 7, 17)
    ∷ (513, 8, 18)
    ∷ (769, 8, 19)
    ∷ (1025, 9, 20)
    ∷ (1537, 9, 21)
    ∷ (2049, 10, 22)
    ∷ (3073, 10, 23)
    ∷ (4097, 11, 24)
    ∷ (6145, 11, 25)
    ∷ (8193, 12, 26)
    ∷ (12289, 12, 27)
    ∷ (16385, 13, 28)
    ∷ (24577, 13, 29)
    ∷ []

-- u32 subtraction wraps.
abbrev pub sub_u32 : ℕ → ℕ → ℕ
sub_u32 a b = (a + 2 ^ 32 - b) % 2 ^ 32

-- `for (i, row) in TABLE.iter().enumerate()`: the index of the last row whose base is at most `x`.
unfoldable pub find_row : List Row → ℕ → ℕ → ℕ → ℕ
find_row [] i idx x = idx
find_row (row ∷ rows) i idx x =
    let later = find_row rows (i + 1) i x in if leb row.0 x then later else idx

-- The code, the number of extra bits, and their value.
unfoldable pub code_of : List Row → ℕ → ℕ × ℕ × ℕ
unfolding find_row
code_of table x =
    let row = get_or table (find_row table 0 0 x) (0, 0, 0) in (row.2, row.1, sub_u32 x row.0)

unfoldable pub length_code : ℕ → ℕ × ℕ × ℕ
unfolding code_of
length_code length = code_of length_table length

unfoldable pub distance_code : ℕ → ℕ × ℕ × ℕ
unfolding code_of
distance_code distance = code_of distance_table distance

-- The code and its number of bits. `none` is `unreachable!()`.
unfoldable pub fixed_litlen_code : ℕ → Option (ℕ × ℕ)
fixed_litlen_code symbol =
    if leb symbol 143
    then some (0x30 + symbol, 8)
    else if leb symbol 255
    then some (0x190 + (symbol - 144), 9)
    else if leb symbol 279
    then some (symbol - 256, 7)
    else if leb symbol 287
    then some (0xc0 + (symbol - 280), 8)
    else none

unfoldable pub fixed_dist_code : ℕ → ℕ × ℕ
fixed_dist_code symbol = (symbol, 5)
