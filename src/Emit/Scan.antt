-- ===== src/Emit/Scan.antt =====
-- The symbol tables of huffman_emit.rs.
use gpzip.Prelude.{
  ℕ, ◌+◌, ◌-◌, ◌/◌, ◌^◌, ◌≡◌, refl, leb, ◌==◌, if◌then◌else◌, Option, none, some, List, [], ◌∷◌,
}
use gpzip.Deflate.Mirror.{reverse_32, reverse_bits}
use gpzip.Deflate.Codes
use gpzip.Deflate.Codes.{Row, code_of, fixed_litlen_code}

unfoldable pub rev_bits : ℕ → ℕ → ℕ
rev_bits code bits = if bits == 0 then 0 else reverse_32 code / 2 ^ (32 - bits)

-- `none` is `unreachable!()`.
unfoldable pub fixed_litlen : ℕ → Option (ℕ × ℕ)
fixed_litlen symbol =
    if leb symbol 143
    then some (0x30 + symbol, 8)
    else if leb symbol 255
    then some (0x190 + (symbol - 144), 9)
    else if leb symbol 279
    then some (symbol - 256, 7)
    else if leb symbol 287
    then some (0xc0 + (symbol - 280), 8)
    else none

abbrev pub length_rows : List Row
length_rows =
    (3, 0, 257)
    ∷ (4, 0, 258)
    ∷ (5, 0, 259)
    ∷ (6, 0, 260)
    ∷ (7, 0, 261)
    ∷ (8, 0, 262)
    ∷ (9, 0, 263)
    ∷ (10, 0, 264)
    ∷ (11, 1, 265)
    ∷ (13, 1, 266)
    ∷ (15, 1, 267)
    ∷ (17, 1, 268)
    ∷ (19, 2, 269)
    ∷ (23, 2, 270)
    ∷ (27, 2, 271)
    ∷ (31, 2, 272)
    ∷ (35, 3, 273)
    ∷ (43, 3, 274)
    ∷ (51, 3, 275)
    ∷ (59, 3, 276)
    ∷ (67, 4, 277)
    ∷ (83, 4, 278)
    ∷ (99, 4, 279)
    ∷ (115, 4, 280)
    ∷ (131, 5, 281)
    ∷ (163, 5, 282)
    ∷ (195, 5, 283)
    ∷ (227, 5, 284)
    ∷ (258, 0, 285)
    ∷ []

abbrev pub distance_rows : List Row
distance_rows =
    (1, 0, 0)
    ∷ (2, 0, 1)
    ∷ (3, 0, 2)
    ∷ (4, 0, 3)
    ∷ (5, 1, 4)
    ∷ (7, 1, 5)
    ∷ (9, 2, 6)
    ∷ (13, 2, 7)
    ∷ (17, 3, 8)
    ∷ (25, 3, 9)
    ∷ (33, 4, 10)
    ∷ (49, 4, 11)
    ∷ (65, 5, 12)
    ∷ (97, 5, 13)
    ∷ (129, 6, 14)
    ∷ (193, 6, 15)
    ∷ (257, 7, 16)
    ∷ (385, 7, 17)
    ∷ (513, 8, 18)
    ∷ (769, 8, 19)
    ∷ (1025, 9, 20)
    ∷ (1537, 9, 21)
    ∷ (2049, 10, 22)
    ∷ (3073, 10, 23)
    ∷ (4097, 11, 24)
    ∷ (6145, 11, 25)
    ∷ (8193, 12, 26)
    ∷ (12289, 12, 27)
    ∷ (16385, 13, 28)
    ∷ (24577, 13, 29)
    ∷ []

-- The scan is that of deflate.rs.
unfoldable pub length_code : ℕ → ℕ × ℕ × ℕ
unfolding code_of
length_code length = code_of length_rows length

unfoldable pub distance_code : ℕ → ℕ × ℕ × ℕ
unfolding code_of
distance_code distance = code_of distance_rows distance

-- The tables are those of the reference encoder.
pub length_code-length_code : (l : ℕ) → length_code l ≡ Codes.length_code l
unfolding length_code Codes.length_code
length_code-length_code l = refl

pub distance_code-distance_code : (d : ℕ) → distance_code d ≡ Codes.distance_code d
unfolding distance_code Codes.distance_code
distance_code-distance_code d = refl

pub fixed_litlen-fixed_litlen_code : (s : ℕ) → fixed_litlen s ≡ fixed_litlen_code s
unfolding fixed_litlen fixed_litlen_code
fixed_litlen-fixed_litlen_code s = refl

pub rev_bits-reverse_bits : (code bits : ℕ) → rev_bits code bits ≡ reverse_bits code bits
unfolding rev_bits reverse_bits
rev_bits-reverse_bits code bits = refl
