-- ===== src/Deflate/FastTables.antt =====
-- The lookup tables of the fast encoder of deflate.rs: the entry of a length or a distance at one
-- index, where the reference encoder scans the rows.
use gpzip.Prelude.{
  ℕ, ◌-◌, ◌/◌, ◌^◌, leb, if◌then◌else◌, Option, List, [], ◌∷◌, get_elem?, replicate,
}
use gpzip.Deflate.Codes.{Row}
use gpzip.Deflate.Lut.{fill_rows}

pub record LenEntry : Type 0 where
  pub sym : ℕ
  pub extra_bits : ℕ
  pub base : ℕ

pub record DistEntry : Type 0 where
  pub sym : ℕ
  pub extra_bits : ℕ
  pub base : ℕ

-- The casts to u16 and u8 keep every number of the rows.
abbrev pub len_entry : Row → LenEntry
len_entry (base, extra, sym) = record { sym = sym; extra_bits = extra; base = base }

abbrev pub dist_entry_of : Row → DistEntry
dist_entry_of (base, extra, sym) = record { sym = sym; extra_bits = extra; base = base }

abbrev pub len_rows : List Row
len_rows =
    (3, 0, 257)
    ∷ (4, 0, 258)
    ∷ (5, 0, 259)
    ∷ (6, 0, 260)
    ∷ (7, 0, 261)
    ∷ (8, 0, 262)
    ∷ (9, 0, 263)
    ∷ (10, 0, 264)
    ∷ (11, 1, 265)
    ∷ (13, 1, 266)
    ∷ (15, 1, 267)
    ∷ (17, 1, 268)
    ∷ (19, 2, 269)
    ∷ (23, 2, 270)
    ∷ (27, 2, 271)
    ∷ (31, 2, 272)
    ∷ (35, 3, 273)
    ∷ (43, 3, 274)
    ∷ (51, 3, 275)
    ∷ (59, 3, 276)
    ∷ (67, 4, 277)
    ∷ (83, 4, 278)
    ∷ (99, 4, 279)
    ∷ (115, 4, 280)
    ∷ (131, 5, 281)
    ∷ (163, 5, 282)
    ∷ (195, 5, 283)
    ∷ (227, 5, 284)
    ∷ (258, 0, 285)
    ∷ []

unfoldable pub len_lut : List LenEntry
len_lut = fill_rows (λ len. len) len_entry len_rows 259 (replicate 259 (len_entry (0, 0, 0)))

-- Distances up to 256.
abbrev pub dist_rows_lo : List Row
dist_rows_lo =
    (1, 0, 0)
    ∷ (2, 0, 1)
    ∷ (3, 0, 2)
    ∷ (4, 0, 3)
    ∷ (5, 1, 4)
    ∷ (7, 1, 5)
    ∷ (9, 2, 6)
    ∷ (13, 2, 7)
    ∷ (17, 3, 8)
    ∷ (25, 3, 9)
    ∷ (33, 4, 10)
    ∷ (49, 4, 11)
    ∷ (65, 5, 12)
    ∷ (97, 5, 13)
    ∷ (129, 6, 14)
    ∷ (193, 6, 15)
    ∷ []

unfoldable pub dist_lut_lo : List DistEntry
dist_lut_lo =
    fill_rows (λ d. d) dist_entry_of dist_rows_lo 257 (replicate 257 (dist_entry_of (0, 0, 0)))

-- Distances from 257 on.
abbrev pub dist_rows_hi : List Row
dist_rows_hi =
    (257, 7, 16)
    ∷ (385, 7, 17)
    ∷ (513, 8, 18)
    ∷ (769, 8, 19)
    ∷ (1025, 9, 20)
    ∷ (1537, 9, 21)
    ∷ (2049, 10, 22)
    ∷ (3073, 10, 23)
    ∷ (4097, 11, 24)
    ∷ (6145, 11, 25)
    ∷ (8193, 12, 26)
    ∷ (12289, 12, 27)
    ∷ (16385, 13, 28)
    ∷ (24577, 13, 29)
    ∷ []

-- `(d - 1) >> 7`
abbrev pub hi_slot : ℕ → ℕ
hi_slot d = (d - 1) / 2 ^ 7

unfoldable pub dist_lut_hi : List DistEntry
dist_lut_hi =
    fill_rows hi_slot dist_entry_of dist_rows_hi 32769 (replicate 256 (dist_entry_of (0, 0, 0)))

-- `none` is an index out of range.
unfoldable pub dist_entry : ℕ → Option DistEntry
dist_entry distance =
    if leb distance 256
    then get_elem? dist_lut_lo distance
    else get_elem? dist_lut_hi (hi_slot distance)
