-- ===== src/Deflate/FastLookup.antt =====
-- The lookup tables of the fast encoder say what the scans of the reference encoder find.
use gpzip.Prelude.{
  ℕ, ◌-◌, ◌%◌, ◌^◌, ◌≤◌, ◌<◌, ◌≡◌, refl, ap, sym, ◌∙◌, leb, Bool-cases, inl, inr, some, List, [],
  ◌∷◌, ◌++◌, All, get_elem?, replicate, drop, arith, true, false, length-replicate,
}
use gpzip.Deflate.Codes.{
  Row, length_table, distance_table, sub_u32, code_of, length_code, distance_code,
}
use gpzip.Deflate.Rows.{pick, code_of-pick}
use gpzip.Deflate.Lut.{range_end, Apart, fill_rows_lem}
use gpzip.Deflate.FastTables.{
  LenEntry, DistEntry, len_entry, dist_entry_of, len_lut, dist_rows_lo, dist_lut_lo, dist_rows_hi,
  hi_slot, dist_lut_hi, dist_entry,
}

pub pick-le : (cur : Row) (rows : List Row) (x : ℕ) → cur.0 ≤ x → (pick cur rows x).0 ≤ x
unfolding pick
pick-le cur [] x h = h
pick-le cur (r ∷ rs) x h = elim (Bool-cases (leb r.0 x)) [
  | inl e ↦ rw (e, pick) (pick-le r rs x (ground (arith, e)))
  | inr e ↦ rw (e, pick) h
]

-- The rows from `y` on begin above `x`.
pub pick-low :
    (cur : Row) (xs : List Row) (y : Row) (ys : List Row) (x : ℕ)
    → x < y.0
    → pick cur (xs ++ (y ∷ ys)) x ≡ pick cur xs x
unfolding pick
pick-low cur [] y ys x h = let e : leb y.0 x ≡ false = ground arith in rw (e, pick) refl
pick-low cur (r ∷ rs) y ys x h = elim (Bool-cases (leb r.0 x)) [
  | inl e ↦ rw (e, pick) (pick-low r rs y ys x h)
  | inr e ↦ rw (e, pick) refl
]

-- The rows up to `y` begin at `x` or below.
pub pick-high :
    (cur : Row) (xs : List Row) (y : Row) (ys : List Row) (x : ℕ)
    → All (λ r. r.0 ≤ x) xs
    → y.0 ≤ x
    → pick cur (xs ++ (y ∷ ys)) x ≡ pick y ys x
unfolding pick
pick-high cur [] y ys x h le = let e : leb y.0 x ≡ true = ground arith in rw (e, pick) refl
pick-high cur (r ∷ rs) y ys x h le =
    let e : leb r.0 x ≡ true = ground (arith, h.0) in rw (e, pick) (pick-high r rs y ys x h.1 le)

-- Bases in order, up to `last`.
abbrev pub Ascends : List Row → ℕ → Type 0
Ascends [] last = Unit {0}
Ascends (row ∷ rows) last = (row.0 ≤ range_end rows last) × Ascends rows last

pub flat-Apart : (rows : List Row) (last : ℕ) → Ascends rows last → Apart (λ d. d) rows last
flat-Apart [] last h = tt
flat-Apart (r ∷ rs) last (h, hs) = (h, (λ d k lo hi. omega (arith, lo, hi)), flat-Apart rs last hs)

-- The bases are on the borders of the slots.
pub hi_slot-Apart :
    (rows : List Row) (last : ℕ)
    → Ascends rows last
    → All (λ r. (1 < r.0) × (r.0 % 2 ^ 7 ≡ 1)) rows
    → Apart hi_slot rows last
hi_slot-Apart [] last h b = tt
hi_slot-Apart (r ∷ rs) last (h, hs) (b, bs) =
    (h, (λ d k lo hi. omega (arith, lo, hi, b)), hi_slot-Apart rs last hs bs)

-- What the scan returns, with the subtraction that does not wrap.
pub code_of-row :
    (cur : Row) (rows : List Row) (x : ℕ)
    → cur.0 ≤ x
    → x < 2 ^ 32
    → code_of (cur ∷ rows) x ≡ ((pick cur rows x).2, (pick cur rows x).1, x - (pick cur rows x).0)
code_of-row cur rows x h small =
    code_of-pick cur rows x h ∙ ap (λ k. ((pick cur rows x).2, (pick cur rows x).1, k)) exact
  where
    exact : sub_u32 x (pick cur rows x).0 ≡ x - (pick cur rows x).0
    exact = omega (arith, pick-le cur rows x h)

-- For a length from 3 to 258 the table has an entry, which says what the scan finds: the symbol, the
-- number of extra bits, and a base, at most the length, which the extra value is counted from.
pub len_lut-length_code :
    (l : ℕ)
    → 3 ≤ l
    → l ≤ 258
    → (e : LenEntry) × (get_elem? len_lut l ≡ some e)
      × (length_code l ≡ (e.sym, e.extra_bits, l - e.base))
      × (e.base ≤ l)
unfolding len_lut length_code
len_lut-length_code l lo hi = (
  len_entry (pick first rows l),
  found,
  code_of-row first rows l lo (omega arith),
  pick-le first rows l lo,
)
  where
    first : Row
    first = (3, 0, 257)

    rows : List Row
    rows = drop 1 length_table

    found : get_elem? len_lut l ≡ some (len_entry (pick first rows l))
    found =
        fill_rows_lem (λ d. d) len_entry first rows 259 (replicate 259 (len_entry (0, 0, 0))) l
          (flat-Apart (first ∷ rows) 259 (omega arith)) lo (omega arith)
          (omega (arith, length-replicate 259 (len_entry (0, 0, 0))))

-- For a distance from 1 to 32768 one of the two tables has an entry, which says what the scan finds.
pub dist_entry-distance_code :
    (d : ℕ)
    → 1 ≤ d
    → d ≤ 32768
    → (e : DistEntry) × (dist_entry d ≡ some e)
      × (distance_code d ≡ (e.sym, e.extra_bits, d - e.base))
      × (e.base ≤ d)
unfolding dist_entry dist_lut_lo dist_lut_hi distance_code
dist_entry-distance_code d lo hi = elim (Bool-cases (leb d 256)) [
  | inl small ↦ (
    dist_entry_of (pick first rows d),
    rw small (low (ground (arith, small))),
    code_of-row first rows d lo (omega arith),
    pick-le first rows d lo,
  )
  | inr large ↦ (
    dist_entry_of (pick first rows d),
    rw large (high (ground (arith, large))),
    code_of-row first rows d lo (omega arith),
    pick-le first rows d lo,
  )
]
  where
    first : Row
    first = (1, 0, 0)

    rows : List Row
    rows = drop 1 distance_table

    border : Row
    border = (257, 7, 16)

    low : d ≤ 256 → get_elem? dist_lut_lo d ≡ some (dist_entry_of (pick first rows d))
    low small =
        fill_rows_lem (λ d. d) dist_entry_of first (drop 1 dist_rows_lo) 257
          (replicate 257 (dist_entry_of (0, 0, 0))) d
          (flat-Apart (first ∷ drop 1 dist_rows_lo) 257 (omega arith)) lo (omega arith)
          (omega (arith, length-replicate 257 (dist_entry_of (0, 0, 0))))
        ∙ ap (λ r. some (dist_entry_of r))
            (sym
              (pick-low first (drop 1 dist_rows_lo) border (drop 1 dist_rows_hi) d (omega arith)))

    high : 256 < d → get_elem? dist_lut_hi (hi_slot d) ≡ some (dist_entry_of (pick first rows d))
    high large =
        fill_rows_lem hi_slot dist_entry_of border (drop 1 dist_rows_hi) 32769
          (replicate 256 (dist_entry_of (0, 0, 0))) d
          (hi_slot-Apart (border ∷ drop 1 dist_rows_hi) 32769 (omega arith) (omega arith))
          (omega arith) (omega arith)
          (omega (arith, length-replicate 256 (dist_entry_of (0, 0, 0))))
        ∙ ap (λ r. some (dist_entry_of r))
            (sym (
              pick-high first (drop 1 dist_rows_lo) border (drop 1 dist_rows_hi) d (omega arith)
                (omega arith)))
