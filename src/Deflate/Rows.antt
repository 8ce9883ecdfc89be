-- ===== src/Deflate/Rows.antt =====
-- What the table scan finds: for every length and distance the symbol, the width and the value of the
-- extra bits are those of RFC 1951's formulas.
use gpzip.Prelude.{
  ℕ, suc, ◌+◌, ◌^◌, ◌≤◌, ◌<◌, ◌≡◌, refl, ap, sym, ◌∙◌, leb, if◌then◌else◌, Bool-cases, inl, inr,
  List, [], ◌∷◌, get_or, drop, arith, true, subst,
}
use gpzip.Deflate.Codes.{
  Row, length_table, distance_table, sub_u32, find_row, code_of, length_code, distance_code,
}
use gpzip.Deflate.Inflate.{length_base, length_extra, distance_base, distance_extra}

-- The scan by rows instead of by index.
unfoldable pub pick : Row → List Row → ℕ → Row
pick cur [] x = cur
pick cur (row ∷ rows) x = let later = pick row rows x in if leb row.0 x then later else cur

find_row-pick :
    (table rows : List Row) (i idx x : ℕ)
    → ((j : ℕ) → get_or table (i + j) (0, 0, 0) ≡ get_or rows j (0, 0, 0))
    → get_or table (find_row rows i idx x) (0, 0, 0) ≡ pick (get_or table idx (0, 0, 0)) rows x
unfolding find_row pick
find_row-pick table [] i idx x same = refl
find_row-pick table (row ∷ rows) i idx x same = elim (Bool-cases (leb row.0 x)) [
  | inl small ↦
      rw (small, find_row, pick)
        (find_row-pick table rows (i + 1) i x shifted ∙ ap (λ r. pick r rows x) here)
  | inr large ↦ rw (large, find_row, pick) refl
]
  where
    here : get_or table i (0, 0, 0) ≡ row
    here = ap (λ k. get_or table k (0, 0, 0)) (omega arith) ∙ same 0

    shifted : (j : ℕ) → get_or table (i + 1 + j) (0, 0, 0) ≡ get_or rows j (0, 0, 0)
    shifted j = ap (λ k. get_or table k (0, 0, 0)) (omega arith) ∙ same (suc j)

-- What the scan returns, by the row that it picks.
pub code_of-pick :
    (cur : Row) (rows : List Row) (x : ℕ)
    → cur.0 ≤ x
    → code_of (cur ∷ rows) x
      ≡ ((pick cur rows x).2, (pick cur rows x).1, sub_u32 x (pick cur rows x).0)
unfolding code_of
code_of-pick cur rows x lo = ap (λ (r : Row). (r.2, r.1, sub_u32 x r.0)) row
  where
    table : List Row
    table = cur ∷ rows

    first_row : leb cur.0 x ≡ true
    first_row = ground arith

    row : get_or table (find_row table 0 0 x) (0, 0, 0) ≡ pick cur rows x
    row =
        find_row-pick table table 0 0 x (λ j. ap (λ k. get_or table k (0, 0, 0)) (omega arith))
        ∙ (unfold pick in rw first_row refl)

module _ (base extra : ℕ → ℕ) (first last : ℕ) where
  -- A row agrees with the formulas.
  record Agrees (r : Row) : Type 0 where
    is_base : r.0 ≡ base r.2
    is_extra : r.1 ≡ extra r.2
    known : (first ≤ r.2) × (r.2 ≤ last)

  -- Rows that agree and leave no gap up to `end`.
  abbrev Chain : Row → List Row → ℕ → Type 0
  Chain cur [] end = Agrees cur × (end ≤ cur.0 + 2 ^ cur.1)
  Chain cur (r ∷ rs) end = Agrees cur × (r.0 ≤ cur.0 + 2 ^ cur.1) × Chain r rs end

  pick-bounds :
      (cur : Row) (rows : List Row) (x end : ℕ)
      → Chain cur rows end
      → cur.0 ≤ x
      → x < end
      → let r = pick cur rows x in Agrees r × (r.0 ≤ x) × (x < r.0 + 2 ^ r.1)
  unfolding pick
  pick-bounds cur [] x end c lo hi = (c.0, lo, omega arith)
  pick-bounds cur (r ∷ rs) x end c lo hi = elim (Bool-cases (leb r.0 x)) [
    | inl small ↦ rw (small, pick) (pick-bounds r rs x end c.2 (ground (arith, small)) hi)
    | inr large ↦ rw (large, pick) (c.0, lo, ground (arith, large))
  ]

  -- What `code_of` returns at `x`: a symbol whose base and extra value add up to `x`, with as many
  -- extra bits as the formulas say, and a value that fits them.
  pub record IsCode (x : ℕ) (c : ℕ × ℕ × ℕ) : Type 0 where
    pub width : c.1 ≡ extra c.0
    pub adds_up : base c.0 + c.2 ≡ x
    pub fits : c.2 < 2 ^ c.1
    pub symbol : (first ≤ c.0) × (c.0 ≤ last)

  row-IsCode :
      (r : Row) (x : ℕ)
      → Agrees r × (r.0 ≤ x) × (x < r.0 + 2 ^ r.1)
      → x < 2 ^ 32
      → IsCode x (r.2, r.1, sub_u32 x r.0)
  row-IsCode r x (a, lo, hi) small = record {
    width = a.is_extra;
    adds_up = omega (arith, a.is_base);
    fits = omega arith;
    symbol = a.known;
  }

  code_of-IsCode :
      (cur : Row) (rows : List Row) (x end : ℕ)
      → Chain cur rows end
      → cur.0 ≤ x
      → x < end
      → end ≤ 2 ^ 32
      → IsCode x (code_of (cur ∷ rows) x)
  code_of-IsCode cur rows x end c lo hi small =
      subst (IsCode x) (sym (code_of-pick cur rows x lo))
        (row-IsCode (pick cur rows x) x (pick-bounds cur rows x end c lo hi) (omega arith))

-- For a length from 3 to 258, the symbol is from 257 to 285, the value fits the extra bits that RFC
-- 1951 gives the symbol, and with the symbol's base it adds up to the length.
pub length_code-IsCode :
    (l : ℕ) → 3 ≤ l → l ≤ 258 → IsCode length_base length_extra 257 285 l (length_code l)
unfolding length_code length_base length_extra
length_code-IsCode l lo hi =
    code_of-IsCode length_base length_extra 257 285 (3, 0, 257) (drop 1 length_table) l 259
      (omega arith) lo (omega arith) (omega arith)

-- For a distance from 1 to 32768, the symbol is from 0 to 29, the value fits the extra bits that RFC
-- 1951 gives the symbol, and with the symbol's base it adds up to the distance.
pub distance_code-IsCode :
    (d : ℕ) → 1 ≤ d → d ≤ 32768 → IsCode distance_base distance_extra 0 29 d (distance_code d)
unfolding distance_code distance_base distance_extra
distance_code-IsCode d lo hi =
    code_of-IsCode distance_base distance_extra 0 29 (1, 0, 0) (drop 1 distance_table) d 32769
      (omega arith) lo (omega arith) (omega arith)
