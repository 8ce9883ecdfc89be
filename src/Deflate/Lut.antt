-- ===== src/Deflate/Lut.antt =====
-- The loops that build the lookup tables of deflate.rs and huffman_emit_v2.rs from rows: every row
-- fills the slots of its range of lengths or distances, up to the next row's base.
use gpzip.Prelude.{
  ℕ, zero, suc, ◌+◌, ◌-◌, ◌≤◌, ◌<◌, ◌≡◌, ◌≢◌, refl, ap, sym, ◌∙◌, leb, Bool-cases, inl, inr, some,
  List, [], ◌∷◌, get_elem?, length, set, arith, length-set,
}
use gpzip.Deflate.Codes.{Row}
use gpzip.Deflate.Rows.{pick}

-- Where the range of a row ends: at the next row's base, or at `last`.
abbrev pub range_end : List Row → ℕ → ℕ
range_end [] last = last
range_end (next ∷ rows) last = next.0

-- Rows by ascending base, where no slot is shared by two rows' ranges.
abbrev pub Apart : (ℕ → ℕ) → List Row → ℕ → Type 0
Apart slot [] last = Unit {0}
Apart slot (row ∷ rows) last =
    (row.0 ≤ range_end rows last)
    × ((d k : ℕ) → d < row.0 → row.0 ≤ k → slot d ≢ slot k)
    × Apart slot rows last

module _ {A : Type 0} where
  -- `while d < end`, `n` rounds from `d` on: the slot of `d` is set. A slot out of range, which no
  -- table has but where the source tests for it, is skipped.
  unfoldable pub fill_range : (ℕ → ℕ) → A → ℕ → ℕ → List A → List A
  fill_range slot entry zero d out = out
  fill_range slot entry (suc n) d out = fill_range slot entry n (d + 1) (set out (slot d) entry)

  unfoldable pub fill_rows : (ℕ → ℕ) → (Row → A) → List Row → ℕ → List A → List A
  fill_rows slot entry [] last out = out
  fill_rows slot entry (row ∷ rows) last out =
      fill_rows slot entry rows last
        (fill_range slot (entry row) (range_end rows last - row.0) row.0 out)

  set_self : (out : List A) (i : ℕ) (e : A) → i < length out → get_elem? (set out i e) i ≡ some e
  set_self [] i e h = absurd (omega (arith, h))
  set_self (x ∷ out) zero e h = refl
  set_self (x ∷ out) (suc i) e h = set_self out i e (omega (arith, h))

  set_keeps :
      (out : List A) (i j : ℕ) (e : A)
      → get_elem? out j ≡ some e
      → get_elem? (set out i e) j ≡ some e
  set_keeps [] i j e h = h
  set_keeps (x ∷ out) zero zero e h = refl
  set_keeps (x ∷ out) zero (suc j) e h = h
  set_keeps (x ∷ out) (suc i) zero e h = h
  set_keeps (x ∷ out) (suc i) (suc j) e h = set_keeps out i j e h

  set_ne : (out : List A) (i j : ℕ) (e : A) → i ≢ j → get_elem? (set out i e) j ≡ get_elem? out j
  set_ne [] i j e h = refl
  set_ne (x ∷ out) zero zero e h = absurd (h refl)
  set_ne (x ∷ out) zero (suc j) e h = refl
  set_ne (x ∷ out) (suc i) zero e h = refl
  set_ne (x ∷ out) (suc i) (suc j) e h = set_ne out i j e (λ k. h (ap suc k))

  module _ (slot : ℕ → ℕ) where
    length-fill_range :
        (e : A) (n d : ℕ) (out : List A) → length (fill_range slot e n d out) ≡ length out
    unfolding fill_range
    length-fill_range e zero d out = refl
    length-fill_range e (suc n) d out =
        length-fill_range e n (d + 1) (set out (slot d) e) ∙ length-set out (slot d) e

    fill_range_keeps :
        (e : A) (n d : ℕ) (out : List A) (j : ℕ)
        → get_elem? out j ≡ some e
        → get_elem? (fill_range slot e n d out) j ≡ some e
    unfolding fill_range
    fill_range_keeps e zero d out j h = h
    fill_range_keeps e (suc n) d out j h =
        fill_range_keeps e n (d + 1) (set out (slot d) e) j (set_keeps out (slot d) j e h)

    fill_range_hit :
        (e : A) (n d : ℕ) (out : List A) (x : ℕ)
        → d ≤ x
        → x < d + n
        → slot x < length out
        → get_elem? (fill_range slot e n d out) (slot x) ≡ some e
    unfolding fill_range
    fill_range_hit e zero d out x lo hi h = absurd (omega (arith, lo, hi))
    fill_range_hit e (suc n) d out x lo hi h = elim (Bool-cases (leb x d)) [
      | inl here ↦ fill_range_keeps e n (d + 1) (set out (slot d) e) (slot x) (
          rw (same (ground (arith, here, lo)))
            (set_self out (slot d) e (rw (sym (same (ground (arith, here, lo)))) h)))
      | inr later ↦
          fill_range_hit e n (d + 1) (set out (slot d) e) x (ground (arith, later))
            (omega (arith, hi)) (omega (arith, h, length-set out (slot d) e))
    ]
      where
        same : x ≡ d → slot x ≡ slot d
        same k = ap slot k

    fill_range_other :
        (e : A) (n d : ℕ) (out : List A) (j : ℕ)
        → ((k : ℕ) → d ≤ k → slot k ≢ j)
        → get_elem? (fill_range slot e n d out) j ≡ get_elem? out j
    unfolding fill_range
    fill_range_other e zero d out j h = refl
    fill_range_other e (suc n) d out j h =
        fill_range_other e n (d + 1) (set out (slot d) e) j (λ k lo. h k (omega (arith, lo)))
        ∙ set_ne out (slot d) j e (h d (omega arith))

    fill_rows_other :
        (entry : Row → A) (row : Row) (rows : List Row) (last : ℕ) (out : List A) (j : ℕ)
        → Apart slot (row ∷ rows) last
        → ((k : ℕ) → row.0 ≤ k → slot k ≢ j)
        → get_elem? (fill_rows slot entry (row ∷ rows) last out) j ≡ get_elem? out j
    unfolding fill_rows
    fill_rows_other entry row [] last out j a h =
        fill_range_other (entry row) (last - row.0) row.0 out j h
    fill_rows_other entry row (next ∷ rows) last out j a h =
        fill_rows_other entry next rows last
          (fill_range slot (entry row) (next.0 - row.0) row.0 out) j a.2
          (λ k lo. h k (omega (arith, lo, a.0)))
        ∙ fill_range_other (entry row) (next.0 - row.0) row.0 out j h

    -- The slot of `x` holds the entry of the row whose range `x` is in.
    pub fill_rows_lem :
        (entry : Row → A) (row : Row) (rows : List Row) (last : ℕ) (out : List A) (x : ℕ)
        → Apart slot (row ∷ rows) last
        → row.0 ≤ x
        → x < last
        → slot x < length out
        → get_elem? (fill_rows slot entry (row ∷ rows) last out) (slot x)
          ≡ some (entry (pick row rows x))
    unfolding fill_rows pick
    fill_rows_lem entry row [] last out x a lo hi h =
        fill_range_hit (entry row) (last - row.0) row.0 out x lo (omega (arith, hi, lo)) h
    fill_rows_lem entry row (next ∷ rows) last out x a lo hi h = elim (Bool-cases (leb next.0 x)) [
      | inl later ↦
          rw (later, pick)
            (fill_rows_lem entry next rows last filled x a.2 (ground (arith, later)) hi
              (omega (arith, h, length-fill_range (entry row) (next.0 - row.0) row.0 out)))
      | inr here ↦
          rw (here, pick)
            (fill_rows_other entry next rows last filled (slot x) a.2
                (λ k lo' e. a.2.1 x k (ground (arith, here)) lo' (sym e))
              ∙ fill_range_hit (entry row) (next.0 - row.0) row.0 out x lo
                  (ground (arith, here, lo)) h)
    ]
      where
        filled : List A
        filled = fill_range slot (entry row) (next.0 - row.0) row.0 out
