-- ===== src/Deflate/RleReader.antt =====
-- A reader of the run-length form after RFC 1951, section 3.2.7, written from the text and not from the
-- source. It takes an entry only where its extra bits are those that a decoder reads for the symbol.
use gpzip.Prelude.{
  ℕ, ◌+◌, ◌^◌, ◌==◌, ◌&&◌, leb, ltb, if◌then◌else◌, ◌≡◌, true, ==_iff, Bool-cases, inl, inr, Option,
  none, some, ◌>>=◌, List, [], ◌∷◌, ◌++◌, replicate,
}
use gpzip.Deflate.Rle.{RleEntry}

-- How many extra bits follow the symbol.
abbrev pub repeat_bits : ℕ → ℕ
repeat_bits s = if s == 16 then 2 else if s == 17 then 3 else if s == 18 then 7 else 0

-- How many lengths a symbol stands for, and which, behind the length `prev`.
abbrev pub meaning : RleEntry → Option ℕ → Option (ℕ × ℕ)
meaning e prev =
    if leb e.code 15
    then some (1, e.code)
    else if e.code == 16
    then (prev >>= λ p. some (3 + e.extra_value, p))
    else if e.code == 17
    then some (3 + e.extra_value, 0)
    else if e.code == 18
    then some (11 + e.extra_value, 0)
    else none

-- An entry with the right number of extra bits, and a value that fits them.
abbrev pub readable : RleEntry → Option ℕ → Option (ℕ × ℕ)
readable e prev =
    if (e.extra_bits == repeat_bits e.code) && ltb e.extra_value (2 ^ e.extra_bits)
    then meaning e prev
    else none

unfoldable pub expand : List RleEntry → Option ℕ → Option (List ℕ)
expand [] prev = some []
expand (e ∷ es) prev =
    readable e prev >>= λ m. (expand es (some m.1) >>= λ rest. some (replicate m.0 m.1 ++ rest))

abbrev pub HasWidth : RleEntry → Type 0
HasWidth e = e.extra_bits ≡ repeat_bits e.code

-- What is read has its width and its meaning.
pub readable-meaning :
    (e : RleEntry) (prev : Option ℕ) (m : ℕ × ℕ)
    → readable e prev ≡ some m
    → HasWidth e × (meaning e prev ≡ some m)
readable-meaning e prev m h = elim (Bool-cases (e.extra_bits == repeat_bits e.code)) [
  | inr other ↦ let no : none ≡ some m = rw other at h in absurd cc
  | inl same ↦ elim (Bool-cases (ltb e.extra_value (2 ^ e.extra_bits))) [
    | inr wide ↦ let no : none ≡ some m = rw (same, wide) at h in absurd cc
    | inl fits ↦ (equal same, rw (same, fits) at h)
  ]
]
  where
    equal : (e.extra_bits == repeat_bits e.code) ≡ true → HasWidth e
    equal t = (==_iff e.extra_bits (repeat_bits e.code)).0 t
