-- ===== src/Deflate/Dynamic/Trimmed.antt =====
-- The zeros that the header leaves out are not missed: a code is read the same without them.
use gpzip.Prelude.{
  ℕ, zero, suc, ◌+◌, ◌-◌, ◌*◌, ◌≤◌, ◌≡◌, refl, sym, ◌==◌, Bool-cases, inl, inr, false,
  if◌then◌else◌, none, List, [], ◌∷◌, length, get_or, take, arith,
}
use gpzip.Huffman.Order.{count}
use gpzip.Huffman.Kraft.{get_or-lt}
use gpzip.Deflate.Trim.{trim_to_min, trim_to_min-IsTrimmed}
use gpzip.Deflate.InflateDynamic.{nth, read_code, read_symbol}

-- There are only zeros from place `k` on.
abbrev EndsAt : ℕ → List ℕ → Type 0
EndsAt k lens = (i : ℕ) → k ≤ i → get_or lens i 0 ≡ 0

-- Zeros and nothing else.
count-zeros : (l : ℕ) (lens : List ℕ) → 1 ≤ l → EndsAt 0 lens → count l lens ≡ 0
unfolding count
count-zeros l [] pos z = refl
count-zeros l (x ∷ xs) pos z =
    let x0 : x ≡ 0 = z 0 (omega arith) in
    let other : (x == l) ≡ false = ground arith in
    rw other (count-zeros l xs pos (λ i h. z (suc i) (omega arith)))

nth-zeros : (l k i : ℕ) (lens : List ℕ) → 1 ≤ l → EndsAt 0 lens → nth l k i lens ≡ none
unfolding nth
nth-zeros l k i [] pos z = refl
nth-zeros l k i (x ∷ xs) pos z =
    let x0 : x ≡ 0 = z 0 (omega arith) in
    let other : (x == l) ≡ false = ground arith in
    rw other (nth-zeros l k (i + 1) xs pos (λ j h. z (suc j) (omega arith)))

count-take :
    (l k : ℕ) (lens : List ℕ) → 1 ≤ l → EndsAt k lens → count l (take k lens) ≡ count l lens
unfolding count
count-take l zero lens pos z = sym (count-zeros l lens pos z)
count-take l (suc k) [] pos z = refl
count-take l (suc k) (x ∷ xs) pos z =
    rw (count-take l k xs pos (λ i h. z (suc i) (omega arith))) refl

nth-take :
    (l n i k : ℕ) (lens : List ℕ) → 1 ≤ l → EndsAt k lens → nth l n i (take k lens) ≡ nth l n i lens
unfolding nth
nth-take l n i zero lens pos z = sym (nth-zeros l n i lens pos z)
nth-take l n i (suc k) [] pos z = refl
nth-take l n i (suc k) (x ∷ xs) pos z =
    rw (nth-take l (if x == l then n - 1 else n) (i + 1) k xs pos (λ j h. z (suc j) (omega arith)))
      refl

read_code-take :
    (lens : List ℕ) (k left l first code : ℕ) (bits : List ℕ)
    → 1 ≤ l
    → EndsAt k lens
    → read_code (take k lens) left l first code bits ≡ read_code lens left l first code bits
unfolding read_code
read_code-take lens k zero l first code bits pos z = refl
read_code-take lens k (suc left) l first code [] pos z = refl
read_code-take lens k (suc left) l first code (b ∷ bits) pos z =
    rw
      (
        count-take l k lens pos z,
        nth-take l (code * 2 + b - first) 0 k lens pos z,
        read_code-take lens k left (l + 1) ((first + count l lens) * 2) (code * 2 + b) bits
            (omega arith) z,
      )
      refl

-- A code whose lengths `trim_to_min` shortens is read as before.
pub read_symbol-trim_to_min :
    (lens : List ℕ) (min : ℕ) (bits : List ℕ)
    → min ≤ length lens
    → read_symbol (take (trim_to_min lens min) lens) bits ≡ read_symbol lens bits
unfolding read_symbol
read_symbol-trim_to_min lens min bits h =
    read_code-take lens (trim_to_min lens min) 15 1 0 0 bits (omega arith) (λ i past.
      elim (Bool-cases (get_or lens i 0 == 0)) [
        | inl e ↦ ground (arith, e)
        | inr e ↦
            let inside = get_or-lt i lens (ground (arith, e)) in
            (trim_to_min-IsTrimmed lens min h).zeros i past inside
      ])
