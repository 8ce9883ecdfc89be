-- ===== src/Huffman/Order.antt =====
-- The canonical codes of RFC 1951, section 3.2.2, said without arrays: codes of one length are
-- consecutive, in the order of their symbols, and behind all shorter ones.
use gpzip.Prelude.{
  ℕ, zero, suc, ◌+◌, ◌-◌, ◌*◌, ◌^◌, ◌≤◌, ◌≡◌, refl, ap, ◌∙◌, leb, ◌==◌, Bool-cases, inl, inr, true,
  false, if◌then◌else◌, List, [], ◌∷◌, arith,
}
use gpzip.Prelude.Bits.{two_pow-add}
use native.Mathlib.Nat.{one-le-pow, pow-suc}
use gpzip.Huffman.Kraft.{share, weight, Fits}
use gpzip.Huffman.Coded.{cancel}

-- How many symbols have a code of `l` bits.
unfoldable pub count : ℕ → List ℕ → ℕ
count l [] = 0
count l (x ∷ xs) = if x == l then suc (count l xs) else count l xs

-- The first code of `l` bits.
unfoldable pub first : List ℕ → ℕ → ℕ
unfolding count
first lens zero = 0
first lens (suc zero) = 0
first lens (suc (suc j)) = (first lens (suc j) + count (suc j) lens) * 2

-- What the codes of at most `j` bits take of `2 ^ j`.
abbrev part : ℕ → ℕ → ℕ
part j zero = 0
part j (suc l) = if leb (suc l) j then 2 ^ (j - suc l) else 0

abbrev taken : ℕ → List ℕ → ℕ
taken j [] = 0
taken j (l ∷ ls) = part j l + taken j ls

taken-zero : (lens : List ℕ) → taken 0 lens ≡ 0
taken-zero [] = refl
taken-zero (zero ∷ ls) = omega (arith, taken-zero ls)
taken-zero (suc l ∷ ls) =
    let e : leb (suc l) 0 ≡ false = ground arith in rw e (omega (arith, taken-zero ls))

part-suc : (j l : ℕ) → part (suc j) l ≡ 2 * part j l + (if l == suc j then 1 else 0)
part-suc j zero = let e : (zero == suc j) ≡ false = ground arith in rw e (omega arith)
part-suc j (suc l) = elim (Bool-cases (leb (suc l) j)) [
  | inl low ↦
      let e : leb (suc l) (suc j) ≡ true = ground (arith, low) in
      let ne : (suc l == suc j) ≡ false = ground (arith, low) in
      let w : suc j - suc l ≡ suc (j - suc l) = ground (arith, low) in
      rw (e, low, ne) (ap (λ (k : ℕ). 2 ^ k) w ∙ omega (arith, pow-suc 2 (j - suc l)))
  | inr high ↦ elim (Bool-cases (suc l == suc j)) [
    | inl at ↦
        let e : leb (suc l) (suc j) ≡ true = ground (arith, at) in
        let w : suc j - suc l ≡ 0 = ground (arith, at) in rw (e, high, at) (ap (λ (k : ℕ). 2 ^ k) w)
    | inr above ↦
        let e : leb (suc l) (suc j) ≡ false = ground (arith, above, high) in
        rw (e, high, above) (omega arith)
  ]
]

taken-suc : (j : ℕ) (lens : List ℕ) → taken (suc j) lens ≡ 2 * taken j lens + count (suc j) lens
unfolding count
taken-suc j [] = omega arith
taken-suc j (l ∷ ls) = elim (Bool-cases (l == suc j)) [
  | inl e ↦
      let p : part (suc j) l ≡ 2 * part j l + 1 = part-suc j l ∙ rw e refl in
      rw e (omega (arith, taken-suc j ls))
  | inr e ↦
      let p : part (suc j) l ≡ 2 * part j l + 0 = part-suc j l ∙ rw e refl in
      rw e (omega (arith, taken-suc j ls))
]

-- The last code of `l` bits is followed by what the codes so far take.
first-count : (j : ℕ) (lens : List ℕ) → first lens (suc j) + count (suc j) lens ≡ taken (suc j) lens
unfolding first
first-count zero lens = omega (arith, taken-suc 0 lens, taken-zero lens)
first-count (suc j) lens = omega (arith, taken-suc (suc j) lens, first-count j lens)

part-share : (m j l : ℕ) → j ≤ m → part j l * 2 ^ (m - j) ≤ share m l
part-share m j zero le = omega arith
part-share m j (suc l) le = elim (Bool-cases (leb (suc l) j)) [
  | inl low ↦
      let w : m - suc l ≡ j - suc l + (m - j) = ground (arith, low) in
      rw low (omega (arith, two_pow-add (j - suc l) (m - j), ap (λ (k : ℕ). 2 ^ k) w))
  | inr high ↦ rw high (omega arith)
]

taken-weight : (m j : ℕ) (lens : List ℕ) → j ≤ m → taken j lens * 2 ^ (m - j) ≤ weight m lens
taken-weight m j [] le = omega arith
taken-weight m j (l ∷ ls) le = omega (arith, part-share m j l le, taken-weight m j ls le)

-- Codes that fit side by side have as many bits as their length says.
pub first-Fits :
    (m : ℕ) (lens : List ℕ) (j : ℕ)
    → Fits m lens
    → suc j ≤ m
    → first lens (suc j) + count (suc j) lens ≤ 2 ^ suc j
first-Fits m lens j fits le =
    let e = first-count j lens in
    let w : suc j + (m - suc j) ≡ m = omega arith in
    let most : taken (suc j) lens ≤ 2 ^ suc j =
      cancel (2 ^ (m - suc j)) (taken (suc j) lens) (2 ^ suc j)
        (one-le-pow (m - suc j) 2 (omega arith))
        (omega (
          arith,
          taken-weight m (suc j) lens le,
          two_pow-add (suc j) (m - suc j),
          ap (λ (k : ℕ). 2 ^ k) w,
        )) in
    omega arith
