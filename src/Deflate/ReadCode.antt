-- ===== src/Deflate/ReadCode.antt =====
-- The reader of canonical codes gives back each symbol whose code was written.
use gpzip.Prelude.{
  ℕ, zero, suc, ◌+◌, ◌-◌, ◌*◌, ◌/◌, ◌%◌, ◌^◌, ◌≤◌, ◌<◌, ◌≡◌, refl, ap, sym, ◌∙◌, ltb, leb, ◌==◌,
  Bool-cases, inl, inr, true, false, some, List, [], ◌∷◌, ◌++◌, All, length, get_or, take, arith,
}
use native.Mathlib.Nat.{pow-suc, div-div-eq-div-mul, div-one, div-eq_of_lt}
use gpzip.Huffman.Canonical.{canonical_codes}
use gpzip.Huffman.Kraft.{Fits, get_or-lt}
use gpzip.Huffman.Order.{count, first}
use gpzip.Huffman.Lengths.{used_symbols, try_build_code_lengths}
use gpzip.Huffman.Total.{AreU32, maximum-le, try_build_code_lengths_total}
use gpzip.Huffman.Coded.{try_build_code_lengths-IsCoded}
use gpzip.Huffman.Assigned.{canonical_codes-first, code-Fits, get_or-le-maximum}
use gpzip.Deflate.Mirror.{msb_bits}
use gpzip.Deflate.InflateDynamic.{nth, read_code, read_symbol}

nth-rank :
    (l i : ℕ) (lens : List ℕ) (s : ℕ)
    → s < length lens
    → get_or lens s 0 ≡ l
    → nth l (count l (take s lens)) i lens ≡ some (i + s)
unfolding nth count
nth-rank l i [] s lt e = absurd (omega arith)
nth-rank l i (x ∷ xs) zero lt e =
    let t : (x == l) ≡ true = ground (arith, e) in rw t (ap (λ (k : ℕ). some k) (omega arith))
nth-rank l i (x ∷ xs) (suc s) lt e =
    let ih = nth-rank l (i + 1) xs s (omega arith) e in
    let at : i + 1 + s ≡ i + suc s = omega arith in
    elim (Bool-cases (x == l)) [
      | inl t ↦
          let k : suc (count l (take s xs)) - 1 ≡ count l (take s xs) = omega arith in
          let more : (suc (count l (take s xs)) == 0) ≡ false = ground arith in
          rw (t, more, k) (ih ∙ ap (λ (k : ℕ). some k) at)
      | inr t ↦ rw t (ih ∙ ap (λ (k : ℕ). some k) at)
    ]

halved : (c n : ℕ) → c / 2 ^ suc n ≡ c / 2 ^ n / 2
halved c n = ap (λ (t : ℕ). c / t) (pow-suc 2 n) ∙ sym (div-div-eq-div-mul c (2 ^ n) 2)

-- The bits of a code of `l` bits, read up to a shorter length, are not before the codes of that length.
first-prefix :
    (lens : List ℕ) (c l n j : ℕ)
    → l ≡ suc j + n
    → first lens l ≤ c
    → first lens (suc j) ≤ c / 2 ^ n
unfolding first
first-prefix lens c l zero j e h =
    let one = div-one c in
    let at : l ≡ suc j = omega arith in let h' : first lens (suc j) ≤ c = rw at at h in omega arith
first-prefix lens c l (suc n) j e h =
    let p : first lens (suc (suc j)) ≤ c / 2 ^ n =
      first-prefix lens c l n (suc j) (omega arith) h in
    omega (arith, halved c n)

-- And where they are not the whole code, behind all of them.
first-behind :
    (lens : List ℕ) (c l n j : ℕ)
    → l ≡ suc j + suc n
    → first lens l ≤ c
    → first lens (suc j) + count (suc j) lens ≤ c / 2 ^ suc n
unfolding first
first-behind lens c l n j e h =
    let p : first lens (suc (suc j)) ≤ c / 2 ^ n =
      first-prefix lens c l n (suc j) (omega arith) h in
    omega (arith, halved c n)

-- One bit more of the code.
next_bit : (c n : ℕ) → c / 2 ^ suc n * 2 + c / 2 ^ n % 2 ≡ c / 2 ^ n
next_bit c n = omega (arith, halved c n)

read_code-finds :
    (lens : List ℕ) (c l s n j left : ℕ) (rest : List ℕ)
    → l ≡ suc j + n
    → n < left
    → first lens l ≤ c
    → c < first lens l + count l lens
    → nth l (c - first lens l) 0 lens ≡ some s
    → read_code lens left (suc j) (first lens (suc j)) (c / 2 ^ suc n) (msb_bits (suc n) c ++ rest)
      ≡ some (s, rest)
unfolding read_code msb_bits first
read_code-finds lens c l s n j zero rest e enough lo hi found = absurd (omega arith)
read_code-finds lens c l s zero j (suc left) rest e enough lo hi found =
    let at : l ≡ suc j = omega arith in
    let whole : c / 2 ^ suc zero * 2 + c / 2 ^ zero % 2 ≡ c = next_bit c zero ∙ div-one c in
    let lo' : first lens (suc j) ≤ c = rw at at lo in
    let hi' : c < first lens (suc j) + count (suc j) lens = rw at at hi in
    let found' : nth (suc j) (c - first lens (suc j)) 0 lens ≡ some s = rw at at found in
    let a : leb (first lens (suc j)) c ≡ true = ground arith in
    let b : ltb c (first lens (suc j) + count (suc j) lens) ≡ true = ground arith in
    rw (whole, a, b, found') refl
read_code-finds lens c l s (suc n) j (suc left) rest e enough lo hi found =
    let bit = next_bit c (suc n) in
    let past : first lens (suc j) + count (suc j) lens ≤ c / 2 ^ suc n =
      first-behind lens c l n j e lo in
    let b : ltb (c / 2 ^ suc n) (first lens (suc j) + count (suc j) lens) ≡ false = ground arith in
    let up : suc j + 1 ≡ suc (suc j) = omega arith in
    let later =
      read_code-finds lens c l s n (suc j) left rest (omega arith) (omega arith) lo hi found in
    let a : leb (first lens (suc j)) (c / 2 ^ suc n) ≡ true = ground arith in
    rw (bit, a, b, up) later

-- The code of a symbol that has one reads as the symbol, whatever follows.
pub read_symbol-canonical :
    (m : ℕ) (lens : List ℕ) (s : ℕ)
    → m ≤ 15
    → All (λ l. l ≤ m) lens
    → length lens ≤ 512
    → Fits m lens
    → 0 < get_or lens s 0
    → (rest : List ℕ)
    → read_symbol lens (msb_bits (get_or lens s 0) (get_or (canonical_codes lens) s 0) ++ rest)
      ≡ some (s, rest)
unfolding read_symbol first
read_symbol-canonical m lens s le low short fits pos rest =
    go (get_or lens s 0) refl (canonical_codes-first m lens s (omega arith) low short fits pos)
  where
    inside : s < length lens
    inside = get_or-lt s lens pos

    go :
        (l : ℕ)
        → get_or lens s 0 ≡ l
        → get_or (canonical_codes lens) s 0
          ≡ first lens (get_or lens s 0) + count (get_or lens s 0) (take s lens)
        → read_symbol lens (msb_bits l (get_or (canonical_codes lens) s 0) ++ rest) ≡ some (s, rest)
    go zero e code = absurd (omega arith)
    go (suc j) e code =
        let c : ℕ = first lens (suc j) + count (suc j) (take s lens) in
        let same : get_or (canonical_codes lens) s 0 ≡ c =
          code ∙ ap (λ (l : ℕ). first lens l + count l (take s lens)) e in
        let most : suc j ≤ m = omega (arith, get_or-le-maximum lens s, maximum-le lens m low) in
        let (below, wide) = code-Fits m lens s j fits most inside e in
        let rank : c - first lens (suc j) ≡ count (suc j) (take s lens) = omega arith in
        let found : nth (suc j) (c - first lens (suc j)) 0 lens ≡ some s =
          rw rank (nth-rank (suc j) 0 lens s inside e ∙ ap (λ (k : ℕ). some k) (omega arith)) in
        let start : c / 2 ^ suc j ≡ 0 = div-eq_of_lt wide in
        let reads =
          read_code-finds lens c (suc j) s j 0 15 rest (omega arith) (omega arith) (omega arith)
            below found in
        rw same (rw start at reads)

-- For up to 512 u32 frequencies and a limit of 1 to 15 bits with codes enough for the symbols in use,
-- `try_build_code_lengths` returns lengths, and the reader of RFC 1951 reads the code that
-- `canonical_codes` gives a symbol in use as that symbol, whatever bits follow it.
pub read_symbol-canonical_codes :
    (freq : List ℕ) (m s : ℕ) (rest : List ℕ)
    → 1 ≤ m
    → m ≤ 15
    → AreU32 freq
    → length freq ≤ 512
    → length (used_symbols 0 freq) ≤ 2 ^ m
    → 0 < get_or freq s 0
    → (lens : List ℕ) × (try_build_code_lengths freq m ≡ some (some lens))
      × (read_symbol lens (msb_bits (get_or lens s 0) (get_or (canonical_codes lens) s 0) ++ rest)
          ≡ some (s, rest))
read_symbol-canonical_codes freq m s rest pos le small short room used =
    elim (try_build_code_lengths_total freq m small pos) [
      | inr (many, e) ↦ absurd (omega (arith, many, room))
      | inl (few, lens, e, limited) ↦
          let coded = try_build_code_lengths-IsCoded freq m lens pos (omega arith) small short e in
          (
            lens,
            e,
            read_symbol-canonical m lens s le limited.small (omega (arith, limited.enough, short))
                coded.fits (coded.all s used) rest,
          )
    ]
