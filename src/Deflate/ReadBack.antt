-- ===== src/Deflate/ReadBack.antt =====
-- What the reader of blocks makes of fields and codes that a writer put there.
use gpzip.Prelude.{
  ℕ, zero, suc, ◌+◌, ◌-◌, ◌*◌, ◌/◌, ◌%◌, ◌^◌, ◌≤◌, ◌<◌, ◌≡◌, refl, ap, ap₂, sym, ◌∙◌, ltb, some,
  List, [], ◌∷◌, ◌++◌, arith, append_assoc, false,
}
use gpzip.Prelude.Bits.{mod_unique}
use gpzip.Deflate.Stream.{lsb_bits}
use gpzip.Deflate.Mirror.{msb_bits}
use gpzip.Deflate.Codes.{fixed_litlen_code}
use gpzip.Deflate.Inflate.{read_lsb, read_msb, read_litlen, from_7, from_8, from_9}
use native.Mathlib.Nat.{
  pow-suc, pow-succ', one-le-pow, div-add-mod', mod-lt, mod-eq_of_lt, div-div-eq-div-mul,
}

pub read_lsb-lsb_bits :
    (n v : ℕ) (rest : List ℕ) → v < 2 ^ n → read_lsb n (lsb_bits n v ++ rest) ≡ some (v, rest)
unfolding read_lsb lsb_bits
read_lsb-lsb_bits zero v rest h = ap (λ k. some (k, rest)) (omega arith)
read_lsb-lsb_bits (suc n) v rest h =
    rw (read_lsb-lsb_bits n (v / 2) rest (omega (arith, pow-suc 2 n)))
      (ap (λ k. some (k, rest)) (omega arith))

-- The remainder by a power of two, split at its highest digit.
mod-pow-high : (n v : ℕ) → v % 2 ^ suc n ≡ v / 2 ^ n % 2 * 2 ^ n + v % 2 ^ n
mod-pow-high n v =
    mod_unique (top / 2) (2 ^ suc n) (top % 2 * 2 ^ n + v % 2 ^ n) v
      (omega (
        arith,
        div-add-mod' v (2 ^ n),
        ap (λ (t : ℕ). t * 2 ^ n) digits,
        ap (λ (t : ℕ). top / 2 * t) (pow-suc 2 n),
      ))
      (grind (arith, mod-lt v {m = 2 ^ n} (one-le-pow n 2 (omega arith)), pow-suc 2 n))
  where
    top : ℕ
    top = v / 2 ^ n

    digits : top ≡ top / 2 * 2 + top % 2
    digits = omega arith

read_msb-mod :
    (n code v : ℕ) (rest : List ℕ)
    → read_msb n code (msb_bits n v ++ rest) ≡ some (code * 2 ^ n + v % 2 ^ n, rest)
unfolding read_msb msb_bits
read_msb-mod zero code v rest = ap (λ k. some (k, rest)) (omega arith)
read_msb-mod (suc n) code v rest =
    read_msb-mod n (code * 2 + v / 2 ^ n % 2) v rest
    ∙ ap (λ k. some (k, rest))
        (omega (arith, mod-pow-high n v, ap (λ (t : ℕ). code * t) (pow-suc 2 n)))

pub read_msb-msb_bits :
    (n code v : ℕ) (rest : List ℕ)
    → v < 2 ^ n
    → read_msb n code (msb_bits n v ++ rest) ≡ some (code * 2 ^ n + v, rest)
read_msb-msb_bits n code v rest h =
    read_msb-mod n code v rest ∙ ap (λ k. some (code * 2 ^ n + k, rest)) (mod-eq_of_lt h)

-- The last digit of a code by itself.
msb_bits-last : (n v : ℕ) → msb_bits (suc n) v ≡ msb_bits n (v / 2) ++ (v % 2 ∷ [])
unfolding msb_bits
msb_bits-last zero v = ap (λ d. d ∷ []) (omega arith)
msb_bits-last (suc n) v = ap₂ ◌∷◌ (ap (λ t. t % 2) shift) (msb_bits-last n v)
  where
    shift : v / 2 ^ suc n ≡ v / 2 / 2 ^ n
    shift = ap (λ t. v / t) (pow-succ' 2 n) ∙ sym (div-div-eq-div-mul v 2 (2 ^ n))

-- Codes of 7, 8 and 9 bits as far as `read_litlen` reads them at first, and the bits behind.
code_7 : (c : ℕ) (rest : List ℕ) → c < 128 → read_litlen (msb_bits 7 c ++ rest) ≡ from_7 (c, rest)
unfolding read_litlen
code_7 c rest h = rw (read_msb-msb_bits 7 0 c rest h) (ap (λ k. from_7 (k, rest)) (omega arith))

next_bit : (c : ℕ) (rest : List ℕ) → read_msb 1 (c / 2) (c % 2 ∷ rest) ≡ some (c, rest)
unfolding read_msb
next_bit c rest = ap (λ k. some (k, rest)) (omega arith)

code_8 :
    (c : ℕ) (rest : List ℕ)
    → 48 ≤ c
    → c < 256
    → read_litlen (msb_bits 8 c ++ rest) ≡ from_8 (c, rest)
code_8 c rest lo hi =
    ap read_litlen
      (ap (λ t. t ++ rest) (msb_bits-last 7 c) ∙ append_assoc (msb_bits 7 (c / 2)) _ rest)
    ∙ code_7 (c / 2) (c % 2 ∷ rest) (omega arith)
    ∙ rw (long, next_bit c rest) refl
  where
    long : ltb (c / 2) 24 ≡ false
    long = ground arith

code_9 :
    (c : ℕ) (rest : List ℕ)
    → 400 ≤ c
    → c < 512
    → read_litlen (msb_bits 9 c ++ rest) ≡ from_9 (c, rest)
code_9 c rest lo hi =
    ap read_litlen
      (ap (λ t. t ++ rest) (msb_bits-last 8 c) ∙ append_assoc (msb_bits 8 (c / 2)) _ rest)
    ∙ code_8 (c / 2) (c % 2 ∷ rest) (omega arith) (omega arith)
    ∙ rw (long, longer, next_bit c rest) refl
  where
    long : ltb (c / 2) 192 ≡ false
    long = ground arith

    longer : ltb (c / 2) 200 ≡ false
    longer = ground arith

-- The reader gives back every symbol that has a fixed code.
pub read_litlen-fixed :
    (symbol code bits : ℕ) (rest : List ℕ)
    → fixed_litlen_code symbol ≡ some (code, bits)
    → read_litlen (msb_bits bits code ++ rest) ≡ some (symbol, rest)
unfolding fixed_litlen_code
read_litlen-fixed symbol code bits rest e = ground (
  arith,
  code_8 (0x30 + symbol) rest,
  code_9 (0x190 + (symbol - 144)) rest,
  code_7 (symbol - 256) rest,
  code_8 (0xc0 + (symbol - 280)) rest,
)
