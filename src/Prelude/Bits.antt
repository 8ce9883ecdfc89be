-- ===== src/Prelude/Bits.antt =====
-- Binary digits, lowest first, and the bit operations on disjoint fields as arithmetic.
use Prim.Native.Nat.{
  ℕ, zero, suc, ◌+◌, ◌-◌, ◌*◌, ◌/◌, ◌%◌, ◌^◌, ◌≤◌, ◌<◌, min, max, bit_and, bit_or, digits,
  bit_and-bitwise, bit_or-bitwise,
}
use mathlib.Core.Path.{◌≡◌, refl, ap, ◌∙◌}
use native.Mathlib.Nat.{
  pow-suc, one-le-pow, pow-le-pow_right, div-lt_iff_lt-mul, div-add-mod', mod-lt, mod-eq_of_lt,
  mul-add-mod_self_right,
}
use native.Mathlib.Omega.{arith}

-- Fuel above the first argument does not change the digit recursion behind the native operations.
module _ (z : ℕ → ℕ) (f : ℕ → ℕ → ℕ) where
  digits_enough : (n m a b : ℕ) → a ≤ n → a ≤ m → digits z f n a b ≡ digits z f m a b
  digits_enough zero zero a b p q = refl
  digits_enough (suc n) (suc m) zero b p q = refl
  digits_enough zero (suc m) zero b p q = refl
  digits_enough (suc n) zero zero b p q = refl
  digits_enough zero (suc m) (suc a) b p q = absurd (omega arith)
  digits_enough (suc n) zero (suc a) b p q = absurd (omega arith)
  digits_enough (suc n) (suc m) (suc a) b p q =
      ap (λ t. t * 2 + f (suc a % 2) (b % 2))
        (digits_enough n m (suc a / 2) (b / 2) (omega arith) (omega arith))

-- One binary digit of `bit_or` and of `bit_and`.
pub bit_or_digit : (a b : ℕ) → bit_or a b ≡ bit_or (a / 2) (b / 2) * 2 + max (a % 2) (b % 2)
bit_or_digit zero b = simp bit_or-bitwise (omega arith)
bit_or_digit (suc a) b = omega (
  arith,
  bit_or-bitwise (suc a) b,
  bit_or-bitwise (suc a / 2) (b / 2),
  digits_enough (λ y. y) max a (suc a / 2) (suc a / 2) (b / 2) (omega arith) (omega arith),
)

pub bit_and_digit : (a b : ℕ) → bit_and a b ≡ bit_and (a / 2) (b / 2) * 2 + min (a % 2) (b % 2)
bit_and_digit zero b = simp bit_and-bitwise (omega arith)
bit_and_digit (suc a) b = omega (
  arith,
  bit_and-bitwise (suc a) b,
  bit_and-bitwise (suc a / 2) (b / 2),
  digits_enough (λ y. 0) min a (suc a / 2) (suc a / 2) (b / 2) (omega arith) (omega arith),
)

zero-bit_or : (b : ℕ) → bit_or 0 b ≡ b
zero-bit_or b = simp bit_or-bitwise

-- `lo | (hi << k)` is a sum when `lo` fits `k` bits.
pub bit_or-shift : (k lo hi : ℕ) → lo < 2 ^ k → bit_or lo (hi * 2 ^ k) ≡ lo + hi * 2 ^ k
bit_or-shift zero lo hi h = omega (arith, zero-bit_or (hi * 2 ^ 0), e)
  where
    e : bit_or lo (hi * 2 ^ 0) ≡ bit_or 0 (hi * 2 ^ 0)
    e = ap (λ t. bit_or t (hi * 2 ^ 0)) (omega arith)
bit_or-shift (suc k) lo hi h = ground (
  arith,
  bit_or_digit lo (hi * 2 ^ suc k),
  pow-suc 2 k,
  ap (λ (t : ℕ). hi * t) (pow-suc 2 k),
  bit_or-shift k (lo / 2) hi (omega (arith, pow-suc 2 k)),
)

-- The same with the high field first.
bit_or-zero : (n a : ℕ) → a ≤ n → bit_or a 0 ≡ a
bit_or-zero n zero h = refl
bit_or-zero zero (suc a) h = absurd (omega arith)
bit_or-zero (suc n) (suc a) h =
    omega (arith, bit_or_digit (suc a) 0, bit_or-zero n (suc a / 2) (omega arith))

pub shift-bit_or : (k lo hi : ℕ) → lo < 2 ^ k → bit_or (hi * 2 ^ k) lo ≡ hi * 2 ^ k + lo
shift-bit_or zero lo hi h =
    ap (bit_or (hi * 2 ^ 0)) e ∙ bit_or-zero (hi * 2 ^ 0) (hi * 2 ^ 0) (omega arith) ∙ omega arith
  where
    e : lo ≡ 0
    e = omega arith
shift-bit_or (suc k) lo hi h = ground (
  arith,
  bit_or_digit (hi * 2 ^ suc k) lo,
  pow-suc 2 k,
  ap (λ (t : ℕ). hi * t) (pow-suc 2 k),
  shift-bit_or k (lo / 2) hi (omega (arith, pow-suc 2 k)),
)

pub mod_unique : (q m r v : ℕ) → v ≡ q * m + r → r < m → v % m ≡ r
mod_unique q m r v e h = rw e (mul-add-mod_self_right q m r ∙ mod-eq_of_lt h)

-- The remainder by a power of two, digit by digit.
pub mod-pow-suc : (k v : ℕ) → v % 2 ^ suc k ≡ v / 2 % 2 ^ k * 2 + v % 2
mod-pow-suc k v =
    mod_unique q (2 ^ suc k) _ v
      (omega (arith, div-add-mod' (v / 2) (2 ^ k), ap (λ (t : ℕ). q * t) (pow-suc 2 k)))
      (omega (arith, pow-suc 2 k, mod-lt (v / 2) {m = 2 ^ k} (one-le-pow k 2 (omega arith))))
  where
    q : ℕ
    q = v / 2 / 2 ^ k

pub bit_and-mask : (k v : ℕ) → bit_and v (2 ^ k - 1) ≡ v % 2 ^ k
bit_and-mask zero v = and_zero v v (omega arith) ∙ omega arith
  where
    and_zero : (n a : ℕ) → a ≤ n → bit_and a 0 ≡ 0
    and_zero n zero h = refl
    and_zero zero (suc a) h = absurd (omega arith)
    and_zero (suc n) (suc a) h =
        omega (arith, bit_and_digit (suc a) 0, and_zero n (suc a / 2) (omega arith))
bit_and-mask (suc k) v = ground (
  arith,
  bit_and_digit v (2 ^ suc k - 1),
  pow-suc 2 k,
  one-le-pow k 2,
  bit_and-mask k (v / 2),
  ap (λ (t : ℕ). bit_and (v / 2) t) half_mask,
  mod-pow-suc k v,
)
  where
    half_mask : (2 ^ suc k - 1) / 2 ≡ 2 ^ k - 1
    half_mask = omega (arith, pow-suc 2 k, one-le-pow k 2)

pub two_pow-add : (a b : ℕ) → 2 ^ (a + b) ≡ 2 ^ a * 2 ^ b
two_pow-add zero b = omega (arith, ap (λ (t : ℕ). 2 ^ t) e)
  where
    e : zero + b ≡ b
    e = omega arith
two_pow-add (suc a) b = omega (
  arith,
  ap (λ (t : ℕ). 2 ^ t) e,
  pow-suc 2 (a + b),
  two_pow-add a b,
  ap (λ (t : ℕ). t * 2 ^ b) (pow-suc 2 a),
)
  where
    e : suc a + b ≡ suc (a + b)
    e = omega arith

-- A field of `m` bits above one of `n` bits makes `n + m` bits.
pub fields-lt : (n m lo hi : ℕ) → lo < 2 ^ n → hi < 2 ^ m → lo + hi * 2 ^ n < 2 ^ (n + m)
fields-lt n m lo hi h k = rw (two_pow-add n m) (grind arith)

-- What is left above the low `n` bits of a number of `n + m` bits.
pub high-lt : (n m v : ℕ) → v < 2 ^ (n + m) → v / 2 ^ n < 2 ^ m
high-lt n m v h =
    (div-lt_iff_lt-mul (one-le-pow n 2 (omega arith))).1 (omega (arith, two_pow-add n m))

pub two_pow-le : (a b : ℕ) → a ≤ b → 2 ^ a ≤ 2 ^ b
two_pow-le a b h = pow-le-pow_right {n = 2} (omega arith) h
