-- ===== src/Deflate/Stream.antt =====
-- The abstract view of a bit writer: the sequence of bits that it stands for. A byte goes out lowest
-- bit first, and the accumulator holds the bits that do not fill a byte yet.
use gpzip.Prelude.{
  ℕ, zero, suc, ◌+◌, ◌*◌, ◌/◌, ◌%◌, ◌^◌, ◌<◌, ◌≡◌, refl, sym, ap, ap₂, ◌∙◌, List, [], ◌∷◌, ◌++◌,
  length, arith, replicate, append_assoc, append-nil,
}
use gpzip.Prelude.Bits.{mod-pow-suc}
use native.Mathlib.Nat.{pow-suc}

-- The `n` lowest binary digits of `v`, lowest first.
unfoldable pub lsb_bits : ℕ → ℕ → List ℕ
lsb_bits zero v = []
lsb_bits (suc n) v = v % 2 ∷ lsb_bits n (v / 2)

-- The bits of a byte sequence.
unfoldable pub stream : List ℕ → List ℕ
unfolding lsb_bits
stream [] = []
stream (b ∷ bs) = lsb_bits 8 b ++ stream bs

pub stream-append : (xs ys : List ℕ) → stream (xs ++ ys) ≡ stream xs ++ stream ys
unfolding stream
stream-append [] ys = refl
stream-append (x ∷ xs) ys =
    ap (λ t. lsb_bits 8 x ++ t) (stream-append xs ys)
    ∙ sym (append_assoc (lsb_bits 8 x) (stream xs) (stream ys))

pub stream_one : (b : ℕ) → stream (b ∷ []) ≡ lsb_bits 8 b
unfolding stream
stream_one b = append-nil (lsb_bits 8 b)

pub length-lsb_bits : (n v : ℕ) → length (lsb_bits n v) ≡ n
unfolding lsb_bits
length-lsb_bits zero v = refl
length-lsb_bits (suc n) v = ap suc (length-lsb_bits n (v / 2))

-- A field of `n` bits below a field of `m` bits.
pub lsb_bits-fields :
    (n m lo hi : ℕ)
    → lo < 2 ^ n
    → lsb_bits (n + m) (lo + hi * 2 ^ n) ≡ lsb_bits n lo ++ lsb_bits m hi
unfolding lsb_bits
lsb_bits-fields zero m lo hi h = ap₂ lsb_bits width value
  where
    width : zero + m ≡ m
    width = omega arith

    value : lo + hi * 2 ^ zero ≡ hi
    value = omega arith
lsb_bits-fields (suc n) m lo hi h =
    ap (λ k. lsb_bits k (lo + hi * 2 ^ suc n)) width
    ∙ ap₂ ◌∷◌ low
        (ap (lsb_bits (n + m)) high ∙ lsb_bits-fields n m (lo / 2) hi (omega (arith, pow-suc 2 n)))
  where
    width : suc n + m ≡ suc (n + m)
    width = omega arith

    low : (lo + hi * 2 ^ suc n) % 2 ≡ lo % 2
    low = omega (arith, ap (λ (t : ℕ). hi * t) (pow-suc 2 n))

    high : (lo + hi * 2 ^ suc n) / 2 ≡ lo / 2 + hi * 2 ^ n
    high = omega (arith, ap (λ (t : ℕ). hi * t) (pow-suc 2 n))

-- Only the low `n` bits of a value are read.
pub lsb_bits-mod : (n v : ℕ) → lsb_bits n (v % 2 ^ n) ≡ lsb_bits n v
unfolding lsb_bits
lsb_bits-mod zero v = refl
lsb_bits-mod (suc n) v = ap₂ ◌∷◌ low (ap (lsb_bits n) high ∙ lsb_bits-mod n (v / 2))
  where
    low : v % 2 ^ suc n % 2 ≡ v % 2
    low = omega (arith, mod-pow-suc n v)

    high : v % 2 ^ suc n / 2 ≡ v / 2 % 2 ^ n
    high = omega (arith, mod-pow-suc n v)

pub lsb_bits-zero : (n : ℕ) → lsb_bits n 0 ≡ replicate n 0
unfolding lsb_bits
lsb_bits-zero zero = refl
lsb_bits-zero (suc n) = ap (λ t. 0 ∷ t) (lsb_bits-zero n)

-- Filling `field`, the low bits of `value`, in above the bits that the accumulator holds.
pub fill-contents :
    (out : List ℕ) (accum nbits field count value : ℕ)
    → accum < 2 ^ nbits
    → field ≡ value % 2 ^ count
    → stream out ++ lsb_bits (nbits + count) (accum + field * 2 ^ nbits)
      ≡ (stream out ++ lsb_bits nbits accum) ++ lsb_bits count value
fill-contents out accum nbits field count value h e =
    ap (λ t. stream out ++ t)
      (lsb_bits-fields nbits count accum field h
        ∙ ap (λ t. lsb_bits nbits accum ++ t) (ap (lsb_bits count) e ∙ lsb_bits-mod count value))
    ∙ sym (append_assoc (stream out) (lsb_bits nbits accum) (lsb_bits count value))
