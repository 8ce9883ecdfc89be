-- ===== src/Deflate/Mirror.antt =====
-- Bit reversal: Huffman codes go out highest bit first, so the encoders reverse them.
use gpzip.Prelude.{
  ℕ, zero, suc, ◌+◌, ◌-◌, ◌*◌, ◌/◌, ◌%◌, ◌^◌, ◌≤◌, ◌<◌, ◌==◌, ◌≡◌, refl, ap, ap₂, sym, ◌∙◌, List,
  [], ◌∷◌, length, arith, bit_and, bit_or, if◌then◌else◌,
}
use gpzip.Prelude.Bits.{bit_and-mask, shift-bit_or}
use gpzip.Deflate.Stream.{lsb_bits}
use native.Mathlib.Nat.{pow-suc, one-le-pow, pow-succ', div-div-eq-div-mul, div-one}

-- The `n` lowest binary digits of `v`, highest first.
unfoldable pub msb_bits : ℕ → ℕ → List ℕ
msb_bits zero v = []
msb_bits (suc n) v = v / 2 ^ n % 2 ∷ msb_bits n v

-- The number whose `n` digits are those of `v` in the opposite order.
pub mirror : ℕ → ℕ → ℕ
mirror zero v = 0
mirror (suc n) v = mirror n v * 2 + v / 2 ^ n % 2

pub lsb_bits-mirror : (n v : ℕ) → lsb_bits n (mirror n v) ≡ msb_bits n v
unfolding lsb_bits mirror msb_bits
lsb_bits-mirror zero v = refl
lsb_bits-mirror (suc n) v = ap₂ ◌∷◌ low (ap (lsb_bits n) half ∙ lsb_bits-mirror n v)
  where
    low : (mirror n v * 2 + v / 2 ^ n % 2) % 2 ≡ v / 2 ^ n % 2
    low = omega arith

    half : (mirror n v * 2 + v / 2 ^ n % 2) / 2 ≡ mirror n v
    half = omega arith

pub mirror-lt : (n v : ℕ) → mirror n v < 2 ^ n
unfolding mirror
mirror-lt zero v = omega arith
mirror-lt (suc n) v = omega (arith, mirror-lt n v, pow-suc 2 n)

-- Dropping the low digits of a mirror drops the high digits of what is mirrored.
mirror-shift : (n k v : ℕ) → mirror (n + k) v / 2 ^ k ≡ mirror n v
mirror-shift n zero v = ap (λ m. mirror m v / 2 ^ 0) e ∙ div-one (mirror n v)
  where
    e : n + zero ≡ n
    e = omega arith
mirror-shift n (suc k) v =
    ap₂ (λ m p. mirror m v / p) width (pow-succ' 2 k)
    ∙ sym (div-div-eq-div-mul (mirror (suc (n + k)) v) 2 (2 ^ k))
    ∙ ap (λ t. t / 2 ^ k) half
    ∙ mirror-shift n k v
  where
    width : n + suc k ≡ suc (n + k)
    width = omega arith

    half : mirror (suc (n + k)) v / 2 ≡ mirror (n + k) v
    half = unfold mirror in omega arith

-- `u32::reverse_bits`
pub reverse_32 : ℕ → ℕ
unfolding mirror
reverse_32 v = mirror 32 v

-- `reverse_bits` of the fast encoder.
unfoldable pub reverse_bits : ℕ → ℕ → ℕ
unfolding reverse_32
reverse_bits code bits = if bits == 0 then 0 else reverse_32 code / 2 ^ (32 - bits)

-- The instruction and the shift give the mirror of the low bits.
pub reverse_bits-mirror : (code bits : ℕ) → bits ≤ 32 → reverse_bits code bits ≡ mirror bits code
unfolding reverse_bits
reverse_bits-mirror code zero h = unfold mirror in refl
reverse_bits-mirror code (suc n) h =
    ground (arith, mirror-shift (suc n) (32 - suc n) code, ap (λ (k : ℕ). mirror k code) width)
  where
    width : suc n + (32 - suc n) ≡ 32
    width = omega arith

-- The loop of `write_huffman`, `left` rounds before its end, at the bit `i`.
pub reverse_loop : ℕ → ℕ → ℕ → ℕ → ℕ → ℕ
reverse_loop zero i code bits reversed = reversed
reverse_loop (suc left) i code bits reversed =
    reverse_loop left (i + 1) code bits
      (if bit_and (code / 2 ^ i) 1 == 0 then reversed else bit_or reversed (2 ^ (bits - 1 - i)))

-- What one round leaves, `left` rounds before the end.
next_digit :
    (left i code bits : ℕ)
    → i + suc left ≡ bits
    → (if bit_and (code / 2 ^ i) 1 == 0
        then mirror i code * 2 ^ suc left
        else bit_or (mirror i code * 2 ^ suc left) (2 ^ (bits - 1 - i)))
      ≡ mirror (suc i) code * 2 ^ left
unfolding mirror
next_digit left i code bits e = ground (
  arith,
  bit_and-mask 1 (code / 2 ^ i),
  pow-suc 2 left,
  one-le-pow left 2 (omega arith),
  ap (λ (k : ℕ). 2 ^ k) place,
  shift-bit_or (suc left) (2 ^ left) (mirror i code)
      (omega (arith, pow-suc 2 left, one-le-pow left 2 (omega arith))),
  product,
)
  where
    place : bits - 1 - i ≡ left
    place = omega arith

    product : mirror i code * 2 ^ suc left ≡ mirror i code * 2 * 2 ^ left
    product = omega (arith, ap (λ (t : ℕ). mirror i code * t) (pow-suc 2 left))

reverse_loop-mirror :
    (left i code bits : ℕ)
    → i + left ≡ bits
    → reverse_loop left i code bits (mirror i code * 2 ^ left) ≡ mirror bits code
unfolding reverse_loop
reverse_loop-mirror zero i code bits e = omega (arith, ap (λ (k : ℕ). mirror k code) last)
  where
    last : i ≡ bits
    last = omega arith
reverse_loop-mirror (suc left) i code bits e =
    ap (reverse_loop left (i + 1) code bits)
      (next_digit left i code bits e ∙ ap (λ k. mirror k code * 2 ^ left) count)
    ∙ reverse_loop-mirror left (i + 1) code bits (omega arith)
  where
    count : suc i ≡ i + 1
    count = omega arith

-- The loop of `write_huffman`.
unfoldable pub reversed : ℕ → ℕ → ℕ
unfolding reverse_loop
reversed code bits = reverse_loop bits 0 code bits 0

pub reversed-mirror : (code bits : ℕ) → reversed code bits ≡ mirror bits code
unfolding reversed
reversed-mirror code bits =
    ap (reverse_loop bits 0 code bits) start ∙ reverse_loop-mirror bits 0 code bits (omega arith)
  where
    start : 0 ≡ mirror 0 code * 2 ^ bits
    start = unfold mirror in omega arith

-- The loop of the reference encoder and the instruction of the fast one give the same code, for up to
-- 32 bits.
pub reversed-reverse_bits :
    (code bits : ℕ) → bits ≤ 32 → reversed code bits ≡ reverse_bits code bits
reversed-reverse_bits code bits h =
    reversed-mirror code bits ∙ sym (reverse_bits-mirror code bits h)

pub length-msb_bits : (n v : ℕ) → length (msb_bits n v) ≡ n
unfolding msb_bits
length-msb_bits zero v = refl
length-msb_bits (suc n) v = ap suc (length-msb_bits n v)
