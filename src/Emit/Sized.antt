-- ===== src/Emit/Sized.antt =====
-- Steps of the reference writer that add a known number of bits.
use gpzip.Prelude.{
  ℕ, ◌+◌, ◌≤◌, ◌≡◌, refl, ap, sym, ◌∙◌, Option, some, ◌>>=◌, List, [], ◌++◌, length, length-append,
  append-nil, append_assoc, arith, subst,
}
use gpzip.Deflate.Stream.{length-lsb_bits}
use gpzip.Deflate.Mirror.{length-msb_bits}
use gpzip.Deflate.Accum.{BitWriter, contents, IsValid}
use gpzip.Deflate.BitWriter.{write_bits, write_huffman, contents-write_bits, contents-write_huffman}
use gpzip.Deflate.Fixed.{write_extra}
use gpzip.Deflate.TokenBits.{write_extra-Adds}

-- On every valid writer the step succeeds and adds `n` bits.
abbrev pub Sized : ℕ → (BitWriter → Option BitWriter) → Type 0
Sized n f =
    (w : BitWriter)
    → IsValid w
    → (w' : BitWriter) × (f w ≡ some w')
      × IsValid w'
      × (bits : List ℕ) × (contents w' ≡ contents w ++ bits)
      × (length bits ≡ n)

pub Sized-none : Sized 0 (λ w. some w)
Sized-none w v = (w, refl, v, [], sym (append-nil (contents w)), refl)

pub Sized-cast : (m n : ℕ) (f : BitWriter → Option BitWriter) → m ≡ n → Sized m f → Sized n f
Sized-cast m n f e h = subst (λ k. Sized k f) e h

pub Sized-then :
    (m n : ℕ) (f g : BitWriter → Option BitWriter)
    → Sized m f
    → Sized n g
    → Sized (m + n) (λ w. f w >>= g)
Sized-then m n f g hf hg w v =
    let (w₁, ran₁, v₁, b₁, e₁, l₁) = hf w v in
    let (w₂, ran₂, v₂, b₂, e₂, l₂) = hg w₁ v₁ in
    (
      w₂,
      rw ran₁ ran₂,
      v₂,
      b₁ ++ b₂,
      e₂ ∙ ap (λ t. t ++ b₂) e₁ ∙ append_assoc (contents w) b₁ b₂,
      omega (arith, l₁, l₂, length-append b₁ b₂),
    )

pub Sized-bits : (value count : ℕ) → count ≤ 24 → Sized count (λ w. some (write_bits value count w))
Sized-bits value count le w v =
    let (held, v') = contents-write_bits value count w v le in
    (write_bits value count w, refl, v', _, held, length-lsb_bits count value)

pub Sized-extra :
    (value count : ℕ) → count ≤ 24 → Sized count (λ w. some (write_extra value count w))
Sized-extra value count le w v =
    let (held, v') = write_extra-Adds value count w v le in
    (write_extra value count w, refl, v', _, held, length-lsb_bits count value)

pub Sized-huffman : (code bits : ℕ) → bits ≤ 24 → Sized bits (λ w. some (write_huffman code bits w))
Sized-huffman code bits le w v =
    let (held, v') = contents-write_huffman code bits w v le in
    (write_huffman code bits w, refl, v', _, held, length-msb_bits bits code)
