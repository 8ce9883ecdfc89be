-- ===== src/Deflate/Inflate.antt =====
-- A reader of fixed-Huffman DEFLATE blocks after RFC 1951, written from its formulas and not from the
-- encoders' tables: the independent description that the encoders are held to.
use gpzip.Prelude.{
  ℕ, zero, suc, ◌+◌, ◌-◌, ◌*◌, ◌/◌, ◌%◌, ◌^◌, ◌==◌, ltb, if◌then◌else◌, ◌||◌, ◌&&◌, Option, none,
  some, ◌>>=◌, List, [], ◌∷◌, length,
}
use gpzip.Lz77.{Token, literal, back_ref}

-- A field of `n` bits, lowest first.
unfoldable pub read_lsb : ℕ → List ℕ → Option (ℕ × List ℕ)
read_lsb zero bits = some (0, bits)
read_lsb (suc n) [] = none
read_lsb (suc n) (b ∷ bits) = do (v, rest) ← read_lsb n bits; some (b + v * 2, rest)

-- `n` more bits of a Huffman code, highest first, behind the code so far.
unfoldable pub read_msb : ℕ → ℕ → List ℕ → Option (ℕ × List ℕ)
read_msb zero code bits = some (code, bits)
read_msb (suc n) code [] = none
read_msb (suc n) code (b ∷ bits) = read_msb n (code * 2 + b) bits

-- The fixed literal/length codes (section 3.2.6): 7 bits below 24, 8 bits below 200, else 9 bits.
abbrev pub from_9 : ℕ × List ℕ → Option (ℕ × List ℕ)
from_9 (code, rest) = some (code - 400 + 144, rest)

abbrev pub from_8 : ℕ × List ℕ → Option (ℕ × List ℕ)
from_8 (code, rest) =
    if ltb code 192
    then some (code - 48, rest)
    else if ltb code 200
    then some (code - 192 + 280, rest)
    else read_msb 1 code rest >>= from_9

abbrev pub from_7 : ℕ × List ℕ → Option (ℕ × List ℕ)
from_7 (code, rest) =
    if ltb code 24 then some (code + 256, rest) else read_msb 1 code rest >>= from_8

unfoldable pub read_litlen : List ℕ → Option (ℕ × List ℕ)
read_litlen bits = read_msb 7 0 bits >>= from_7

-- Base and number of extra bits of a length symbol (section 3.2.5).
unfoldable pub length_extra : ℕ → ℕ
length_extra s = if ltb s 265 || (s == 285) then 0 else (s - 261) / 4

unfoldable pub length_base : ℕ → ℕ
length_base s =
    if ltb s 265
    then s - 254
    else if s == 285
    then 258
    else ((s - 265) % 4 + 4) * 2 ^ length_extra s + 3

-- The same of a distance symbol.
unfoldable pub distance_extra : ℕ → ℕ
distance_extra s = if ltb s 4 then 0 else s / 2 - 1

unfoldable pub distance_base : ℕ → ℕ
distance_base s = if ltb s 4 then s + 1 else (s % 2 + 2) * 2 ^ distance_extra s + 1

-- A back-reference whose length symbol is read.
unfoldable pub read_back_ref : ℕ → List ℕ → Option (Token × List ℕ)
read_back_ref s bits = do
  (length, bits₁) ← read_lsb (length_extra s) bits
  (d, bits₂) ← read_msb 5 0 bits₁
  (distance, bits₃) ← read_lsb (distance_extra d) bits₂
  if ltb 29 d
      then none
      else some (back_ref (length_base s + length) (distance_base d + distance), bits₃)

-- The next token, or `none` in its place at the end of the block.
unfoldable pub read_token : List ℕ → Option (Option Token × List ℕ)
read_token bits = do
  (s, rest) ← read_litlen bits
  if ltb s 256
      then some (some (literal s), rest)
      else if s == 256
      then some (none, rest)
      else if ltb 285 s
      then none
      else read_back_ref s rest >>= λ (t, rest'). some (some t, rest')

-- The tokens of a block, and the bits behind it. Fuel for one token more than there are is enough.
unfoldable pub read_tokens : ℕ → List ℕ → Option (List Token × List ℕ)
read_tokens zero bits = none
read_tokens (suc fuel) bits = elim (read_token bits) [
  | none ↦ none
  | some (none, rest) ↦ some ([], rest)
  | some (some t, rest) ↦ elim (read_tokens fuel rest) [
    | none ↦ none
    | some (ts, rest') ↦ some (t ∷ ts, rest')
  ]
]

-- A last block (BFINAL = 1) with fixed codes (BTYPE = 01). Every token takes a bit at least.
unfoldable pub inflate_fixed : List ℕ → Option (List Token × List ℕ)
inflate_fixed bits = do
  (final, bits₁) ← read_lsb 1 bits
  (kind, bits₂) ← read_lsb 2 bits₁
  if (final == 1) && (kind == 1) then read_tokens (length bits) bits₂ else none
