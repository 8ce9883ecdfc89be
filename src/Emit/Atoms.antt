-- ===== src/Emit/Atoms.antt =====
-- The atoms of huffman_emit.rs: the pieces of a fixed block, each with its place in the bit stream.
use gpzip.Prelude.{
  ℕ, ◌+◌, ◌%◌, ◌^◌, ◌==◌, ◌≡◌, ltb, if◌then◌else◌, Option, some, ◌>>=◌, List, [], ◌∷◌, ◌++◌,
}
use gpzip.Lz77.{Token, is_literal}
use gpzip.Deflate.Stream.{lsb_bits}
use gpzip.Emit.Scan.{rev_bits, fixed_litlen, length_code, distance_code}

pub record Atom : Type 0 where
  pub bit_offset : ℕ
  pub value : ℕ
  pub n_bits : ℕ

-- The atoms so far, and the offset of the next one.
abbrev pub Atoms : Type 0
Atoms = List Atom × ℕ

unfoldable pub push_atom : ℕ → ℕ → Atoms → Atoms
push_atom value n_bits (atoms, bit_offset) = if n_bits == 0 then (atoms, bit_offset) else (
  atoms ++ (record { bit_offset = bit_offset; value = value; n_bits = n_bits } ∷ []),
  (bit_offset + n_bits) % 2 ^ 32,
)

-- `let (code, bits) = fixed_litlen(symbol); push_atom(.., rev_bits(code, bits), bits)`, with the same
-- tables and the same reversal xs in deflate.rs. `none` is a panic.
unfoldable pub push_symbol : ℕ → Atoms → Option Atoms
push_symbol symbol a = do
  (code, bits) ← fixed_litlen symbol
  some (push_atom (rev_bits code bits) bits a)

-- `if bits > 0 { push_atom(..) }`
unfoldable pub push_extra : ℕ → ℕ → Atoms → Atoms
unfolding push_atom
push_extra value count a = if ltb 0 count then push_atom value count a else a

unfoldable pub push_token : Token → Atoms → Option Atoms
unfolding push_atom push_extra
push_token t a = if is_literal t then push_symbol t.distance a else do
  let (lcode, lextra_bits, lextra_val) = length_code t.length
  a₁ ← push_symbol lcode a
  let (dcode, dextra_bits, dextra_val) = distance_code t.distance
  let a₂ = push_atom (rev_bits dcode 5) 5 (push_extra lextra_val lextra_bits a₁)
  some (push_extra dextra_val dextra_bits a₂)

unfoldable pub push_tokens : List Token → Atoms → Option Atoms
push_tokens [] a = some a
push_tokens (t ∷ ts) a = push_token t a >>= push_tokens ts

unfoldable pub build_atoms_fixed : List Token → Option Atoms
unfolding push_atom push_tokens push_symbol
build_atoms_fixed tokens = push_tokens tokens (push_atom 0b011 3 ([], 0)) >>= push_symbol 256

-- What the atoms say together.
abbrev pub atoms_bits : List Atom → List ℕ
atoms_bits [] = []
atoms_bits (a ∷ xs) = lsb_bits a.n_bits a.value ++ atoms_bits xs

-- Every atom begins where the one before it ends, from `offset` on, and the last ends at `end`.
abbrev pub Adjoin : ℕ → List Atom → ℕ → Type 0
Adjoin offset [] end = offset ≡ end
Adjoin offset (a ∷ xs) end = (a.bit_offset ≡ offset) × Adjoin ((offset + a.n_bits) % 2 ^ 32) xs end
