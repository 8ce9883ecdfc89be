-- ===== src/Emit/Tests.antt =====
-- Runs of the host side of the emission, and the theorems at concrete inputs.
use gpzip.Prelude.{ℕ, ◌≡◌, refl, inl, inr, some, List, [], ◌∷◌, All, arith, length}
use gpzip.Lz77.{Token, literal, back_ref}
use gpzip.Deflate.Accum
use gpzip.Deflate.Accum.{BitWriter, contents}
use gpzip.Deflate.Fixed.{write_fixed_block}
use gpzip.Deflate.TokenBits.{IsToken}
use gpzip.Emit.FixedSize.{total_bits_for_fixed, total_bits_for_fixed-write_fixed_block}
use gpzip.Emit.Atoms.{Atom, build_atoms_fixed, atoms_bits, Adjoin}
use gpzip.Emit.AtomsBits.{build_atoms_fixed-write_fixed_block}

abbrev tokens : List Token
tokens = literal 97 ∷ back_ref 258 1 ∷ back_ref 13 200 ∷ []

tokens-IsToken : All IsToken tokens
tokens-IsToken = (inl (refl, omega arith), (inr (omega arith), (inr (omega arith), tt)))

total_bits_for_fixed-write_fixed_block_example :
    (w : BitWriter) × (write_fixed_block tokens Accum.new ≡ some w)
    × (total_bits_for_fixed tokens ≡ some (length (contents w)))
total_bits_for_fixed-write_fixed_block_example =
    total_bits_for_fixed-write_fixed_block tokens tokens-IsToken

build_atoms_fixed-write_fixed_block_example :
    (atoms : List Atom) × (total : ℕ) × (w : BitWriter) × (build_atoms_fixed tokens
      ≡ some (atoms, total))
    × (write_fixed_block tokens Accum.new ≡ some w)
    × (atoms_bits atoms ≡ contents w)
    × Adjoin 0 atoms total
build_atoms_fixed-write_fixed_block_example =
    build_atoms_fixed-write_fixed_block tokens tokens-IsToken
