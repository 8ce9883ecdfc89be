-- ===== src/Lz77/Sample.antt =====
-- The bytes "aaaa" with a table of true matches.
use gpzip.Prelude.{
  ℕ, zero, suc, ◌+◌, ◌-◌, ◌<◌, subst, ◌≡◌, refl, some, List, [], ◌∷◌, get_elem?, arith,
}
use gpzip.Lz77.{Token, literal, back_ref}
use gpzip.Lz77.Match.{IsMatch}
use mathlib.Core.Option.{some-injective}
use gpzip.Lz77.Walk.{IsTable, literal-IsMatch}

abbrev pub input : List ℕ
input = 97 ∷ 97 ∷ 97 ∷ 97 ∷ []

-- The last two positions could not start a match of three bytes.
abbrev pub table : List Token
table = literal 97 ∷ back_ref 3 1 ∷ literal 97 ∷ literal 97 ∷ []

repeat : IsMatch input 1 (back_ref 3 1)
repeat = record {
  is_byte = λ h. absurd (omega arith);
  inside = omega arith;
  behind = λ h. omega arith;
  equal = same;
}
  where
    same : (k : ℕ) → k < 3 → get_elem? input (1 + k) ≡ get_elem? input (1 + k - 1)
    same zero h = refl
    same (suc zero) h = refl
    same (suc (suc zero)) h = refl
    same (suc (suc (suc k))) h = absurd (omega arith)

pub table-IsTable : IsTable table input
table-IsTable = record { same_length = refl; bytes = bytes; matches = matches }
  where
    bytes : (p b : ℕ) → get_elem? input p ≡ some b → b < 256
    bytes zero b e = ground arith
    bytes (suc zero) b e = ground arith
    bytes (suc (suc zero)) b e = ground arith
    bytes (suc (suc (suc zero))) b e = ground arith
    bytes (suc (suc (suc (suc p)))) b e = cc

    matches : (p : ℕ) (t : Token) → get_elem? table p ≡ some t → IsMatch input p t
    matches zero t e =
        subst (IsMatch input 0) (some-injective _ _ e)
          (literal-IsMatch input 0 97 refl (omega arith))
    matches (suc zero) t e = subst (IsMatch input 1) (some-injective _ _ e) repeat
    matches (suc (suc zero)) t e =
        subst (IsMatch input 2) (some-injective _ _ e)
          (literal-IsMatch input 2 97 refl (omega arith))
    matches (suc (suc (suc zero))) t e =
        subst (IsMatch input 3) (some-injective _ _ e)
          (literal-IsMatch input 3 97 refl (omega arith))
    matches (suc (suc (suc (suc p)))) t e = cc
