-- ===== src/Core/Members.antt =====
-- parallel_decompress.rs of gpzip-codec-cpu: the gzip members of a file that gpzip wrote are found by
-- their header and decoded side by side.
use gpzip.Prelude.{
  ℕ, zero, suc, ◌+◌, ◌-◌, ltb, if◌then◌else◌, Result, ok, err, List, [], ◌∷◌, ◌++◌, length, take,
  drop,
}
use gpzip.Core.Format.{starts_with}

abbrev pub gpzip_header : List ℕ
gpzip_header = 0x1f ∷ 0x8b ∷ 0x08 ∷ 0x00 ∷ 0 ∷ 0 ∷ 0 ∷ 0 ∷ 0x00 ∷ 0xff ∷ []

-- From the place `i` on; behind a header, the next nine places are passed over.
unfoldable pub scan : ℕ → ℕ → List ℕ → List ℕ
scan skip i [] = []
scan (suc skip) i (x ∷ xs) = scan skip (i + 1) xs
scan zero i (x ∷ xs) =
    let behind = scan 9 (i + 1) xs in
    let further = scan zero (i + 1) xs in
    if starts_with gpzip_header (x ∷ xs) then i ∷ behind else further

unfoldable pub find_member_starts : List ℕ → List ℕ
unfolding scan
find_member_starts bytes = scan 0 0 bytes

-- `&compressed[start..end]` for each member, up to the next one's start or to the end.
unfoldable pub slices : List ℕ → List ℕ → List (List ℕ)
slices bytes [] = []
slices bytes (start ∷ []) = drop start bytes ∷ []
slices bytes (start ∷ (next ∷ starts)) =
    take (next - start) (drop start bytes) ∷ slices bytes (next ∷ starts)

module _ {E : Type 0} (gz_decoder multi_gz_decoder : List ℕ → Result E (List ℕ)) where
  -- The parts in order, or the error of some part.
  unfoldable pub decode_parts : List (List ℕ) → Result E (List ℕ)
  decode_parts [] = ok []
  decode_parts (part ∷ parts) = elim (gz_decoder part) [
    | err e ↦ err e
    | ok out ↦ elim (decode_parts parts) [ err e ↦ err e | ok outs ↦ ok (out ++ outs) ]
  ]

  unfoldable pub decode_members : List ℕ → List ℕ → Result E (List ℕ)
  decode_members compressed starts =
      if ltb (length starts) 2
      then multi_gz_decoder compressed
      else elim (decode_parts (slices compressed starts)) [
        | ok out ↦ ok out
        | err e ↦ multi_gz_decoder compressed
      ]

  unfoldable pub parallel_decompress : List ℕ → Result E (List ℕ)
  unfolding decode_members find_member_starts
  parallel_decompress [] = ok []
  parallel_decompress (x ∷ xs) = decode_members (x ∷ xs) (find_member_starts (x ∷ xs))
