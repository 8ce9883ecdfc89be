-- ===== src/Core/Pieces.antt =====
-- Inputs cut to pieces: `plan_chunks` of chunk.rs, and `gzip_chunk_fn` of gpu.rs, which encodes large
-- chunks piece by piece, with `gzip_wrap` of deflate.rs.
use gpzip.Prelude.{
  ℕ, zero, suc, ◌+◌, ◌/◌, ◌%◌, ◌^◌, ◌≤◌, ◌<◌, ◌≡◌, refl, ap, sym, ◌∙◌, leb, if◌then◌else◌,
  Bool-cases, ◌⊎◌, inl, inr, Result, ok, err, List, [], ◌∷◌, ◌++◌, All, length, take, drop,
  take-append-drop, length-take, length-drop, append_assoc, append-nil, arith,
}
use gpzip.Core.Members.{gpzip_header}

-- `slice.chunks(n)`. A round takes an element at least, so the length is fuel enough; `n` of 0 panics in
-- the standard library, and no caller has it.
unfoldable pub chunks : ℕ → ℕ → List ℕ → List (List ℕ)
chunks n zero xs = []
chunks n (suc fuel) [] = []
chunks n (suc fuel) (x ∷ xs) = take n (x ∷ xs) ∷ chunks n fuel (drop n (x ∷ xs))

pub record ChunkJob : Type 0 where
  pub index : ℕ
  pub bytes : List ℕ

-- `enumerate()`, with indices cast to u32.
unfoldable pub number_jobs : ℕ → List (List ℕ) → List ChunkJob
number_jobs i [] = []
number_jobs i (p ∷ ps) = record { index = i % 2 ^ 32; bytes = p } ∷ number_jobs (i + 1) ps

unfoldable pub plan_chunks : List ℕ → ℕ → List ChunkJob
unfolding chunks number_jobs
plan_chunks input chunk_size = number_jobs 0 (chunks chunk_size (length input) input)

-- `to_le_bytes` of a u32.
abbrev pub le_bytes : ℕ → List ℕ
le_bytes v = v % 2 ^ 8 ∷ v / 2 ^ 8 % 2 ^ 8 ∷ v / 2 ^ 16 % 2 ^ 8 ∷ v / 2 ^ 24 % 2 ^ 8 ∷ []

-- `crc32` is `crc32fast::hash`.
unfoldable pub gzip_wrap : (List ℕ → ℕ) → List ℕ → List ℕ → List ℕ
gzip_wrap crc32 deflate original =
    gpzip_header ++ (deflate ++ (le_bytes (crc32 original) ++ le_bytes (length original % 2 ^ 32)))

module _ {E : Type 0} (encode_one : List ℕ → Result E (List ℕ)) where
  -- The loop over the pieces, with the `?` that returns the first error.
  unfoldable pub encode_pieces : List (List ℕ) → List ℕ → Result E (List ℕ)
  encode_pieces [] out = ok out
  encode_pieces (p ∷ ps) out = elim (encode_one p) [
    | err e ↦ err e
    | ok member ↦ encode_pieces ps (out ++ member)
  ]

  unfoldable pub gzip_chunk_fn : ℕ → List ℕ → Result E (List ℕ)
  gzip_chunk_fn sub_chunk bytes =
      if leb (length bytes) sub_chunk
      then encode_one bytes
      else encode_pieces (chunks sub_chunk (length bytes) bytes) []

abbrev pub joined : List (List ℕ) → List ℕ
joined [] = []
joined (p ∷ ps) = p ++ joined ps

-- The pieces in order are the input, none is empty and none is longer than `n`.
abbrev pub Pieces : ℕ → List ℕ → List (List ℕ) → Type 0
Pieces n xs ps = (joined ps ≡ xs) × All (λ p. (0 < length p) × (length p ≤ n)) ps

pub chunks-Pieces :
    (n fuel : ℕ) (xs : List ℕ) → 0 < n → length xs ≤ fuel → Pieces n xs (chunks n fuel xs)
unfolding chunks
chunks-Pieces n zero [] h le = (refl, tt)
chunks-Pieces n zero (x ∷ xs) h le = absurd (omega (arith, le))
chunks-Pieces n (suc fuel) [] h le = (refl, tt)
chunks-Pieces n (suc fuel) (x ∷ xs) h le =
    let (whole, small) =
      chunks-Pieces n fuel (drop n (x ∷ xs)) h (omega (arith, le, h, length-drop n (x ∷ xs))) in
    (
      ap (λ t. take n (x ∷ xs) ++ t) whole ∙ take-append-drop n (x ∷ xs),
      (omega (arith, h, length-take n (x ∷ xs)), small),
    )

-- Each piece encodes to its member.
abbrev pub EachEncodes :
    {E : Type 0} → (List ℕ → Result E (List ℕ)) → List (List ℕ) → List (List ℕ) → Type 0
EachEncodes encode [] [] = Unit {0}
EachEncodes encode [] (m ∷ ms) = ⊥
EachEncodes encode (p ∷ ps) [] = ⊥
EachEncodes encode (p ∷ ps) (m ∷ ms) = (encode p ≡ ok m) × EachEncodes encode ps ms

-- `e` is the error of the first piece that does not encode.
abbrev pub FirstError : {E : Type 0} → (List ℕ → Result E (List ℕ)) → List (List ℕ) → E → Type 0
FirstError encode [] e = ⊥
FirstError encode (p ∷ ps) e =
    (encode p ≡ err e) ⊎ ((m : List ℕ) × (encode p ≡ ok m) × FirstError encode ps e)

-- `out` and all the members one after the other, or the error of the first piece that does not encode.
abbrev pub Encoded :
    {E : Type 0}
    → (List ℕ → Result E (List ℕ))
    → List (List ℕ)
    → List ℕ
    → Result E (List ℕ)
    → Type 0
Encoded encode ps out (ok all) =
    (members : List (List ℕ)) × EachEncodes encode ps members × (all ≡ out ++ joined members)
Encoded encode ps out (err e) = FirstError encode ps e

encode_pieces-Encoded :
    {E : Type 0} (encode : List ℕ → Result E (List ℕ)) (ps : List (List ℕ)) (out : List ℕ)
    → Encoded encode ps out (encode_pieces encode ps out)
unfolding encode_pieces
encode_pieces-Encoded encode [] out = ([], tt, sym (append-nil out))
encode_pieces-Encoded {E} encode (p ∷ ps) out =
    go (encode p) refl (λ member. encode_pieces-Encoded encode ps (out ++ member))
  where
    more :
        (member : List ℕ) (r : Result E (List ℕ))
        → encode p ≡ ok member
        → Encoded encode ps (out ++ member) r
        → Encoded encode (p ∷ ps) out r
    more member (ok all) e (members, each, same) =
        (member ∷ members, (e, each), same ∙ append_assoc out member (joined members))
    more member (err e') e bad = inr (member, e, bad)

    go :
        (r : Result E (List ℕ))
        → encode p ≡ r
        → ((member : List ℕ)
            → Encoded encode ps (out ++ member) (encode_pieces encode ps (out ++ member)))
        → Encoded encode
            (p ∷ ps)
            out
            (elim r [ err e ↦ err e | ok member ↦ encode_pieces encode ps (out ++ member) ])
    go (err e') e rest = inl e
    go (ok member) e rest = more member (encode_pieces encode ps (out ++ member)) e (rest member)

one_piece :
    {E : Type 0} (encode : List ℕ → Result E (List ℕ)) (p : List ℕ) (r : Result E (List ℕ))
    → encode p ≡ r
    → Encoded encode (p ∷ []) [] r
one_piece encode p (ok m) e = (m ∷ [], (e, tt), sym (append-nil m))
one_piece encode p (err e') e = inl e

-- For a piece size above 0, `gzip_chunk_fn` encodes the input in pieces of at most that size, which
-- together are the input, and returns their members one after the other, or the error of the first
-- piece that does not encode.
pub gzip_chunk_fn-Encoded :
    {E : Type 0} (encode : List ℕ → Result E (List ℕ)) (sub_chunk : ℕ) (bytes : List ℕ)
    → 0 < sub_chunk
    → (pieces : List (List ℕ)) × (joined pieces ≡ bytes)
      × All (λ p. length p ≤ sub_chunk) pieces
      × Encoded encode pieces [] (gzip_chunk_fn encode sub_chunk bytes)
unfolding gzip_chunk_fn
gzip_chunk_fn-Encoded encode sub_chunk bytes h = elim (Bool-cases (leb (length bytes) sub_chunk)) [
  | inl fits ↦
      rw (fits, gzip_chunk_fn)
        (
          bytes ∷ [],
          append-nil bytes,
          (ground (arith, fits), tt),
          one_piece encode bytes (encode bytes) refl,
        )
  | inr larger ↦
      rw (larger, gzip_chunk_fn)
        (let cut = chunks-Pieces sub_chunk (length bytes) bytes h (omega arith) in
          (
            chunks sub_chunk (length bytes) bytes,
            cut.0,
            all_small sub_chunk (chunks sub_chunk (length bytes) bytes) cut.1,
            encode_pieces-Encoded encode (chunks sub_chunk (length bytes) bytes) [],
          ))
]
  where
    all_small :
        (n : ℕ) (ps : List (List ℕ))
        → All (λ p. (0 < length p) × (length p ≤ n)) ps
        → All (λ p. length p ≤ n) ps
    all_small n [] a = tt
    all_small n (p ∷ ps) ((_, small), a) = (small, all_small n ps a)
