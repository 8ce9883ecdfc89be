-- ===== src/Core/MembersFound.antt =====
-- What gpzip wrote is cut at its members and decoded as the serial decoder would.
use gpzip.Prelude.{
  ℕ, suc, ◌+◌, ◌-◌, ◌<◌, ◌≡◌, refl, ap, sym, ◌∙◌, false, ltb, Result, ok, List, [], ◌∷◌, ◌++◌,
  length, length-append, take, drop, append_assoc, append-nil, arith,
}
use gpzip.Core.Format.{starts_with}
use gpzip.Core.Members.{
  gpzip_header, scan, find_member_starts, slices, decode_parts, decode_members, parallel_decompress,
}

abbrev pub concat : List (List ℕ) → List ℕ
concat [] = []
concat (m ∷ ms) = m ++ concat ms

-- No header starts in `xs`, before `rest`.
abbrev pub NoStart : List ℕ → List ℕ → Type 0
NoStart [] rest = Unit {0}
NoStart (x ∷ xs) rest = (starts_with gpzip_header (x ∷ (xs ++ rest)) ≡ false) × NoStart xs rest

-- Each member begins with the header and has no other.
abbrev pub Framed : List (List ℕ) → Type 0
Framed [] = Unit {0}
Framed (m ∷ ms) =
    ((body : List ℕ) × (m ≡ gpzip_header ++ body) × NoStart body (concat ms)) × Framed ms

-- Where each member begins.
abbrev pub offsets : ℕ → List (List ℕ) → List ℕ
offsets o [] = []
offsets o (m ∷ ms) = o ∷ offsets (o + length m) ms

scan-NoStart :
    (xs rest : List ℕ) (i : ℕ)
    → NoStart xs rest
    → scan 0 i (xs ++ rest) ≡ scan 0 (i + length xs) rest
unfolding scan
scan-NoStart [] rest i h = ap (λ k. scan 0 k rest) (omega arith)
scan-NoStart (x ∷ xs) rest i (h, hs) =
    rw (h, scan) (scan-NoStart xs rest (i + 1) hs ∙ ap (λ k. scan 0 k rest) (omega arith))

scan-header : (xs : List ℕ) (i : ℕ) → scan 0 i (gpzip_header ++ xs) ≡ i ∷ scan 0 (i + 10) xs
unfolding scan starts_with
scan-header xs i = ap (λ k. i ∷ scan 0 k xs) (omega arith)

scan-offsets : (ms : List (List ℕ)) (i : ℕ) → Framed ms → scan 0 i (concat ms) ≡ offsets i ms
scan-offsets [] i h = unfold scan in refl
scan-offsets (m ∷ ms) i ((body, same, quiet), hs) =
    ap (λ t. scan 0 i (t ++ concat ms)) same
    ∙ ap (scan 0 i) (append_assoc gpzip_header body (concat ms))
    ∙ scan-header (body ++ concat ms) i
    ∙ ap (λ t. i ∷ t)
        (scan-NoStart body (concat ms) (i + 10) quiet
          ∙ ap (λ k. scan 0 k (concat ms)) place
          ∙ scan-offsets ms (i + length m) hs)
  where
    place : i + 10 + length body ≡ i + length m
    place = omega (arith, ap length same)

drop-append : (xs ys : List ℕ) → drop (length xs) (xs ++ ys) ≡ ys
drop-append [] ys = refl
drop-append (x ∷ xs) ys = drop-append xs ys

take-append_self : (xs ys : List ℕ) → take (length xs) (xs ++ ys) ≡ xs
take-append_self [] ys = refl
take-append_self (x ∷ xs) ys = ap (λ t. x ∷ t) (take-append_self xs ys)

slices-offsets :
    (ms : List (List ℕ)) (before : List ℕ)
    → slices (before ++ concat ms) (offsets (length before) ms) ≡ ms
unfolding slices
slices-offsets [] before = refl
slices-offsets (m ∷ []) before = ap (λ t. t ∷ []) (drop-append before (m ++ []) ∙ append-nil m)
slices-offsets (m ∷ (m' ∷ ms)) before =
    ap (λ t. take (length before + length m - length before) t ∷ rest)
      (drop-append before (m ++ more))
    ∙ ap (λ k. take k (m ++ more) ∷ rest) (omega arith)
    ∙ ap (λ t. t ∷ rest) (take-append_self m more)
    ∙ ap (λ t. m ∷ t) (moved ∙ slices-offsets (m' ∷ ms) (before ++ m))
  where
    more : List ℕ
    more = concat (m' ∷ ms)

    rest : List (List ℕ)
    rest = slices (before ++ (m ++ more)) (offsets (length before + length m) (m' ∷ ms))

    moved : rest ≡ slices ((before ++ m) ++ more) (offsets (length (before ++ m)) (m' ∷ ms))
    moved =
        ap (λ t. slices t (offsets (length before + length m) (m' ∷ ms)))
          (sym (append_assoc before m more))
        ∙ ap (λ k. slices ((before ++ m) ++ more) (offsets k (m' ∷ ms)))
            (sym (length-append before m))

module _ {E : Type 0} (gz_decoder multi_gz_decoder : List ℕ → Result E (List ℕ)) where
  -- The decoder of one member decodes each.
  abbrev pub Decodes : List (List ℕ) → List (List ℕ) → Type 0
  Decodes [] [] = Unit {0}
  Decodes [] (o ∷ os) = ⊥
  Decodes (m ∷ ms) [] = ⊥
  Decodes (m ∷ ms) (o ∷ os) = (gz_decoder m ≡ ok o) × Decodes ms os

  decode_parts-concat :
      (ms os : List (List ℕ))
      → Decodes ms os
      → decode_parts gz_decoder multi_gz_decoder ms ≡ ok (concat os)
  unfolding decode_parts
  decode_parts-concat [] [] h = refl
  decode_parts-concat [] (o ∷ os) h = absurd h
  decode_parts-concat (m ∷ ms) [] h = absurd h
  decode_parts-concat (m ∷ ms) (o ∷ os) (h, hs) =
      rw (h, decode_parts) (rw (decode_parts-concat ms os hs) refl)

  -- At least two members, behind anything that has no header.
  found :
      (before : List ℕ) (m m' : List ℕ) (ms os : List (List ℕ))
      → NoStart before (concat (m ∷ (m' ∷ ms)))
      → Framed (m ∷ (m' ∷ ms))
      → Decodes (m ∷ (m' ∷ ms)) os
      → decode_members gz_decoder multi_gz_decoder
          (before ++ concat (m ∷ (m' ∷ ms)))
          (find_member_starts (before ++ concat (m ∷ (m' ∷ ms))))
        ≡ ok (concat os)
  unfolding decode_members find_member_starts
  found before m m' ms os quiet framed decodes =
      rw (starts, enough)
        (rw (slices-offsets all before) (rw (decode_parts-concat all os decodes) refl))
    where
      all : List (List ℕ)
      all = m ∷ (m' ∷ ms)

      starts : scan 0 0 (before ++ concat all) ≡ offsets (length before) all
      starts =
          scan-NoStart before (concat all) 0 quiet
          ∙ ap (λ (k : ℕ). scan 0 k (concat all)) (omega arith)
          ∙ scan-offsets all (length before) framed

      enough :
          ltb (suc (suc (length (offsets (length before + length m + length m') ms)))) 2 ≡ false
      enough = ground arith

  not_empty :
      (bytes : List ℕ)
      → 0 < length bytes
      → parallel_decompress gz_decoder multi_gz_decoder bytes
        ≡ decode_members gz_decoder multi_gz_decoder bytes (find_member_starts bytes)
  unfolding parallel_decompress
  not_empty [] h = absurd (omega (arith, h))
  not_empty (x ∷ xs) h = refl

  longer :
      (m : List ℕ) (rest : List ℕ)
      → ((body : List ℕ) × (m ≡ gpzip_header ++ body))
      → 0 < length (m ++ rest)
  longer m rest (body, e) = omega (arith, length-append m rest, ap length e)

  -- Where each member has the header once, at its front, the decoder of one member decodes each, and the
  -- serial decoder the whole, `parallel_decompress` gives what the serial decoder gives: the members'
  -- contents in order.
  pub parallel_decompress-concat :
      (members outs : List (List ℕ))
      → Framed members
      → Decodes members outs
      → multi_gz_decoder (concat members) ≡ ok (concat outs)
      → parallel_decompress gz_decoder multi_gz_decoder (concat members) ≡ ok (concat outs)
  parallel_decompress-concat [] [] f d serial = unfold parallel_decompress in refl
  parallel_decompress-concat [] (o ∷ os) f d serial = absurd d
  parallel_decompress-concat (m ∷ []) outs f d serial =
      unfold decode_members find_member_starts in
      not_empty (m ++ []) (longer m [] (f.0.0, f.0.1)) ∙ rw (scan-offsets (m ∷ []) 0 f) serial
  parallel_decompress-concat (m ∷ (m' ∷ ms)) outs f d serial =
      not_empty (concat (m ∷ (m' ∷ ms))) (longer m (concat (m' ∷ ms)) (f.0.0, f.0.1))
      ∙ found [] m m' ms outs tt f d

  -- Whatever has no header in front of two members or more is dropped, without an error and whatever the
  -- serial decoder makes of it.
  pub parallel_decompress-NoStart :
      (before m m' : List ℕ) (members outs : List (List ℕ))
      → NoStart before (concat (m ∷ (m' ∷ members)))
      → Framed (m ∷ (m' ∷ members))
      → Decodes (m ∷ (m' ∷ members)) outs
      → parallel_decompress gz_decoder multi_gz_decoder (before ++ concat (m ∷ (m' ∷ members)))
        ≡ ok (concat outs)
  parallel_decompress-NoStart before m m' members outs quiet f d =
      not_empty (before ++ concat (m ∷ (m' ∷ members))) (
        omega (
          arith,
          length-append before (concat (m ∷ (m' ∷ members))),
          longer m (concat (m' ∷ members)) (f.0.0, f.0.1),
        ))
      ∙ found before m m' members outs quiet f d
