-- ===== src/Deflate/Dynamic/WrittenHeader.antt =====
-- The header of a dynamic block is read as the code lengths of its plan.
use gpzip.Prelude.{
  ℕ, zero, suc, ◌+◌, ◌-◌, ◌^◌, ◌≤◌, ◌<◌, ◌≡◌, refl, ap, ap₂, ◌∙◌, ◌>>=◌, none, some, List, [], ◌∷◌,
  ◌++◌, append_assoc, length, length-append, length-take, take-append, take_all, get_or, take, drop,
  map, min, arith,
}
use gpzip.Deflate.Stream.{lsb_bits}
use gpzip.Deflate.Accum.{BitWriter, IsValid}
use gpzip.Deflate.BitWriter.{write_bits, contents-write_bits}
use gpzip.Deflate.Inflate.{read_lsb}
use gpzip.Deflate.ReadBack.{read_lsb-lsb_bits}
use gpzip.Deflate.Trim.{trim_to_min, trim_to_min-IsTrimmed}
use gpzip.Deflate.RleRoundTrip.{expand-rle_encode_lengths}
use gpzip.Deflate.TokenBits.{Adds, Adds-trans}
use gpzip.Deflate.InflateDynamic.{
  in_order, read_fields, read_lengths, read_items, read_body, inflate_dynamic,
}
use gpzip.Deflate.Dynamic.Plan.{Freqs, Plan, hclen_loop, listed_lengths, meta_order}
use gpzip.Deflate.Dynamic.PlanBounds.{planned, listed_lengths-small}
use gpzip.Deflate.Dynamic.Reference.{write_header}
use gpzip.Deflate.Dynamic.RleBounds.{All-take}
use gpzip.Deflate.Dynamic.Legible.{Legible, length-expand, below_16}
use gpzip.Deflate.Dynamic.Ordered.{hclen_loop-enough, in_order-meta}
use gpzip.Deflate.Dynamic.WrittenCode.{write_meta_lens-WritesFields}
use gpzip.Deflate.Dynamic.WrittenLengths.{write_rle-WritesLengths}

drop-append : (n : ℕ) (xs ys : List ℕ) → length xs ≡ n → drop n (xs ++ ys) ≡ ys
drop-append zero [] ys e = refl
drop-append zero (x ∷ xs) ys e = absurd (omega arith)
drop-append (suc n) [] ys e = absurd (omega arith)
drop-append (suc n) (x ∷ xs) ys e = drop-append n xs ys (omega arith)

take-append_all : (n : ℕ) (xs ys : List ℕ) → length xs ≡ n → take n (xs ++ ys) ≡ xs
take-append_all n xs ys e = take-append n xs ys (omega arith) ∙ take_all n xs (omega arith)

-- The part of the lengths that the header lists.
abbrev pub shortened : ℕ → List ℕ → List ℕ
shortened min lens = take (trim_to_min lens min) lens

length-shortened :
    (min : ℕ) (lens : List ℕ)
    → min ≤ length lens
    → length (shortened min lens) ≡ trim_to_min lens min - min + min
length-shortened min lens h =
    let t = trim_to_min-IsTrimmed lens min h in
    let a = t.enough in let b = t.within in omega (arith, length-take (trim_to_min lens min) lens)

length-meta_order : (k : ℕ) → k < 20 → length (take k meta_order) ≡ k
length-meta_order k h = omega (arith, length-take k meta_order)

read_body-lengths :
    (litlen dist fields meta bits rest : List ℕ) (hlit hdist : ℕ)
    → length (shortened 257 litlen) ≡ hlit + 257
    → length (shortened 1 dist) ≡ hdist + 1
    → in_order fields ≡ meta
    → read_lengths meta
        (length (listed_lengths litlen dist))
        (length (listed_lengths litlen dist))
        none
        bits
      ≡ some (listed_lengths litlen dist, rest)
    → read_body hlit hdist fields bits
      ≡ read_items (shortened 257 litlen) (shortened 1 dist) (length rest) rest
unfolding read_body listed_lengths
read_body-lengths litlen dist fields meta bits rest hlit hdist el ed order reads =
    let a : List ℕ = shortened 257 litlen in
    let b : List ℕ = shortened 1 dist in
    let n : length (a ++ b) ≡ hlit + 257 + (hdist + 1) = length-append a b ∙ omega arith in
    let reads' : read_lengths meta (hlit + 257 + (hdist + 1)) (hlit + 257 + (hdist + 1)) none bits
        ≡ some (a ++ b, rest) =
      rw n at reads in
    rw order (
      rw reads' (
        ap₂ (λ x y. read_items x y (length rest) rest) (take-append_all (hlit + 257) a b el)
          (drop-append (hlit + 257) a b el)))

abbrev header_bits : ℕ → ℕ → ℕ → List ℕ → List ℕ
header_bits hlit hdist hclen more =
    lsb_bits 3 0b101 ++ (lsb_bits 5 hlit ++ (lsb_bits 5 hdist ++ (lsb_bits 4 hclen ++ more)))

header_bits-append :
    (hlit hdist hclen : ℕ) (xs ys zs : List ℕ)
    → header_bits hlit hdist hclen (xs ++ ys) ++ zs
      ≡ header_bits hlit hdist hclen (xs ++ (ys ++ zs))
header_bits-append hlit hdist hclen xs ys zs =
    append_assoc (lsb_bits 3 0b101) _ zs
    ∙ ap (λ t. lsb_bits 3 0b101 ++ t)
        (append_assoc (lsb_bits 5 hlit) _ zs
          ∙ ap (λ t. lsb_bits 5 hlit ++ t)
              (append_assoc (lsb_bits 5 hdist) _ zs
                ∙ ap (λ t. lsb_bits 5 hdist ++ t)
                    (append_assoc (lsb_bits 4 hclen) _ zs
                      ∙ ap (λ t. lsb_bits 4 hclen ++ t) (append_assoc xs ys zs))))

-- The header's five fields and its list, read one after the other.
inflate_dynamic-header :
    (hlit hdist hclen : ℕ) (fields fb body : List ℕ)
    → hlit < 2 ^ 5
    → hdist < 2 ^ 5
    → hclen < 2 ^ 4
    → read_fields (hclen + 4) (fb ++ body) ≡ some (fields, body)
    → inflate_dynamic (header_bits hlit hdist hclen (fb ++ body)) ≡ read_body hlit hdist fields body
inflate_dynamic-header hlit hdist hclen fields fb body l d c reads =
    opened
    ∙ rw (read_lsb-lsb_bits 5 hlit (lsb_bits 5 hdist ++ (lsb_bits 4 hclen ++ (fb ++ body))) l) (
        rw (read_lsb-lsb_bits 5 hdist (lsb_bits 4 hclen ++ (fb ++ body)) d)
          (rw (read_lsb-lsb_bits 4 hclen (fb ++ body) c) (rw reads refl)))
  where
    fields₁ : List ℕ
    fields₁ = lsb_bits 5 hlit ++ (lsb_bits 5 hdist ++ (lsb_bits 4 hclen ++ (fb ++ body)))

    opened : inflate_dynamic (lsb_bits 3 0b101 ++ fields₁) ≡ (do
      (hlit, bits₃) ← read_lsb 5 fields₁
      (hdist, bits₄) ← read_lsb 5 bits₃
      (hclen, bits₅) ← read_lsb 4 bits₄
      (fields, bits₆) ← read_fields (hclen + 4) bits₅
      read_body hlit hdist fields bits₆)
    opened = unfold inflate_dynamic read_lsb lsb_bits in refl

module _ {f : Freqs} (litlen dist meta : List ℕ) (ok : Legible f (planned litlen dist meta)) where
  abbrev WritesHeader : BitWriter → Type 0
  WritesHeader w =
      (w' : BitWriter) × (write_header (planned litlen dist meta) w ≡ some w')
      × (bits : List ℕ) × Adds w bits w'
      × ((rest : List ℕ)
          → inflate_dynamic (bits ++ rest)
            ≡ read_items (shortened 257 litlen) (shortened 1 dist) (length rest) rest)

  -- The list's bits are read as the two codes' lengths.
  read_body-list :
      (lb rest : List ℕ)
      → read_lengths meta
          (length (listed_lengths litlen dist))
          (length (listed_lengths litlen dist))
          none
          (lb ++ rest)
        ≡ some (listed_lengths litlen dist, rest)
      → read_body
          (trim_to_min litlen 257 - 257)
          (trim_to_min dist 1 - 1)
          (map (λ s. get_or meta s 0) (take (hclen_loop meta 19) meta_order))
          (lb ++ rest)
        ≡ read_items (shortened 257 litlen) (shortened 1 dist) (length rest) rest
  read_body-list lb rest reads =
      read_body-lengths litlen dist _ meta (lb ++ rest) rest _ _
        (length-shortened 257 litlen (omega (arith, ok.block.litlen.enough)))
        (length-shortened 1 dist (omega (arith, ok.block.dist.enough)))
        (in_order-meta meta ok.block.meta.enough) reads

  pub write_header-WritesHeader : (w : BitWriter) → IsValid w → WritesHeader w
  unfolding write_header
  write_header-WritesHeader w v =
      let p : Plan = planned litlen dist meta in
      let small = listed_lengths-small litlen dist ok.block.litlen.small ok.block.dist.small in
      let again = expand-rle_encode_lengths (listed_lengths litlen dist) (below_16 _ small) in
      let few = length-expand p.rle none (listed_lengths litlen dist) again in
      let four = hclen_loop-enough meta 19 (omega arith) in
      let hclen : ℕ = p.hclen_count - 4 in
      let back : hclen + 4 ≡ length (take p.hclen_count meta_order) =
        omega (arith, length-meta_order p.hclen_count ok.block.hclen) in
      let w₁ : BitWriter = write_bits 0b101 3 w in
      let a₁ : Adds w (lsb_bits 3 0b101) w₁ = contents-write_bits 0b101 3 w v (omega arith) in
      let w₂ : BitWriter = write_bits p.hlit 5 w₁ in
      let a₂ : Adds w₁ (lsb_bits 5 p.hlit) w₂ =
        contents-write_bits p.hlit 5 w₁ a₁.1 (omega arith) in
      let w₃ : BitWriter = write_bits p.hdist 5 w₂ in
      let a₃ : Adds w₂ (lsb_bits 5 p.hdist) w₃ =
        contents-write_bits p.hdist 5 w₂ a₂.1 (omega arith) in
      let w₄ : BitWriter = write_bits hclen 4 w₃ in
      let a₄ : Adds w₃ (lsb_bits 4 hclen) w₄ = contents-write_bits hclen 4 w₃ a₃.1 (omega arith) in
      let (w₅, ran₅, fb, a₅, read₅) =
        write_meta_lens-WritesFields meta (take p.hclen_count meta_order) w₄ ok.block.meta.enough
          ok.block.meta.small (All-take (λ s. s < 19) p.hclen_count meta_order (omega arith))
          a₄.1 in
      let (w₆, ran₆, lb, a₆, read₆) =
        write_rle-WritesLengths meta ok.block.meta ok.meta_fits p.rle w₅ ok.block.extras
          ok.meta_used a₅.1 in
      (
        w₆,
        rw ran₅ ran₆,
        header_bits p.hlit p.hdist hclen (fb ++ lb),
        Adds-trans w w₁ w₆ _ _ a₁ (
            Adds-trans w₁ w₂ w₆ _ _ a₂ (
              Adds-trans w₂ w₃ w₆ _ _ a₃
                (Adds-trans w₃ w₄ w₆ _ _ a₄ (Adds-trans w₄ w₅ w₆ fb lb a₅ a₆)))),
        λ rest.
            ap inflate_dynamic (header_bits-append p.hlit p.hdist hclen fb lb rest)
            ∙ inflate_dynamic-header p.hlit p.hdist hclen _ fb (lb ++ rest) ok.block.hlit
                ok.block.hdist (omega (arith, ok.block.hclen))
                (ap (λ (n : ℕ). read_fields n (fb ++ (lb ++ rest))) back ∙ read₅ (lb ++ rest))
            ∙ read_body-list lb rest (read₆ _ none (listed_lengths litlen dist) rest again few),
      )
