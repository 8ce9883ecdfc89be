-- ===== src/Deflate/InflateDynamic.antt =====
-- A reader of dynamic-Huffman DEFLATE blocks after RFC 1951, sections 3.2.2, 3.2.5 and 3.2.7, written
-- from the text and not from the encoders: the description that they are held to.
use gpzip.Prelude.{
  ℕ, zero, suc, ◌+◌, ◌-◌, ◌*◌, ltb, leb, ◌==◌, ◌&&◌, if◌then◌else◌, Option, none, some, ◌>>=◌, List,
  [], ◌∷◌, ◌++◌, map, length, get_or, take, drop, replicate,
}
use gpzip.Lz77.{Token, literal, back_ref}
use gpzip.Huffman.Order.{count}
use gpzip.Deflate.Rle.{entry}
use gpzip.Deflate.RleReader.{repeat_bits, meaning}
use gpzip.Deflate.Inflate.{read_lsb, length_base, length_extra, distance_base, distance_extra}

-- Of the symbols from `i` on, the one that has `k` others with codes of `l` bits before it.
unfoldable pub nth : ℕ → ℕ → ℕ → List ℕ → Option ℕ
nth l k i [] = none
nth l k i (x ∷ xs) =
    let later = nth l (if x == l then k - 1 else k) (i + 1) xs in
    if (x == l) && (k == 0) then some i else later

-- A code whose first bits are `code`, where codes of `l` bits begin at `first`, and shorter ones do not
-- fit. A code has 15 bits at most.
unfoldable pub read_code : List ℕ → ℕ → ℕ → ℕ → ℕ → List ℕ → Option (ℕ × List ℕ)
unfolding count
read_code lens zero l first code bits = none
read_code lens (suc left) l first code [] = none
read_code lens (suc left) l first code (b ∷ bits) =
    let code' = code * 2 + b in
    let longer = read_code lens left (l + 1) ((first + count l lens) * 2) code' bits in
    if leb first code' && ltb code' (first + count l lens)
    then (do s ← nth l (code' - first) 0 lens; some (s, bits))
    else longer

unfoldable pub read_symbol : List ℕ → List ℕ → Option (ℕ × List ℕ)
unfolding read_code nth
read_symbol lens bits = read_code lens 15 1 0 0 bits

-- `n` fields of three bits.
unfoldable pub read_fields : ℕ → List ℕ → Option (List ℕ × List ℕ)
unfolding read_lsb
read_fields zero bits = some ([], bits)
read_fields (suc n) bits = do
  (v, bits₁) ← read_lsb 3 bits
  (vs, rest) ← read_fields n bits₁
  some (v ∷ vs, rest)

-- Where each symbol stands in the order 16, 17, 18, 0, 8, 7, 9, 6, 10, 5, 11, 4, 12, 3, 13, 2, 14, 1, 15.
abbrev pub positions : List ℕ
positions = 3 ∷ 17 ∷ 15 ∷ 13 ∷ 11 ∷ 9 ∷ 7 ∷ 5 ∷ 4 ∷ 6 ∷ 8 ∷ 10 ∷ 12 ∷ 14 ∷ 16 ∷ 18 ∷ 0 ∷ 1 ∷ 2 ∷ []

unfoldable pub in_order : List ℕ → List ℕ
in_order fields = map (λ p. get_or fields p 0) positions

-- `n` code lengths behind the length `prev`. Every symbol stands for one at least.
unfoldable pub read_lengths : List ℕ → ℕ → ℕ → Option ℕ → List ℕ → Option (List ℕ × List ℕ)
read_lengths meta zero n prev bits = if n == 0 then some ([], bits) else none
read_lengths meta (suc fuel) n prev bits =
    let more = (do
      (s, bits₁) ← read_symbol meta bits
      (v, bits₂) ← read_lsb (repeat_bits s) bits₁
      (m, l) ← meaning (entry s (repeat_bits s) v) prev
      let later = read_lengths meta fuel (n - m) (some l) bits₂
      if ltb n m then none else (later >>= λ r. some (replicate m l ++ r.0, r.1))) in
    if n == 0 then some ([], bits) else more

-- A back-reference whose length symbol is read.
unfoldable pub read_reference : List ℕ → ℕ → List ℕ → Option (Token × List ℕ)
read_reference dist s bits = do
  (length, bits₁) ← read_lsb (length_extra s) bits
  (d, bits₂) ← read_symbol dist bits₁
  (distance, bits₃) ← read_lsb (distance_extra d) bits₂
  if ltb 29 d
      then none
      else some (back_ref (length_base s + length) (distance_base d + distance), bits₃)

-- The next token, or `none` in its place at the end of the block.
unfoldable pub read_item : List ℕ → List ℕ → List ℕ → Option (Option Token × List ℕ)
unfolding read_reference
read_item litlen dist bits = do
  (s, rest) ← read_symbol litlen bits
  if ltb s 256
      then some (some (literal s), rest)
      else if s == 256
      then some (none, rest)
      else if ltb 285 s
      then none
      else read_reference dist s rest >>= λ r. some (some r.0, r.1)

-- The tokens of a block, and the bits behind it.
unfoldable pub read_items : List ℕ → List ℕ → ℕ → List ℕ → Option (List Token × List ℕ)
unfolding read_item
read_items litlen dist zero bits = none
read_items litlen dist (suc fuel) bits = elim (read_item litlen dist bits) [
  | none ↦ none
  | some (none, rest) ↦ some ([], rest)
  | some (some t, rest) ↦ elim (read_items litlen dist fuel rest) [
    | none ↦ none
    | some (ts, rest') ↦ some (t ∷ ts, rest')
  ]
]

-- The code lengths and then the tokens. Every token takes a bit at least.
unfoldable pub read_body : ℕ → ℕ → List ℕ → List ℕ → Option (List Token × List ℕ)
unfolding read_lengths read_items in_order
read_body hlit hdist fields bits = do
  let n = hlit + 257 + (hdist + 1)
  (lens, rest) ← read_lengths (in_order fields) n n none bits
  read_items (take (hlit + 257) lens) (drop (hlit + 257) lens) (length rest) rest

-- A last block (BFINAL = 1) with dynamic codes (BTYPE = 10).
unfoldable pub inflate_dynamic : List ℕ → Option (List Token × List ℕ)
unfolding read_fields read_body
inflate_dynamic bits = do
  (final, bits₁) ← read_lsb 1 bits
  (kind, bits₂) ← read_lsb 2 bits₁
  (hlit, bits₃) ← read_lsb 5 bits₂
  (hdist, bits₄) ← read_lsb 5 bits₃
  (hclen, bits₅) ← read_lsb 4 bits₄
  (fields, bits₆) ← read_fields (hclen + 4) bits₅
  if (final == 1) && (kind == 2) then read_body hlit hdist fields bits₆ else none
