-- ===== src/Deflate/Dynamic/RoundTrip.antt =====
-- Blocks with dynamic Huffman codes read back as the tokens that were written.
use gpzip.Prelude.{
  ℕ, suc, ◌+◌, ◌-◌, ◌^◌, ◌<◌, ◌≡◌, refl, ap, sym, ◌∙◌, subst, some, List, [], ◌++◌, All, replicate,
  append_assoc, append-nil, length, length-append, get_or, arith,
}
use gpzip.Lz77.{Token}
use gpzip.Deflate.Stream.{stream}
use gpzip.Deflate.Accum.{BitWriter, IsValid, new}
use gpzip.Deflate.BitWriter.{finish, stream-finish}
use gpzip.Deflate.FixedRoundTrip.{new-IsValid, contents-new}
use gpzip.Deflate.TokenBits.{IsToken, Adds, Adds-trans}
use gpzip.Deflate.InflateDynamic.{read_items, inflate_dynamic}
use gpzip.Deflate.Dynamic.Plan.{Freqs, Plan}
use gpzip.Deflate.Dynamic.PlanBounds.{planned}
use gpzip.Deflate.Dynamic.Reference.{write_planned, try_write_dynamic_block, encode_block}
use gpzip.Deflate.Dynamic.Total.{Counters, frequencies_total}
use gpzip.Deflate.Dynamic.Counts.{Has, Has-Grows, frequencies_counts}
use gpzip.Deflate.Dynamic.Legible.{Legible, plan_block-Legible}
use gpzip.Deflate.Dynamic.Trimmed.{read_symbol-trim_to_min}
use gpzip.Deflate.Dynamic.WrittenCode.{WritesCode, write_code-WritesCode}
use gpzip.Deflate.Dynamic.WrittenHeader.{shortened, write_header-WritesHeader}
use gpzip.Deflate.Dynamic.WrittenTokens.{write_dynamic_tokens-WritesItems, read_items-end}

-- Writing the block adds bits that are read as the tokens.
abbrev WritesBlock : List Token → BitWriter → Plan → Type 0
WritesBlock tokens w p =
    (w' : BitWriter) × (write_planned p tokens w ≡ some w')
    × (bits : List ℕ) × Adds w bits w'
    × ((rest : List ℕ) → inflate_dynamic (bits ++ rest) ≡ some (tokens, rest))

module _ {f : Freqs} (litlen dist meta : List ℕ) (ok : Legible f (planned litlen dist meta)) where
  litlen_code :
      (s : ℕ) (w : BitWriter)
      → 0 < get_or litlen s 0
      → IsValid w
      → WritesCode litlen (shortened 257 litlen) s w
  litlen_code s w pos v =
      write_code-WritesCode 15 litlen (shortened 257 litlen) s w (omega arith) ok.block.litlen.small
        (omega (arith, ok.block.litlen.enough)) ok.litlen_fits
        (λ bits. read_symbol-trim_to_min litlen 257 bits (omega (arith, ok.block.litlen.enough)))
        pos v

  dist_code :
      (s : ℕ) (w : BitWriter)
      → 0 < get_or dist s 0
      → IsValid w
      → WritesCode dist (shortened 1 dist) s w
  dist_code s w pos v =
      write_code-WritesCode 15 dist (shortened 1 dist) s w (omega arith) ok.block.dist.small
        (omega (arith, ok.block.dist.enough)) ok.dist_fits
        (λ bits. read_symbol-trim_to_min dist 1 bits (omega (arith, ok.block.dist.enough))) pos v

  write_planned-WritesBlock :
      (tokens : List Token) (w : BitWriter)
      → All IsToken tokens
      → All (Has litlen dist) tokens
      → 0 < get_or litlen 256 0
      → IsValid w
      → WritesBlock tokens w (planned litlen dist meta)
  unfolding write_planned
  write_planned-WritesBlock tokens w h has ending v =
      let (w₁, ran₁, hb, adds₁, reads₁) = write_header-WritesHeader litlen dist meta ok w v in
      let (w₂, ran₂, tb, adds₂, long, reads₂) =
        write_dynamic_tokens-WritesItems litlen dist meta (shortened 257 litlen) (shortened 1 dist)
          litlen_code dist_code tokens w₁ h has adds₁.1 in
      let (w₃, ran₃, eob, adds₃, some_bits, ends) = litlen_code 256 w₂ ending adds₂.1 in
      (
        w₃,
        rw ran₁ (rw ran₂ ran₃),
        hb ++ (tb ++ eob),
        Adds-trans w w₁ w₃ hb (tb ++ eob) adds₁ (Adds-trans w₁ w₂ w₃ tb eob adds₂ adds₃),
        λ rest.
            let body : List ℕ = tb ++ (eob ++ rest) in
            let left : ℕ = length body - length tokens - 1 in
            let fuel : length body ≡ length tokens + suc left =
              omega (arith, length-append tb (eob ++ rest), length-append eob rest) in
            ap inflate_dynamic
              (append_assoc hb (tb ++ eob) rest ∙ ap (λ t. hb ++ t) (append_assoc tb eob rest))
            ∙ reads₁ body
            ∙ ap (λ (n : ℕ). read_items (shortened 257 litlen) (shortened 1 dist) n body) fuel
            ∙ reads₂ (suc left) [] (eob ++ rest) rest (
                read_items-end litlen dist meta (shortened 257 litlen) (shortened 1 dist)
                  litlen_code dist_code left (eob ++ rest) rest (ends rest))
            ∙ ap (λ us. some (us, rest)) (append-nil tokens),
      )

Legible-WritesBlock :
    (f : Freqs) (p : Plan) (tokens : List Token) (w : BitWriter)
    → Legible f p
    → All IsToken tokens
    → All (Has f.litlen_freq f.dist_freq) tokens
    → 0 < get_or f.litlen_freq 256 0
    → IsValid w
    → WritesBlock tokens w p
Legible-WritesBlock f p tokens w ok h has ending v =
    subst (WritesBlock tokens w) (sym ok.is_planned) (
      write_planned-WritesBlock p.litlen_lens p.dist_lens p.meta_lens
        (subst (Legible f) ok.is_planned ok) tokens w h
        (Has-Grows f.litlen_freq p.litlen_lens f.dist_freq p.dist_lens tokens ok.litlen_used
          ok.dist_used has)
        (ok.litlen_used 256 ending) v)

try_write_dynamic_block-reads :
    (tokens : List Token) (w : BitWriter)
    → All IsToken tokens
    → length tokens + 1 < 2 ^ 32
    → IsValid w
    → (w' : BitWriter) × (try_write_dynamic_block tokens w ≡ some (some w'))
      × (bits : List ℕ) × Adds w bits w'
      × ((rest : List ℕ) → inflate_dynamic (bits ++ rest) ≡ some (tokens, rest))
unfolding try_write_dynamic_block
try_write_dynamic_block-reads tokens w h room v =
    let (f, counted, has, ending) = frequencies_counts tokens h room in
    let (f', counted', cl, cd) = frequencies_total tokens h in
    let same : f' ≡ f = cc in
    let (p, made, ok) =
      plan_block-Legible f (subst (λ g. Counters 286 g.litlen_freq) same cl)
        (subst (λ g. Counters 30 g.dist_freq) same cd) ending in
    let (w', ran, bits, adds, reads) = Legible-WritesBlock f p tokens w ok h has ending v in
    (w', rw (counted, made, ran) refl, bits, adds, reads)

-- Every list of fewer than 2^32 - 1 tokens that DEFLATE can say is written as one block with dynamic
-- codes, without a panic, and the reader of RFC 1951 gives back exactly those tokens from the bytes,
-- with fewer than eight padding zeros left over.
pub inflate_dynamic-encode_block :
    (tokens : List Token)
    → All IsToken tokens
    → length tokens + 1 < 2 ^ 32
    → (bytes : List ℕ) × (encode_block tokens ≡ some bytes)
      × (pad : ℕ) × (inflate_dynamic (stream bytes) ≡ some (tokens, replicate pad 0))
      × (pad < 8)
unfolding encode_block
inflate_dynamic-encode_block tokens h room =
    let (w, ran, bits, (held, valid), reads) =
      try_write_dynamic_block-reads tokens new h room new-IsValid in
    let (pad, filled, small) = stream-finish w valid in
    let whole : stream (finish w) ≡ bits ++ replicate pad 0 =
      filled ∙ ap (λ t. t ++ replicate pad 0) (held ∙ ap (λ t. t ++ bits) contents-new) in
    (finish w, rw ran refl, pad, ap inflate_dynamic whole ∙ reads (replicate pad 0), small)
