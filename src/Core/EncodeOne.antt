-- ===== src/Core/EncodeOne.antt =====
-- `encode_one` of gpu.rs: a chunk's matches, its tokens, its DEFLATE block and its gzip member.
use gpzip.Prelude.{
  ℕ, ◌+◌, ◌^◌, ◌<◌, ◌≡◌, refl, ap, ◌∙◌, inl, Option, none, some, ◌>>=◌, Result, ok, err, List, All,
  length, replicate, arith,
}
use gpzip.Lz77.{Token, reconstruct, greedy_walk}
use gpzip.Lz77.Walk.{IsTable, reconstruct-greedy_walk}
use gpzip.Lz77.Chosen.{greedy_walk_chosen}
use gpzip.Deflate.Stream.{stream}
use gpzip.Deflate.TokenBits.{IsToken}
use gpzip.Deflate.InflateDynamic.{inflate_dynamic}
use gpzip.Deflate.Dynamic.Fast.{encode_block_fast}
use gpzip.Deflate.Dynamic.Equal.{encode_block_fast-encode_block}
use gpzip.Deflate.Dynamic.RoundTrip.{inflate_dynamic-encode_block}
use gpzip.Core.Pieces.{gzip_wrap}

module _ {E : Type 0} where
  -- `submit` is the batcher's, and `huffman_emit` the emission on the GPU where it is asked for, whose
  -- error makes the host encode the tokens. `none` is a panic.
  unfoldable pub deflate_of : Option (List Token → Result E (List ℕ)) → List Token → Option (List ℕ)
  deflate_of none walked = encode_block_fast walked
  deflate_of (some emit) walked = elim (emit walked) [
    | ok deflate ↦ some deflate
    | err e ↦ encode_block_fast walked
  ]

  unfoldable pub encode_one :
      (List ℕ → List Token)
      → Option (List Token → Result E (List ℕ))
      → (List ℕ → ℕ)
      → List ℕ
      → Option (List ℕ)
  unfolding deflate_of
  encode_one submit huffman_emit crc32 bytes = do
    walked ← greedy_walk (submit bytes) bytes
    deflate ← deflate_of huffman_emit walked
    some (gzip_wrap crc32 deflate bytes)

  -- The host encodes: the GPU is not asked to, or it fails.
  abbrev pub OnHost : Option (List Token → Result E (List ℕ)) → Type 0
  OnHost none = Unit {0}
  OnHost (some emit) = (walked : List Token) → (e : E) × (emit walked ≡ err e)

  deflate_of-OnHost :
      (huffman_emit : Option (List Token → Result E (List ℕ))) (walked : List Token)
      → OnHost huffman_emit
      → deflate_of huffman_emit walked ≡ encode_block_fast walked
  unfolding deflate_of
  deflate_of-OnHost none walked h = refl
  deflate_of-OnHost (some emit) walked h = let (e, failed) = h walked in rw failed refl

  -- Where the batcher answers a chunk of fewer than 2^32 - 1 bytes with a table of true matches that
  -- DEFLATE can say, and the host encodes, `encode_one` returns the gzip member around a DEFLATE stream
  -- that a reader of RFC 1951 reads as tokens, with fewer than eight padding zeros left over, and the
  -- tokens stand for exactly the chunk.
  pub encode_one-reconstruct :
      (submit : List ℕ → List Token) (huffman_emit : Option (List Token → Result E (List ℕ)))
      (crc32 : List ℕ → ℕ) (bytes : List ℕ)
      → IsTable (submit bytes) bytes
      → All IsToken (submit bytes)
      → length bytes + 1 < 2 ^ 32
      → OnHost huffman_emit
      → (deflate : List ℕ) × (tokens : List Token) × (pad : ℕ) × (encode_one submit huffman_emit
            crc32 bytes
          ≡ some (gzip_wrap crc32 deflate bytes))
        × (inflate_dynamic (stream deflate) ≡ some (tokens, replicate pad 0))
        × (pad < 8)
        × (reconstruct tokens ≡ some bytes)
  unfolding encode_one
  encode_one-reconstruct submit huffman_emit crc32 bytes table said short host =
      let (tokens, walked, stands) = reconstruct-greedy_walk (submit bytes) bytes table in
      let (all, few) =
        greedy_walk_chosen IsToken (submit bytes) bytes said
          (λ p b found. inl (refl, table.bytes p b found)) tokens walked in
      let (deflate, ran, pad, reads, small) =
        inflate_dynamic-encode_block tokens all (omega (arith, few, table.same_length, short)) in
      let (fast, ran', ran_fast) = encode_block_fast-encode_block tokens all in
      let same : fast ≡ deflate = cc in
      let encoded : deflate_of huffman_emit tokens ≡ some deflate =
        deflate_of-OnHost huffman_emit tokens host ∙ ran_fast ∙ ap (λ (d : List ℕ). some d) same in
      (deflate, tokens, pad, rw walked (rw encoded refl), reads, small, stands)
