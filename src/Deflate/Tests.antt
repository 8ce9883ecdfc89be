-- ===== src/Deflate/Tests.antt =====
-- Runs of the writers and encoders of deflate.rs, and the theorems at concrete inputs.
use gpzip.Prelude.{
  ℕ, ◌<◌, ◌≤◌, ◌^◌, length, get_or, ◌>>=◌, Option, ◌≡◌, refl, inl, inr, none, some, List, [], ◌∷◌,
  ◌++◌, All, replicate, arith,
}
use gpzip.Lz77.{Token, literal, back_ref}
use gpzip.Huffman.Tree.{
  before, push, push_leaves, make_room, add_node, merge_loop, walk, no_children, leaf_depths,
  standard_huffman,
}
use gpzip.Huffman.Canonical.{maximum, canonical_codes}
use gpzip.Huffman.Lengths.{used_symbols, ceil_log2, limit_loop, lengths_for, try_build_code_lengths}
use gpzip.Deflate.Dynamic.Plan.{
  Freqs, Plan, bump, count_used, first_used, fix_dist, fix_litlen, count_codes, listed_lengths,
  plan_lengths, plan_block,
}
use gpzip.Deflate.Dynamic.PlanBounds.{IsFreqs, FitsBlock, plan_block-FitsBlock}
use gpzip.Deflate.Trim.{trim_loop, trim_to_min, IsTrimmed, trim_to_min-IsTrimmed}
use gpzip.Deflate.Rle.{
  entry, run_length, repeat_loop, zero_run, value_run, rle_loop, rle_encode_lengths,
}
use gpzip.Deflate.RleReader.{expand}
use gpzip.Deflate.RleRoundTrip.{expand-rle_encode_lengths}
use gpzip.Deflate.Stream.{stream, lsb_bits}
use gpzip.Deflate.Mirror.{msb_bits}
use gpzip.Deflate.Accum.{BitWriter, new, contents, IsValid}
use gpzip.Deflate.BitWriter.{
  write_bits, write_huffman, finish, contents-write_bits, contents-write_huffman,
}
use gpzip.Deflate.VecBitWriter
use gpzip.Deflate.VecBitWriter.{contents-write_bits_u64, stream-finish_u64}
use gpzip.Deflate.Codes.{length_code, distance_code}
use gpzip.Deflate.Fixed.{
  write_extra, write_litlen, write_token, write_tokens, write_fixed_block, encode_fixed_block,
}
use gpzip.Deflate.Codes.{fixed_litlen_code, fixed_dist_code}
use gpzip.Deflate.Inflate.{length_base, length_extra, distance_base, distance_extra, inflate_fixed}
use gpzip.Deflate.Rows.{IsCode, length_code-IsCode, distance_code-IsCode}
use gpzip.Deflate.TokenBits.{IsToken}
use gpzip.Deflate.FixedRoundTrip.{inflate_fixed-encode_fixed_block}
use gpzip.Deflate.FixedFast.{write_fixed_block_fast}
use gpzip.Deflate.InflateDynamic.{read_symbol, inflate_dynamic}
use gpzip.Deflate.ReadCode.{read_symbol-canonical_codes}
use gpzip.Deflate.Dynamic.RoundTrip.{inflate_dynamic-encode_block}
use gpzip.Deflate.Dynamic.Reference.{encode_block}
use gpzip.Deflate.Dynamic.Fast.{encode_block_fast}
use gpzip.Deflate.Dynamic.Equal.{encode_block_fast-encode_block}
use gpzip.Deflate.FixedFastEq.{write_fixed_block_fast-encode_fixed_block}

-- `cargo test` of the table: 258 has its own row, 227 to 257 share one.
length_code_257 : length_code 257 ≡ (284, 5, 30)
unfolding length_code
length_code_257 = refl

length_code_258 : length_code 258 ≡ (285, 0, 0)
unfolding length_code
length_code_258 = refl

abbrev tokens : List Token
tokens = literal 97 ∷ back_ref 258 1 ∷ back_ref 13 200 ∷ []

encode_tokens : encode_fixed_block tokens ≡ some (75 ∷ 28 ∷ 5 ∷ 40 ∷ 254 ∷ 0 ∷ 0 ∷ [])
unfolding encode_fixed_block write_fixed_block write_tokens write_token write_litlen write_extra
    write_bits write_huffman finish fixed_litlen_code fixed_dist_code length_code distance_code
encode_tokens = refl

-- Three bits wait in the accumulator.
abbrev half_full : BitWriter
half_full = record { out = 7 ∷ []; accum = 5; nbits = 3 }

half_full-IsValid : IsValid half_full
half_full-IsValid = omega arith

contents-write_bits_example :
    (contents (write_bits 0x1ff 8 half_full) ≡ contents half_full ++ lsb_bits 8 0x1ff)
    × IsValid (write_bits 0x1ff 8 half_full)
contents-write_bits_example = contents-write_bits 0x1ff 8 half_full half_full-IsValid (omega arith)

contents-write_huffman_example :
    (contents (write_huffman 6 3 half_full) ≡ contents half_full ++ msb_bits 3 6)
    × IsValid (write_huffman 6 3 half_full)
contents-write_huffman_example =
    contents-write_huffman 6 3 half_full half_full-IsValid (omega arith)

contents-write_bits_u64_example :
    (contents (VecBitWriter.write_bits 0xff 9 half_full) ≡ contents half_full ++ lsb_bits 9 0xff)
    × IsValid (VecBitWriter.write_bits 0xff 9 half_full)
contents-write_bits_u64_example =
    contents-write_bits_u64 0xff 9 half_full half_full-IsValid (omega arith) (omega arith)

length_code-IsCode_example : IsCode length_base length_extra 257 285 257 (length_code 257)
length_code-IsCode_example = length_code-IsCode 257 (omega arith) (omega arith)

distance_code-IsCode_example : IsCode distance_base distance_extra 0 29 300 (distance_code 300)
distance_code-IsCode_example = distance_code-IsCode 300 (omega arith) (omega arith)

tokens-IsToken : All IsToken tokens
tokens-IsToken = (inl (refl, omega arith), (inr (omega arith), (inr (omega arith), tt)))

inflate_fixed-encode_fixed_block_example :
    (bytes : List ℕ) × (encode_fixed_block tokens ≡ some bytes)
    × (pad : ℕ) × (inflate_fixed (stream bytes) ≡ some (tokens, replicate pad 0))
    × (pad < 8)
inflate_fixed-encode_fixed_block_example = inflate_fixed-encode_fixed_block tokens tokens-IsToken

-- Fourteen zeros, a value five times, and two zeros.
abbrev lengths : List ℕ
lengths = replicate 14 0 ++ (7 ∷ 7 ∷ 7 ∷ 7 ∷ 7 ∷ 0 ∷ 0 ∷ [])

rle_lengths :
    rle_encode_lengths lengths
    ≡ entry 18 7 3 ∷ entry 7 0 0 ∷ entry 16 2 1 ∷ entry 0 0 0 ∷ entry 0 0 0 ∷ []
unfolding rle_encode_lengths rle_loop run_length zero_run value_run repeat_loop
rle_lengths = refl

lengths_small : All (λ l. l < 16) lengths
lengths_small = ground arith

expand-rle_encode_lengths_example : expand (rle_encode_lengths lengths) none ≡ some lengths
expand-rle_encode_lengths_example = expand-rle_encode_lengths lengths lengths_small

trim_to_min-IsTrimmed_example : IsTrimmed 4 lengths 21 (trim_to_min lengths 4)
trim_to_min-IsTrimmed_example = trim_to_min-IsTrimmed lengths 4 (omega arith)

inflate_dynamic-encode_block_example :
    (bytes : List ℕ) × (encode_block tokens ≡ some bytes)
    × (pad : ℕ) × (inflate_dynamic (stream bytes) ≡ some (tokens, replicate pad 0))
    × (pad < 8)
inflate_dynamic-encode_block_example =
    inflate_dynamic-encode_block tokens tokens-IsToken (omega arith)

-- Symbol 2 has a code, and two bits of something else follow.
abbrev freq : List ℕ
freq = 100 ∷ 50 ∷ 25 ∷ 0 ∷ 5 ∷ []

read_symbol-canonical_codes_example :
    (lens : List ℕ) × (try_build_code_lengths freq 15 ≡ some (some lens))
    × (read_symbol lens
          (msb_bits (get_or lens 2 0) (get_or (canonical_codes lens) 2 0) ++ (1 ∷ 0 ∷ []))
        ≡ some (2, 1 ∷ 0 ∷ []))
unfolding used_symbols
read_symbol-canonical_codes_example =
    read_symbol-canonical_codes freq 15 2 (1 ∷ 0 ∷ []) (omega arith) (omega arith) (omega arith)
      (omega arith) few (omega arith)
  where
    few : length (used_symbols 0 freq) ≤ 2 ^ 15
    few = omega arith

write_fixed_block_fast-encode_fixed_block_example :
    (do w ← write_fixed_block_fast tokens new; some (VecBitWriter.finish w))
    ≡ encode_fixed_block tokens
write_fixed_block_fast-encode_fixed_block_example =
    write_fixed_block_fast-encode_fixed_block tokens tokens-IsToken

encode_block_fast-encode_block_example :
    (bytes : List ℕ) × (encode_block tokens ≡ some bytes) × (encode_block_fast tokens ≡ some bytes)
encode_block_fast-encode_block_example = encode_block_fast-encode_block tokens tokens-IsToken

-- The end of the block and nothing else.
abbrev end_only : Freqs
end_only = record {
  litlen_freq = replicate 256 0 ++ (1 ∷ replicate 29 0);
  dist_freq = replicate 30 0;
}

end_only-IsFreqs : IsFreqs end_only
end_only-IsFreqs = (omega arith, omega arith)

abbrev plan_or : Plan → Option (Option Plan) → Plan
plan_or p none = p
plan_or p (some none) = p
plan_or p (some (some q)) = q

abbrev no_plan : Plan
no_plan = record {
  litlen_lens = [];
  dist_lens = [];
  litlen_codes = [];
  dist_codes = [];
  hlit = 0;
  hdist = 0;
  rle = [];
  meta_lens = [];
  meta_codes = [];
  hclen_count = 0;
}

abbrev end_plan : Plan
end_plan = plan_or no_plan (plan_block rle_encode_lengths end_only)

end_planned : plan_block rle_encode_lengths end_only ≡ some (some end_plan)
unfolding plan_block plan_lengths listed_lengths fix_litlen fix_dist count_used first_used
    count_codes bump trim_to_min trim_loop rle_encode_lengths rle_loop run_length zero_run value_run
    repeat_loop try_build_code_lengths lengths_for used_symbols ceil_log2 limit_loop
    standard_huffman leaf_depths merge_loop push_leaves push before add_node make_room no_children
    walk maximum
end_planned = refl

plan_block-FitsBlock_example : FitsBlock end_plan
plan_block-FitsBlock_example = plan_block-FitsBlock end_only end_plan end_only-IsFreqs end_planned
