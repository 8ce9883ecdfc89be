-- ===== src/Core/Tests.antt =====
-- Concrete inputs for the registry, the paths of entries, the pieces of an input and the members of a file.
use gpzip.Prelude.{
  ℕ, ◌<◌, inl, inr, replicate, true, false, ◌≡◌, refl, Result, ok, err, none, some, List, [], ◌∷◌,
  ◌++◌, All, length, take, drop, arith, map, ◌≤◌,
}
use gpzip.Core.Algorithm.{Algorithm, gzip, Level, Name, no_backend, can_compress}
use gpzip.Core.Backends.{
  Compressor, compresses, Backend, CpuBackend, cpu_supports, cpu_backend, lazy_gpu_backend,
  build_registry, gpu,
}
use gpzip.Core.Serves.{make_compressor, build_registry-Compresses, build_registry-no_adapter}
use gpzip.Core.Format.{starts_with, detect_format, to_lower}
use gpzip.Core.Detect.{endings, detect_format-endings}
use gpzip.Core.SafeJoin.{normal, cur_dir, parent_dir, safe_join, Joined, safe_join-Joined}
use gpzip.Lz77.{Token, reconstruct}
use gpzip.Lz77.Sample.{input, table, table-IsTable}
use gpzip.Deflate.Stream.{stream}
use gpzip.Deflate.TokenBits.{IsToken}
use gpzip.Deflate.InflateDynamic.{inflate_dynamic}
use gpzip.Core.EncodeOne.{encode_one, encode_one-reconstruct}
use gpzip.Core.Pieces.{gzip_wrap, gzip_chunk_fn, joined, Encoded, gzip_chunk_fn-Encoded}
use gpzip.Core.Members.{gpzip_header, parallel_decompress}
use gpzip.Core.MembersFound.{concat, parallel_decompress-concat, parallel_decompress-NoStart}
use gpzip.Core.Permits.{
  Shared, Phase, started, counted, probing, probed, acquiring, on_gpu, Reachable, begin, move,
  advance,
}
use gpzip.Core.PermitsHeld.{Bounded, Reachable-Bounded}

abbrev level_5 : Level
level_5 = record { level = 5 }

build_registry-Compresses_example :
    (r : List Backend) × (build_registry true gpu 1024 8 ≡ some r)
    × ((algo : Algorithm) (level : Level)
        → can_compress (cpu_supports algo) ≡ true
        → (c : Compressor) × (make_compressor r algo level ≡ ok c) × (compresses c ≡ algo))
build_registry-Compresses_example =
    build_registry-Compresses true gpu 1024 8 (λ e. refl) (omega arith) (omega arith)

build_registry-no_adapter_example :
    (r : List Backend) × (cpu_behind : CpuBackend) × (build_registry false gpu 1024 8 ≡ some r)
    × (r ≡ lazy_gpu_backend none ∷ (cpu_backend cpu_behind ∷ []))
    × (make_compressor r gzip level_5 ≡ err (no_backend gzip))
    × ((c : Compressor) × ((cpu_backend cpu_behind).compressor gzip level_5 ≡ ok c))
build_registry-no_adapter_example =
    build_registry-no_adapter 1024 8 level_5 (omega arith) (omega arith)

-- "a"
abbrev stem_a : Name
stem_a = 97 ∷ []

detect_format-endings_example :
    All
      (λ e.
        (name : Name) → map to_lower name ≡ stem_a ++ e.0 → detect_format (some name) ≡ some e.1)
      endings
detect_format-endings_example = detect_format-endings stem_a

-- The entry "./a/../b", from "out".
abbrev dest_out : List Name
dest_out = (111 ∷ 117 ∷ 116 ∷ []) ∷ []

safe_join-Joined_example :
    Joined dest_out
      (cur_dir ∷ normal stem_a ∷ parent_dir ∷ normal (98 ∷ []) ∷ [])
      (safe_join dest_out (cur_dir ∷ normal stem_a ∷ parent_dir ∷ normal (98 ∷ []) ∷ []))
safe_join-Joined_example =
    safe_join-Joined dest_out (cur_dir ∷ normal stem_a ∷ parent_dir ∷ normal (98 ∷ []) ∷ [])

abbrev five_bytes : List ℕ
five_bytes = 1 ∷ 2 ∷ 3 ∷ 4 ∷ 5 ∷ []

-- A member that holds its content as it is.
abbrev frame : List ℕ → Result ℕ (List ℕ)
frame bytes = ok (gpzip_header ++ bytes)

gzip_chunk_fn-Encoded_example :
    (pieces : List (List ℕ)) × (joined pieces ≡ five_bytes)
    × All (λ p. length p ≤ 2) pieces
    × Encoded frame pieces [] (gzip_chunk_fn frame 2 five_bytes)
gzip_chunk_fn-Encoded_example = gzip_chunk_fn-Encoded frame 2 five_bytes (omega arith)

-- The decoder of such a member, and that of two of them with one byte each.
abbrev unframe : List ℕ → Result ℕ (List ℕ)
unframe bytes = ok (drop 10 bytes)

abbrev unframe_two : List ℕ → Result ℕ (List ℕ)
unframe_two bytes = ok (take 1 (drop 10 bytes) ++ drop 21 bytes)

abbrev two_members : List (List ℕ)
two_members = (gpzip_header ++ (5 ∷ [])) ∷ (gpzip_header ++ (6 ∷ [])) ∷ []

abbrev two_outs : List (List ℕ)
two_outs = (5 ∷ []) ∷ (6 ∷ []) ∷ []

parallel_decompress-concat_example :
    parallel_decompress unframe unframe_two (concat two_members) ≡ ok (concat two_outs)
unfolding starts_with
parallel_decompress-concat_example =
    parallel_decompress-concat unframe unframe_two two_members two_outs
      ((5 ∷ [], refl, (refl, tt)), ((6 ∷ [], refl, (refl, tt)), tt)) (refl, (refl, tt)) refl

parallel_decompress-NoStart_example :
    parallel_decompress unframe unframe_two ((1 ∷ 2 ∷ []) ++ concat two_members)
    ≡ ok (concat two_outs)
unfolding starts_with
parallel_decompress-NoStart_example =
    parallel_decompress-NoStart unframe unframe_two (1 ∷ 2 ∷ []) (gpzip_header ++ (5 ∷ []))
      (gpzip_header ++ (6 ∷ [])) [] two_outs (refl, (refl, tt))
      ((5 ∷ [], refl, (refl, tt)), ((6 ∷ [], refl, (refl, tt)), tt)) (refl, (refl, tt))

-- Five calls with one permit, the last of which goes on to the GPU.
abbrev plain : List ℕ → List ℕ
plain bytes = bytes

abbrev marked : List ℕ → List ℕ
marked bytes = 0 ∷ bytes

abbrev chunk : List ℕ
chunk = 7 ∷ []

abbrev five_calls : List (List ℕ)
five_calls = chunk ∷ chunk ∷ chunk ∷ chunk ∷ chunk ∷ []

abbrev waiting : Phase (List ℕ)
waiting = started chunk

abbrev four_counted : List (Phase (List ℕ))
four_counted = counted 0 chunk ∷ counted 1 chunk ∷ counted 2 chunk ∷ counted 3 chunk ∷ []

abbrev taken : Shared
taken = record { chunk_counter = 5; permits = 0; gpu_fn_cell = some true }

-- The calls numbered from the first on.
all_counted :
    Reachable plain marked true 1 five_calls
      (record { chunk_counter = 5; permits = 1; gpu_fn_cell = none })
      (four_counted ++ (counted 4 chunk ∷ []))
unfolding advance
all_counted = move false _ four_counted waiting [] (
    move false _ (counted 0 chunk ∷ counted 1 chunk ∷ counted 2 chunk ∷ []) waiting (waiting ∷ []) (
      move false _ (counted 0 chunk ∷ counted 1 chunk ∷ []) waiting (waiting ∷ waiting ∷ []) (
        move false _ (counted 0 chunk ∷ []) waiting (waiting ∷ waiting ∷ waiting ∷ [])
          (move false _ [] waiting (waiting ∷ waiting ∷ waiting ∷ waiting ∷ []) begin))))

to_gpu : Reachable plain marked true 1 five_calls taken (four_counted ++ (on_gpu 4 chunk ∷ []))
unfolding advance
to_gpu = move false _ four_counted (acquiring 1 4 chunk) [] (
    move false _ four_counted (probed true 4 chunk) [] (
      move false _ four_counted (probing 4 chunk) []
        (move false _ four_counted (counted 4 chunk) [] all_counted)))

Reachable-Bounded_example :
    Bounded plain marked true 1 five_calls taken (four_counted ++ (on_gpu 4 chunk ∷ []))
Reachable-Bounded_example = Reachable-Bounded plain marked true 1 to_gpu

-- "aaaa" has its table, the emission on the GPU fails, and the checksum is the length.
encode_one-reconstruct_example :
    (deflate : List ℕ) × (tokens : List Token) × (pad : ℕ) × (encode_one {E = ℕ}
        (λ _. table)
        (some (λ _. err 7))
        length
        input
      ≡ some (gzip_wrap length deflate input))
    × (inflate_dynamic (stream deflate) ≡ some (tokens, replicate pad 0))
    × (pad < 8)
    × (reconstruct tokens ≡ some input)
encode_one-reconstruct_example =
    encode_one-reconstruct (λ _. table) (some (λ _. err 7)) length input table-IsTable said
      (omega arith) (λ walked. (7, refl))
  where
    said : All IsToken table
    said = (
      inl (refl, omega arith),
      (inr (omega arith), (inl (refl, omega arith), (inl (refl, omega arith), tt))),
    )
