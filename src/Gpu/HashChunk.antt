-- ===== src/Gpu/HashChunk.antt =====
-- One chunk through the hash match finder: a true match for each place, whatever the buffers held before
-- and in whatever order the device runs the invocations.
use gpzip.Prelude.{
  ℕ, zero, suc, ◌+◌, ◌-◌, ◌*◌, ◌%◌, ◌^◌, ◌≤◌, ◌<◌, ◌≡◌, refl, ap, ◌∙◌, leb, true, Option, some,
  List, [], ◌∷◌, length, get_elem?, take, drop, map, All, arith, length-append, length-take,
  length-drop, length-map, get_elem?-take, take-append, take_all,
}
use gpzip.Lz77.{Token, unpack_token, unpack_tokens}
use gpzip.Lz77.Walk.{IsTable}
use gpzip.Gpu.Buffer.{words, pad_to_u32, dispatch, Runs, invocations}
use gpzip.Gpu.Bytes.{IsByte, dispatch-value, length-dispatch}
use gpzip.Gpu.Extend.{words-Holds, Holds, pointwise-IsTable}
use gpzip.Gpu.Hash.{Params, Table, build_all, lookup}
use gpzip.Gpu.HashMatch.{lookup-IsMatch}
use gpzip.Gpu.HashHost.{
  BufferSet, hash_buckets, segments, params_for, write_front, reset, run_chunk,
}

-- A chunk has a byte. An empty one has an empty range to map.
abbrev pub NonEmpty : List ℕ → Type 0
NonEmpty input = 0 < length input

-- The buffers of a set are as long as its capacity says.
abbrev pub Sized : BufferSet → Type 0
Sized s = (length s.tokens ≡ s.capacity_bytes) × (length s.staging ≡ s.capacity_bytes)

-- A chunk of bytes, of at most 512 KiB.
abbrev pub IsChunk : List ℕ → Type 0
IsChunk input = All IsByte input × (length input ≤ 2 ^ 19)

get_elem?-map :
    {A B : Type 0} (f : A → B) (xs : List A) (i : ℕ) (a : A)
    → get_elem? xs i ≡ some a
    → get_elem? (map f xs) i ≡ some (f a)
get_elem?-map f [] i a e = cc
get_elem?-map f (x ∷ xs) zero a e = cc
get_elem?-map f (x ∷ xs) (suc i) a e = get_elem?-map f xs i a e

take-write_front :
    {A : Type 0} (n : ℕ) (xs buffer : List A) → n ≡ length xs → take n (write_front xs buffer) ≡ xs
take-write_front n xs buffer e =
    take-append n xs (drop (length xs) buffer) (omega arith) ∙ take_all n xs (omega arith)

-- What comes of the chunk: a set of the same size, with a table of the input to be read from it.
abbrev pub Finds : List ℕ → BufferSet → Option BufferSet → Type 0
Finds input s r =
    (done : BufferSet) × (r ≡ some done)
    × Sized done
    × (done.capacity_bytes ≡ s.capacity_bytes)
    × IsTable (unpack_tokens (take (length input % 2 ^ 32) done.staging)) input

module _ (order : List ℕ × List ℕ) (input : List ℕ) (window : ℕ) (s : BufferSet)
    (chunk : IsChunk input) (near : window < 2 ^ 16)
    (runs : Runs (invocations (length input)) order.1) (sized : Sized s)
    (room : length input ≤ s.capacity_bytes) where
  abbrev params : Params
  params = params_for (length input) (segments (length input)) window

  abbrev input_buf : List ℕ
  input_buf = write_front (words (pad_to_u32 input)) s.input

  reads : Holds input_buf input
  reads = words-Holds input (drop (length (words (pad_to_u32 input))) s.input) chunk.0

  module _ (tables : Table × Table) where
    abbrev tokens : List ℕ
    tokens = dispatch (length input) (lookup input_buf params tables) order.1 s.tokens

    length-tokens : length tokens ≡ s.capacity_bytes
    length-tokens =
        length-dispatch (length input) (lookup input_buf params tables) order.1 s.tokens ∙ sized.0

    abbrev value : ℕ → Token
    value p = unpack_token (lookup input_buf params tables p)

    at :
        (p : ℕ)
        → p < length input
        → get_elem? (map unpack_token (take (length input) tokens)) p ≡ some (value p)
    at p h = get_elem?-map unpack_token (take (length input) tokens) p _ (
        get_elem?-take (length input) p tokens h
        ∙ dispatch-value (length input) (lookup input_buf params tables) order.1
            (invocations (length input)) p s.tokens runs (omega arith) h (omega (arith, sized)))

    read-IsTable : IsTable (unpack_tokens (take (length input) tokens)) input
    unfolding unpack_tokens
    read-IsTable =
        pointwise-IsTable input_buf input chunk.0 reads
          (map unpack_token (take (length input) tokens)) value
          (length-map unpack_token (take (length input) tokens)
            ∙ omega (arith, length-take (length input) tokens, length-tokens))
          at
          (λ p h.
            lookup-IsMatch input_buf input params tables p chunk.0 reads refl refl near
              (omega (arith, chunk)) h)

  pub run_chunk-Finds : Finds input s (run_chunk order input window s)
  unfolding run_chunk
  run_chunk-Finds =
      rw (whole, enough, run_chunk)
        (
          record {
            input = input_buf;
            seg_oldest = built.0;
            seg_newest = built.1;
            tokens = tokens built;
            staging = write_front (take (length input) (tokens built)) s.staging;
            capacity_bytes = s.capacity_bytes;
          },
          refl,
          (
            length-tokens built,
            omega (
              arith,
              staged,
              length-take (length input) (tokens built),
              length-tokens built,
              sized,
              room,
            ),
          ),
          refl,
          rw
              (take-write_front (length input) (take (length input) (tokens built)) s.staging (
                omega
                  (arith, length-take (length input) (tokens built), length-tokens built, room)))
              (read-IsTable built),
        )
    where
      whole : length input % 2 ^ 32 ≡ length input
      whole = omega (arith, chunk)

      enough : leb (segments (length input)) 128 ≡ true
      enough = ground (arith, chunk)

      built : Table × Table
      built = build_all input_buf params order.0 (
        reset (hash_buckets * segments (length input)) 0xffff_ffff s.seg_oldest,
        reset (hash_buckets * segments (length input)) 0 s.seg_newest,
      )

      staged :
          length (write_front (take (length input) (tokens built)) s.staging)
          ≡ length (take (length input) (tokens built))
            + (length s.staging - length (take (length input) (tokens built)))
      staged =
          length-append (take (length input) (tokens built)) _
          ∙ ap (λ k. length (take (length input) (tokens built)) + k) (length-drop _ s.staging)
