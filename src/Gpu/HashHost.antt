-- ===== src/Gpu/HashHost.antt =====
-- `Lz77HashPipeline` of lz77_hash.rs: the pool of buffer sets, and the match finder on one chunk and on a
-- batch. Buffers from the pool hold what the last chunk left in them.
use gpzip.Prelude.{
  ℕ, ◌+◌, ◌-◌, ◌*◌, ◌/◌, ◌%◌, ◌^◌, ◌==◌, leb, ltb, if◌then◌else◌, Option, none, some, ◌>>=◌, List,
  [], ◌∷◌, ◌++◌, length, get_elem?, set, take, drop, replicate,
}
use Prim.Native.Nat.{max}
use gpzip.Lz77.{Token, unpack_tokens}
use gpzip.Gpu.Buffer.{slice, next_multiple_of_4, words, pad_to_u32, dispatch}
use gpzip.Gpu.Hash.{Params, Table, build_all, lookup}

abbrev pub hash_bits : ℕ
hash_bits = 16

abbrev pub hash_buckets : ℕ
hash_buckets = 2 ^ 16

abbrev pub seg_log2 : ℕ
seg_log2 = 12

-- `len.div_ceil(SEG_SIZE).max(1)`
abbrev pub segments : ℕ → ℕ
segments len = max ((len + 4095) / 4096) 1

pub record BufferSet : Type 0 where
  pub input : List ℕ
  pub seg_oldest : Table
  pub seg_newest : Table
  pub tokens : List ℕ
  pub staging : List ℕ
  pub capacity_bytes : ℕ

-- `BufferSet::new`; the device makes buffers of zeros.
unfoldable pub new : ℕ → BufferSet
new capacity_bytes = record {
  input = replicate (next_multiple_of_4 capacity_bytes / 4) 0;
  seg_oldest = λ i. 0;
  seg_newest = λ i. 0;
  tokens = replicate capacity_bytes 0;
  staging = replicate capacity_bytes 0;
  capacity_bytes = capacity_bytes;
}

abbrev pub Pool : Type 0
Pool = List BufferSet

-- `iter().position(|s| s.capacity_bytes >= capacity_bytes)`
unfoldable pub position : ℕ → Pool → Option ℕ
position capacity_bytes [] = none
position capacity_bytes (s ∷ pool) =
    if leb capacity_bytes s.capacity_bytes
    then some 0
    else do i ← position capacity_bytes pool; some (i + 1)

-- `swap_remove`: the last one takes the place of the one that goes. `none` is a panic.
unfoldable pub swap_remove : ℕ → Pool → Option (BufferSet × Pool)
swap_remove idx pool = do
  s ← get_elem? pool idx
  last ← get_elem? pool (length pool - 1)
  some (s, set (take (length pool - 1) pool) idx last)

unfoldable pub acquire : ℕ → Pool → Option (BufferSet × Pool)
unfolding position swap_remove new
acquire capacity_bytes pool = elim (position capacity_bytes pool) [
  | none ↦ some (new capacity_bytes, pool)
  | some idx ↦ swap_remove idx pool
]

unfoldable pub release : BufferSet → Pool → Pool
release s pool = if ltb (length pool) 8 then pool ++ (s ∷ []) else pool

-- `write_buffer(.., 0, ..)`, and a copy to the front: what lies behind stays.
abbrev pub write_front : {A : Type 0} → List A → List A → List A
write_front xs buffer = xs ++ drop (length xs) buffer

abbrev pub params_for : ℕ → ℕ → ℕ → Params
params_for n num_segs window = record {
  input_len = n;
  hash_bits = hash_bits;
  window = window;
  min_match = 3;
  max_match = 258;
  seg_log2 = seg_log2;
  num_segs = num_segs;
}

-- The part of the table that this chunk uses, set to one value.
abbrev pub reset : ℕ → ℕ → Table → Table
reset size value t i = if ltb i size then value else t i

-- The uploads, resets, dispatches and the copy for one chunk. `order` has the device's orders for the
-- build and the lookup. `none` is the panic of a copy from beyond the reset blob, which covers 128
-- segments.
unfoldable pub run_chunk : List ℕ × List ℕ → List ℕ → ℕ → BufferSet → Option BufferSet
unfolding build_all lookup dispatch
run_chunk order input window s =
    let n = length input % 2 ^ 32 in
    let num_segs = segments (length input) in
    let params = params_for n num_segs window in
    let input_buf = write_front (words (pad_to_u32 input)) s.input in
    let oldest = reset (hash_buckets * num_segs) 0xffff_ffff s.seg_oldest in
    let newest = reset (hash_buckets * num_segs) 0 s.seg_newest in
    let tables = build_all input_buf params order.0 (oldest, newest) in
    let tokens = dispatch n (lookup input_buf params tables) order.1 s.tokens in
    if leb num_segs 128
    then some (record {
      input = input_buf;
      seg_oldest = tables.0;
      seg_newest = tables.1;
      tokens = tokens;
      staging = write_front (take n tokens) s.staging;
      capacity_bytes = s.capacity_bytes;
    })
    else none

-- `unpack_tokens` of the mapped range of `n` elements.
unfoldable pub read_tokens : ℕ → BufferSet → Option (List Token)
unfolding slice unpack_tokens
read_tokens n s = do view ← slice n s.staging; some (unpack_tokens view)

unfoldable pub match_find : List ℕ × List ℕ → Pool → List ℕ → ℕ → Option (List Token × Pool)
unfolding acquire release run_chunk read_tokens
match_find order pool input window = if length input % 2 ^ 32 == 0 then some ([], pool) else do
  (s, pool') ← acquire (length input) pool
  done ← run_chunk order input window s
  tokens ← read_tokens (length input % 2 ^ 32) done
  some (tokens, release done pool')

-- What `submit_batch_async` hands on: the sets, and how many tokens each has to read.
pub record AsyncBatch : Type 0 where
  pub sets : List BufferSet
  pub token_counts : List ℕ

unfoldable pub acquire_all : List (List ℕ) → Pool → Option (List BufferSet × Pool)
unfolding acquire
acquire_all [] pool = some ([], pool)
acquire_all (input ∷ inputs) pool = do
  (s, pool') ← acquire (max (length input) 4) pool
  (sets, pool'') ← acquire_all inputs pool'
  some (s ∷ sets, pool'')

-- The chunks of a submission, each with its orders.
unfoldable pub run_all :
    (ℕ → List ℕ × List ℕ) → ℕ → List (List ℕ) → ℕ → List BufferSet → Option (List BufferSet)
unfolding run_chunk
run_all orders i [] window sets = some []
run_all orders i (input ∷ inputs) window [] = some []
run_all orders i (input ∷ inputs) window (s ∷ sets) = do
  done ← run_chunk (orders i) input window s
  dones ← run_all orders (i + 1) inputs window sets
  some (done ∷ dones)

abbrev pub token_counts_of : List (List ℕ) → List ℕ
token_counts_of [] = []
token_counts_of (input ∷ inputs) = length input % 2 ^ 32 ∷ token_counts_of inputs

-- The slices for `map_async`, one for each set.
unfoldable pub map_all : List BufferSet → List ℕ → Option (List (List ℕ))
unfolding slice
map_all [] counts = some []
map_all (s ∷ sets) [] = some []
map_all (s ∷ sets) (n ∷ counts) = do
  view ← slice n s.staging
  views ← map_all sets counts
  some (view ∷ views)

unfoldable pub submit_batch_async :
    (ℕ → List ℕ × List ℕ) → Pool → List (List ℕ) → ℕ → Option (AsyncBatch × Pool)
unfolding acquire_all run_all map_all
submit_batch_async orders pool inputs window = do
  (sets, pool') ← acquire_all inputs pool
  dones ← run_all orders 0 inputs window sets
  views ← map_all dones (token_counts_of inputs)
  some (record { sets = dones; token_counts = token_counts_of inputs }, pool')

unfoldable pub read_all : List BufferSet → List ℕ → Option (List (List Token))
unfolding read_tokens
read_all [] counts = some []
read_all (s ∷ sets) [] = some []
read_all (s ∷ sets) (n ∷ counts) = do
  tokens ← read_tokens n s
  tables ← read_all sets counts
  some (tokens ∷ tables)

unfoldable pub release_all : List BufferSet → Pool → Pool
unfolding release
release_all [] pool = pool
release_all (s ∷ sets) pool = release_all sets (release s pool)

unfoldable pub collect_async : AsyncBatch → Pool → Option (List (List Token) × Pool)
unfolding read_all release_all
collect_async batch pool = do
  tables ← read_all batch.sets batch.token_counts
  some (tables, release_all batch.sets pool)

unfoldable pub match_find_batch :
    (ℕ → List ℕ × List ℕ) → Pool → List (List ℕ) → ℕ → Option (List (List Token) × Pool)
unfolding submit_batch_async collect_async
match_find_batch orders pool [] window = some ([], pool)
match_find_batch orders pool (input ∷ inputs) window = do
  (batch, pool') ← submit_batch_async orders pool (input ∷ inputs) window
  collect_async batch pool'
