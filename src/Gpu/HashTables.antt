-- ===== src/Gpu/HashTables.antt =====
-- What the hash match finder returns: a table of true matches for each chunk of a batch, and the pool.
use gpzip.Prelude.{
  ℕ, ◌+◌, ◌%◌, ◌^◌, ◌≤◌, ◌<◌, ◌≡◌, refl, sym, subst, ◌==◌, some, List, [], ◌∷◌, length, All, arith,
  false, inl, inr, Bool-cases, bind_some, ◌>>=◌, take,
}
use Prim.Native.Nat.{max}
use mathlib.Core.Option.{some-injective}
use gpzip.Lz77.{Token, unpack_tokens}
use gpzip.Lz77.Walk.{IsTable}
use gpzip.Gpu.Buffer.{slice, Runs, invocations, RunsEach}
use gpzip.Gpu.HashHost.{
  BufferSet, Pool, AsyncBatch, release, read_tokens, match_find, acquire_all, run_all,
  token_counts_of, submit_batch_async, map_all, read_all, release_all, collect_async,
  match_find_batch,
}
use gpzip.Gpu.HashChunk.{Sized, IsChunk, NonEmpty, run_chunk-Finds}
use gpzip.Gpu.HashBatch.{IsPool, acquire-Acquired, release-IsPool}

-- A table of true matches for each chunk.
abbrev pub Tables : List (List ℕ) → List (List Token) → Type 0
Tables [] [] = Unit {0}
Tables [] (t ∷ ts) = ⊥
Tables (input ∷ inputs) [] = ⊥
Tables (input ∷ inputs) (t ∷ ts) = IsTable t input × Tables inputs ts

abbrev Rooms : List (List ℕ) → List BufferSet → Type 0
Rooms [] [] = Unit {0}
Rooms [] (s ∷ sets) = ⊥
Rooms (input ∷ inputs) [] = ⊥
Rooms (input ∷ inputs) (s ∷ sets) = Sized s × (length input ≤ s.capacity_bytes) × Rooms inputs sets

abbrev Ran : List (List ℕ) → List BufferSet → Type 0
Ran [] [] = Unit {0}
Ran [] (s ∷ sets) = ⊥
Ran (input ∷ inputs) [] = ⊥
Ran (input ∷ inputs) (s ∷ sets) =
    Sized s
    × IsTable (unpack_tokens (take (length input % 2 ^ 32) s.staging)) input
    × Ran inputs sets

slice-take : (n : ℕ) (buffer view : List ℕ) → slice n buffer ≡ some view → view ≡ take n buffer
unfolding slice
slice-take n buffer view e = elim (Bool-cases (n == 0)) [
  | inl none_left ↦ absurd (cc (rw none_left at e))
  | inr more ↦ sym (some-injective _ _ (rw more at e))
]

acquire_all-Rooms :
    (inputs : List (List ℕ)) (pool : Pool)
    → IsPool pool
    → (sets : List BufferSet) × (pool' : Pool) × (acquire_all inputs pool ≡ some (sets, pool'))
      × Rooms inputs sets
      × IsPool pool'
unfolding acquire_all
acquire_all-Rooms [] pool h = ([], pool, refl, tt, h)
acquire_all-Rooms (input ∷ inputs) pool h =
    let (s, pool', e, sized, room, h') = acquire-Acquired (max (length input) 4) pool h in
    let (sets, pool'', es, rooms, h'') = acquire_all-Rooms inputs pool' h' in
    (s ∷ sets, pool'', rw (e, es) refl, (sized, omega (arith, room), rooms), h'')

run_all-Ran :
    (orders : ℕ → List ℕ × List ℕ) (i : ℕ) (inputs : List (List ℕ)) (window : ℕ)
    (sets : List BufferSet)
    → All IsChunk inputs
    → window < 2 ^ 16
    → RunsEach orders i inputs
    → Rooms inputs sets
    → (dones : List BufferSet) × (run_all orders i inputs window sets ≡ some dones)
      × Ran inputs dones
unfolding run_all
run_all-Ran orders i [] window [] chunks near runs rooms = ([], refl, tt)
run_all-Ran orders i [] window (s ∷ sets) chunks near runs rooms = absurd rooms
run_all-Ran orders i (input ∷ inputs) window [] chunks near runs rooms = absurd rooms
run_all-Ran orders i (input ∷ inputs) window (s ∷ sets) (chunk, chunks) near (run, runs)
      (sized, room, rooms) =
    let (done, e, sized', same, table) =
      run_chunk-Finds (orders i) input window s chunk near run sized room in
    let (dones, es, ran) = run_all-Ran orders (i + 1) inputs window sets chunks near runs rooms in
    (done ∷ dones, rw (e, es) refl, (sized', table, ran))

-- The slices are not empty.
abbrev Mapped : List BufferSet → List ℕ → Type 0
Mapped sets counts = (views : List (List ℕ)) × (map_all sets counts ≡ some views)

map_all-Mapped :
    (inputs : List (List ℕ)) (sets : List BufferSet)
    → All IsChunk inputs
    → All NonEmpty inputs
    → Mapped sets (token_counts_of inputs)
unfolding map_all slice
map_all-Mapped inputs [] chunks full = ([], refl)
map_all-Mapped [] (s ∷ sets) chunks full = ([], refl)
map_all-Mapped (input ∷ inputs) (s ∷ sets) (chunk, chunks) (some_byte, full) =
    let (views, e) = map_all-Mapped inputs sets chunks full in
    let more : (length input % 2 ^ 32 == 0) ≡ false = ground (arith, chunk, some_byte) in
    (take (length input % 2 ^ 32) s.staging ∷ views, rw (more, e) refl)

read_all-Tables :
    (inputs : List (List ℕ)) (sets : List BufferSet)
    → Ran inputs sets
    → Mapped sets (token_counts_of inputs)
    → (tables : List (List Token)) × (read_all sets (token_counts_of inputs) ≡ some tables)
      × Tables inputs tables
unfolding read_all map_all read_tokens
read_all-Tables [] [] ran views = ([], refl, tt)
read_all-Tables [] (s ∷ sets) ran views = absurd ran
read_all-Tables (input ∷ inputs) [] ran views = absurd ran
read_all-Tables (input ∷ inputs) (s ∷ sets) (sized, table, ran) (views, e) =
    let n : ℕ = length input % 2 ^ 32 in
    let (view, sliced, e₁) = bind_some (slice n s.staging) _ views e in
    let (later, mapped, e₂) = bind_some (map_all sets (token_counts_of inputs)) _ views e₁ in
    let whole : view ≡ take n s.staging = slice-take n s.staging view sliced in
    let (tables, read, good) = read_all-Tables inputs sets ran (later, mapped) in
    (
      unpack_tokens view ∷ tables,
      rw (sliced, read) refl,
      (subst (λ v. IsTable (unpack_tokens v) input) (sym whole) table, good),
    )

release_all-IsPool :
    (inputs : List (List ℕ)) (sets : List BufferSet) (pool : Pool)
    → Ran inputs sets
    → IsPool pool
    → IsPool (release_all sets pool)
unfolding release_all
release_all-IsPool inputs [] pool ran h = h
release_all-IsPool [] (s ∷ sets) pool ran h = absurd ran
release_all-IsPool (input ∷ inputs) (s ∷ sets) pool (sized, table, ran) h =
    release_all-IsPool inputs sets (release s pool) ran (release-IsPool s pool sized h)

-- What a batch in flight holds for its chunks.
abbrev pub InFlight : List (List ℕ) → AsyncBatch → Type 0
InFlight inputs batch =
    Ran inputs batch.sets
    × (batch.token_counts ≡ token_counts_of inputs)
    × Mapped batch.sets (token_counts_of inputs)

-- What `submit_batch_async` returns, where it does not panic.
pub submit_batch_async-InFlight :
    (orders : ℕ → List ℕ × List ℕ) (pool : Pool) (inputs : List (List ℕ)) (window : ℕ)
    (r : AsyncBatch × Pool)
    → IsPool pool
    → All IsChunk inputs
    → window < 2 ^ 16
    → RunsEach orders 0 inputs
    → submit_batch_async orders pool inputs window ≡ some r
    → InFlight inputs r.0 × IsPool r.1
unfolding submit_batch_async
submit_batch_async-InFlight orders pool inputs window r h chunks near runs submitted =
    let (sets, pool', e, rooms, h') = acquire_all-Rooms inputs pool h in
    let (dones, es, ran) = run_all-Ran orders 0 inputs window sets chunks near runs rooms in
    let counts : List ℕ = token_counts_of inputs in
    let batch : AsyncBatch = record { sets = dones; token_counts = counts } in
    let left : (map_all dones counts >>= λ views. some (batch, pool')) ≡ some r =
      rw (e, es) at submitted in
    let (views, mapped, last) = bind_some (map_all dones counts) _ r left in
    subst (λ r. InFlight inputs r.0 × IsPool r.1) (some-injective _ _ last)
      ((ran, refl, (views, mapped)), h')

pub submit_batch_async_total :
    (orders : ℕ → List ℕ × List ℕ) (pool : Pool) (inputs : List (List ℕ)) (window : ℕ)
    → IsPool pool
    → All IsChunk inputs
    → All NonEmpty inputs
    → window < 2 ^ 16
    → RunsEach orders 0 inputs
    → (batch : AsyncBatch) × (pool' : Pool) × (submit_batch_async orders pool inputs window
        ≡ some (batch, pool'))
      × InFlight inputs batch
      × IsPool pool'
unfolding submit_batch_async
submit_batch_async_total orders pool inputs window h chunks full near runs =
    let (sets, pool', e, rooms, h') = acquire_all-Rooms inputs pool h in
    let (dones, es, ran) = run_all-Ran orders 0 inputs window sets chunks near runs rooms in
    let (views, mapped) = map_all-Mapped inputs dones chunks full in
    (
      record { sets = dones; token_counts = token_counts_of inputs },
      pool',
      rw (e, es) (rw mapped refl),
      (ran, refl, (views, mapped)),
      h',
    )

pub collect_async-Tables :
    (inputs : List (List ℕ)) (batch : AsyncBatch) (pool : Pool)
    → InFlight inputs batch
    → IsPool pool
    → (tables : List (List Token)) × (pool' : Pool) × (collect_async batch pool
        ≡ some (tables, pool'))
      × Tables inputs tables
      × IsPool pool'
unfolding collect_async
collect_async-Tables inputs batch pool (ran, counts, mapped) h =
    let (tables, read, good) = read_all-Tables inputs batch.sets ran mapped in
    (
      tables,
      release_all batch.sets pool,
      rw (counts, read) refl,
      good,
      release_all-IsPool inputs batch.sets pool ran h,
    )

-- For chunks of bytes of at most 512 KiB, none of them empty, a window below 2^16 and a pool as earlier calls leave it,
-- `match_find_batch` does not panic and returns for each chunk a table with a true match or the byte for
-- each place, whatever the buffers of the pool hold and in whatever order the device runs the
-- invocations; and it leaves a pool again.
pub match_find_batch-Tables :
    (orders : ℕ → List ℕ × List ℕ) (pool : Pool) (inputs : List (List ℕ)) (window : ℕ)
    → IsPool pool
    → All IsChunk inputs
    → All NonEmpty inputs
    → window < 2 ^ 16
    → RunsEach orders 0 inputs
    → (tables : List (List Token)) × (pool' : Pool) × (match_find_batch orders pool inputs window
        ≡ some (tables, pool'))
      × Tables inputs tables
      × IsPool pool'
unfolding match_find_batch
match_find_batch-Tables orders pool [] window h chunks full near runs = ([], pool, refl, tt, h)
match_find_batch-Tables orders pool (input ∷ inputs) window h chunks full near runs =
    let (batch, pool', e, flight, h') =
      submit_batch_async_total orders pool (input ∷ inputs) window h chunks full near runs in
    let (tables, pool'', e', good, h'') =
      collect_async-Tables (input ∷ inputs) batch pool' flight h' in
    (tables, pool'', rw e e', good, h'')

-- The same for one chunk by `match_find`.
pub match_find-Table :
    (order : List ℕ × List ℕ) (pool : Pool) (input : List ℕ) (window : ℕ)
    → IsPool pool
    → IsChunk input
    → window < 2 ^ 16
    → Runs (invocations (length input)) order.1
    → (table : List Token) × (pool' : Pool) × (match_find order pool input window
        ≡ some (table, pool'))
      × IsTable table input
      × IsPool pool'
unfolding match_find read_tokens slice
match_find-Table order pool [] window h chunk near runs =
    ([], pool, refl, record { same_length = refl; bytes = λ p b e. cc; matches = λ p t e. cc }, h)
match_find-Table order pool (x ∷ xs) window h chunk near runs =
    let (s, pool', e, sized, room, h') = acquire-Acquired (length (x ∷ xs)) pool h in
    let (done, es, sized', same, table) =
      run_chunk-Finds order (x ∷ xs) window s chunk near runs sized room in
    (
      unpack_tokens (take (length (x ∷ xs) % 2 ^ 32) done.staging),
      release done pool',
      rw (some_bytes, e, es) refl,
      table,
      release-IsPool done pool' sized' h',
    )
  where
    some_bytes : (length (x ∷ xs) % 2 ^ 32 == 0) ≡ false
    some_bytes = ground (arith, chunk)
