-- ===== src/Core/Permits.antt =====
-- The chunk function of `HybridGzipCompressor::wrap_writer` and `try_acquire` (gpzip-cli/src/hybrid.rs):
-- the workers that call it share a counter, the GPU's permits and the cell with the probe's answer.
use gpzip.Prelude.{
  ℕ, ◌+◌, ◌-◌, Bool, true, false, not, ltb, ◌==◌, ◌&&◌, ◌||◌, if◌then◌else◌, Option, none, some,
  List, ◌∷◌, ◌++◌, map,
}

pub record Shared : Type 0 where
  pub chunk_counter : ℕ
  pub permits : ℕ
  pub gpu_fn_cell : Option Bool

-- What is shared, changed in one field.
abbrev with_permits : ℕ → Shared → Shared
with_permits k s = record {
  chunk_counter = s.chunk_counter;
  permits = k;
  gpu_fn_cell = s.gpu_fn_cell;
}

abbrev with_cell : Bool → Shared → Shared
with_cell a s = record {
  chunk_counter = s.chunk_counter;
  permits = s.permits;
  gpu_fn_cell = some a;
}

abbrev with_counter : ℕ → Shared → Shared
with_counter n s = record { chunk_counter = n; permits = s.permits; gpu_fn_cell = s.gpu_fn_cell }

abbrev pub gpu_warmup_chunks : ℕ
gpu_warmup_chunks = 4

-- Where a call is. `n` is its number, and `cur` the permits it has read last.
pub data Phase (R : Type 0) : Type 0 where
  started : (bytes : List ℕ) → Phase R
  counted : (n : ℕ) (bytes : List ℕ) → Phase R
  probing : (n : ℕ) (bytes : List ℕ) → Phase R
  probed : (found : Bool) (n : ℕ) (bytes : List ℕ) → Phase R
  acquiring : (cur n : ℕ) (bytes : List ℕ) → Phase R
  on_gpu : (n : ℕ) (bytes : List ℕ) → Phase R
  releasing : (n : ℕ) (bytes : List ℕ) (result : R) → Phase R
  on_cpu : (n : ℕ) (bytes : List ℕ) → Phase R
  finished : (n : ℕ) (bytes : List ℕ) (result : R) → Phase R

-- As `wrap_writer` makes it.
abbrev pub initial : ℕ → Shared
initial gpu_workers = record { chunk_counter = 0; permits = gpu_workers; gpu_fn_cell = none }

-- The chunk functions, whether there is an adapter, and the number of permits.
module _ {R : Type 0} (cpu_fn gpu_fn : List ℕ → R) (adapter : Bool) (gpu_workers : ℕ) where
  unfoldable pub get_or_init : Option Bool → Bool
  get_or_init none = adapter
  get_or_init (some found) = found

  -- One turn of the loop of `try_acquire`, after a load; the exchange fails where another call came
  -- between, and may fail without a cause.
  unfoldable pub try_acquire : Bool → Shared → ℕ → ℕ → List ℕ → Shared × Phase R
  try_acquire spurious s cur n bytes =
      if cur == 0
      then (s, on_cpu n bytes)
      else if (s.permits == cur) && not spurious
      then (with_permits (cur - 1) s, on_gpu n bytes)
      else (s, acquiring s.permits n bytes)

  -- A call goes on by one access to what is shared, or by a call of a chunk function.
  unfoldable pub advance : Bool → Shared → Phase R → Shared × Phase R
  unfolding get_or_init try_acquire
  advance spurious s (started bytes) =
      (with_counter (s.chunk_counter + 1) s, counted s.chunk_counter bytes)
  advance spurious s (counted n bytes) =
      if not (ltb 0 gpu_workers) || ltb n gpu_warmup_chunks
      then (s, on_cpu n bytes)
      else (s, probing n bytes)
  advance spurious s (probing n bytes) =
      (with_cell (get_or_init s.gpu_fn_cell) s, probed (get_or_init s.gpu_fn_cell) n bytes)
  advance spurious s (probed false n bytes) = (s, on_cpu n bytes)
  advance spurious s (probed true n bytes) = (s, acquiring s.permits n bytes)
  advance spurious s (acquiring cur n bytes) = try_acquire spurious s cur n bytes
  advance spurious s (on_gpu n bytes) = (s, releasing n bytes (gpu_fn bytes))
  advance spurious s (releasing n bytes result) =
      (with_permits (s.permits + 1) s, finished n bytes result)
  advance spurious s (on_cpu n bytes) = (s, finished n bytes (cpu_fn bytes))
  advance spurious s (finished n bytes result) = (s, finished n bytes result)

  -- What the calls for a list of chunks can come to, one step of one call after the other, in any order.
  pub data Reachable (calls : List (List ℕ)) : Shared → List (Phase R) → Type 0 where
    begin : Reachable calls (initial gpu_workers) (map (λ bytes. started bytes) calls)
    move :
        (spurious : Bool) (s : Shared) (before : List (Phase R)) (p : Phase R)
        (after : List (Phase R))
        → Reachable calls s (before ++ (p ∷ after))
        → Reachable calls (advance spurious s p).0 (before ++ ((advance spurious s p).1 ∷ after))
