-- ===== src/Gpu/WalkEqual.antt =====
-- Both walks on the GPU choose what `host_strict_greedy` chooses.
use gpzip.Prelude.{
  ℕ, ◌+◌, ◌-◌, ◌*◌, ◌/◌, ◌%◌, ◌^◌, ◌≤◌, ◌<◌, ◌≡◌, refl, ap, sym, ◌∙◌, ◌==◌, leb, true, false,
  if◌then◌else◌, some, List, [], length, get_or, take, replicate, All, arith, Bool-cases, inl, inr,
  subst, length-map, length-replicate,
}
use gpzip.Lz77.{Token, pack_token, pack_per_position, host_strict_greedy}
use gpzip.Lz77.Pack.{FitsU16}
use gpzip.Gpu.Buffer.{add_u32, dispatch, Runs}
use gpzip.Gpu.Bytes.{dispatch-value}
use gpzip.Gpu.Walk.{
  emit_loop, walk_serial, walk, block_end, block_summary, Chain, summary_loop, BlockParams, start,
  chain_blocks, block_passes, block_walk,
}
use gpzip.Gpu.WalkLoop.{walk_from, walk_from-le, Emits, loops-Emits}
use gpzip.Gpu.WalkChain.{
  n_blocks, params, few, summary, get_or-some, start-Chained, Chained, chain_blocks-Chained,
}
use gpzip.Gpu.WalkStrict.{small_words, strict_loop-walk_from}
use gpzip.Gpu.WalkEmit.{none_left, take-Right, emit_all-walk_from}

block_summary-at :
    (per_position : List ℕ) (ps : BlockParams) (idx b e : ℕ)
    → idx / ps.block_size ≡ b
    → idx % ps.block_size ≡ e
    → add_u32 (b * ps.block_size) e ≡ b * ps.block_size + e
    → leb ps.n_positions (b * ps.block_size + e) ≡ false
    → let at_end : ℕ × ℕ =
        summary_loop ps.block_size per_position (block_end ps b) (b * ps.block_size + e) 0 in
      block_summary per_position ps idx ≡ (at_end.0 - b * ps.block_size, at_end.1)
unfolding block_summary
block_summary-at per_position ps idx b e block entry place within =
    rw (block, entry, place, within) refl

unless_empty :
    (n : ℕ) (walked plain : List ℕ)
    → ((n == 0) ≡ true → plain ≡ [])
    → walked ≡ plain
    → (if n == 0 then [] else walked) ≡ plain
unless_empty n walked plain empty same = elim (Bool-cases (n == 0)) [
  | inl stop ↦ rw stop (sym (empty stop))
  | inr more ↦ rw more same
]

-- The walks on any array of 32-bit words, against the plain walk.
module _ (per_position : List ℕ) (small : All (λ t. t < 2 ^ 32) per_position)
    (fits : length per_position + 2 ^ 16 < 2 ^ 32) where
  abbrev plain : List ℕ
  plain = walk_from per_position 0

  whole_length : length per_position % 2 ^ 32 ≡ length per_position
  whole_length = omega (arith, fits)

  abbrev zeros : List ℕ
  zeros = replicate (length per_position) 0

  serial-plain : walk per_position ≡ plain
  unfolding walk walk_serial
  serial-plain = elim (Bool-cases (length per_position == 0)) [
    | inl stop ↦ rw (whole_length, stop) (sym (walk_from-le per_position 0 (ground (arith, stop))))
    | inr more ↦ rw (whole_length, more) read
  ]
    where
      done : List ℕ × ℕ
      done = emit_loop (length per_position) per_position (length per_position) 0 0 zeros

      room : length plain ≤ length zeros
      room =
          omega
            (arith, length-replicate {A = ℕ} (length per_position) 0, few per_position small fits)

      run :
          Emits per_position plain
            (length per_position)
            0
            0
            0
            zeros
            (summary_loop (length per_position) per_position (length per_position) 0 0)
            done
      run =
          loops-Emits per_position small fits plain (few per_position small fits)
            (length per_position) (omega arith) (length per_position) 0 0 0 zeros (omega arith)
            (omega (arith, fits)) refl (omega arith) (omega arith) room

      all : done.1 ≡ length plain
      all =
          run.stops
          ∙ none_left plain (0 + run.k) run.inside
              (run.rest ∙ walk_from-le per_position run.cur' run.past)

      read : take done.1 done.0 ≡ plain
      read =
          ap (λ k. take k done.0) all
          ∙ take-Right plain done.0 (omega (arith, run.same_length, room))
              (λ j h. run.written j (omega arith) (omega (arith, h, all, run.stops)))

  blocks-plain :
      (orders : List ℕ × List ℕ)
      → Runs (n_blocks per_position small fits * 128) orders.0
      → Runs (n_blocks per_position small fits) orders.1
      → block_walk orders per_position ≡ plain
  unfolding block_walk
  blocks-plain orders summaries emissions =
      ap (λ n. if n == 0 then [] else block_passes orders per_position n) whole_length
      ∙ unless_empty (length per_position) (block_passes orders per_position (length per_position))
          plain (λ stop. walk_from-le per_position 0 (ground (arith, stop))) passes
    where
      size : ℕ
      size = n_blocks per_position small fits * 128

      value : ℕ → ℕ × ℕ
      value = block_summary per_position (params per_position small fits)

      exit_table : List ℕ
      exit_table = dispatch size (λ i. (value i).0) orders.0 (replicate size 0)

      count_table : List ℕ
      count_table = dispatch size (λ i. (value i).1) orders.0 (replicate size 0)

      summarised :
          (b e : ℕ)
          → e < 128
          → b * 128 + e < length per_position
          → value (b * 128 + e) ≡ (
            (summary per_position small fits b e).0 - b * 128,
            (summary per_position small fits b e).1,
          )
      summarised b e h inside =
          let block : (b * 128 + e) / 128 ≡ b = omega (arith, h) in
          let entry : (b * 128 + e) % 128 ≡ e = omega (arith, h) in
          let place : add_u32 (b * 128) e ≡ b * 128 + e = omega (arith, inside, fits) in
          let within : leb (length per_position) (b * 128 + e) ≡ false = ground (arith, inside) in
          block_summary-at per_position (params per_position small fits) (b * 128 + e) b e block
            entry place within

      at :
          (f : ℕ × ℕ → ℕ) (b e : ℕ)
          → e < 128
          → b * 128 + e < length per_position
          → get_or (dispatch size (λ i. f (value i)) orders.0 (replicate size 0)) (b * 128 + e) 0
            ≡ f (
              (summary per_position small fits b e).0 - b * 128,
              (summary per_position small fits b e).1,
            )
      at f b e h inside =
          get_or-some (dispatch size (λ i. f (value i)) orders.0 (replicate size 0)) (b * 128 + e)
            (f (value (b * 128 + e)))
            (dispatch-value size (λ i. f (value i)) orders.0 size (b * 128 + e) (replicate size 0)
              summaries (omega (arith, h, inside)) (omega (arith, h, inside))
              (omega (arith, h, inside, length-replicate {A = ℕ} size 0)))
          ∙ ap f (summarised b e h inside)

      chain : Chain
      chain =
          chain_blocks (params per_position small fits) exit_table count_table
            (n_blocks per_position small fits) 0 start

      chained : Chained per_position small fits (n_blocks per_position small fits) chain
      chained =
          chain_blocks-Chained per_position small fits exit_table count_table (at (λ s. s.0))
            (at (λ s. s.1)) (n_blocks per_position small fits) 0 start (omega arith)
            (start-Chained per_position small fits)

      passes : block_passes orders per_position (length per_position) ≡ plain
      passes =
          unfold block_passes in
          emit_all-walk_from per_position small fits chain chained orders.1 zeros emissions (
            omega (
              arith,
              length-replicate {A = ℕ} (length per_position) 0,
              few per_position small fits,
            ))

-- For tokens whose fields fit 16 bits, fewer than 2^32 - 2^16 of them, the serial walk on the GPU and the
-- walk by blocks, in whatever order the device runs the invocations, return exactly the packed tokens of
-- the host's strict walk, which ends.
pub block_walk-host_strict_greedy :
    (ts : List Token) (orders : List ℕ × List ℕ)
    → All FitsU16 ts
    → length ts + 2 ^ 16 < 2 ^ 32
    → Runs ((length ts + 127) / 128 * 128) orders.0
    → Runs ((length ts + 127) / 128) orders.1
    → (chosen : List Token) × (host_strict_greedy ts ≡ some chosen)
      × (walk (pack_per_position ts) ≡ pack_per_position chosen)
      × (block_walk orders (pack_per_position ts) ≡ pack_per_position chosen)
unfolding host_strict_greedy
block_walk-host_strict_greedy ts orders fit fits summaries emissions =
    let (chosen, same, packed) = strict_loop-walk_from ts fit (length ts) 0 [] (omega arith) in
    (
      chosen,
      same,
      serial-plain (pack_per_position ts) small fits' ∙ sym packed,
      blocks-plain (pack_per_position ts) small fits' orders
            (subst (λ n. Runs ((n + 127) / 128 * 128) orders.0) (sym same_length) summaries)
            (subst (λ n. Runs ((n + 127) / 128) orders.1) (sym same_length) emissions)
          ∙ sym packed,
    )
  where
    same_length : length (pack_per_position ts) ≡ length ts
    same_length = unfold pack_per_position in length-map pack_token ts

    small : All (λ w. w < 2 ^ 32) (pack_per_position ts)
    small = unfold pack_per_position in small_words ts fit

    fits' : length (pack_per_position ts) + 2 ^ 16 < 2 ^ 32
    fits' = omega (arith, same_length, fits)
