-- ===== src/Gpu/Walk.antt =====
-- The walks on the GPU: `WalkPipeline::walk` and `BlockWalkPipeline::walk` of walk.rs with their shaders,
-- walk.wgsl and walk_block.wgsl. The arrays are of packed tokens.
use gpzip.Prelude.{
  ℕ, zero, suc, ◌+◌, ◌-◌, ◌*◌, ◌/◌, ◌%◌, ◌^◌, ◌==◌, leb, ltb, ◌||◌, if◌then◌else◌, min, List, [],
  ◌∷◌, length, get_or, set, take, replicate,
}
use gpzip.Gpu.Buffer.{add_u32, dispatch}
use gpzip.Gpu.Hash.{Table, update}

-- `if (len == 0u) { cur = cur + 1u; } else { cur = cur + len; }`
abbrev pub next : ℕ → ℕ → ℕ
next t cur = if t / 2 ^ 16 == 0 then add_u32 cur 1 else add_u32 cur (t / 2 ^ 16)

-- A loop that writes the tokens from `cur` to `end` into `walked`, from `idx` on. Each round moves `cur`
-- on, so `end - cur` rounds are enough. It gives `walked` and the index behind what it wrote.
unfoldable pub emit_loop : ℕ → List ℕ → ℕ → ℕ → ℕ → List ℕ → List ℕ × ℕ
emit_loop zero per_position end cur idx walked = (walked, idx)
emit_loop (suc rounds) per_position end cur idx walked =
    let t = get_or per_position cur 0 in
    let on = emit_loop rounds per_position end (next t cur) (add_u32 idx 1) (set walked idx t) in
    if leb end cur then (walked, idx) else on

-- The serial walk: `walked` and `walked_count`.
unfoldable pub walk_serial : List ℕ → ℕ → List ℕ → List ℕ × ℕ
unfolding emit_loop
walk_serial per_position n_positions walked =
    emit_loop n_positions per_position n_positions 0 0 walked

unfoldable pub walk : List ℕ → List ℕ
unfolding walk_serial
walk per_position_packed =
    let n = length per_position_packed % 2 ^ 32 in
    let done = walk_serial per_position_packed n (replicate (length per_position_packed) 0) in
    if n == 0 then [] else take done.1 done.0

pub record BlockParams : Type 0 where
  pub n_positions : ℕ
  pub n_blocks : ℕ
  pub block_size : ℕ

abbrev pub block_size : ℕ
block_size = 128

abbrev pub params_of : ℕ → ℕ → BlockParams
params_of n n_blocks = record { n_positions = n; n_blocks = n_blocks; block_size = block_size }

-- The loop of `block_summary`: `cur` and `count` at its end.
unfoldable pub summary_loop : ℕ → List ℕ → ℕ → ℕ → ℕ → ℕ × ℕ
summary_loop zero per_position end cur count = (cur, count)
summary_loop (suc rounds) per_position end cur count =
    let t = get_or per_position cur 0 in
    let on = summary_loop rounds per_position end (next t cur) (add_u32 count 1) in
    if leb end cur then (cur, count) else on

abbrev pub block_end : BlockParams → ℕ → ℕ
block_end params b = min (add_u32 (b * params.block_size) params.block_size) params.n_positions

-- What the invocation of `block_summary` for `idx = b * block_size + e` writes into `exit_table` and
-- `count_table`.
unfoldable pub block_summary : List ℕ → BlockParams → ℕ → ℕ × ℕ
unfolding summary_loop
block_summary per_position params idx =
    let b = idx / params.block_size in
    let e = idx % params.block_size in
    let block_start = b * params.block_size in
    let at_end =
      summary_loop params.block_size per_position (block_end params b) (add_u32 block_start e) 0 in
    if leb params.n_positions (add_u32 block_start e)
    then (params.block_size, 0)
    else (at_end.0 - block_start, at_end.1)

-- What `chain_blocks` has written when it is at block `b`.
pub record Chain : Type 0 where
  pub cur : ℕ
  pub token_off : ℕ
  pub actual_entry : Table
  pub token_offsets : Table

abbrev pub start : Chain
start = record { cur = 0; token_off = 0; actual_entry = λ b. 0; token_offsets = λ b. 0 }

-- One round of `chain_blocks`; the three guards skip the block.
unfoldable pub chain_block : BlockParams → List ℕ → List ℕ → ℕ → Chain → Chain
chain_block params exit_table count_table b c =
    let block_start = b * params.block_size in
    let e = c.cur - block_start in
    let idx = add_u32 block_start e in
    if leb params.n_positions c.cur
      || (ltb c.cur block_start || leb (add_u32 block_start params.block_size) c.cur)
    then record {
      cur = c.cur;
      token_off = c.token_off;
      actual_entry = update c.actual_entry b 0;
      token_offsets = update c.token_offsets b c.token_off;
    }
    else record {
      cur = add_u32 block_start (get_or exit_table idx 0);
      token_off = add_u32 c.token_off (get_or count_table idx 0);
      actual_entry = update c.actual_entry b (add_u32 e 1);
      token_offsets = update c.token_offsets b c.token_off;
    }

-- The rounds from block `b` on, `left` of them.
unfoldable pub chain_blocks : BlockParams → List ℕ → List ℕ → ℕ → ℕ → Chain → Chain
unfolding chain_block
chain_blocks params exit_table count_table zero b c = c
chain_blocks params exit_table count_table (suc left) b c =
    chain_blocks params exit_table count_table left (b + 1)
      (chain_block params exit_table count_table b c)

-- The workgroup `b` of `block_emit`, on `walked`.
unfoldable pub block_emit : List ℕ → BlockParams → Chain → ℕ → List ℕ → List ℕ
unfolding emit_loop
block_emit per_position params c b walked =
    let e = c.actual_entry b - 1 in
    let block_start = b * params.block_size in
    if leb params.n_blocks b || (c.actual_entry b == 0)
    then walked
    else (emit_loop params.block_size per_position (block_end params b) (add_u32 block_start e)
        (c.token_offsets b) walked).0

-- The workgroups in the device's order.
unfoldable pub emit_all : List ℕ → BlockParams → Chain → List ℕ → List ℕ → List ℕ
unfolding block_emit
emit_all per_position params c [] walked = walked
emit_all per_position params c (b ∷ order) walked =
    emit_all per_position params c order (block_emit per_position params c b walked)

-- The passes on `n` tokens. The buffers are made of zeros; `orders` has the device's orders for the
-- summaries and the emission.
unfoldable pub block_passes : List ℕ × List ℕ → List ℕ → ℕ → List ℕ
unfolding block_summary chain_blocks emit_all dispatch
block_passes orders per_position n =
    let n_blocks = (n + 127) / block_size in
    let params = params_of n n_blocks in
    let zeros = replicate (n_blocks * block_size) 0 in
    let exit_table =
      dispatch (n_blocks * block_size) (λ i. (block_summary per_position params i).0) orders.0
        zeros in
    let count_table =
      dispatch (n_blocks * block_size) (λ i. (block_summary per_position params i).1) orders.0
        zeros in
    let c = chain_blocks params exit_table count_table n_blocks 0 start in
    let walked = emit_all per_position params c orders.1 (replicate (length per_position) 0) in
    take c.token_off walked

unfoldable pub block_walk : List ℕ × List ℕ → List ℕ → List ℕ
unfolding block_passes
block_walk orders per_position_packed =
    let n = length per_position_packed % 2 ^ 32 in
    let walked = block_passes orders per_position_packed n in if n == 0 then [] else walked
