-- ===== src/Gpu/Hash.antt =====
-- The two shaders of the hash match finder, lz77_hash_build.wgsl and lz77_hash_lookup.wgsl.
use gpzip.Prelude.{
  ℕ, zero, suc, ◌+◌, ◌-◌, ◌*◌, ◌/◌, ◌%◌, ◌^◌, ◌==◌, leb, ltb, not, ◌||◌, min, if◌then◌else◌, List,
  [], ◌∷◌, bit_or,
}
use Prim.Native.Nat.{max}
use gpzip.Gpu.Buffer.{read_byte, add_u32}
use gpzip.Gpu.Extend.{extend}

pub record Params : Type 0 where
  pub input_len : ℕ
  pub hash_bits : ℕ
  pub window : ℕ
  pub min_match : ℕ
  pub max_match : ℕ
  pub seg_log2 : ℕ
  pub num_segs : ℕ

-- A table of u32 by index.
abbrev pub Table : Type 0
Table = ℕ → ℕ

abbrev pub update : Table → ℕ → ℕ → Table
update t i v j = if i == j then v else t j

unfoldable pub hash3 : List ℕ → Params → ℕ → ℕ
hash3 input_buf params p =
    let a = read_byte input_buf p in
    let b = read_byte input_buf (add_u32 p 1) in
    let c = read_byte input_buf (add_u32 p 2) in
    let x = bit_or (bit_or (a * 2 ^ 16 % 2 ^ 32) (b * 2 ^ 8 % 2 ^ 32)) c in
    let h = x * 0x9e37_79b1 % 2 ^ 32 in h / 2 ^ (32 - params.hash_bits)

-- `h * params.num_segs + seg`
abbrev pub seg_index : Params → ℕ → ℕ → ℕ
seg_index params h seg = add_u32 (h * params.num_segs % 2 ^ 32) seg

-- The atomic minimum and maximum of the invocation at `p`, on `(seg_oldest, seg_newest)`.
unfoldable pub build : List ℕ → Params → ℕ → Table × Table → Table × Table
unfolding hash3
build input_buf params p tables =
    let seg = p / 2 ^ params.seg_log2 in
    let idx = seg_index params (hash3 input_buf params p) seg in
    if leb params.input_len (add_u32 p 2) then tables else (
      update tables.0 idx (min (tables.0 idx) (add_u32 p 1)),
      update tables.1 idx (max (tables.1 idx) (add_u32 p 1)),
    )

-- The invocations in the device's order.
unfoldable pub build_all : List ℕ → Params → List ℕ → Table × Table → Table × Table
unfolding build
build_all input_buf params [] tables = tables
build_all input_buf params (p ∷ order) tables =
    build_all input_buf params order (build input_buf params p tables)

-- `(len, dist)`, or `(0, 0)` where the candidate gives no longer match.
unfoldable pub try_candidate : List ℕ → Params → ℕ → ℕ → ℕ → ℕ × ℕ
unfolding extend
try_candidate input_buf params raw p cur_best =
    let cand = raw - 1 in
    let dist = p - cand in
    let byte = read_byte input_buf in
    let len = extend input_buf params.input_len (params.max_match - 3) cand p 3 in
    if (raw == 0) || (raw == 0xffff_ffff)
    then (0, 0)
    else if leb p cand
    then (0, 0)
    else if ltb params.window dist
    then (0, 0)
    else if not (byte cand == byte p)
        || (not (byte (add_u32 cand 1) == byte (add_u32 p 1))
            || not (byte (add_u32 cand 2) == byte (add_u32 p 2)))
    then (0, 0)
    else if ltb cur_best len
    then (len, dist)
    else (0, 0)

-- `if (r.x > 0u) { best_len = r.x; best_dist = r.y; }`
unfoldable pub better : ℕ × ℕ → ℕ × ℕ → ℕ × ℕ
better r best = if ltb 0 r.0 then r else best

-- The loop over the segments, of which `segs` are left, the next being `segs - 1`.
unfoldable pub lookup_loop : List ℕ → Params → Table × Table → ℕ → ℕ → ℕ → ℕ × ℕ → ℕ × ℕ
unfolding try_candidate better
lookup_loop input_buf params tables h p zero best = best
lookup_loop input_buf params tables h p (suc seg) best =
    let idx = seg_index params h seg in
    let newer = better (try_candidate input_buf params (tables.1 idx) p best.0) best in
    let older = better (try_candidate input_buf params (tables.0 idx) p newer.0) newer in
    let on_with_newer = lookup_loop input_buf params tables h p seg newer in
    let on_with_older = lookup_loop input_buf params tables h p seg older in
    if leb params.max_match newer.0
    then newer
    else if ltb newer.0 16
    then (if leb params.max_match older.0 then older else on_with_older)
    else on_with_newer

-- What the invocation at `p` writes.
unfoldable pub lookup : List ℕ → Params → Table × Table → ℕ → ℕ
unfolding lookup_loop hash3
lookup input_buf params tables p =
    let p_seg = p / 2 ^ params.seg_log2 in
    let best =
      lookup_loop input_buf params tables (hash3 input_buf params p) p (p_seg + 1) (0, 0) in
    if leb params.input_len (add_u32 p 2)
    then read_byte input_buf p
    else if best.0 == 0
    then read_byte input_buf p
    else bit_or (best.0 * 2 ^ 16 % 2 ^ 32) best.1
