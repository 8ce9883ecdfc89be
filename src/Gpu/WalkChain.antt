-- ===== src/Gpu/WalkChain.antt =====
-- The three passes of the walk by blocks: the chain enters each block where the plain walk does.
use gpzip.Prelude.{
  ℕ, zero, suc, ◌+◌, ◌-◌, ◌*◌, ◌/◌, ◌^◌, ◌≤◌, ◌<◌, ◌≡◌, refl, ap, ◌∙◌, ◌==◌, ==_iff, leb, ltb, ◌||◌,
  true, false, min, some, List, [], ◌∷◌, length, get_elem?, get_or, drop, All, arith, Bool-cases,
  inl, inr, ◌⊎◌, subst,
}
use gpzip.Gpu.Buffer.{add_u32}
use gpzip.Gpu.Hash.{update}
use gpzip.Gpu.Walk.{
  emit_loop, summary_loop, BlockParams, params_of, block_end, Chain, start, chain_block,
  chain_blocks,
}
use gpzip.Gpu.WalkLoop.{walk_from, length-walk_from, Emits, loops-Emits}

pub get_or-some : (xs : List ℕ) (i x : ℕ) → get_elem? xs i ≡ some x → get_or xs i 0 ≡ x
get_or-some [] i x e = cc
get_or-some (y ∷ ys) zero x e = cc
get_or-some (y ∷ ys) (suc i) x e = get_or-some ys i x e

module _ (per_position : List ℕ) (small : All (λ t. t < 2 ^ 32) per_position)
    (fits : length per_position + 2 ^ 16 < 2 ^ 32) where
  abbrev pub n_blocks : ℕ
  n_blocks = (length per_position + 127) / 128

  abbrev pub params : BlockParams
  params = params_of (length per_position) n_blocks

  abbrev pub tokens : List ℕ
  tokens = walk_from per_position 0

  pub few : length tokens ≤ length per_position
  few = omega (arith, length-walk_from per_position 0)

  -- The block `b` is entered at `e`, at the token `off` of the plain walk.
  pub record Entered (b e off : ℕ) : Type 0 where
    pub in_block : e < 128
    pub in_range : b * 128 + e < length per_position
    pub at_token : drop off tokens ≡ walk_from per_position (b * 128 + e)
    pub is_token : off ≤ length tokens

  abbrev pub summary : ℕ → ℕ → ℕ × ℕ
  summary b e = summary_loop 128 per_position (block_end params b) (b * 128 + e) 0

  -- The loops in an entered block.
  pub block-Emits :
      (b e off : ℕ) (walked : List ℕ)
      → Entered b e off
      → length tokens ≤ length walked
      → Emits per_position tokens
          (block_end params b)
          (b * 128 + e)
          off
          0
          walked
          (summary b e)
          (emit_loop 128 per_position (block_end params b) (b * 128 + e) off walked)
  block-Emits b e off walked entered room =
      loops-Emits per_position small fits tokens few (block_end params b) (omega arith) 128
        (b * 128 + e) off 0 walked (omega (arith, entered)) (omega (arith, entered))
        entered.at_token entered.is_token (omega arith) room

  -- The chain has the block `b`: it is not entered, or entered where the plain walk enters it.
  abbrev pub Told : Chain → ℕ → Type 0
  Told c b =
      (c.actual_entry b ≡ 0)
      ⊎ ((e : ℕ) × (c.actual_entry b ≡ e + 1) × Entered b e (c.token_offsets b))

  -- The token `j` lies in an entered block.
  abbrev pub Covered : Chain → ℕ → ℕ → Type 0
  Covered c bs j =
      (b : ℕ) × (e : ℕ) × (b < bs)
      × (c.actual_entry b ≡ e + 1)
      × Entered b e (c.token_offsets b)
      × (c.token_offsets b ≤ j)
      × (j < c.token_offsets b + (summary b e).1)

  -- What holds before block `b`.
  pub record Chained (b : ℕ) (c : Chain) : Type 0 where
    pub at_token : drop c.token_off tokens ≡ walk_from per_position c.cur
    pub is_token : c.token_off ≤ length tokens
    pub reached : min (b * 128) (length per_position) ≤ c.cur
    pub near : c.cur < length per_position + 2 ^ 16
    pub told : (b' : ℕ) → b' < b → Told c b'
    pub covered : (j : ℕ) → j < c.token_off → Covered c b j

  pub start-Chained : Chained 0 start
  start-Chained = record {
    at_token = refl;
    is_token = omega arith;
    reached = omega arith;
    near = omega arith;
    told = λ b' h. absurd (omega arith);
    covered = λ j h. absurd (omega arith);
  }

  -- The chain behind the block `b`, with what is written there.
  abbrev behind : ℕ → Chain → ℕ → ℕ → ℕ → ℕ → Chain
  behind b c entry off cur token_off = record {
    cur = cur;
    token_off = token_off;
    actual_entry = update c.actual_entry b entry;
    token_offsets = update c.token_offsets b off;
  }

  module _ (b : ℕ) (c : Chain) (inv : Chained b c) (entry off : ℕ)
      (here : (entry ≡ 0) ⊎ ((e : ℕ) × (entry ≡ e + 1) × Entered b e off)) where
    Told-behind : (cur token_off b' : ℕ) → b' < suc b → Told (behind b c entry off cur token_off) b'
    Told-behind cur token_off b' h = elim (Bool-cases (b == b')) [
      | inl same ↦ rw same (
          subst (λ i. (entry ≡ 0) ⊎ ((e : ℕ) × (entry ≡ e + 1) × Entered i e off))
            ((==_iff b b').0 same) here)
      | inr other ↦ rw other (inv.told b' (ground (arith, other, h)))
    ]

    Covered-behind :
        (cur token_off j : ℕ)
        → j < c.token_off
        → Covered (behind b c entry off cur token_off) (suc b) j
    Covered-behind cur token_off j h =
        let (b', e, lt, entry', entered, low, high) = inv.covered j h in
        let other : (b == b') ≡ false = ground (arith, lt) in
        (b', e, omega (arith, lt), rw other entry', rw other entered, rw other low, rw other high)

  skipped-Chained :
      (b : ℕ) (c : Chain)
      → Chained b c
      → b * 128 < length per_position
      → (leb (length per_position) c.cur
          || (ltb c.cur (b * 128) || leb (add_u32 (b * 128) 128) c.cur))
        ≡ true
      → Chained (suc b) (behind b c 0 c.token_off c.cur c.token_off)
  skipped-Chained b c inv h skip = record {
    at_token = inv.at_token;
    is_token = inv.is_token;
    reached = ground (arith, skip, h, inv.reached, fits);
    near = inv.near;
    told = Told-behind b c inv 0 c.token_off (inl refl) c.cur c.token_off;
    covered = Covered-behind b c inv 0 c.token_off (inl refl) c.cur c.token_off;
  }

  Entered-Chained :
      (b e : ℕ) (c : Chain)
      → Chained b c
      → c.cur ≡ b * 128 + e
      → (entered : Entered b e c.token_off)
      → (run : Emits per_position tokens
          (block_end params b)
          (b * 128 + e)
          c.token_off
          0
          tokens
          (summary b e)
          (emit_loop 128 per_position (block_end params b) (b * 128 + e) c.token_off tokens))
      → Chained (suc b) (behind b c (e + 1) c.token_off run.cur' (c.token_off + run.k))
  Entered-Chained b e c inv at entered run = record {
    at_token = run.rest;
    is_token = run.inside;
    reached = omega (arith, run.past, fits, entered.in_range);
    near = run.near;
    told = Told-behind b c inv (e + 1) c.token_off new run.cur' (c.token_off + run.k);
    covered = covered;
  }
    where
      new : (e + 1 ≡ 0) ⊎ ((e' : ℕ) × (e + 1 ≡ e' + 1) × Entered b e' c.token_off)
      new = inr (e, refl, entered)

      count : (summary b e).1 ≡ run.k
      count = ap (λ (s : ℕ × ℕ). s.1) run.summarised ∙ omega arith

      self : (b == b) ≡ true
      self = ground arith

      covered :
          (j : ℕ)
          → j < c.token_off + run.k
          → Covered (behind b c (e + 1) c.token_off run.cur' (c.token_off + run.k)) (suc b) j
      covered j h = elim (Bool-cases (ltb j c.token_off)) [
        | inl below ↦
            Covered-behind b c inv (e + 1) c.token_off new run.cur' (c.token_off + run.k) j
              (ground (arith, below))
        | inr above ↦ (
          b,
          e,
          omega arith,
          rw self refl,
          rw self entered,
          rw self (ground (arith, above)),
          rw self (omega (arith, h, count)),
        )
      ]

  module _ (exit_table count_table : List ℕ)
      (exits : (b e : ℕ)
        → e < 128
        → b * 128 + e < length per_position
        → get_or exit_table (b * 128 + e) 0 ≡ (summary b e).0 - b * 128)
      (counts : (b e : ℕ)
        → e < 128
        → b * 128 + e < length per_position
        → get_or count_table (b * 128 + e) 0 ≡ (summary b e).1) where
    chain_block-Chained :
        (b : ℕ) (c : Chain)
        → b < n_blocks
        → Chained b c
        → Chained (suc b) (chain_block params exit_table count_table b c)
    unfolding chain_block
    chain_block-Chained b c h inv =
        elim (Bool-cases (
          leb (length per_position) c.cur
          || (ltb c.cur (b * 128) || leb (add_u32 (b * 128) 128) c.cur))) [
            | inl skip ↦ rw skip (skipped-Chained b c inv (omega (arith, h)) skip)
            | inr go ↦
                let lower : b * 128 ≤ c.cur = ground (arith, go) in
                let upper : c.cur < b * 128 + 128 = ground (arith, go, h, fits) in
                let inside : c.cur < length per_position = ground (arith, go) in
                let at : c.cur ≡ b * 128 + (c.cur - b * 128) = omega (arith, lower) in
                let entered : Entered b (c.cur - b * 128) c.token_off = record {
                  in_block = omega (arith, upper, lower);
                  in_range = omega (arith, inside, lower);
                  at_token = inv.at_token ∙ ap (walk_from per_position) at;
                  is_token = inv.is_token;
                } in
                let run =
                  block-Emits b (c.cur - b * 128) c.token_off tokens entered (omega arith) in
                let at_idx : add_u32 (b * 128) (c.cur - b * 128) ≡ b * 128 + (c.cur - b * 128) =
                  omega (arith, inside, fits, lower) in
                let summarised : summary b (c.cur - b * 128) ≡ (run.cur', 0 + run.k) =
                  run.summarised in
                let exit : get_or exit_table (add_u32 (b * 128) (c.cur - b * 128)) 0
                    ≡ run.cur' - b * 128 =
                  ap (λ i. get_or exit_table i 0) at_idx
                  ∙ exits b (c.cur - b * 128) entered.in_block entered.in_range
                  ∙ ap (λ (s : ℕ × ℕ). s.0 - b * 128) summarised in
                let count : get_or count_table (add_u32 (b * 128) (c.cur - b * 128)) 0 ≡ 0 + run.k =
                  ap (λ i. get_or count_table i 0) at_idx
                  ∙ counts b (c.cur - b * 128) entered.in_block entered.in_range
                  ∙ ap (λ (s : ℕ × ℕ). s.1) summarised in
                let new_cur : add_u32 (b * 128)
                      (get_or exit_table (add_u32 (b * 128) (c.cur - b * 128)) 0)
                    ≡ run.cur' =
                  omega (arith, exit, run.past, run.near, fits, lower, inside) in
                let new_off : add_u32 c.token_off
                      (get_or count_table (add_u32 (b * 128) (c.cur - b * 128)) 0)
                    ≡ c.token_off + run.k =
                  omega (arith, count, run.inside, few, fits) in
                let new_entry : add_u32 (c.cur - b * 128) 1 ≡ c.cur - b * 128 + 1 =
                  omega (arith, inside, fits) in
                rw (go, new_cur, new_off, new_entry)
                  (Entered-Chained b (c.cur - b * 128) c inv at entered run)
          ]

    pub chain_blocks-Chained :
        (left b : ℕ) (c : Chain)
        → b + left ≡ n_blocks
        → Chained b c
        → Chained n_blocks (chain_blocks params exit_table count_table left b c)
    unfolding chain_blocks
    chain_blocks-Chained zero b c e inv = subst (λ k. Chained k c) {x = b} (omega arith) inv
    chain_blocks-Chained (suc left) b c e inv =
        chain_blocks-Chained left (b + 1) (chain_block params exit_table count_table b c)
          (omega arith)
          (subst (λ k. Chained k (chain_block params exit_table count_table b c)) {x = suc b}
            (omega arith) (chain_block-Chained b c (omega arith) inv))
