-- ===== src/Gpu/WalkEmit.antt =====
-- The emission of the walk by blocks: in any order of the blocks, every token of the plain walk ends up
-- in its place.
use gpzip.Prelude.{
  ℕ, zero, suc, ◌+◌, ◌-◌, ◌*◌, ◌^◌, ◌≤◌, ◌<◌, ◌≡◌, refl, ap, ◌∙◌, ◌==◌, leb, ◌||◌, true, false,
  List, [], ◌∷◌, length, get_elem?, drop, take, All, arith, Bool-cases, inl, inr, some,
}
use mathlib.Core.Option.{some-injective}
use gpzip.Gpu.Buffer.{add_u32, Runs}
use gpzip.Gpu.Walk.{BlockParams, Chain, block_emit, emit_all}
use gpzip.Gpu.WalkLoop.{Right, walk_from-le}
use gpzip.Gpu.WalkChain.{n_blocks, params, tokens, Entered, summary, block-Emits, Told, Chained}

pub none_left : (xs : List ℕ) (i : ℕ) → i ≤ length xs → drop i xs ≡ [] → i ≡ length xs
none_left [] i h e = omega arith
none_left (x ∷ xs) zero h e = absurd cc
none_left (x ∷ xs) (suc i) h e = ap suc (none_left xs i (omega arith) e)

runs_on : (n b entry e : ℕ) → b < n → entry ≡ e + 1 → (leb n b || (entry == 0)) ≡ false
runs_on n b entry e h same = ground arith

-- Lists that agree at every place of the second.
pub take-Right :
    (tokens walked : List ℕ)
    → length tokens ≤ length walked
    → ((j : ℕ) → j < length tokens → Right tokens walked j)
    → take (length tokens) walked ≡ tokens
take-Right [] walked h right = refl
take-Right (t ∷ ts) [] h right = absurd (omega arith)
take-Right (t ∷ ts) (w ∷ ws) h right =
    ap (λ x. x ∷ take (length ts) ws) (some-injective _ _ (right 0 (omega arith)))
    ∙ ap (λ xs. t ∷ xs) (take-Right ts ws (omega arith) (λ j lt. right (suc j) (omega arith)))

module _ (per_position : List ℕ) (small : All (λ t. t < 2 ^ 32) per_position)
    (fits : length per_position + 2 ^ 16 < 2 ^ 32) (c : Chain)
    (inv : Chained per_position small fits (n_blocks per_position small fits) c) where
  abbrev chosen : List ℕ
  chosen = tokens per_position small fits

  abbrev ps : BlockParams
  ps = params per_position small fits

  -- Every token of the plain walk is counted.
  pub token_off-all : c.token_off ≡ length chosen
  token_off-all =
      none_left chosen c.token_off inv.is_token
        (inv.at_token ∙ walk_from-le per_position c.cur (omega (arith, inv.reached)))

  -- What a workgroup of the emission does to `walked`.
  abbrev Kept : List ℕ → List ℕ → Type 0
  Kept walked walked' =
      (length walked' ≡ length walked) × ((j : ℕ) → Right chosen walked j → Right chosen walked' j)

  -- In an entered block the workgroup runs the loop.
  emits :
      (b e : ℕ) (walked : List ℕ)
      → b < n_blocks per_position small fits
      → c.actual_entry b ≡ e + 1
      → Entered per_position small fits b e (c.token_offsets b)
      → length chosen ≤ length walked
      → (Kept walked (block_emit per_position ps c b walked))
        × ((j : ℕ)
            → c.token_offsets b ≤ j
            → j < c.token_offsets b + (summary per_position small fits b e).1
            → Right chosen (block_emit per_position ps c b walked) j)
  unfolding block_emit
  emits b e walked h same entered room =
      let run = block-Emits per_position small fits b e (c.token_offsets b) walked entered room in
      let summarised : summary per_position small fits b e ≡ (run.cur', 0 + run.k) =
        run.summarised in
      let count : (summary per_position small fits b e).1 ≡ run.k =
        ap (λ (s : ℕ × ℕ). s.1) summarised ∙ omega arith in
      let go : (leb (n_blocks per_position small fits) b || (c.actual_entry b == 0)) ≡ false =
        runs_on (n_blocks per_position small fits) b (c.actual_entry b) e h same in
      let place : add_u32 (b * 128) (c.actual_entry b - 1) ≡ b * 128 + e =
        omega (arith, same, entered.in_range, fits) in
      rw (go, place)
        ((run.same_length, run.kept), λ j low high. run.written j low (omega (arith, high, count)))

  block_emit-Kept :
      (b : ℕ) (walked : List ℕ)
      → length chosen ≤ length walked
      → Kept walked (block_emit per_position ps c b walked)
  unfolding block_emit
  block_emit-Kept b walked room =
      elim (Bool-cases (leb (n_blocks per_position small fits) b || (c.actual_entry b == 0))) [
        | inl skip ↦ rw skip (refl, λ j right. right)
        | inr go ↦ visited (inv.told b (ground (arith, go)))
      ]
    where
      visited :
          Told per_position small fits c b → Kept walked (block_emit per_position ps c b walked)
      visited (inl none) =
          let skip : (leb (n_blocks per_position small fits) b || (c.actual_entry b == 0)) ≡ true =
            ground (arith, none) in
          rw skip (refl, λ j right. right)
      visited (inr (e, same, entered)) =
          elim (Bool-cases (leb (n_blocks per_position small fits) b)) [
            | inl out ↦ rw out (refl, λ j right. right)
            | inr inside ↦ (emits b e walked (ground (arith, inside)) same entered room).0
          ]

  emit_all-Kept :
      (order : List ℕ) (walked : List ℕ)
      → length chosen ≤ length walked
      → Kept walked (emit_all per_position ps c order walked)
  unfolding emit_all
  emit_all-Kept [] walked room = (refl, λ j right. right)
  emit_all-Kept (b ∷ order) walked room =
      let (same, kept) = block_emit-Kept b walked room in
      let (same', kept') =
        emit_all-Kept order (block_emit per_position ps c b walked) (omega (arith, same, room)) in
      (same' ∙ same, λ j right. kept' j (kept j right))

  emit_all-Right :
      (order : List ℕ) (i j b e : ℕ) (walked : List ℕ)
      → get_elem? order i ≡ some b
      → b < n_blocks per_position small fits
      → c.actual_entry b ≡ e + 1
      → Entered per_position small fits b e (c.token_offsets b)
      → c.token_offsets b ≤ j
      → j < c.token_offsets b + (summary per_position small fits b e).1
      → length chosen ≤ length walked
      → Right chosen (emit_all per_position ps c order walked) j
  unfolding emit_all
  emit_all-Right [] i j b e walked at h same entered low high room = cc
  emit_all-Right (b' ∷ order) zero j b e walked at h same entered low high room =
      let here : b' ≡ b = some-injective _ _ at in
      let (kept, right) = emits b e walked h same entered room in
      rw here (
        (emit_all-Kept order (block_emit per_position ps c b walked)
            (omega (arith, kept.0, room))).1
          j (right j low high))
  emit_all-Right (b' ∷ order) (suc i) j b e walked at h same entered low high room =
      emit_all-Right order i j b e (block_emit per_position ps c b' walked) at h same entered low
        high (omega (arith, (block_emit-Kept b' walked room).0, room))

  -- Whatever the order of the workgroups, the plain walk is what is read.
  pub emit_all-walk_from :
      (order : List ℕ) (walked : List ℕ)
      → Runs (n_blocks per_position small fits) order
      → length chosen ≤ length walked
      → take c.token_off (emit_all per_position ps c order walked) ≡ chosen
  emit_all-walk_from order walked runs room =
      ap (λ k. take k (emit_all per_position ps c order walked)) token_off-all
      ∙ take-Right chosen (emit_all per_position ps c order walked)
          (omega (arith, (emit_all-Kept order walked room).0, room)) right
    where
      right : (j : ℕ) → j < length chosen → Right chosen (emit_all per_position ps c order walked) j
      right j h =
          let (b, e, lt, same, entered, low, high) =
            inv.covered j (omega (arith, h, token_off-all)) in
          let (i, at) = runs b lt in
          emit_all-Right order i j b e walked at lt same entered low high room
