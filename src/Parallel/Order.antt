-- ===== src/Parallel/Order.antt =====
-- A client's whole use of the writer: some calls of `write`, then `finalize`.
use gpzip.Prelude.{
  ℕ, ◌-◌, ◌*◌, ◌^◌, ◌≤◌, ◌<◌, ◌≡◌, refl, ap, sym, ◌∙◌, subst, List, [], ◌∷◌, ◌++◌, length, All,
  arith, append_assoc, append-nil, length-append,
}
use gpzip.Parallel.State.{Env, Writer, Reply, done, failed, blocked, new}
use gpzip.Parallel.Ops.{finalize, write}
use gpzip.Parallel.Accepts.{Accepts, members}
use gpzip.Parallel.Finish.{last_chunk, Writes, finalize-Writes}
use gpzip.Parallel.Cut.{concat, concat-append, Short, few}
use gpzip.Parallel.Correct.{Took, TakesAll, write-TakesAll, new-Took}

-- The calls of `write`, up to the first that fails.
unfoldable pub write_each :
    {E Out : Type 0} → Env E Out → List (List ℕ) → Writer E Out → Writer E Out × Reply E (Unit {0})
write_each env [] w = (w, done tt)
write_each env (buf ∷ bufs) w =
    let (w', res) = write env buf w in
    elim res [
      | done count ↦ write_each env bufs w'
      | failed e ↦ (w', failed e)
      | blocked ↦ (w', blocked)
    ]

-- All chunks have `size` bytes, but the last, which has at least one and no more.
abbrev pub Sizes : ℕ → List (List ℕ) → Type 0
Sizes size [] = Unit {0}
Sizes size (c ∷ []) = (0 < length c) × (length c ≤ size)
Sizes size (c ∷ d ∷ cs) = (length c ≡ size) × Sizes size (d ∷ cs)

pub record IsSplit (size : ℕ) (input : List ℕ) (chunks : List (List ℕ)) : Type 0 where
  pub joined : concat chunks ≡ input
  pub sizes : Sizes size chunks

Sizes-full :
    (size : ℕ) (chunks : List (List ℕ))
    → 0 < size
    → All (λ c. length c ≡ size) chunks
    → Sizes size chunks
Sizes-full size [] pos h = tt
Sizes-full size (c ∷ []) pos (h, hs) = (omega (arith, h, pos), omega (arith, h))
Sizes-full size (c ∷ d ∷ cs) pos (h, hs) = (h, Sizes-full size (d ∷ cs) pos hs)

Sizes-append :
    (size : ℕ) (chunks : List (List ℕ)) (c : List ℕ)
    → All (λ c. length c ≡ size) chunks
    → 0 < length c
    → length c ≤ size
    → Sizes size (chunks ++ (c ∷ []))
Sizes-append size [] c h lo hi = (lo, hi)
Sizes-append size (d ∷ []) c (h, hs) lo hi = (h, (lo, hi))
Sizes-append size (d ∷ e ∷ ds) c (h, hs) lo hi = (h, Sizes-append size (e ∷ ds) c hs lo hi)

module _ {E Out : Type 0} {env : Env E Out} (a : Accepts env) (start : List ℕ) (size cap : ℕ)
    (pos : 0 < size) (pos' : 0 < cap) where
  write_each-Took :
      (bufs : List (List ℕ)) (input : List ℕ) (w : Writer E Out)
      → Took a start size cap pos pos' input w
      → Short size pos (input ++ concat bufs)
      → ((write_each env bufs w).1 ≡ done tt)
        × Took a start size cap pos pos' (input ++ concat bufs) (write_each env bufs w).0
  unfolding write_each concat TakesAll
  write_each-Took [] input w t short =
      (refl, subst (λ i. Took a start size cap pos pos' i w) (sym (append-nil input)) t)
  write_each-Took (buf ∷ bufs) input w t short =
      let (res, t') = write-TakesAll a start size cap pos pos' buf input w t (
        omega (
          arith,
          short,
          length-append input (buf ++ concat bufs),
          length-append input buf,
          length-append buf (concat bufs),
        )) in
      rw (res, write_each)
        (subst (λ i. After i) (append_assoc input buf (concat bufs))
          (write_each-Took bufs (input ++ buf) (write env buf w).0 t'
            (subst (λ i. Short size pos i) (sym (append_assoc input buf (concat bufs))) short)))
    where
      After : List ℕ → Type 0
      After i =
          ((write_each env bufs (write env buf w).0).1 ≡ done tt)
          × Took a start size cap pos pos' i (write_each env bufs (write env buf w).0).0

  last_chunk-IsSplit :
      (input : List ℕ) (chunks : List (List ℕ)) (current : List ℕ)
      → concat chunks ++ current ≡ input
      → All (λ c. length c ≡ size) chunks
      → length current < size
      → IsSplit size input (last_chunk chunks current)
  last_chunk-IsSplit input chunks [] joined full room = record {
    joined = sym (append-nil (concat chunks)) ∙ joined;
    sizes = Sizes-full size chunks pos full;
  }
  last_chunk-IsSplit input chunks (b ∷ bs) joined full room = record {
    joined = concat-append chunks (b ∷ bs) ∙ joined;
    sizes = Sizes-append size chunks (b ∷ bs) full (omega arith) (omega (arith, room));
  }

  finalize-Took :
      (input : List ℕ) (w : Writer E Out)
      → Took a start size cap pos pos' input w
      → Short size pos input
      → (chunks : List (List ℕ)) × IsSplit size input chunks
        × Writes a start size cap pos' chunks (finalize env w)
  finalize-Took input w t short = (
    last_chunk t.chunks w.current,
    last_chunk-IsSplit input t.chunks w.current t.cut.joined t.cut.full t.cut.room,
    finalize-Writes a start size cap pos' t.chunks w.current w t.ready (
        few size pos t.chunks t.cut.full (
          omega (arith, short, length-append (concat t.chunks) w.current, ap length t.cut.joined))),
  )

module _ {E Out : Type 0} {env : Env E Out} (a : Accepts env) where
  -- With an environment in which every chunk compresses and every write succeeds, chunk size and
  -- capacity above 0 and an input short enough for the u32 index: on every schedule, all the calls of
  -- `write` and the `finalize` behind them return and succeed, and the output grows by the members of
  -- the input's chunks, in input order, where all chunks are full but the last.
  pub finalize-write_each :
      (o : Out) (size cap : ℕ) (schedule : List ℕ) (bufs : List (List ℕ))
      → 0 < size
      → 0 < cap
      → length (concat bufs) < size * (2 ^ 32 - 1)
      → (chunks : List (List ℕ)) × IsSplit size (concat bufs) chunks
        × ((write_each env bufs (new o size cap schedule)).1 ≡ done tt)
        × ((finalize env (write_each env bufs (new o size cap schedule)).0).1 ≡ done tt)
        × (a.contents (finalize env (write_each env bufs (new o size cap schedule)).0).0.output
            ≡ a.contents o ++ members a.member 0 chunks)
  unfolding Writes
  finalize-write_each o size cap schedule bufs pos pos' short =
      let start : List ℕ = a.contents o in
      let (wrote, t) =
        write_each-Took a start size cap pos pos' bufs [] (new o size cap schedule)
          (new-Took a start size cap pos pos' o schedule refl) short in
      let (chunks, split, (res, out)) =
        finalize-Took a start size cap pos pos' (concat bufs)
          (write_each env bufs (new o size cap schedule)).0 t short in
      (chunks, split, wrote, res, out)
