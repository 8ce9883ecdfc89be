-- ===== src/Parallel/Inv.antt =====
-- The invariant of the writer while no chunk and no write fails: what is written, what waits in
-- `pending` and what the workers still have are together the chunks that were dispatched.
use gpzip.Prelude.{
  Bool, true, ℕ, suc, ◌^◌, ◌≤◌, ◌<◌, ◌≡◌, refl, ap, sym, ◌∙◌, ◌⊎◌, inl, inr, Option, none, some,
  ◌>>=◌, List, ◌++◌, length, get_elem?, take, All, arith, append_assoc, take-suc, length-take,
  get_elem?-some_lt,
}
use native.Mathlib.Decide.{ℕ_discrete}
use gpzip.Parallel.State.{Env, Writer, next_u32, arrive, stash}
use gpzip.Parallel.Pending.{
  Pending, pending_at, insert, remove, insert_self, insert_ne, remove_self, remove_ne,
}
use gpzip.Parallel.Jobs.{HasJob, IsJob, Takes}
use gpzip.Parallel.Accepts.{Accepts, members, members-append, some_of_bind}

module _ {E Out : Type 0} {env : Env E Out} (a : Accepts env) (start : List ℕ) (size cap : ℕ)
    (flag : Bool) where
  -- The bytes that are to come for the chunk `i`.
  abbrev pub expected : List (List ℕ) → ℕ → Option (List ℕ)
  expected chunks i = get_elem? chunks i >>= λ c. some (a.member i c)

  -- `chunks` are those dispatched so far, `current` is the buffer.
  pub record Inv (chunks : List (List ℕ)) (current : List ℕ) (w : Writer E Out) : Type 0 where
    pub buffer : w.current ≡ current
    pub sizes : (w.chunk_size ≡ size) × (w.max_in_flight ≡ cap)
    pub next : w.next_index ≡ length chunks
    pub small : length chunks < 2 ^ 32
    pub behind : w.write_index ≤ length chunks
    pub written : a.contents w.output ≡ start ++ members a.member 0 (take w.write_index chunks)
    pub stashed :
        (i : ℕ) → (pending_at i w.pending ≡ none) ⊎ (pending_at i w.pending ≡ expected chunks i)
    pub jobs : All (IsJob chunks) w.workers
    pub counted : w.in_flight ≡ length w.workers
    pub covered :
        (i : ℕ)
        → w.write_index ≤ i
        → i < length chunks
        → (pending_at i w.pending ≡ expected chunks i) ⊎ HasJob i w.workers
    pub no_error : w.sticky_err ≡ none
    pub flagged : w.finalized ≡ flag

  -- A result that comes in goes from the workers to `pending`.
  pub stash-Inv :
      (chunks : List (List ℕ)) (current : List ℕ) (w : Writer E Out) (i : ℕ) (chunk : List ℕ)
      (workers : List (ℕ × List ℕ)) (schedule : List ℕ)
      → Inv chunks current w
      → Takes w.workers (i, chunk) workers
      → Inv chunks current (stash i (a.member i chunk) (arrive workers schedule w))
  stash-Inv chunks current w i chunk workers schedule v t = record {
    buffer = v.buffer;
    sizes = v.sizes;
    next = v.next;
    small = v.small;
    behind = v.behind;
    written = v.written;
    stashed = stashed;
    jobs = (t.jobs chunks v.jobs).1;
    counted = omega (arith, v.counted, t.one_less);
    covered = λ j lo hi. still j (v.covered j lo hi);
    no_error = v.no_error;
    flagged = v.flagged;
  }
    where
      come : Pending
      come = insert i (a.member i chunk) w.pending

      here : (j : ℕ) → j ≡ i → pending_at j come ≡ expected chunks j
      here j e =
          insert_self i (a.member i chunk) w.pending j e
          ∙ sym (ap (expected chunks) e ∙ rw ((t.jobs chunks v.jobs).0) refl)

      stashed : (j : ℕ) → (pending_at j come ≡ none) ⊎ (pending_at j come ≡ expected chunks j)
      stashed j = elim (ℕ_discrete j i) [
        | yes e ↦ inr (here j e)
        | no h ↦ rw (insert_ne i (a.member i chunk) w.pending j h) (v.stashed j)
      ]

      still :
          (j : ℕ)
          → (pending_at j w.pending ≡ expected chunks j) ⊎ HasJob j w.workers
          → (pending_at j come ≡ expected chunks j) ⊎ HasJob j workers
      still j (inl e) = elim (ℕ_discrete j i) [
        | yes h ↦ inl (here j h)
        | no h ↦ inl (insert_ne i (a.member i chunk) w.pending j h ∙ e)
      ]
      still j (inr h) = elim (t.keeps j h) [ inl e ↦ inl (here j e) | inr h' ↦ inr h' ]

  -- The chunk whose turn it is, once written, is out of `pending`.
  pub step-Inv :
      (chunks : List (List ℕ)) (current : List ℕ) (w : Writer E Out) (bytes : List ℕ)
      → Inv chunks current w
      → pending_at w.write_index w.pending ≡ some bytes
      → Inv chunks current (record w {
        pending = remove w.write_index w.pending;
        output = (env.write_all w.output bytes).0;
        write_index = next_u32 w.write_index;
      })
        × (w.write_index < length chunks)
        × (next_u32 w.write_index ≡ suc w.write_index)
  step-Inv chunks current w bytes v e =
      let (c, at, same) = some_of_bind (get_elem? chunks wi) (a.member wi) bytes here in
      go c at same (get_elem?-some_lt wi chunks c at)
    where
      wi : ℕ
      wi = w.write_index

      here : expected chunks wi ≡ some bytes
      here = elim (v.stashed wi) [ inl k ↦ search (k, e) | inr k ↦ sym k ∙ e ]

      written :
          (c : List ℕ)
          → get_elem? chunks wi ≡ some c
          → bytes ≡ a.member wi c
          → wi < length chunks
          → a.contents (env.write_all w.output bytes).0
            ≡ start ++ members a.member 0 (take (suc wi) chunks)
      written c at same inside =
          a.contents-write w.output bytes
          ∙ ap (λ t. t ++ bytes) v.written
          ∙ append_assoc start (members a.member 0 (take wi chunks)) bytes
          ∙ ap (λ t. start ++ t)
              (ap (λ t. members a.member 0 (take wi chunks) ++ t) same
                ∙ sym (
                    members-append a.member 0 wi (take wi chunks) c
                      (omega (arith, length-take wi chunks, inside)))
                ∙ ap (members a.member 0) (take-suc wi chunks c at))

      stashed :
          (i : ℕ)
          → (pending_at i (remove wi w.pending) ≡ none)
            ⊎ (pending_at i (remove wi w.pending) ≡ expected chunks i)
      stashed i = elim (ℕ_discrete i wi) [
        | yes h ↦ inl (remove_self wi w.pending i h)
        | no h ↦ rw (remove_ne wi w.pending i h) (v.stashed i)
      ]

      covered :
          (i : ℕ)
          → suc wi ≤ i
          → i < length chunks
          → (pending_at i (remove wi w.pending) ≡ expected chunks i) ⊎ HasJob i w.workers
      covered i lo hi =
          rw (remove_ne wi w.pending i (omega (arith, lo))) (v.covered i (omega (arith, lo)) hi)

      go :
          (c : List ℕ)
          → get_elem? chunks wi ≡ some c
          → bytes ≡ a.member wi c
          → wi < length chunks
          → Inv chunks current (record w {
            pending = remove w.write_index w.pending;
            output = (env.write_all w.output bytes).0;
            write_index = next_u32 w.write_index;
          })
            × (wi < length chunks)
            × (next_u32 wi ≡ suc wi)
      go c at same inside =
          let next : next_u32 wi ≡ suc wi = omega (arith, inside, v.small) in
          (
            record {
              buffer = v.buffer;
              sizes = v.sizes;
              next = v.next;
              small = v.small;
              behind = omega (arith, next, inside);
              written = rw next (written c at same inside);
              stashed = stashed;
              jobs = v.jobs;
              counted = v.counted;
              covered = λ i lo. covered i (omega (arith, next, lo));
              no_error = v.no_error;
              flagged = v.flagged;
            },
            inside,
            next,
          )

  -- The schedule changes, and the buffer fills.
  pub fill-Inv :
      (chunks : List (List ℕ)) (current : List ℕ) (w : Writer E Out) (schedule : List ℕ)
      (filled : List ℕ)
      → Inv chunks current w
      → Inv chunks filled (record w { schedule = schedule; current = filled })
  fill-Inv chunks current w schedule filled v = record {
    buffer = refl;
    sizes = v.sizes;
    next = v.next;
    small = v.small;
    behind = v.behind;
    written = v.written;
    stashed = v.stashed;
    jobs = v.jobs;
    counted = v.counted;
    covered = v.covered;
    no_error = v.no_error;
    flagged = v.flagged;
  }

  -- A look that finds nothing changes the schedule alone.
  pub look-Inv :
      (chunks : List (List ℕ)) (current : List ℕ) (w : Writer E Out) (schedule : List ℕ)
      → Inv chunks current w
      → Inv chunks current (record w { schedule = schedule })
  look-Inv chunks current w schedule v = record {
    buffer = v.buffer;
    sizes = v.sizes;
    next = v.next;
    small = v.small;
    behind = v.behind;
    written = v.written;
    stashed = v.stashed;
    jobs = v.jobs;
    counted = v.counted;
    covered = v.covered;
    no_error = v.no_error;
    flagged = v.flagged;
  }

-- `finalize` sets the flag.
pub close-Inv :
    {E Out : Type 0} {env : Env E Out} (a : Accepts env) (start : List ℕ) (size cap : ℕ)
    (flag : Bool) (chunks : List (List ℕ)) (current : List ℕ) (w : Writer E Out)
    → Inv a start size cap flag chunks current w
    → Inv a start size cap true chunks current (record w { finalized = true })
close-Inv a start size cap flag chunks current w v = record {
  buffer = v.buffer;
  sizes = v.sizes;
  next = v.next;
  small = v.small;
  behind = v.behind;
  written = v.written;
  stashed = v.stashed;
  jobs = v.jobs;
  counted = v.counted;
  covered = v.covered;
  no_error = v.no_error;
  flagged = refl;
}
