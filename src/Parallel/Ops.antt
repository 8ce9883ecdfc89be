-- ===== src/Parallel/Ops.antt =====
-- The operations of `ParallelChunkedWriter` (crates/gpzip-codec-cpu/src/parallel.rs). A worker's run is
-- `chunk_fn` at the chunk's index and bytes, so that it may depend on when and where it runs.
use gpzip.Prelude.{
  ℕ, zero, suc, ◌+◌, ◌-◌, ◌==◌, leb, ltb, min, if◌then◌else◌, true, false, none, some, List, [],
  ◌∷◌, ◌++◌, length, take, drop, ok, err,
}
use gpzip.Parallel.Channel.{receive, try_receive}
use gpzip.Parallel.Pending.{pending_at, remove}
use gpzip.Parallel.State.{
  Env, Writer, Reply, done, failed, blocked, next_u32, record_err, check_sticky, arrive, stash,
}

-- `?` and `return Err(..)`: what follows runs only behind a success.
abbrev pub and_then :
    {E Out A : Type 0}
    → Writer E Out × Reply E (Unit {0})
    → (Writer E Out → Writer E Out × Reply E A)
    → Writer E Out × Reply E A
and_then (w, done u) next = next w
and_then (w, failed e) next = (w, failed e)
and_then (w, blocked) next = (w, blocked)

-- `let _ = ..`: what follows runs behind an error too.
abbrev pub regardless :
    {E Out A : Type 0}
    → Writer E Out × Reply E (Unit {0})
    → (Writer E Out → Writer E Out × Reply E A)
    → Writer E Out × Reply E A
regardless (w, done u) next = next w
regardless (w, failed e) next = next w
regardless (w, blocked) next = (w, blocked)

module _ {E Out : Type 0} (env : Env E Out) where
  -- `while let Some(bytes) = pending.remove(&write_index)`. A spent fuel is `blocked`, in every loop here.
  unfoldable pub write_pending_loop : ℕ → Writer E Out → Writer E Out × Reply E (Unit {0})
  write_pending_loop zero w = (w, blocked)
  write_pending_loop (suc fuel) w = elim (pending_at w.write_index w.pending) [
    | none ↦ (w, done tt)
    | some bytes ↦
        let (output, res) = env.write_all w.output bytes in
        let removed = record w { pending = remove w.write_index w.pending; output = output } in
        elim res [
          | some e ↦ (removed, failed e)
          | none ↦ write_pending_loop fuel (record removed { write_index = next_u32 w.write_index })
        ]
  ]

  -- Every round but the last takes an entry out of `pending`.
  unfoldable pub write_pending : Writer E Out → Writer E Out × Reply E (Unit {0})
  write_pending w = write_pending_loop (suc (length w.pending)) w

  -- The loop of `drain_ready` and the write behind it. The loops that take results in have fuel for a
  -- round more than there are jobs.
  unfoldable pub drain_ready_loop : ℕ → Writer E Out → Writer E Out × Reply E (Unit {0})
  drain_ready_loop zero w = (w, blocked)
  drain_ready_loop (suc fuel) w =
      let (got, schedule) = try_receive w.workers w.schedule in
      elim got [
        | none ↦ write_pending (record w { schedule = schedule })
        | some ((i, chunk), workers) ↦ elim (env.chunk_fn i chunk) [
          | ok bytes ↦ drain_ready_loop fuel (stash i bytes (arrive workers schedule w))
          | err e ↦ (arrive workers schedule w, failed e)
        ]
      ]

  unfoldable pub drain_ready : Writer E Out → Writer E Out × Reply E (Unit {0})
  drain_ready w = drain_ready_loop (suc (length w.workers)) w

  -- `return Err(self.record(e))` on an error.
  unfoldable pub recording : Writer E Out × Reply E (Unit {0}) → Writer E Out × Reply E (Unit {0})
  recording (w, done u) = (w, done u)
  recording (w, failed e) = (record_err e w, failed e)
  recording (w, blocked) = (w, blocked)

  -- `while in_flight >= max_in_flight`.
  unfoldable pub wait_loop : ℕ → Writer E Out → Writer E Out × Reply E (Unit {0})
  wait_loop zero w = (w, blocked)
  wait_loop (suc fuel) w = elim (leb w.max_in_flight w.in_flight) [
    | false ↦ (w, done tt)
    | true ↦ elim (receive w.workers w.schedule) [
      | none ↦ (w, blocked)
      | some ((i, chunk), workers, schedule) ↦ elim (env.chunk_fn i chunk) [
        | err e ↦ recording (arrive workers schedule w, failed e)
        | ok bytes ↦
            and_then (recording (write_pending (stash i bytes (arrive workers schedule w))))
              (wait_loop fuel)
      ]
    ]
  ]

  -- The part of `dispatch_current` behind its two early returns: the buffer goes to a new worker.
  abbrev pub spawn : Writer E Out → Writer E Out
  spawn w = record w {
    next_index = next_u32 w.next_index;
    current = [];
    workers = w.workers ++ ((w.next_index, w.current) ∷ []);
    in_flight = w.in_flight + 1;
  }

  unfoldable pub dispatch_chunk : Writer E Out → Writer E Out × Reply E (Unit {0})
  dispatch_chunk w =
      and_then (recording (drain_ready (spawn w))) (λ w'. wait_loop (suc w'.in_flight) w')

  unfoldable pub dispatch_current : Writer E Out → Writer E Out × Reply E (Unit {0})
  dispatch_current w = elim w.sticky_err [
    | some e ↦ (w, failed e)
    | none ↦ if length w.current == 0 then (w, done tt) else dispatch_chunk w
  ]

  -- The loop of `finalize`: every outstanding result is received, and errors are only recorded.
  unfoldable pub collect_loop : ℕ → Writer E Out → Writer E Out × Reply E (Unit {0})
  collect_loop zero w = (w, blocked)
  collect_loop (suc fuel) w = elim (ltb 0 w.in_flight) [
    | false ↦ (w, done tt)
    | true ↦ elim (receive w.workers w.schedule) [
      | none ↦ (w, blocked)
      | some ((i, chunk), workers, schedule) ↦ elim (env.chunk_fn i chunk) [
        | err e ↦ collect_loop fuel (record_err e (arrive workers schedule w))
        | ok bytes ↦
            collect_loop fuel
              (recording (write_pending (stash i bytes (arrive workers schedule w)))).0
      ]
    ]
  ]

  -- The last part of `finalize`: flush, and report the first error there ever was.
  unfoldable pub flush_and_check : Writer E Out → Writer E Out × Reply E (Unit {0})
  flush_and_check w =
      let (output, res) = env.flush w.output in
      let w' : Writer E Out = elim res [
        | none ↦ record w { output = output }
        | some e ↦ record_err e (record w { output = output })
      ] in
      (w', check_sticky w')

  unfoldable pub finalize : Writer E Out → Writer E Out × Reply E (Unit {0})
  finalize w =
      if w.finalized
      then (w, check_sticky w)
      else regardless (dispatch_current (record w { finalized = true }))
          (λ w₁. regardless (collect_loop (suc w₁.in_flight) w₁) flush_and_check)

  -- The loop of `write` over what is left of `buf`, with the bytes written so far. A round takes a
  -- byte at least, but for a first round that finds the buffer full.
  unfoldable pub write_loop : ℕ → List ℕ → ℕ → Writer E Out → Writer E Out × Reply E ℕ
  write_loop fuel [] written w = (w, done written)
  write_loop zero (b ∷ bs) written w = (w, blocked)
  write_loop (suc fuel) (b ∷ bs) written w =
      let count = min (length (b ∷ bs)) (w.chunk_size - length w.current) in
      let filled = record w { current = w.current ++ take count (b ∷ bs) } in
      elim (leb w.chunk_size (length filled.current)) [
        | false ↦ write_loop fuel (drop count (b ∷ bs)) (written + count) filled
        | true ↦
            and_then (dispatch_current filled)
              (write_loop fuel (drop count (b ∷ bs)) (written + count))
      ]

  -- `Write::write`. The sticky error is taken out.
  unfoldable pub write : List ℕ → Writer E Out → Writer E Out × Reply E ℕ
  write buf w = elim w.sticky_err [
    | some e ↦ (record w { sticky_err = none }, failed e)
    | none ↦ write_loop (suc (length buf)) buf 0 w
  ]
