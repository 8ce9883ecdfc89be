-- ===== src/Parallel/Tests.antt =====
-- Runs of the writer, and the theorems at concrete writers. A chunk's member is its length in front
-- of its bytes, and the byte 255 makes a chunk fail.
use gpzip.Prelude.{
  ℕ, ◌≡◌, refl, List, [], ◌∷◌, ◌++◌, length, arith, ok, err, Result, none, some, if◌then◌else◌,
  ◌==◌,
}
use gpzip.Parallel.Channel.{take_job, receive, try_receive}
use gpzip.Parallel.Pending.{pending_at, insert, remove}
use gpzip.Parallel.State.{Env, Writer, done, failed, new, record_err, check_sticky}
use gpzip.Parallel.Ops.{
  write_pending_loop, write_pending, drain_ready_loop, drain_ready, recording, wait_loop,
  dispatch_chunk, dispatch_current, collect_loop, flush_and_check, finalize, write_loop, write,
}
use gpzip.Parallel.Accepts.{Accepts, members}
use gpzip.Parallel.Cut.{concat}
use gpzip.Parallel.Order.{IsSplit, write_each, finalize-write_each}
use gpzip.Parallel.Live.{Live, Ends}
use gpzip.Parallel.Returns.{with_error, finalize-Ends, finalize-sticky_err, finalize-write}

abbrev frame : ℕ → List ℕ → Result ℕ (List ℕ)
frame i [] = ok (0 ∷ [])
frame i (b ∷ bs) = if b == 255 then err i else ok (length (b ∷ bs) ∷ b ∷ bs)

-- An inner writer that keeps everything.
abbrev sink : Env ℕ (List ℕ)
sink = record {
  chunk_fn = frame;
  write_all = λ o bytes. (o ++ bytes, none);
  flush = λ o. (o, none);
}

abbrev fresh : Writer ℕ (List ℕ)
fresh = new [] 2 3 (2 ∷ 0 ∷ 1 ∷ [])

-- Five bytes in chunks of two, whose results come out of order.
write-fresh :
    (finalize sink (write sink (1 ∷ 2 ∷ 3 ∷ 4 ∷ 5 ∷ []) fresh).0).0.output
    ≡ 2 ∷ 1 ∷ 2 ∷ 2 ∷ 3 ∷ 4 ∷ 1 ∷ 5 ∷ []
unfolding take_job receive try_receive new record_err check_sticky write_pending_loop write_pending
    drain_ready_loop drain_ready recording wait_loop dispatch_chunk dispatch_current collect_loop
    flush_and_check finalize write_loop write pending_at insert remove
write-fresh = refl

-- Two chunks at work, the first of which fails.
abbrev at_work : Writer ℕ (List ℕ)
at_work = record fresh {
  next_index = 2;
  in_flight = 2;
  workers = (0, 255 ∷ 1 ∷ []) ∷ (1, 2 ∷ 3 ∷ []) ∷ [];
}

at_work-Live : Live at_work
unfolding new
at_work-Live = record { counted = refl; room = omega arith; capacity = omega arith }

finalize-Ends_example : Ends (finalize sink at_work).1
finalize-Ends_example = finalize-Ends sink at_work at_work-Live

abbrev broken : Writer ℕ (List ℕ)
broken = record at_work { sticky_err = some 7 }

finalize-sticky_err_example : (finalize sink broken).1 ≡ failed 7
unfolding new
finalize-sticky_err_example =
    finalize-sticky_err sink broken 7
      (record { counted = refl; room = omega arith; capacity = omega arith }) refl

finalize-write_example :
    ((write sink (9 ∷ []) (with_error sink 7 fresh)).1 ≡ failed 7)
    × ((finalize sink (write sink (9 ∷ []) (with_error sink 7 fresh)).0).1 ≡ done tt)
finalize-write_example = finalize-write sink fresh (9 ∷ []) 7 refl

-- The same with a chunk function that never fails.
abbrev framing : Env ℕ (List ℕ)
framing = record sink { chunk_fn = λ i chunk. ok (length chunk ∷ chunk) }

abbrev framing-Accepts : Accepts framing
framing-Accepts = record {
  member = λ i chunk. length chunk ∷ chunk;
  contents = λ o. o;
  chunk_ok = λ i chunk. refl;
  write_ok = λ o bytes. refl;
  flush_ok = λ o. refl;
  contents-write = λ o bytes. refl;
  contents-flush = λ o. refl;
}

abbrev bufs : List (List ℕ)
bufs = (1 ∷ []) ∷ (2 ∷ 3 ∷ 4 ∷ []) ∷ (5 ∷ []) ∷ []

abbrev order : List ℕ
order = 2 ∷ 0 ∷ 1 ∷ []

finalize-write_each_example :
    (chunks : List (List ℕ)) × IsSplit 2 (concat bufs) chunks
    × ((write_each framing bufs (new [] 2 3 order)).1 ≡ done tt)
    × ((finalize framing (write_each framing bufs (new [] 2 3 order)).0).1 ≡ done tt)
    × ((finalize framing (write_each framing bufs (new [] 2 3 order)).0).0.output
        ≡ members (λ i chunk. length chunk ∷ chunk) 0 chunks)
unfolding concat
finalize-write_each_example =
    finalize-write_each framing-Accepts [] 2 3 order bufs (omega arith) (omega arith) (omega arith)
