-- ===== src/Parallel/State.antt =====
-- The state of `ParallelChunkedWriter` (crates/gpzip-codec-cpu/src/parallel.rs), with its workers and
-- its channel, and the calls that only look at or set single fields.
use gpzip.Prelude.{ℕ, ◌+◌, ◌-◌, ◌%◌, ◌^◌, Bool, false, Option, none, some, List, [], Result}
use gpzip.Parallel.Channel.{Job}
use gpzip.Parallel.Pending.{Pending, insert}

-- What the writer is given: the chunk function and the inner `Write`, whose state is `Out`.
pub record Env (E Out : Type 0) : Type 0 where
  pub chunk_fn : ℕ → List ℕ → Result E (List ℕ)
  pub write_all : Out → List ℕ → Out × Option E
  pub flush : Out → Out × Option E

-- `rx` and `tx` are `workers`, the jobs whose result is not received yet, and `schedule`.
pub record Writer (E Out : Type 0) : Type 0 where
  pub current : List ℕ
  pub chunk_size : ℕ
  pub next_index : ℕ
  pub write_index : ℕ
  pub pending : Pending
  pub in_flight : ℕ
  pub max_in_flight : ℕ
  pub output : Out
  pub finalized : Bool
  pub sticky_err : Option E
  pub workers : List Job
  pub schedule : List ℕ

-- What a call returns; `blocked` is a receive that waits for ever.
pub data Reply (E A : Type 0) : Type 0 where
  done : A → Reply E A
  failed : E → Reply E A
  blocked : Reply E A

-- u32 `+= 1`
abbrev pub next_u32 : ℕ → ℕ
next_u32 i = (i + 1) % 2 ^ 32

module _ {E Out : Type 0} where
  -- `ParallelChunkedWriter::new`, which asserts that both sizes are above 0, with the schedule to come.
  unfoldable pub new : Out → ℕ → ℕ → List ℕ → Writer E Out
  new output chunk_size max_in_flight schedule = record {
    current = [];
    chunk_size = chunk_size;
    next_index = 0;
    write_index = 0;
    pending = [];
    in_flight = 0;
    max_in_flight = max_in_flight;
    output = output;
    finalized = false;
    sticky_err = none;
    workers = [];
    schedule = schedule;
  }

  -- `record`: the first error stays.
  unfoldable pub record_err : E → Writer E Out → Writer E Out
  record_err e w = elim w.sticky_err [ none ↦ record w { sticky_err = some e } | some first ↦ w ]

  unfoldable pub check_sticky : Writer E Out → Reply E (Unit {0})
  check_sticky w = elim w.sticky_err [ none ↦ done tt | some e ↦ failed e ]

  -- What the loops do with a result that comes in: the job is gone from the channel,
  abbrev pub arrive : List Job → List ℕ → Writer E Out → Writer E Out
  arrive workers schedule w = record w {
    workers = workers;
    schedule = schedule;
    in_flight = w.in_flight - 1;
  }

  -- and its bytes wait in `pending`.
  abbrev pub stash : ℕ → List ℕ → Writer E Out → Writer E Out
  stash i bytes w = record w { pending = insert i bytes w.pending }
