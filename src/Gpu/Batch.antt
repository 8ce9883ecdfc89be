-- ===== src/Gpu/Batch.antt =====
-- `BatchedLz77` of batch.rs: the submitter's and the completer's thread between their channels, one step at
-- a time. A response channel is the number of its job. A step's guard is where the thread goes on: a `recv`
-- waits for an element, the bounded `send` for room.
use gpzip.Prelude.{
  ℕ, ◌+◌, leb, ltb, ◌||◌, true, false, Bool, if◌then◌else◌, ◌≡◌, Option, none, some, ◌>>=◌, List,
  [], ◌∷◌, ◌++◌, length,
}
use gpzip.Lz77.{Token}
use gpzip.Gpu.Buffer.{RunsEach}
use gpzip.Gpu.HashHost.{Pool, AsyncBatch, submit_batch_async, collect_async}

abbrev pub max_batch : ℕ
max_batch = 16

abbrev pub pipeline_depth : ℕ
pipeline_depth = 4

pub record Job : Type 0 where
  pub input : List ℕ
  pub response : ℕ

-- Where `submitter_loop` stands: at `rx.recv()`, in the loop that drains the queue, or at `pending_tx.send`.
pub data Submitter : Type 0 where
  waiting : Submitter
  draining : List Job → Submitter
  sending : AsyncBatch → List Job → Submitter

-- `jobs` and `pending` are the channels. `results` is what the completer has still to send, and `answers`
-- what the response channels got.
pub record BatchedLz77 : Type 0 where
  pub jobs : List Job
  pub submitter : Submitter
  pub pending : List (AsyncBatch × List Job)
  pub results : List (Job × List Token)
  pub answers : List (ℕ × List Token)
  pub responses : ℕ
  pub pool : Pool

abbrev pub new : Pool → BatchedLz77
new pool = record {
  jobs = [];
  submitter = waiting;
  pending = [];
  results = [];
  answers = [];
  responses = 0;
  pool = pool;
}

-- The part of `submit` before it waits.
abbrev pub submit : List ℕ → BatchedLz77 → BatchedLz77
submit input s = record {
  jobs = s.jobs ++ (record { input = input; response = s.responses } ∷ []);
  submitter = s.submitter;
  pending = s.pending;
  results = s.results;
  answers = s.answers;
  responses = s.responses + 1;
  pool = s.pool;
}

-- The steps of the threads. `dispatch` is the end of the draining, with the device's orders.
pub data Event : Type 0 where
  receive : Event
  drain : Event
  dispatch : (ℕ → List ℕ × List ℕ) → Event
  hand_off : Event
  collect : Event
  answer : Event

-- `let first = rx.recv()`
unfoldable pub receive_job : Submitter → List Job → Option (Submitter × List Job)
receive_job waiting [] = none
receive_job waiting (first ∷ jobs) = some (draining (first ∷ []), jobs)
receive_job (draining batch) jobs = none
receive_job (sending async_batch batch) jobs = none

-- A round of the `while` whose `try_recv` finds a job.
unfoldable pub drain_job : Submitter → List Job → Option (Submitter × List Job)
drain_job waiting jobs = none
drain_job (draining batch) [] = none
drain_job (draining batch) (j ∷ jobs) =
    if ltb (length batch) max_batch then some (draining (batch ++ (j ∷ [])), jobs) else none
drain_job (sending async_batch batch) jobs = none

abbrev pub inputs_of : List Job → List (List ℕ)
inputs_of [] = []
inputs_of (j ∷ jobs) = j.input ∷ inputs_of jobs

abbrev pub is_empty : {A : Type 0} → List A → Bool
is_empty [] = true
is_empty (x ∷ xs) = false

-- The `while` has ended, by its condition or by an empty queue.
unfoldable pub dispatch_batch :
    ℕ → (ℕ → List ℕ × List ℕ) → Submitter → List Job → Pool → Option (Submitter × Pool)
unfolding submit_batch_async
dispatch_batch window orders waiting jobs pool = none
dispatch_batch window orders (draining batch) jobs pool =
    if leb max_batch (length batch) || is_empty jobs
    then (do
      (async_batch, pool') ← submit_batch_async orders pool (inputs_of batch) window
      some (sending async_batch batch, pool'))
    else none
dispatch_batch window orders (sending async_batch batch) jobs pool = none

-- `pending_tx.send((async_batch, batch))`
unfoldable pub send_batch :
    Submitter → List (AsyncBatch × List Job) → Option (Submitter × List (AsyncBatch × List Job))
send_batch waiting pending = none
send_batch (draining batch) pending = none
send_batch (sending async_batch batch) pending =
    if ltb (length pending) pipeline_depth
    then some (waiting, pending ++ ((async_batch, batch) ∷ []))
    else none

-- `jobs.into_iter().zip(results)`
unfoldable pub zip_results : List Job → List (List Token) → List (Job × List Token)
zip_results [] tables = []
zip_results (j ∷ jobs) [] = []
zip_results (j ∷ jobs) (tokens ∷ tables) = (j, tokens) ∷ zip_results jobs tables

-- The completer's `pending_rx.recv()` and `collect_async`, when all results are sent.
unfoldable pub collect_batch :
    List (Job × List Token)
    → List (AsyncBatch × List Job)
    → Pool
    → Option (List (Job × List Token) × (List (AsyncBatch × List Job) × Pool))
unfolding collect_async zip_results
collect_batch (r ∷ results) pending pool = none
collect_batch [] [] pool = none
collect_batch [] ((async_batch, jobs) ∷ pending) pool = do
  (tables, pool') ← collect_async async_batch pool
  some (zip_results jobs tables, (pending, pool'))

-- `job.response.send(tokens)`
unfoldable pub answer_job :
    List (Job × List Token)
    → List (ℕ × List Token)
    → Option (List (Job × List Token) × List (ℕ × List Token))
answer_job [] answers = none
answer_job ((job, tokens) ∷ results) answers =
    some (results, answers ++ ((job.response, tokens) ∷ []))

unfoldable pub step : ℕ → Event → BatchedLz77 → Option BatchedLz77
unfolding receive_job drain_job dispatch_batch send_batch collect_batch answer_job
step window receive s = do
  (submitter, jobs) ← receive_job s.submitter s.jobs
  some (record {
    jobs = jobs;
    submitter = submitter;
    pending = s.pending;
    results = s.results;
    answers = s.answers;
    responses = s.responses;
    pool = s.pool;
  })
step window drain s = do
  (submitter, jobs) ← drain_job s.submitter s.jobs
  some (record {
    jobs = jobs;
    submitter = submitter;
    pending = s.pending;
    results = s.results;
    answers = s.answers;
    responses = s.responses;
    pool = s.pool;
  })
step window (dispatch orders) s = do
  (submitter, pool) ← dispatch_batch window orders s.submitter s.jobs s.pool
  some (record {
    jobs = s.jobs;
    submitter = submitter;
    pending = s.pending;
    results = s.results;
    answers = s.answers;
    responses = s.responses;
    pool = pool;
  })
step window hand_off s = do
  (submitter, pending) ← send_batch s.submitter s.pending
  some (record {
    jobs = s.jobs;
    submitter = submitter;
    pending = pending;
    results = s.results;
    answers = s.answers;
    responses = s.responses;
    pool = s.pool;
  })
step window collect s = do
  (results, (pending, pool)) ← collect_batch s.results s.pending s.pool
  some (record {
    jobs = s.jobs;
    submitter = s.submitter;
    pending = pending;
    results = results;
    answers = s.answers;
    responses = s.responses;
    pool = pool;
  })
step window answer s = do
  (results, answers) ← answer_job s.results s.answers
  some (record {
    jobs = s.jobs;
    submitter = s.submitter;
    pending = s.pending;
    results = results;
    answers = answers;
    responses = s.responses;
    pool = s.pool;
  })

-- The inputs whose lookups the device runs by the orders of a `dispatch`.
abbrev pub dispatched_inputs : Submitter → List (List ℕ)
dispatched_inputs waiting = []
dispatched_inputs (draining batch) = inputs_of batch
dispatched_inputs (sending async_batch batch) = []

-- The device runs every invocation of a `dispatch`.
abbrev pub Fair : Event → BatchedLz77 → Type 0
Fair receive s = Unit {0}
Fair drain s = Unit {0}
Fair (dispatch orders) s = RunsEach orders 0 (dispatched_inputs s.submitter)
Fair hand_off s = Unit {0}
Fair collect s = Unit {0}
Fair answer s = Unit {0}

-- Where the callers and the threads come to, from a pool, after the calls of `submit` with these inputs.
pub data Reachable (window : ℕ) (pool : Pool) : List (List ℕ) → BatchedLz77 → Type 0 where
  made : Reachable window pool [] (new pool)
  submitted :
      (inputs : List (List ℕ)) (s : BatchedLz77) (input : List ℕ)
      → Reachable window pool inputs s
      → Reachable window pool (inputs ++ (input ∷ [])) (submit input s)
  stepped :
      (inputs : List (List ℕ)) (s s' : BatchedLz77) (e : Event)
      → Reachable window pool inputs s
      → Fair e s
      → step window e s ≡ some s'
      → Reachable window pool inputs s'
