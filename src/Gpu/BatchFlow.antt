-- ===== src/Gpu/BatchFlow.antt =====
-- The steps of `BatchedLz77` one at a time: the jobs stay in their order, and what is in flight fits its jobs.
use gpzip.Prelude.{
  ℕ, suc, ◌^◌, ◌≤◌, ◌<◌, ◌≡◌, refl, ap, sym, ◌∙◌, subst, leb, ltb, ◌||◌, true, false, some, List,
  [], ◌∷◌, ◌++◌, length, All, All-append, arith, append_assoc, append-nil, Bool-cases, inl, inr,
  length-append, bind_some, ◌>>=◌,
}
use mathlib.Core.Option.{some-injective}
use gpzip.Lz77.{Token}
use gpzip.Lz77.Walk.{IsTable}
use gpzip.Gpu.HashHost.{Pool, AsyncBatch, submit_batch_async}
use gpzip.Gpu.HashChunk.{IsChunk, NonEmpty}
use gpzip.Gpu.HashBatch.{IsPool}
use gpzip.Gpu.Buffer.{RunsEach}
use gpzip.Gpu.HashTables.{
  Tables, InFlight, submit_batch_async-InFlight, submit_batch_async_total, collect_async-Tables,
}
use gpzip.Gpu.Batch.{
  Job, Submitter, waiting, draining, sending, inputs_of, is_empty, receive_job, drain_job,
  dispatch_batch, send_batch, zip_results, collect_batch,
}

-- The jobs that the submitter has.
abbrev pub held : Submitter → List Job
held waiting = []
held (draining batch) = batch
held (sending async_batch batch) = batch

abbrev pub pending_jobs : List (AsyncBatch × List Job) → List Job
pending_jobs [] = []
pending_jobs ((async_batch, batch) ∷ pending) = batch ++ pending_jobs pending

abbrev pub result_jobs : List (Job × List Token) → List Job
result_jobs [] = []
result_jobs ((job, tokens) ∷ results) = job ∷ result_jobs results

-- A batch on the GPU, of at most 16 chunks.
abbrev pub IsBatch : AsyncBatch × List Job → Type 0
IsBatch (async_batch, batch) = InFlight (inputs_of batch) async_batch × (length batch ≤ 16)

abbrev pub SubmitterFits : Submitter → Type 0
SubmitterFits waiting = Unit {0}
SubmitterFits (draining batch) = length batch ≤ 16
SubmitterFits (sending async_batch batch) = IsBatch (async_batch, batch)

abbrev pub IsResult : Job × List Token → Type 0
IsResult (job, tokens) = IsTable tokens job.input

abbrev pub Inputs : (List ℕ → Type 0) → List Job → Type 0
Inputs P jobs = All P (inputs_of jobs)

pub receive_job-keeps :
    (submitter : Submitter) (jobs : List Job) (r : Submitter × List Job)
    → receive_job submitter jobs ≡ some r
    → (held r.0 ++ r.1 ≡ held submitter ++ jobs) × SubmitterFits r.0
unfolding receive_job
receive_job-keeps waiting [] r e = absurd cc
receive_job-keeps waiting (first ∷ jobs) r e =
    subst (λ r. (held r.0 ++ r.1 ≡ first ∷ jobs) × SubmitterFits r.0) (some-injective _ _ e)
      (refl, omega arith)
receive_job-keeps (draining batch) jobs r e = absurd cc
receive_job-keeps (sending async_batch batch) jobs r e = absurd cc

pub drain_job-keeps :
    (submitter : Submitter) (jobs : List Job) (r : Submitter × List Job)
    → drain_job submitter jobs ≡ some r
    → (held r.0 ++ r.1 ≡ held submitter ++ jobs) × SubmitterFits r.0
unfolding drain_job
drain_job-keeps waiting jobs r e = absurd cc
drain_job-keeps (draining batch) [] r e = absurd cc
drain_job-keeps (draining batch) (j ∷ jobs) r e = elim (Bool-cases (ltb (length batch) 16)) [
  | inl room ↦
      subst (λ r. (held r.0 ++ r.1 ≡ batch ++ (j ∷ jobs)) × SubmitterFits r.0)
        (some-injective _ _ (rw room at e))
        (append_assoc batch (j ∷ []) jobs, ground (arith, room, length-append batch (j ∷ [])))
  | inr full ↦ absurd (cc (rw full at e))
]
drain_job-keeps (sending async_batch batch) jobs r e = absurd cc

-- `dispatch` on a batch does not panic, where no chunk is empty.
pub dispatched :
    (window : ℕ) (orders : ℕ → List ℕ × List ℕ) (batch jobs : List Job) (pool : Pool)
    → window < 2 ^ 16
    → Inputs IsChunk batch
    → Inputs NonEmpty batch
    → RunsEach orders 0 (inputs_of batch)
    → IsPool pool
    → (leb 16 (length batch) || is_empty jobs) ≡ true
    → (async_batch : AsyncBatch) × (pool' : Pool) × (dispatch_batch window orders
          (draining batch)
          jobs
          pool
        ≡ some (sending async_batch batch, pool'))
      × InFlight (inputs_of batch) async_batch
      × IsPool pool'
unfolding dispatch_batch
dispatched window orders batch jobs pool near chunks full runs h ends =
    let (async_batch, pool', e, flight, h') =
      submit_batch_async_total orders pool (inputs_of batch) window h chunks full near runs in
    (async_batch, pool', rw (ends, e) refl, flight, h')

dispatch_batch-stays :
    (window : ℕ) (orders : ℕ → List ℕ × List ℕ) (batch jobs : List Job) (pool : Pool)
    (r : Submitter × Pool)
    → (leb 16 (length batch) || is_empty jobs) ≡ false
    → dispatch_batch window orders (draining batch) jobs pool ≡ some r
    → ⊥
unfolding dispatch_batch
dispatch_batch-stays window orders batch jobs pool r more e = cc (rw more at e)

dispatch_batch-submits :
    (window : ℕ) (orders : ℕ → List ℕ × List ℕ) (batch jobs : List Job) (pool : Pool)
    (r : Submitter × Pool)
    → (leb 16 (length batch) || is_empty jobs) ≡ true
    → dispatch_batch window orders (draining batch) jobs pool ≡ some r
    → (submit_batch_async orders pool (inputs_of batch) window >>= λ s.
        some (sending s.0 batch, s.1))
      ≡ some r
unfolding dispatch_batch
dispatch_batch-submits window orders batch jobs pool r ends e = rw ends at e

pub dispatch_batch-keeps :
    (window : ℕ) (orders : ℕ → List ℕ × List ℕ) (submitter : Submitter) (jobs : List Job)
    (pool : Pool) (r : Submitter × Pool)
    → window < 2 ^ 16
    → SubmitterFits submitter
    → Inputs IsChunk (held submitter)
    → RunsEach orders 0 (inputs_of (held submitter))
    → IsPool pool
    → dispatch_batch window orders submitter jobs pool ≡ some r
    → (held r.0 ≡ held submitter) × SubmitterFits r.0 × IsPool r.1
dispatch_batch-keeps window orders waiting jobs pool r near fits chunks runs h e =
    absurd (unfold dispatch_batch in cc)
dispatch_batch-keeps window orders (draining batch) jobs pool r near fits chunks runs h e =
    elim (Bool-cases (leb 16 (length batch) || is_empty jobs)) [
      | inl ends ↦
          let ((async_batch, pool'), submitted, last) =
            bind_some (submit_batch_async orders pool (inputs_of batch) window) _ r
              (dispatch_batch-submits window orders batch jobs pool r ends e) in
          let (flight, h') =
            submit_batch_async-InFlight orders pool (inputs_of batch) window (async_batch, pool') h
              chunks near runs submitted in
          subst (λ r. (held r.0 ≡ batch) × SubmitterFits r.0 × IsPool r.1) (some-injective _ _ last)
            (refl, (flight, fits), h')
      | inr more ↦ absurd (dispatch_batch-stays window orders batch jobs pool r more e)
    ]
dispatch_batch-keeps window orders (sending async_batch batch) jobs pool r near fits chunks runs h
      e =
    absurd (unfold dispatch_batch in cc)

pending_jobs-append :
    (pending : List (AsyncBatch × List Job)) (async_batch : AsyncBatch) (batch rest : List Job)
    → pending_jobs (pending ++ ((async_batch, batch) ∷ [])) ++ rest
      ≡ pending_jobs pending ++ (batch ++ rest)
pending_jobs-append [] async_batch batch rest = ap (λ b. b ++ rest) (append-nil batch)
pending_jobs-append ((a, b) ∷ pending) async_batch batch rest =
    append_assoc b (pending_jobs (pending ++ ((async_batch, batch) ∷ []))) rest
    ∙ ap (λ l. b ++ l) (pending_jobs-append pending async_batch batch rest)
    ∙ sym (append_assoc b (pending_jobs pending) (batch ++ rest))

pub send_batch-keeps :
    (submitter : Submitter) (pending : List (AsyncBatch × List Job)) (rest : List Job)
    (r : Submitter × List (AsyncBatch × List Job))
    → SubmitterFits submitter
    → All IsBatch pending
    → send_batch submitter pending ≡ some r
    → (pending_jobs r.1 ++ (held r.0 ++ rest) ≡ pending_jobs pending ++ (held submitter ++ rest))
      × SubmitterFits r.0
      × All IsBatch r.1
      × (length r.1 ≤ 4)
unfolding send_batch
send_batch-keeps waiting pending rest r fits batches e = absurd cc
send_batch-keeps (draining batch) pending rest r fits batches e = absurd cc
send_batch-keeps (sending async_batch batch) pending rest r fits batches e =
    elim (Bool-cases (ltb (length pending) 4)) [
      | inl room ↦
          subst
            (λ r.
              (pending_jobs r.1 ++ (held r.0 ++ rest) ≡ pending_jobs pending ++ (batch ++ rest))
              × SubmitterFits r.0
              × All IsBatch r.1
              × (length r.1 ≤ 4))
            (some-injective _ _ (rw room at e))
            (
              pending_jobs-append pending async_batch batch rest,
              tt,
              All-append IsBatch pending ((async_batch, batch) ∷ []) batches (fits, tt),
              ground (arith, room, length-append pending ((async_batch, batch) ∷ [])),
            )
      | inr full ↦ absurd (cc (rw full at e))
    ]

-- The results of a batch, each with its job.
pub zip_results-IsResult :
    (jobs : List Job) (tables : List (List Token))
    → Tables (inputs_of jobs) tables
    → (result_jobs (zip_results jobs tables) ≡ jobs) × All IsResult (zip_results jobs tables)
unfolding zip_results
zip_results-IsResult [] tables h = (refl, tt)
zip_results-IsResult (j ∷ jobs) [] h = absurd h
zip_results-IsResult (j ∷ jobs) (t ∷ tables) (h, hs) =
    let (same, results) = zip_results-IsResult jobs tables hs in
    (ap (λ l. j ∷ l) same, (h, results))

pub collect_batch-keeps :
    (results : List (Job × List Token)) (pending : List (AsyncBatch × List Job)) (pool : Pool)
    (rest : List Job) (r : List (Job × List Token) × (List (AsyncBatch × List Job) × Pool))
    → All IsBatch pending
    → IsPool pool
    → collect_batch results pending pool ≡ some r
    → (result_jobs r.0 ++ (pending_jobs r.1.0 ++ rest)
        ≡ result_jobs results ++ (pending_jobs pending ++ rest))
      × All IsResult r.0
      × All IsBatch r.1.0
      × IsPool r.1.1
      × (length r.1.0 ≤ length pending)
unfolding collect_batch
collect_batch-keeps (x ∷ results) pending pool rest r batches h e = absurd cc
collect_batch-keeps [] [] pool rest r batches h e = absurd cc
collect_batch-keeps [] ((async_batch, batch) ∷ pending) pool rest r ((flight, few), batches) h e =
    let (tables, pool', ran, answers, h') =
      collect_async-Tables (inputs_of batch) async_batch pool flight h in
    let (same, good) = zip_results-IsResult batch tables answers in
    subst
      (λ r.
        (result_jobs r.0 ++ (pending_jobs r.1.0 ++ rest) ≡ (batch ++ pending_jobs pending) ++ rest)
        × All IsResult r.0
        × All IsBatch r.1.0
        × IsPool r.1.1
        × (length r.1.0 ≤ suc (length pending)))
      (some-injective _ _ (rw ran at e))
      (
        ap (λ l. l ++ (pending_jobs pending ++ rest)) same
            ∙ sym (append_assoc batch (pending_jobs pending) rest),
        good,
        batches,
        h',
        omega arith,
      )
