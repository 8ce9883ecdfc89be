-- ===== src/Gpu/BatchLess.antt =====
-- Every step of the threads of `BatchedLz77` brings some job nearer to its answer.
use gpzip.Prelude.{
  ℕ, suc, ◌+◌, ◌*◌, ◌≤◌, ◌<◌, ◌≡◌, subst, leb, ltb, ◌||◌, some, bind_some, List, [], ◌∷◌, ◌++◌,
  length, arith, inl, inr, Bool-cases, length-append,
}
use mathlib.Core.Option.{some-injective}
use gpzip.Lz77.{Token}
use gpzip.Gpu.HashHost.{Pool, AsyncBatch, submit_batch_async, collect_async}
use gpzip.Gpu.Batch.{
  Job, Submitter, waiting, draining, sending, BatchedLz77, Event, receive, drain, dispatch,
  hand_off, collect, answer, inputs_of, is_empty, receive_job, drain_job, dispatch_batch,
  send_batch, zip_results, collect_batch, answer_job, step,
}

-- How far the jobs have to go.
abbrev of_submitter : Submitter → ℕ
of_submitter waiting = 0
of_submitter (draining batch) = 3 * length batch + 3
of_submitter (sending async_batch batch) = 3 * length batch + 2

abbrev of_pending : List (AsyncBatch × List Job) → ℕ
of_pending [] = 0
of_pending ((async_batch, batch) ∷ pending) = 2 * length batch + 1 + of_pending pending

abbrev pub measure : BatchedLz77 → ℕ
measure s =
    7 * length s.jobs + (of_submitter s.submitter + (of_pending s.pending + length s.results))

receive_job-less :
    (submitter : Submitter) (jobs : List Job) (r : Submitter × List Job)
    → receive_job submitter jobs ≡ some r
    → 7 * length r.1 + of_submitter r.0 < 7 * length jobs + of_submitter submitter
unfolding receive_job
receive_job-less waiting [] r e = absurd cc
receive_job-less waiting (j ∷ jobs) r e =
    subst (λ r. 7 * length r.1 + of_submitter r.0 < 7 * suc (length jobs) + 0)
      (some-injective _ _ e) (omega arith)
receive_job-less (draining batch) jobs r e = absurd cc
receive_job-less (sending async_batch batch) jobs r e = absurd cc

drain_job-less :
    (submitter : Submitter) (jobs : List Job) (r : Submitter × List Job)
    → drain_job submitter jobs ≡ some r
    → 7 * length r.1 + of_submitter r.0 < 7 * length jobs + of_submitter submitter
unfolding drain_job
drain_job-less waiting jobs r e = absurd cc
drain_job-less (draining batch) [] r e = absurd cc
drain_job-less (draining batch) (j ∷ jobs) r e = elim (Bool-cases (ltb (length batch) 16)) [
  | inl room ↦
      subst
        (λ r. 7 * length r.1 + of_submitter r.0 < 7 * suc (length jobs) + (3 * length batch + 3))
        (some-injective _ _ (rw room at e)) (omega (arith, length-append batch (j ∷ [])))
  | inr full ↦ absurd (cc (rw full at e))
]
drain_job-less (sending async_batch batch) jobs r e = absurd cc

dispatch_batch-less :
    (window : ℕ) (orders : ℕ → List ℕ × List ℕ) (submitter : Submitter) (jobs : List Job)
    (pool : Pool) (r : Submitter × Pool)
    → dispatch_batch window orders submitter jobs pool ≡ some r
    → of_submitter r.0 < of_submitter submitter
unfolding dispatch_batch
dispatch_batch-less window orders waiting jobs pool r e = absurd cc
dispatch_batch-less window orders (draining batch) jobs pool r e =
    elim (Bool-cases (leb 16 (length batch) || is_empty jobs)) [
      | inl ends ↦
          let (x, e₁, e₂) =
            bind_some (submit_batch_async orders pool (inputs_of batch) window) _ r
              (rw ends at e) in
          subst (λ r. of_submitter r.0 < 3 * length batch + 3) (some-injective _ _ e₂) (omega arith)
      | inr more ↦ absurd (cc (rw more at e))
    ]
dispatch_batch-less window orders (sending async_batch batch) jobs pool r e = absurd cc

of_pending-append :
    (pending : List (AsyncBatch × List Job)) (async_batch : AsyncBatch) (batch : List Job)
    → of_pending (pending ++ ((async_batch, batch) ∷ []))
      ≡ of_pending pending + (2 * length batch + 1)
of_pending-append [] async_batch batch = omega arith
of_pending-append ((a, b) ∷ pending) async_batch batch =
    omega (arith, of_pending-append pending async_batch batch)

send_batch-less :
    (submitter : Submitter) (pending : List (AsyncBatch × List Job))
    (r : Submitter × List (AsyncBatch × List Job))
    → send_batch submitter pending ≡ some r
    → of_submitter r.0 + of_pending r.1 < of_submitter submitter + of_pending pending
unfolding send_batch
send_batch-less waiting pending r e = absurd cc
send_batch-less (draining batch) pending r e = absurd cc
send_batch-less (sending async_batch batch) pending r e =
    elim (Bool-cases (ltb (length pending) 4)) [
      | inl room ↦
          subst (λ r. of_submitter r.0 + of_pending r.1 < 3 * length batch + 2 + of_pending pending)
            (some-injective _ _ (rw room at e))
            (omega (arith, of_pending-append pending async_batch batch))
      | inr full ↦ absurd (cc (rw full at e))
    ]

zip_results-le :
    (jobs : List Job) (tables : List (List Token)) → length (zip_results jobs tables) ≤ length jobs
unfolding zip_results
zip_results-le [] tables = omega arith
zip_results-le (j ∷ jobs) [] = omega arith
zip_results-le (j ∷ jobs) (t ∷ tables) = omega (arith, zip_results-le jobs tables)

collect_batch-less :
    (results : List (Job × List Token)) (pending : List (AsyncBatch × List Job)) (pool : Pool)
    (r : List (Job × List Token) × (List (AsyncBatch × List Job) × Pool))
    → collect_batch results pending pool ≡ some r
    → of_pending r.1.0 + length r.0 < of_pending pending + length results
unfolding collect_batch
collect_batch-less (x ∷ results) pending pool r e = absurd cc
collect_batch-less [] [] pool r e = absurd cc
collect_batch-less [] ((async_batch, batch) ∷ pending) pool r e =
    let ((tables, pool'), collected, last) = bind_some (collect_async async_batch pool) _ r e in
    subst (λ r. of_pending r.1.0 + length r.0 < 2 * length batch + 1 + of_pending pending + 0)
      (some-injective _ _ last) (omega (arith, zip_results-le batch tables))

answer_job-less :
    (results : List (Job × List Token)) (answers : List (ℕ × List Token))
    (r : List (Job × List Token) × List (ℕ × List Token))
    → answer_job results answers ≡ some r
    → length r.0 < length results
unfolding answer_job
answer_job-less [] answers r e = absurd cc
answer_job-less ((job, tokens) ∷ results) answers r e =
    subst (λ r. length r.0 < suc (length results)) (some-injective _ _ e) (omega arith)

pub step-less :
    (window : ℕ) (e : Event) (s s' : BatchedLz77)
    → step window e s ≡ some s'
    → measure s' < measure s
unfolding step
step-less window receive s s' e =
    let (r, e₁, e₂) = bind_some (receive_job s.submitter s.jobs) _ s' e in
    subst (λ s'. measure s' < measure s) (some-injective _ _ e₂)
      (omega (arith, receive_job-less s.submitter s.jobs r e₁))
step-less window drain s s' e =
    let (r, e₁, e₂) = bind_some (drain_job s.submitter s.jobs) _ s' e in
    subst (λ s'. measure s' < measure s) (some-injective _ _ e₂)
      (omega (arith, drain_job-less s.submitter s.jobs r e₁))
step-less window (dispatch orders) s s' e =
    let (r, e₁, e₂) = bind_some (dispatch_batch window orders s.submitter s.jobs s.pool) _ s' e in
    subst (λ s'. measure s' < measure s) (some-injective _ _ e₂)
      (omega (arith, dispatch_batch-less window orders s.submitter s.jobs s.pool r e₁))
step-less window hand_off s s' e =
    let (r, e₁, e₂) = bind_some (send_batch s.submitter s.pending) _ s' e in
    subst (λ s'. measure s' < measure s) (some-injective _ _ e₂)
      (omega (arith, send_batch-less s.submitter s.pending r e₁))
step-less window collect s s' e =
    let (r, e₁, e₂) = bind_some (collect_batch s.results s.pending s.pool) _ s' e in
    subst (λ s'. measure s' < measure s) (some-injective _ _ e₂)
      (omega (arith, collect_batch-less s.results s.pending s.pool r e₁))
step-less window answer s s' e =
    let (r, e₁, e₂) = bind_some (answer_job s.results s.answers) _ s' e in
    subst (λ s'. measure s' < measure s) (some-injective _ _ e₂)
      (omega (arith, answer_job-less s.results s.answers r e₁))
