-- ===== src/Gpu/BatchReach.antt =====
-- What holds in every state of `BatchedLz77` that the callers and the threads come to.
use gpzip.Prelude.{
  ℕ, ◌^◌, ◌≤◌, ◌<◌, ◌≡◌, ap, ◌∙◌, subst, some, bind_some, List, [], ◌∷◌, ◌++◌, length, All, arith,
  append_assoc, All-left,
}
use mathlib.Core.Option.{some-injective}
use gpzip.Lz77.{Token}
use gpzip.Gpu.Buffer.{RunsEach}
use gpzip.Gpu.HashHost.{Pool}
use gpzip.Gpu.HashChunk.{IsChunk}
use gpzip.Gpu.HashBatch.{IsPool}
use gpzip.Gpu.Batch.{
  Job, Submitter, waiting, draining, sending, BatchedLz77, Event, receive, drain, dispatch,
  hand_off, collect, answer, inputs_of, receive_job, drain_job, dispatch_batch, send_batch,
  collect_batch, answer_job, step, dispatched_inputs, Fair, Reachable, made, submitted, stepped,
}
use gpzip.Gpu.BatchFlow.{
  held, pending_jobs, result_jobs, IsResult, SubmitterFits, receive_job-keeps, drain_job-keeps,
  dispatch_batch-keeps, send_batch-keeps, collect_batch-keeps,
}
use gpzip.Gpu.BatchInv.{
  Answered, AnswersOf, AnswersOf-append, AnswersOf-Answered, Inv, Inv-Inputs, new-Inv, submit-Inv,
}

-- A sent answer goes behind the jobs that are done.
answer_job-keeps :
    (done : List Job) (results : List (Job × List Token)) (answers : List (ℕ × List Token))
    (rest : List Job) (r : List (Job × List Token) × List (ℕ × List Token))
    → AnswersOf done answers
    → All IsResult results
    → answer_job results answers ≡ some r
    → (done' : List Job) × (done' ++ (result_jobs r.0 ++ rest)
        ≡ done ++ (result_jobs results ++ rest))
      × AnswersOf done' r.1
      × All IsResult r.0
unfolding answer_job
answer_job-keeps done [] answers rest r h good e = absurd cc
answer_job-keeps done ((job, tokens) ∷ results) answers rest r h (table, good) e =
    subst
      (λ r.
        (done' : List Job) × (done' ++ (result_jobs r.0 ++ rest)
          ≡ done ++ ((job ∷ result_jobs results) ++ rest))
        × AnswersOf done' r.1
        × All IsResult r.0)
      (some-injective _ _ e)
      (
        done ++ (job ∷ []),
        append_assoc done (job ∷ []) (result_jobs results ++ rest),
        AnswersOf-append done answers job tokens h table,
        good,
      )

runs_held :
    (orders : ℕ → List ℕ × List ℕ) (window : ℕ) (submitter : Submitter) (jobs : List Job)
    (pool : Pool) (r : Submitter × Pool)
    → dispatch_batch window orders submitter jobs pool ≡ some r
    → RunsEach orders 0 (dispatched_inputs submitter)
    → RunsEach orders 0 (inputs_of (held submitter))
unfolding dispatch_batch
runs_held orders window waiting jobs pool r e h = absurd cc
runs_held orders window (draining batch) jobs pool r e h = h
runs_held orders window (sending async_batch batch) jobs pool r e h = absurd cc

module _ (window : ℕ) (near : window < 2 ^ 16) (inputs : List (List ℕ))
    (chunks : All IsChunk inputs) where
  receive-Inv :
      (s s' : BatchedLz77) → Inv inputs s → step window receive s ≡ some s' → Inv inputs s'
  unfolding step
  receive-Inv s s' inv e =
      let (r, e₁, e₂) = bind_some (receive_job s.submitter s.jobs) _ s' e in
      let (same, fits) = receive_job-keeps s.submitter s.jobs r e₁ in
      subst (Inv inputs) (some-injective _ _ e₂) (record {
        done = inv.done;
        flow =
            ap (λ l. inv.done ++ (result_jobs s.results ++ (pending_jobs s.pending ++ l))) same
            ∙ inv.flow;
        answered = inv.answered;
        results = inv.results;
        pending = inv.pending;
        depth = inv.depth;
        submitter = fits;
        is_pool = inv.is_pool;
        count = inv.count;
      })

  drain-Inv : (s s' : BatchedLz77) → Inv inputs s → step window drain s ≡ some s' → Inv inputs s'
  unfolding step
  drain-Inv s s' inv e =
      let (r, e₁, e₂) = bind_some (drain_job s.submitter s.jobs) _ s' e in
      let (same, fits) = drain_job-keeps s.submitter s.jobs r e₁ in
      subst (Inv inputs) (some-injective _ _ e₂) (record {
        done = inv.done;
        flow =
            ap (λ l. inv.done ++ (result_jobs s.results ++ (pending_jobs s.pending ++ l))) same
            ∙ inv.flow;
        answered = inv.answered;
        results = inv.results;
        pending = inv.pending;
        depth = inv.depth;
        submitter = fits;
        is_pool = inv.is_pool;
        count = inv.count;
      })

  dispatch-Inv :
      (orders : ℕ → List ℕ × List ℕ) (s s' : BatchedLz77)
      → Fair (dispatch orders) s
      → Inv inputs s
      → step window (dispatch orders) s ≡ some s'
      → Inv inputs s'
  unfolding step
  dispatch-Inv orders s s' fair inv e =
      let (r, e₁, e₂) = bind_some (dispatch_batch window orders s.submitter s.jobs s.pool) _ s' e in
      let (same, fits, is_pool) =
        dispatch_batch-keeps window orders s.submitter s.jobs s.pool r near inv.submitter
          (Inv-Inputs IsChunk inputs s chunks inv)
          (runs_held orders window s.submitter s.jobs s.pool r e₁ fair) inv.is_pool e₁ in
      subst (Inv inputs) (some-injective _ _ e₂) (record {
        done = inv.done;
        flow =
            ap
              (λ l.
                inv.done ++ (result_jobs s.results ++ (pending_jobs s.pending ++ (l ++ s.jobs))))
              same
            ∙ inv.flow;
        answered = inv.answered;
        results = inv.results;
        pending = inv.pending;
        depth = inv.depth;
        submitter = fits;
        is_pool = is_pool;
        count = inv.count;
      })

  hand_off-Inv :
      (s s' : BatchedLz77) → Inv inputs s → step window hand_off s ≡ some s' → Inv inputs s'
  unfolding step
  hand_off-Inv s s' inv e =
      let (r, e₁, e₂) = bind_some (send_batch s.submitter s.pending) _ s' e in
      let (same, fits, batches, depth) =
        send_batch-keeps s.submitter s.pending s.jobs r inv.submitter inv.pending e₁ in
      subst (Inv inputs) (some-injective _ _ e₂) (record {
        done = inv.done;
        flow = ap (λ l. inv.done ++ (result_jobs s.results ++ l)) same ∙ inv.flow;
        answered = inv.answered;
        results = inv.results;
        pending = batches;
        depth = depth;
        submitter = fits;
        is_pool = inv.is_pool;
        count = inv.count;
      })

  collect-Inv :
      (s s' : BatchedLz77) → Inv inputs s → step window collect s ≡ some s' → Inv inputs s'
  unfolding step
  collect-Inv s s' inv e =
      let (r, e₁, e₂) = bind_some (collect_batch s.results s.pending s.pool) _ s' e in
      let (same, good, batches, is_pool, depth) =
        collect_batch-keeps s.results s.pending s.pool (held s.submitter ++ s.jobs) r inv.pending
          inv.is_pool e₁ in
      subst (Inv inputs) (some-injective _ _ e₂) (record {
        done = inv.done;
        flow = ap (λ l. inv.done ++ l) same ∙ inv.flow;
        answered = inv.answered;
        results = good;
        pending = batches;
        depth = omega (arith, depth, inv.depth);
        submitter = inv.submitter;
        is_pool = is_pool;
        count = inv.count;
      })

  answer-Inv : (s s' : BatchedLz77) → Inv inputs s → step window answer s ≡ some s' → Inv inputs s'
  unfolding step
  answer-Inv s s' inv e =
      let (r, e₁, e₂) = bind_some (answer_job s.results s.answers) _ s' e in
      let (done, same, answered, good) =
        answer_job-keeps inv.done s.results s.answers
          (pending_jobs s.pending ++ (held s.submitter ++ s.jobs)) r inv.answered inv.results e₁ in
      subst (Inv inputs) (some-injective _ _ e₂) (record {
        done = done;
        flow = same ∙ inv.flow;
        answered = answered;
        results = good;
        pending = inv.pending;
        depth = inv.depth;
        submitter = inv.submitter;
        is_pool = inv.is_pool;
        count = inv.count;
      })

  pub step-Inv :
      (e : Event) (s s' : BatchedLz77)
      → Fair e s
      → Inv inputs s
      → step window e s ≡ some s'
      → Inv inputs s'
  step-Inv receive s s' fair inv e = receive-Inv s s' inv e
  step-Inv drain s s' fair inv e = drain-Inv s s' inv e
  step-Inv (dispatch orders) s s' fair inv e = dispatch-Inv orders s s' fair inv e
  step-Inv hand_off s s' fair inv e = hand_off-Inv s s' inv e
  step-Inv collect s s' fair inv e = collect-Inv s s' inv e
  step-Inv answer s s' fair inv e = answer-Inv s s' inv e

pub Reachable-Inv :
    (window : ℕ) (pool : Pool) (inputs : List (List ℕ)) (s : BatchedLz77)
    → window < 2 ^ 16
    → IsPool pool
    → All IsChunk inputs
    → Reachable window pool inputs s
    → Inv inputs s
Reachable-Inv window pool inputs s near h chunks made = new-Inv pool h
Reachable-Inv window pool inputs s near h chunks (submitted before s₀ input r) =
    submit-Inv before input s₀
      (Reachable-Inv window pool before s₀ near h (All-left IsChunk before (input ∷ []) chunks) r)
Reachable-Inv window pool inputs s near h chunks (stepped now s₀ s' e r fair moved) =
    step-Inv window near inputs chunks e s₀ s fair
      (Reachable-Inv window pool inputs s₀ near h chunks r) moved

-- However the callers and the two threads interleave, the answers that were sent are those of the first
-- submissions, one for each in their order on its own channel, each a table of true matches for its own
-- input; at most 4 batches are queued, and the submitter's has at most 16 jobs. The window is below 2^16 and the
-- inputs are bytes, at most 512 KiB each.
pub Reachable-Answered :
    (window : ℕ) (pool : Pool) (inputs : List (List ℕ)) (s : BatchedLz77)
    → window < 2 ^ 16
    → IsPool pool
    → All IsChunk inputs
    → Reachable window pool inputs s
    → Answered 0 inputs s.answers × (length s.pending ≤ 4) × (length (held s.submitter) ≤ 16)
Reachable-Answered window pool inputs s near h chunks r =
    let inv : Inv inputs s = Reachable-Inv window pool inputs s near h chunks r in
    (
      AnswersOf-Answered 0 inputs inv.done _ s.answers inv.answered inv.flow,
      inv.depth,
      few s.submitter inv.submitter,
    )
  where
    few : (submitter : Submitter) → SubmitterFits submitter → length (held submitter) ≤ 16
    few waiting fits = omega arith
    few (draining batch) fits = fits
    few (sending async_batch batch) (flight, fits) = fits
