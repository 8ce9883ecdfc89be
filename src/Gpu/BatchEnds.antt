-- ===== src/Gpu/BatchEnds.antt =====
-- Every run of the threads of `BatchedLz77` comes to where every call of `submit` has its answer.
use gpzip.Prelude.{
  ℕ, zero, suc, ◌+◌, ◌^◌, ◌<◌, ◌≡◌, refl, ap, sym, ◌∙◌, subst, leb, ltb, ◌||◌, Bool, true, false,
  Option, some, ◌>>=◌, List, [], ◌∷◌, ◌++◌, length, All, arith, ◌⊎◌, inl, inr, Bool-cases,
  append-nil,
}
use gpzip.Lz77.{Token}
use gpzip.Gpu.Buffer.{RunsEach}
use gpzip.Gpu.HashHost.{Pool, AsyncBatch}
use gpzip.Gpu.HashTables.{collect_async-Tables}
use gpzip.Gpu.HashChunk.{IsChunk, NonEmpty}
use gpzip.Gpu.HashBatch.{IsPool}
use gpzip.Gpu.Orders.{in_order, total, in_order-RunsEach}
use gpzip.Gpu.Batch.{
  Job, Submitter, waiting, draining, sending, BatchedLz77, Event, receive, drain, dispatch,
  hand_off, collect, answer, inputs_of, is_empty, receive_job, drain_job, dispatch_batch,
  send_batch, zip_results, collect_batch, answer_job, step, Fair, Reachable, dispatched_inputs,
}
use gpzip.Gpu.BatchFlow.{held, Inputs, IsBatch, dispatched, pending_jobs, result_jobs}
use gpzip.Gpu.BatchInv.{numbered, Answered, AnswersOf-Answered, AnswersOf-length, Inv, Inv-Inputs}
use gpzip.Gpu.BatchReach.{step-Inv, Reachable-Inv}
use gpzip.Gpu.BatchLess.{measure, step-less}

chain_some :
    {A B : Type 0} (o : Option A) (f : A → Option B) (a : A) (b : B)
    → o ≡ some a
    → f a ≡ some b
    → (o >>= f) ≡ some b
chain_some o f a b e e' = ap (λ o. o >>= f) e ∙ e'

-- Some thread can go on.
abbrev pub CanStep : ℕ → BatchedLz77 → Type 0
CanStep window s = (e : Event) × (s' : BatchedLz77) × Fair e s × (step window e s ≡ some s')

-- Every run of the threads, with no further call of `submit`, comes to a state with `P`.
pub data Inevitable (window : ℕ) (P : BatchedLz77 → Type 0) : BatchedLz77 → Type 0 where
  on_each_run :
      (s : BatchedLz77)
      → (P s ⊎ CanStep window s)
      → ((e : Event) (s' : BatchedLz77)
          → Fair e s
          → step window e s ≡ some s'
          → Inevitable window P s')
      → Inevitable window P s

module _ (window : ℕ) (s : BatchedLz77) where
  answer_goes_on :
      (r : Job × List Token) (rs : List (Job × List Token)) → s.results ≡ r ∷ rs → CanStep window s
  unfolding step answer_job
  answer_goes_on (job, tokens) rs e =
      let sent : answer_job s.results s.answers
          ≡ some (rs, s.answers ++ ((job.response, tokens) ∷ [])) =
        rw e refl in
      (answer, _, tt, chain_some _ _ _ _ sent refl)

  collect_goes_on :
      (p : AsyncBatch × List Job) (ps : List (AsyncBatch × List Job))
      → s.results ≡ []
      → s.pending ≡ p ∷ ps
      → IsBatch p
      → IsPool s.pool
      → CanStep window s
  unfolding step collect_batch
  collect_goes_on (async_batch, jobs) ps none_left e (flight, few) h =
      let (tables, pool', ran, good, h') =
        collect_async-Tables (inputs_of jobs) async_batch s.pool flight h in
      let collected : collect_batch s.results s.pending s.pool
          ≡ some (zip_results jobs tables, (ps, pool')) =
        rw (none_left, e) (rw ran refl) in
      (collect, _, tt, chain_some _ _ _ _ collected refl)

  hand_off_goes_on :
      (async_batch : AsyncBatch) (batch : List Job)
      → s.pending ≡ []
      → s.submitter ≡ sending async_batch batch
      → CanStep window s
  unfolding step send_batch
  hand_off_goes_on async_batch batch none_left e =
      let sent : send_batch s.submitter s.pending ≡ some (waiting, (async_batch, batch) ∷ []) =
        rw (none_left, e) refl in
      (hand_off, _, tt, chain_some _ _ _ _ sent refl)

  receive_goes_on :
      (j : Job) (js : List Job) → s.submitter ≡ waiting → s.jobs ≡ j ∷ js → CanStep window s
  unfolding step receive_job
  receive_goes_on j js e e' =
      let received : receive_job s.submitter s.jobs ≡ some (draining (j ∷ []), js) =
        rw (e, e') refl in
      (receive, _, tt, chain_some _ _ _ _ received refl)

  drain_goes_on :
      (batch : List Job) (j : Job) (js : List Job)
      → s.submitter ≡ draining batch
      → s.jobs ≡ j ∷ js
      → leb 16 (length batch) ≡ false
      → CanStep window s
  unfolding step drain_job
  drain_goes_on batch j js e e' more =
      let room : ltb (length batch) 16 ≡ true = ground (arith, more) in
      let drained : drain_job s.submitter s.jobs ≡ some (draining (batch ++ (j ∷ [])), js) =
        rw (e, e', room) refl in
      (drain, _, tt, chain_some _ _ _ _ drained refl)

  dispatch_goes_on :
      (batch : List Job)
      → s.submitter ≡ draining batch
      → (leb 16 (length batch) || is_empty s.jobs) ≡ true
      → window < 2 ^ 16
      → Inputs IsChunk batch
      → Inputs NonEmpty batch
      → IsPool s.pool
      → CanStep window s
  unfolding step
  dispatch_goes_on batch e ends near chunks full h =
      let n : ℕ = total (inputs_of batch) in
      let orders : ℕ → List ℕ × List ℕ = λ i. (in_order n 0, in_order n 0) in
      let runs : RunsEach orders 0 (inputs_of batch) =
        in_order-RunsEach n 0 (inputs_of batch) (omega arith) in
      let (async_batch, pool', sent, flight, h') =
        dispatched window orders batch s.jobs s.pool near chunks full runs h ends in
      (
        dispatch orders,
        _,
        subst (λ submitter. RunsEach orders 0 (dispatched_inputs submitter)) (sym e) runs,
        chain_some _ _ _ _
            (ap (λ submitter. dispatch_batch window orders submitter s.jobs s.pool) e ∙ sent) refl,
      )

length-numbered : (k : ℕ) (inputs : List (List ℕ)) → length (numbered k inputs) ≡ length inputs
length-numbered k [] = refl
length-numbered k (input ∷ inputs) = ap suc (length-numbered (k + 1) inputs)

-- Every call has its answer, each its own.
abbrev pub AllAnswered : List (List ℕ) → BatchedLz77 → Type 0
AllAnswered inputs s = Answered 0 inputs s.answers × (length s.answers ≡ length inputs)

module _ (window : ℕ) (near : window < 2 ^ 16) (inputs : List (List ℕ))
    (chunks : All IsChunk inputs) (full : All NonEmpty inputs) where
  all_done :
      (s : BatchedLz77)
      → Inv inputs s
      → s.results ≡ []
      → s.pending ≡ []
      → held s.submitter ≡ []
      → s.jobs ≡ []
      → AllAnswered inputs s
  all_done s inv e₁ e₂ e₃ e₄ =
      let flow : inv.done ++ [] ≡ numbered 0 inputs =
        ap (λ l. inv.done ++ l)
          (sym (
            ap (λ l. result_jobs l ++ (pending_jobs s.pending ++ (held s.submitter ++ s.jobs))) e₁
            ∙ ap (λ l. pending_jobs l ++ (held s.submitter ++ s.jobs)) e₂
            ∙ ap (λ l. l ++ s.jobs) e₃
            ∙ e₄))
        ∙ inv.flow in
      (
        AnswersOf-Answered 0 inputs inv.done [] s.answers inv.answered flow,
        AnswersOf-length inv.done s.answers inv.answered
            ∙ ap length (sym (append-nil inv.done) ∙ flow)
            ∙ length-numbered 0 inputs,
      )

  empty_ends : (full : Bool) (jobs : List Job) → jobs ≡ [] → (full || is_empty jobs) ≡ true
  empty_ends true jobs e = refl
  empty_ends false jobs e = ap is_empty e

  module _ (s : BatchedLz77) (inv : Inv inputs s) where
    drained :
        (batch : List Job)
        → s.submitter ≡ draining batch
        → (leb 16 (length batch) || is_empty s.jobs) ≡ true
        → CanStep window s
    drained batch e ends =
        dispatch_goes_on window s batch e ends near
          (subst (λ submitter. Inputs IsChunk (held submitter)) e
            (Inv-Inputs IsChunk inputs s chunks inv))
          (subst (λ submitter. Inputs NonEmpty (held submitter)) e
            (Inv-Inputs NonEmpty inputs s full inv))
          inv.is_pool

    at_submitter :
        (submitter : Submitter) (jobs : List Job)
        → s.results ≡ []
        → s.pending ≡ []
        → s.submitter ≡ submitter
        → s.jobs ≡ jobs
        → AllAnswered inputs s ⊎ CanStep window s
    at_submitter waiting [] e₁ e₂ e₃ e₄ = inl (all_done s inv e₁ e₂ (ap held e₃) e₄)
    at_submitter waiting (j ∷ js) e₁ e₂ e₃ e₄ = inr (receive_goes_on window s j js e₃ e₄)
    at_submitter (sending async_batch batch) jobs e₁ e₂ e₃ e₄ =
        inr (hand_off_goes_on window s async_batch batch e₂ e₃)
    at_submitter (draining batch) [] e₁ e₂ e₃ e₄ =
        inr (drained batch e₃ (empty_ends (leb 16 (length batch)) s.jobs e₄))
    at_submitter (draining batch) (j ∷ js) e₁ e₂ e₃ e₄ = elim (Bool-cases (leb 16 (length batch))) [
      | inl full ↦ inr (drained batch e₃ (ap (λ b. b || is_empty s.jobs) full))
      | inr more ↦ inr (drain_goes_on window s batch j js e₃ e₄ more)
    ]

    first :
        (p : AsyncBatch × List Job) (ps : List (AsyncBatch × List Job))
        → All IsBatch (p ∷ ps)
        → IsBatch p
    first p ps h = h.0

    at_completer :
        (results : List (Job × List Token)) (pending : List (AsyncBatch × List Job))
        → s.results ≡ results
        → s.pending ≡ pending
        → AllAnswered inputs s ⊎ CanStep window s
    at_completer (r ∷ rs) pending e₁ e₂ = inr (answer_goes_on window s r rs e₁)
    at_completer [] (p ∷ ps) e₁ e₂ = inr (
        collect_goes_on window s p ps e₁ e₂ (first p ps (subst (All IsBatch) e₂ inv.pending))
          inv.is_pool)
    at_completer [] [] e₁ e₂ = at_submitter s.submitter s.jobs e₁ e₂ refl refl

  ends_within :
      (n : ℕ) (s : BatchedLz77)
      → Inv inputs s
      → measure s < n
      → Inevitable window (AllAnswered inputs) s
  ends_within zero s inv h = absurd (omega (arith, h))
  ends_within (suc n) s inv h =
      on_each_run s (at_completer s inv s.results s.pending refl refl) (λ e s' fair moved.
        ends_within n s' (step-Inv window near inputs chunks e s s' fair inv moved)
          (omega (arith, h, step-less window e s s' moved)))

-- From every state that the callers and the threads come to, whichever steps the threads then take, with
-- no further call they come to a state where every call has its answer, each a table of true matches for
-- its own input; until then some thread can go on. The window is below 2^16 and the inputs are bytes, at
-- least one and at most 512 KiB each.
pub Reachable-Inevitable :
    (window : ℕ) (pool : Pool) (inputs : List (List ℕ)) (s : BatchedLz77)
    → window < 2 ^ 16
    → IsPool pool
    → All IsChunk inputs
    → All NonEmpty inputs
    → Reachable window pool inputs s
    → Inevitable window (AllAnswered inputs) s
Reachable-Inevitable window pool inputs s near h chunks full r =
    ends_within window near inputs chunks full (suc (measure s)) s
      (Reachable-Inv window pool inputs s near h chunks r) (omega arith)
