-- ===== src/Gpu/BatchInv.antt =====
-- Every job of `BatchedLz77` is in one place, in the order of submission, and its answer is a table of its
-- own input.
use gpzip.Prelude.{
  ℕ, suc, ◌+◌, ◌≤◌, ◌≡◌, refl, ap, sym, ◌∙◌, subst, List, [], ◌∷◌, ◌++◌, length, All, arith,
  append_assoc, length-append,
}
use gpzip.Lz77.{Token}
use gpzip.Lz77.Walk.{IsTable}
use gpzip.Gpu.HashHost.{Pool}
use gpzip.Gpu.HashBatch.{IsPool}
use gpzip.Gpu.Batch.{Job, BatchedLz77, new, submit}
use gpzip.Gpu.BatchFlow.{held, pending_jobs, result_jobs, IsBatch, SubmitterFits, IsResult, Inputs}

-- The jobs of the submissions, with their response channels from `k` on.
abbrev pub numbered : ℕ → List (List ℕ) → List Job
numbered k [] = []
numbered k (input ∷ inputs) = record { input = input; response = k } ∷ numbered (k + 1) inputs

numbered-append :
    (k n : ℕ) (inputs : List (List ℕ)) (input : List ℕ)
    → n ≡ k + length inputs
    → numbered k (inputs ++ (input ∷ []))
      ≡ numbered k inputs ++ (record { input = input; response = n } ∷ [])
numbered-append k n [] input e =
    ap (λ k. record { input = input; response = k } ∷ []) (omega (arith, e))
numbered-append k n (x ∷ inputs) input e =
    ap (λ l. record { input = x; response = k } ∷ l)
      (numbered-append (k + 1) n inputs input (omega (arith, e)))

-- The answers are tables of the first submissions, one for each and in their order.
abbrev pub Answered : ℕ → List (List ℕ) → List (ℕ × List Token) → Type 0
Answered k inputs [] = Unit {0}
Answered k [] (a ∷ answers) = ⊥
Answered k (input ∷ inputs) ((response, tokens) ∷ answers) =
    (response ≡ k) × IsTable tokens input × Answered (k + 1) inputs answers

-- The answers to just these jobs.
abbrev pub AnswersOf : List Job → List (ℕ × List Token) → Type 0
AnswersOf [] [] = Unit {0}
AnswersOf [] (a ∷ answers) = ⊥
AnswersOf (j ∷ jobs) [] = ⊥
AnswersOf (j ∷ jobs) ((response, tokens) ∷ answers) =
    (response ≡ j.response) × IsTable tokens j.input × AnswersOf jobs answers

pub AnswersOf-append :
    (jobs : List Job) (answers : List (ℕ × List Token)) (j : Job) (tokens : List Token)
    → AnswersOf jobs answers
    → IsTable tokens j.input
    → AnswersOf (jobs ++ (j ∷ [])) (answers ++ ((j.response, tokens) ∷ []))
AnswersOf-append [] [] j tokens h t = (refl, t, tt)
AnswersOf-append [] (a ∷ answers) j tokens h t = absurd h
AnswersOf-append (x ∷ jobs) [] j tokens h t = absurd h
AnswersOf-append (x ∷ jobs) ((r, ts) ∷ answers) j tokens (e, m, hs) t =
    (e, m, AnswersOf-append jobs answers j tokens hs t)

abbrev head_or : Job → List Job → Job
head_or d [] = d
head_or d (j ∷ jobs) = j

abbrev tail_of : List Job → List Job
tail_of [] = []
tail_of (j ∷ jobs) = jobs

pub AnswersOf-Answered :
    (k : ℕ) (inputs : List (List ℕ)) (done rest : List Job) (answers : List (ℕ × List Token))
    → AnswersOf done answers
    → done ++ rest ≡ numbered k inputs
    → Answered k inputs answers
AnswersOf-Answered k inputs [] rest [] h e = tt
AnswersOf-Answered k inputs [] rest (a ∷ answers) h e = absurd h
AnswersOf-Answered k inputs (j ∷ done) rest [] h e = absurd h
AnswersOf-Answered k [] (j ∷ done) rest (a ∷ answers) h e = absurd cc
AnswersOf-Answered k (input ∷ inputs) (j ∷ done) rest ((r, ts) ∷ answers) (same, m, hs) e =
    let first : j ≡ record { input = input; response = k } = ap (head_or j) e in
    (
      same ∙ ap (λ j. j.response) first,
      subst (λ j. IsTable ts j.input) first m,
      AnswersOf-Answered (k + 1) inputs done rest answers hs (ap tail_of e),
    )

pub AnswersOf-length :
    (jobs : List Job) (answers : List (ℕ × List Token))
    → AnswersOf jobs answers
    → length answers ≡ length jobs
AnswersOf-length [] [] h = refl
AnswersOf-length [] (a ∷ answers) h = absurd h
AnswersOf-length (j ∷ jobs) [] h = absurd h
AnswersOf-length (j ∷ jobs) ((r, ts) ∷ answers) (e, m, hs) =
    ap suc (AnswersOf-length jobs answers hs)

module _ (P : List ℕ → Type 0) where
  Inputs-left : (xs ys : List Job) → Inputs P (xs ++ ys) → Inputs P xs
  Inputs-left [] ys h = tt
  Inputs-left (x ∷ xs) ys (h, hs) = (h, Inputs-left xs ys hs)

  Inputs-right : (xs ys : List Job) → Inputs P (xs ++ ys) → Inputs P ys
  Inputs-right [] ys h = h
  Inputs-right (x ∷ xs) ys (h, hs) = Inputs-right xs ys hs

  Inputs-numbered : (k : ℕ) (inputs : List (List ℕ)) → All P inputs → Inputs P (numbered k inputs)
  Inputs-numbered k [] h = tt
  Inputs-numbered k (input ∷ inputs) (h, hs) = (h, Inputs-numbered (k + 1) inputs hs)

pub record Inv (inputs : List (List ℕ)) (s : BatchedLz77) : Type 0 where
  pub done : List Job
  pub flow :
      done ++ (result_jobs s.results ++ (pending_jobs s.pending ++ (held s.submitter ++ s.jobs)))
      ≡ numbered 0 inputs
  pub answered : AnswersOf done s.answers
  pub results : All IsResult s.results
  pub pending : All IsBatch s.pending
  pub depth : length s.pending ≤ 4
  pub submitter : SubmitterFits s.submitter
  pub is_pool : IsPool s.pool
  pub count : s.responses ≡ length inputs

-- What all inputs have, those have that the submitter holds.
pub Inv-Inputs :
    (P : List ℕ → Type 0) (inputs : List (List ℕ)) (s : BatchedLz77)
    → All P inputs
    → Inv inputs s
    → Inputs P (held s.submitter)
Inv-Inputs P inputs s all inv = Inputs-left P (held s.submitter) s.jobs (
    Inputs-right P (pending_jobs s.pending) _ (
      Inputs-right P (result_jobs s.results) _ (
        Inputs-right P inv.done _
          (subst (Inputs P) (sym inv.flow) (Inputs-numbered P 0 inputs all)))))

pub new-Inv : (pool : Pool) → IsPool pool → Inv [] (new pool)
new-Inv pool h = record {
  done = [];
  flow = refl;
  answered = tt;
  results = tt;
  pending = tt;
  depth = omega arith;
  submitter = tt;
  is_pool = h;
  count = refl;
}

pub submit-Inv :
    (inputs : List (List ℕ)) (input : List ℕ) (s : BatchedLz77)
    → Inv inputs s
    → Inv (inputs ++ (input ∷ [])) (submit input s)
submit-Inv inputs input s inv = record {
  done = inv.done;
  flow =
      onto inv.done (result_jobs s.results) (pending_jobs s.pending) (held s.submitter) s.jobs
        (record { input = input; response = s.responses } ∷ [])
      ∙ ap (λ l. l ++ (record { input = input; response = s.responses } ∷ [])) inv.flow
      ∙ sym (numbered-append 0 s.responses inputs input (omega (arith, inv.count)));
  answered = inv.answered;
  results = inv.results;
  pending = inv.pending;
  depth = inv.depth;
  submitter = inv.submitter;
  is_pool = inv.is_pool;
  count = omega (arith, inv.count, length-append inputs (input ∷ []));
}
  where
    onto :
        (a b c d e f : List Job)
        → a ++ (b ++ (c ++ (d ++ (e ++ f)))) ≡ (a ++ (b ++ (c ++ (d ++ e)))) ++ f
    onto a b c d e f =
        ap (λ l. a ++ (b ++ (c ++ l))) (sym (append_assoc d e f))
        ∙ ap (λ l. a ++ (b ++ l)) (sym (append_assoc c (d ++ e) f))
        ∙ ap (λ l. a ++ l) (sym (append_assoc b (c ++ (d ++ e)) f))
        ∙ sym (append_assoc a (b ++ (c ++ (d ++ e))) f)
