-- ===== src/Parallel/Spawn.antt =====
-- A chunk that is dispatched is one more of the chunks, and its job one more in flight.
use gpzip.Prelude.{
  Bool, ℕ, suc, ◌+◌, ◌^◌, ◌≤◌, ◌<◌, ◌≡◌, refl, ap, sym, ◌∙◌, ◌⊎◌, inl, inr, none, some, List, [],
  ◌∷◌, ◌++◌, length, get_elem?, All, arith, length-append, All-append, Option-cases,
  get_elem?-append, get_elem?-last, get_elem?-lt, take-append, subst,
}
use native.Mathlib.Decide.{ℕ_discrete}
use gpzip.Parallel.Channel.{Job}
use gpzip.Parallel.Pending.{pending_at}
use gpzip.Parallel.State.{Env, Writer}
use gpzip.Parallel.Ops.{spawn}
use gpzip.Parallel.Jobs.{HasJob, IsJob, HasJob-append, HasJob-last}
use gpzip.Parallel.Accepts.{Accepts, members}
use gpzip.Parallel.Inv.{Inv, expected}

IsJob-append :
    (chunks : List (List ℕ)) (c : List ℕ) (js : List Job)
    → All (IsJob chunks) js
    → All (IsJob (chunks ++ (c ∷ []))) js
IsJob-append chunks c [] h = h
IsJob-append chunks c (j ∷ js) (h, hs) =
    (get_elem?-append chunks (c ∷ []) j.0 j.1 h, IsJob-append chunks c js hs)

module _ {E Out : Type 0} {env : Env E Out} (a : Accepts env) (start : List ℕ) (size cap : ℕ)
    (flag : Bool) where
  pub spawn-Inv :
      (chunks : List (List ℕ)) (current : List ℕ) (w : Writer E Out)
      → Inv a start size cap flag chunks current w
      → suc (length chunks) < 2 ^ 32
      → Inv a start size cap flag (chunks ++ (current ∷ [])) [] (spawn env w)
  spawn-Inv chunks current w v small = record {
    buffer = refl;
    sizes = v.sizes;
    next = omega (arith, longer, v.next, small);
    small = omega (arith, longer, small);
    behind = omega (arith, longer, v.behind);
    written =
        v.written
        ∙ ap (λ t. start ++ members a.member 0 t)
            (sym (take-append w.write_index chunks (current ∷ []) v.behind));
    stashed = stashed;
    jobs = jobs;
    counted = omega (arith, v.counted, length-append w.workers ((w.next_index, w.current) ∷ []));
    covered = covered;
    no_error = v.no_error;
    flagged = v.flagged;
  }
    where
      chunks' : List (List ℕ)
      chunks' = chunks ++ (current ∷ [])

      longer : length chunks' ≡ length chunks + 1
      longer = length-append chunks (current ∷ [])

      last : get_elem? chunks' w.next_index ≡ some w.current
      last =
          ap (get_elem? chunks') v.next
          ∙ get_elem?-last chunks current
          ∙ ap (λ t. some t) (sym v.buffer)

      keep :
          (i : ℕ)
          → i < length chunks
          → expected a start size cap flag chunks i ≡ expected a start size cap flag chunks' i
      keep i h =
          let (c, at) = get_elem?-lt i chunks h in
          rw (at, get_elem?-append chunks (current ∷ []) i c at) refl

      stashed :
          (i : ℕ)
          → (pending_at i w.pending ≡ none)
            ⊎ (pending_at i w.pending ≡ expected a start size cap flag chunks' i)
      stashed i = elim (v.stashed i) [
        | inl e ↦ inl e
        | inr e ↦ elim (Option-cases (get_elem? chunks i)) [
          | inl h ↦ inl (e ∙ rw h refl)
          | inr (c, h) ↦ inr (e ∙ rw (h, get_elem?-append chunks (current ∷ []) i c h) refl)
        ]
      ]

      jobs : All (IsJob chunks') (w.workers ++ ((w.next_index, w.current) ∷ []))
      jobs =
          All-append (IsJob chunks') w.workers ((w.next_index, w.current) ∷ [])
            (IsJob-append chunks current w.workers v.jobs) (last, tt)

      covered :
          (i : ℕ)
          → w.write_index ≤ i
          → i < length chunks'
          → (pending_at i w.pending ≡ expected a start size cap flag chunks' i)
            ⊎ HasJob i (w.workers ++ ((w.next_index, w.current) ∷ []))
      covered i lo hi = elim (ℕ_discrete i w.next_index) [
        | yes e ↦ inr (
            subst (λ k. HasJob k (w.workers ++ ((w.next_index, w.current) ∷ []))) (sym e)
              (HasJob-last w.workers (w.next_index, w.current)))
        | no h ↦
            let inside : i < length chunks = omega (arith, h, hi, longer, v.next) in
            elim (v.covered i lo inside) [
              | inl e ↦ inl (e ∙ keep i inside)
              | inr j ↦ inr (HasJob-append i w.workers (w.next_index, w.current) j)
            ]
      ]
