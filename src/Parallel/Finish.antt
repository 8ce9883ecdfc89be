-- ===== src/Parallel/Finish.antt =====
-- `finalize` while nothing fails: everything that was taken is written.
use gpzip.Prelude.{
  ℕ, suc, ◌+◌, ◌^◌, ◌≤◌, ◌<◌, leb, ◌≡◌, refl, ap, sym, ◌∙◌, inl, inr, Bool, true, false,
  if◌then◌else◌, List, [], ◌∷◌, ◌++◌, length, arith, Bool-cases, take_all, get_elem?-lt,
}
use gpzip.Parallel.Channel.{Job}
use gpzip.Parallel.State.{Env, Writer, Reply, done, failed, blocked, check_sticky}
use gpzip.Parallel.Jobs.{HasJob}
use gpzip.Parallel.Ops.{regardless, dispatch_current, collect_loop, flush_and_check, finalize}
use gpzip.Parallel.Accepts.{Accepts, members}
use gpzip.Parallel.Inv.{Inv, close-Inv}
use gpzip.Parallel.Drain.{Ready, Goes, collect_loop-Goes}
use gpzip.Parallel.Dispatch.{some_not_none, dispatch_current-Goes, dispatch_empty-Goes}

true_not_false : true ≡ false → ⊥
true_not_false h = cc

no_jobs : (i : ℕ) (js : List Job) → length js ≤ 0 → HasJob i js → ⊥
no_jobs i [] h j = j
no_jobs i (k ∷ js) h j = omega (arith, h)

-- The chunks once the buffer has gone too.
abbrev pub last_chunk : List (List ℕ) → List ℕ → List (List ℕ)
last_chunk chunks [] = chunks
last_chunk chunks (b ∷ bs) = chunks ++ ((b ∷ bs) ∷ [])

regardless-done :
    {E Out A : Type 0} (r : Writer E Out × Reply E (Unit {0}))
    (next : Writer E Out → Writer E Out × Reply E A)
    → r.1 ≡ done tt
    → regardless r next ≡ next r.0
regardless-done (w, done u) next e = refl
regardless-done (w, failed e') next e = refl
regardless-done (w, blocked) next e = search e

module _ {E Out : Type 0} {env : Env E Out} (a : Accepts env) (start : List ℕ) (size cap : ℕ)
    (pos : 0 < cap) where
  -- A writer that has caught up and has nothing in flight has written everything.
  all_written :
      (chunks : List (List ℕ)) (w : Writer E Out)
      → Ready a start size cap true chunks [] w
      → w.in_flight ≤ 0
      → a.contents w.output ≡ start ++ members a.member 0 chunks
  all_written chunks w v idle =
      v.inv.written
      ∙ ap (λ t. start ++ members a.member 0 t)
          (take_all w.write_index chunks (elim (Bool-cases (leb (length chunks) w.write_index)) [
            | inl h ↦ ground (arith, h)
            | inr h ↦ absurd (left (ground (arith, h)))
          ]))
    where
      left : w.write_index < length chunks → ⊥
      left h =
          let (c, at) = get_elem?-lt w.write_index chunks h in
          elim (v.inv.covered w.write_index (omega arith) h) [
            | inl e ↦ some_not_none (a.member w.write_index c) (sym (e ∙ rw at refl) ∙ v.caught_up)
            | inr j ↦ no_jobs w.write_index w.workers (omega (arith, idle, v.inv.counted)) j
          ]

  -- The call succeeds, and the output is all the members.
  unfoldable pub Writes : List (List ℕ) → Writer E Out × Reply E (Unit {0}) → Type 0
  Writes chunks (w, res) =
      (res ≡ done tt) × (a.contents w.output ≡ start ++ members a.member 0 chunks)

  flush_and_check-Writes :
      (chunks : List (List ℕ)) (w : Writer E Out)
      → Ready a start size cap true chunks [] w
      → w.in_flight ≤ 0
      → Writes chunks (flush_and_check env w)
  unfolding flush_and_check check_sticky Writes
  flush_and_check-Writes chunks w v idle =
      rw (a.flush_ok w.output, v.inv.no_error)
        (refl, a.contents-flush w.output ∙ all_written chunks w v idle)

  -- The rest of `finalize` behind its `dispatch_current`.
  finish-Writes :
      (chunks : List (List ℕ)) (most : ℕ) (r : Writer E Out × Reply E (Unit {0}))
      → Goes a start size cap true chunks [] most r
      → Writes chunks (
          regardless r
            (λ w₁. regardless (collect_loop env (suc w₁.in_flight) w₁) (flush_and_check env)))
  unfolding Writes
  finish-Writes chunks most r g =
      let w₁ : Writer E Out = r.0 in
      let c =
        collect_loop-Goes a start size cap true chunks [] (suc w₁.in_flight) w₁ g.ready
          (omega arith) in
      rw
        (
          regardless-done r
              (λ w₁. regardless (collect_loop env (suc w₁.in_flight) w₁) (flush_and_check env))
              g.succeeds,
          regardless-done (collect_loop env (suc w₁.in_flight) w₁) (flush_and_check env) c.succeeds,
        )
        (flush_and_check-Writes chunks (collect_loop env (suc w₁.in_flight) w₁).0 c.ready c.fewer)

  -- `finalize` dispatches what is in the buffer and writes everything.
  pub finalize-Writes :
      (chunks : List (List ℕ)) (current : List ℕ) (w : Writer E Out)
      → Ready a start size cap false chunks current w
      → suc (length chunks) < 2 ^ 32
      → Writes (last_chunk chunks current) (finalize env w)
  unfolding finalize
  finalize-Writes chunks current w v small = go w.finalized v.inv.flagged
    where
      w' : Writer E Out
      w' = record w { finalized = true }

      v' : Inv a start size cap true chunks current w'
      v' = close-Inv a start size cap false chunks current w v.inv

      rest : Writer E Out → Writer E Out × Reply E (Unit {0})
      rest w₁ = regardless (collect_loop env (suc w₁.in_flight) w₁) (flush_and_check env)

      go :
          (b : Bool)
          → b ≡ false
          → Writes
              (last_chunk chunks current)
              (if b then (w, check_sticky w) else regardless (dispatch_current env w') rest)
      go true e = absurd (true_not_false e)
      go false e = finish current v'
        where
          finish :
              (current : List ℕ)
              → Inv a start size cap true chunks current w'
              → Writes (last_chunk chunks current) (regardless (dispatch_current env w') rest)
          finish [] v' = finish-Writes chunks w.in_flight (dispatch_current env w') (
              dispatch_empty-Goes a start size cap true pos chunks w'
                (record { inv = v'; caught_up = v.caught_up }))
          finish (b ∷ bs) v' =
              finish-Writes (chunks ++ ((b ∷ bs) ∷ [])) (w.in_flight + 1) (dispatch_current env w')
                (dispatch_current-Goes a start size cap true pos chunks (b ∷ bs) w' v' (omega arith)
                  small)
