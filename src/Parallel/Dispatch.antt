-- ===== src/Parallel/Dispatch.antt =====
-- `dispatch_current` and `finalize` while nothing fails.
use gpzip.Prelude.{
  ℕ, suc, ◌+◌, ◌^◌, ◌<◌, ◌==◌, ◌≡◌, refl, inl, inr, Bool, if◌then◌else◌, Option, none, some, List,
  [], ◌∷◌, ◌++◌, length, arith, Bool-cases,
}
use gpzip.Parallel.State.{Env, Writer, done, failed}
use gpzip.Parallel.Ops.{recording, drain_ready, wait_loop, spawn, dispatch_chunk, dispatch_current}
use gpzip.Parallel.Accepts.{Accepts}
use gpzip.Parallel.Inv.{Inv}
use gpzip.Parallel.Drain.{
  Ready, Goes, Goes-le, recording-Goes, and_then-Goes, drain_ready-Goes, wait_loop-Goes,
}
use gpzip.Parallel.Spawn.{spawn-Inv}

pub some_not_none : {E : Type 0} (e : E) → some e ≡ none → ⊥
some_not_none e h = cc

module _ {E Out : Type 0} {env : Env E Out} (a : Accepts env) (start : List ℕ) (size cap : ℕ)
    (flag : Bool) (pos : 0 < cap) where
  dispatch_chunk-Goes :
      (chunks : List (List ℕ)) (current : List ℕ) (w : Writer E Out)
      → Inv a start size cap flag chunks current w
      → suc (length chunks) < 2 ^ 32
      → Goes a start size cap flag
          (chunks ++ (current ∷ []))
          []
          (w.in_flight + 1)
          (dispatch_chunk env w)
  unfolding dispatch_chunk
  dispatch_chunk-Goes chunks current w v small =
      let chunks' : List (List ℕ) = chunks ++ (current ∷ []) in
      let v' = spawn-Inv a start size cap flag chunks current w v small in
      let most : ℕ = w.in_flight + 1 in
      and_then-Goes a start size cap flag chunks' [] most most
        (recording env (drain_ready env (spawn env w))) (λ w'. wait_loop env (suc w'.in_flight) w')
        (recording-Goes a start size cap flag chunks' [] most (drain_ready env (spawn env w))
          (drain_ready-Goes a start size cap flag chunks' [] (spawn env w) v'))
        (λ w' v'' le.
          Goes-le a start size cap flag chunks' [] w'.in_flight most
            (wait_loop env (suc w'.in_flight) w') le
            (wait_loop-Goes a start size cap flag chunks' [] (suc w'.in_flight) w' pos v''
              (omega arith)))

  pub dispatch_current-Goes :
      (chunks : List (List ℕ)) (current : List ℕ) (w : Writer E Out)
      → Inv a start size cap flag chunks current w
      → 0 < length current
      → suc (length chunks) < 2 ^ 32
      → Goes a start size cap flag
          (chunks ++ (current ∷ []))
          []
          (w.in_flight + 1)
          (dispatch_current env w)
  unfolding dispatch_current
  dispatch_current-Goes chunks current w v some_left small = go w.sticky_err v.no_error
    where
      go :
          (o : Option E)
          → o ≡ none
          → Goes a start size cap flag (chunks ++ (current ∷ [])) [] (w.in_flight + 1) (elim o [
            | some e ↦ (w, failed e)
            | none ↦ if length w.current == 0 then (w, done tt) else dispatch_chunk env w
          ])
      go (some e) h = absurd (some_not_none e h)
      go none h = elim (Bool-cases (length w.current == 0)) [
        | inl e ↦ absurd (ground (arith, e, some_left, v.buffer))
        | inr e ↦ rw e (dispatch_chunk-Goes chunks current w v small)
      ]

  -- With an empty buffer there is nothing to dispatch.
  pub dispatch_empty-Goes :
      (chunks : List (List ℕ)) (w : Writer E Out)
      → Ready a start size cap flag chunks [] w
      → Goes a start size cap flag chunks [] w.in_flight (dispatch_current env w)
  unfolding dispatch_current
  dispatch_empty-Goes chunks w v = go w.sticky_err v.inv.no_error
    where
      go :
          (o : Option E)
          → o ≡ none
          → Goes a start size cap flag chunks [] w.in_flight (elim o [
            | some e ↦ (w, failed e)
            | none ↦ if length w.current == 0 then (w, done tt) else dispatch_chunk env w
          ])
      go (some e) h = absurd (some_not_none e h)
      go none h = elim (Bool-cases (length w.current == 0)) [
        | inl e ↦ rw e (record { ready = v; succeeds = refl; fewer = omega arith })
        | inr e ↦ absurd (ground (arith, e, v.inv.buffer))
      ]
