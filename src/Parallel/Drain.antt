-- ===== src/Parallel/Drain.antt =====
-- The loops that take results in and write the chunks whose turn it is keep the invariant.
use gpzip.Prelude.{
  ℕ, zero, suc, ◌≤◌, ◌<◌, leb, ltb, ◌≡◌, refl, inl, inr, Bool, true, none, List, length, arith,
  Bool-cases, Option-cases,
}
use gpzip.Parallel.Channel.{try_receive}
use gpzip.Parallel.Pending.{pending_at, remove, length-remove_lt}
use gpzip.Parallel.State.{Env, Writer, Reply, done, failed, blocked, next_u32, arrive, stash}
use gpzip.Parallel.Ops.{
  write_pending_loop, write_pending, drain_ready_loop, drain_ready, recording, and_then, wait_loop,
  collect_loop,
}
use gpzip.Parallel.Jobs.{receive-Takes, try_receive-cases}
use gpzip.Parallel.Accepts.{Accepts}
use gpzip.Parallel.Inv.{Inv, stash-Inv, step-Inv, look-Inv}

module _ {E Out : Type 0} {env : Env E Out} (a : Accepts env) (start : List ℕ) (size cap : ℕ)
    (flag : Bool) where
  -- The chunk whose turn it is has not come yet.
  pub record Ready (chunks : List (List ℕ)) (current : List ℕ) (w : Writer E Out) : Type 0 where
    pub inv : Inv a start size cap flag chunks current w
    pub caught_up : pending_at w.write_index w.pending ≡ none

  -- The call succeeds and leaves at most `most` in flight.
  pub record Goes (chunks : List (List ℕ)) (current : List ℕ) (most : ℕ)
      (r : Writer E Out × Reply E (Unit {0})) : Type 0 where
    pub ready : Ready chunks current r.0
    pub succeeds : r.1 ≡ done tt
    pub fewer : r.0.in_flight ≤ most

  module _ (chunks : List (List ℕ)) (current : List ℕ) where
    write_pending_loop-Goes :
        (fuel : ℕ) (w : Writer E Out)
        → Inv a start size cap flag chunks current w
        → length w.pending < fuel
        → Goes chunks current w.in_flight (write_pending_loop env fuel w)
    unfolding write_pending_loop
    write_pending_loop-Goes zero w v h = absurd (omega (arith, h))
    write_pending_loop-Goes (suc fuel) w v h =
        elim (Option-cases (pending_at w.write_index w.pending)) [
          | inl e ↦
              rw (e, write_pending_loop)
                (record {
                  ready = record { inv = v; caught_up = e };
                  succeeds = refl;
                  fewer = omega arith;
                })
          | inr (bytes, e) ↦
              let (v', inside, next) = step-Inv a start size cap flag chunks current w bytes v e in
              rw (e, a.write_ok w.output bytes, write_pending_loop)
                (write_pending_loop-Goes fuel
                  (record w {
                    pending = remove w.write_index w.pending;
                    output = (env.write_all w.output bytes).0;
                    write_index = next_u32 w.write_index;
                  })
                  v' (omega (arith, length-remove_lt w.write_index w.pending bytes e, h)))
        ]

    write_pending-Goes :
        (w : Writer E Out)
        → Inv a start size cap flag chunks current w
        → Goes chunks current w.in_flight (write_pending env w)
    unfolding write_pending
    write_pending-Goes w v = write_pending_loop-Goes (suc (length w.pending)) w v (omega arith)

    failed_not_done : (e : E) → ◌≡◌ {A = Reply E (Unit {0})} (failed e) (done tt) → ⊥
    failed_not_done e h = cc

    blocked_not_done : ◌≡◌ {A = Reply E (Unit {0})} blocked (done tt) → ⊥
    blocked_not_done h = cc

    pub recording-Goes :
        (most : ℕ) (r : Writer E Out × Reply E (Unit {0}))
        → Goes chunks current most r
        → Goes chunks current most (recording env r)
    unfolding recording
    recording-Goes most (w, done u) g = g
    recording-Goes most (w, failed e) g = elim (failed_not_done e g.succeeds) [ ]
    recording-Goes most (w, blocked) g = g

    pub Goes-le :
        (most most' : ℕ) (r : Writer E Out × Reply E (Unit {0}))
        → most ≤ most'
        → Goes chunks current most r
        → Goes chunks current most' r
    Goes-le most most' r le g = record {
      ready = g.ready;
      succeeds = g.succeeds;
      fewer = omega (arith, g.fewer, le);
    }

    pub and_then-Goes :
        (most most' : ℕ) (r : Writer E Out × Reply E (Unit {0}))
        (next : Writer E Out → Writer E Out × Reply E (Unit {0}))
        → Goes chunks current most r
        → ((w : Writer E Out)
            → Ready chunks current w
            → w.in_flight ≤ most
            → Goes chunks current most' (next w))
        → Goes chunks current most' (and_then r next)
    and_then-Goes most most' (w, done u) next g later = later w g.ready g.fewer
    and_then-Goes most most' (w, failed e) next g later = elim (failed_not_done e g.succeeds) [ ]
    and_then-Goes most most' (w, blocked) next g later = elim (blocked_not_done g.succeeds) [ ]

    drain_ready_loop-Goes :
        (fuel : ℕ) (w : Writer E Out)
        → Inv a start size cap flag chunks current w
        → length w.workers < fuel
        → Goes chunks current w.in_flight (drain_ready_loop env fuel w)
    unfolding drain_ready_loop
    drain_ready_loop-Goes zero w v h = absurd (omega (arith, h))
    drain_ready_loop-Goes (suc fuel) w v h = elim (try_receive-cases w.workers w.schedule) [
      | inl e ↦
          rw (e, drain_ready_loop)
            (write_pending-Goes (record w { schedule = (try_receive w.workers w.schedule).1 })
              (look-Inv a start size cap flag chunks current w (try_receive w.workers w.schedule).1
                v))
      | inr ((i, chunk), workers, e, t) ↦
          let schedule = (try_receive w.workers w.schedule).1 in
          let w' : Writer E Out = stash i (a.member i chunk) (arrive workers schedule w) in
          let v' = stash-Inv a start size cap flag chunks current w i chunk workers schedule v t in
          let g = drain_ready_loop-Goes fuel w' v' (omega (arith, h, t.one_less)) in
          rw (e, a.chunk_ok i chunk, drain_ready_loop)
            (record { ready = g.ready; succeeds = g.succeeds; fewer = omega (arith, g.fewer) })
    ]

    pub drain_ready-Goes :
        (w : Writer E Out)
        → Inv a start size cap flag chunks current w
        → Goes chunks current w.in_flight (drain_ready env w)
    unfolding drain_ready
    drain_ready-Goes w v = drain_ready_loop-Goes (suc (length w.workers)) w v (omega arith)

    pub wait_loop-Goes :
        (fuel : ℕ) (w : Writer E Out)
        → 0 < cap
        → Ready chunks current w
        → w.in_flight < fuel
        → Goes chunks current w.in_flight (wait_loop env fuel w)
    unfolding wait_loop
    wait_loop-Goes zero w pos v h = absurd (omega (arith, h))
    wait_loop-Goes (suc fuel) w pos v h = elim (Bool-cases (leb w.max_in_flight w.in_flight)) [
      | inr e ↦ rw (e, wait_loop) (record { ready = v; succeeds = refl; fewer = omega arith })
      | inl e ↦
          let ((i, chunk), workers, schedule, e', t) =
            receive-Takes w.workers w.schedule (waiting e) in
          let w' : Writer E Out = stash i (a.member i chunk) (arrive workers schedule w) in
          let v' =
            stash-Inv a start size cap flag chunks current w i chunk workers schedule v.inv t in
          let r = recording-Goes w'.in_flight (write_pending env w') (write_pending-Goes w' v') in
          rw (e, e', a.chunk_ok i chunk, wait_loop)
            (and_then-Goes w'.in_flight w.in_flight (recording env (write_pending env w'))
              (wait_loop env fuel) r
              (λ w'' v'' le.
                Goes-le w''.in_flight w.in_flight (wait_loop env fuel w'') (omega (arith, le))
                  (wait_loop-Goes fuel w'' pos v'' (omega (arith, le, h)))))
    ]
      where
        waiting : leb w.max_in_flight w.in_flight ≡ true → 0 < length w.workers
        waiting e = ground (arith, e, v.inv.counted, v.inv.sizes.1, pos)

    -- The loop of `finalize`.
    pub collect_loop-Goes :
        (fuel : ℕ) (w : Writer E Out)
        → Ready chunks current w
        → w.in_flight < fuel
        → Goes chunks current 0 (collect_loop env fuel w)
    unfolding collect_loop
    collect_loop-Goes zero w v h = absurd (omega (arith, h))
    collect_loop-Goes (suc fuel) w v h = elim (Bool-cases (ltb 0 w.in_flight)) [
      | inr e ↦
          rw (e, collect_loop) (record { ready = v; succeeds = refl; fewer = ground (arith, e) })
      | inl e ↦
          let ((i, chunk), workers, schedule, e', t) =
            receive-Takes w.workers w.schedule (waiting e) in
          let w' : Writer E Out = stash i (a.member i chunk) (arrive workers schedule w) in
          let v' =
            stash-Inv a start size cap flag chunks current w i chunk workers schedule v.inv t in
          let r = recording-Goes w'.in_flight (write_pending env w') (write_pending-Goes w' v') in
          rw (e, e', a.chunk_ok i chunk, collect_loop)
            (collect_loop-Goes fuel (recording env (write_pending env w')).0 r.ready
              (omega (arith, r.fewer, h)))
    ]
      where
        waiting : ltb 0 w.in_flight ≡ true → 0 < length w.workers
        waiting e = ground (arith, e, v.inv.counted)
