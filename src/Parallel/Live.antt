-- ===== src/Parallel/Live.antt =====
-- The writer never waits for a result that cannot come, and a recorded error stays recorded: the
-- counts that `dispatch_current` and the loop of `finalize` rely on.
use gpzip.Prelude.{
  ℕ, zero, suc, ◌≤◌, ◌<◌, leb, ◌≡◌, refl, inl, inr, true, Option, none, some, List, length, arith,
  Bool-cases, Option-cases, Result-cases,
}
use gpzip.Parallel.Channel.{Job, try_receive}
use gpzip.Parallel.Jobs.{Takes, receive-Takes, try_receive-cases}
use gpzip.Parallel.Pending.{Pending, pending_at, insert, remove, length-remove_lt}
use gpzip.Parallel.State.{
  Env, Writer, Reply, done, failed, blocked, next_u32, record_err, arrive, stash,
}
use gpzip.Parallel.Ops.{
  write_pending_loop, write_pending, drain_ready_loop, drain_ready, recording, and_then, wait_loop,
}

-- The call returns.
abbrev pub Ends : {E A : Type 0} → Reply E A → Type 0
Ends (done a) = Unit {0}
Ends (failed e) = Unit {0}
Ends blocked = ⊥

module _ {E Out : Type 0} where
  -- What the writer's counts rely on.
  pub record Live (w : Writer E Out) : Type 0 where
    pub counted : w.in_flight ≡ length w.workers
    pub room : length w.current < w.chunk_size
    pub capacity : 0 < w.max_in_flight

  -- A recorded error is still the recorded error.
  abbrev pub Sticks : Writer E Out → Writer E Out → Type 0
  Sticks w w' = (e : E) → w.sticky_err ≡ some e → w'.sticky_err ≡ some e

  -- `w'` comes from `w` by steps that keep the counts, lose no recorded error and dispatch no chunk.
  pub record Follows (w w' : Writer E Out) : Type 0 where
    pub live : Live w'
    pub sticks : Sticks w w'
    pub fewer : w'.in_flight ≤ w.in_flight

  pub Follows-refl : (w : Writer E Out) → Live w → Follows w w
  Follows-refl w v = record { live = v; sticks = λ e h. h; fewer = omega arith }

  pub Follows-trans : (w w' w'' : Writer E Out) → Follows w w' → Follows w' w'' → Follows w w''
  Follows-trans w w' w'' f g = record {
    live = g.live;
    sticks = λ e h. g.sticks e (f.sticks e h);
    fewer = omega (arith, f.fewer, g.fewer);
  }

  pub record_err-Follows : (e : E) (w : Writer E Out) → Live w → Follows w (record_err e w)
  unfolding record_err
  record_err-Follows e w v = go w.sticky_err refl
    where
      go :
          (o : Option E)
          → w.sticky_err ≡ o
          → Follows w (elim o [ none ↦ record w { sticky_err = some e } | some first ↦ w ])
      go none h = record {
        live = record { counted = v.counted; room = v.room; capacity = v.capacity };
        sticks = λ e' h'. search (h, h');
        fewer = omega arith;
      }
      go (some first) h = Follows-refl w v

  -- A result that comes in makes one job less.
  pub arrive-Follows :
      (w : Writer E Out) (job : Job) (workers : List Job) (schedule : List ℕ)
      → Live w
      → Takes w.workers job workers
      → Follows w (arrive workers schedule w)
        × ((arrive workers schedule w).in_flight < w.in_flight)
  arrive-Follows w job workers schedule v t = (
    record {
      live = record {
        counted = omega (arith, v.counted, t.one_less);
        room = v.room;
        capacity = v.capacity;
      };
      sticks = λ e h. h;
      fewer = omega arith;
    },
    omega (arith, v.counted, t.one_less),
  )

  -- The call returns, in such a state.
  abbrev pub Returns : {A : Type 0} → Writer E Out → Writer E Out × Reply E A → Type 0
  Returns w (w', res) = Follows w w' × Ends res

  pub Returns-trans :
      {A : Type 0} (w w' : Writer E Out) (r : Writer E Out × Reply E A)
      → Follows w w'
      → Returns w' r
      → Returns w r
  Returns-trans w w' (w'', res) f (g, h) = (Follows-trans w w' w'' f g, h)

  -- The fields that the counts do not rely on.
  pub touch-Follows :
      (w : Writer E Out) (pending : Pending) (output : Out) (index : ℕ) (schedule : List ℕ)
      → Live w
      → Follows w (record w {
        pending = pending;
        output = output;
        write_index = index;
        schedule = schedule;
      })
  touch-Follows w pending output index schedule v = record {
    live = record { counted = v.counted; room = v.room; capacity = v.capacity };
    sticks = λ e h. h;
    fewer = omega arith;
  }

  pub stash-Follows :
      (i : ℕ) (bytes : List ℕ) (w : Writer E Out) → Live w → Follows w (stash i bytes w)
  stash-Follows i bytes w v =
      touch-Follows w (insert i bytes w.pending) w.output w.write_index w.schedule v

  pub and_then-Returns :
      {A : Type 0} (w : Writer E Out) (r : Writer E Out × Reply E (Unit {0}))
      (next : Writer E Out → Writer E Out × Reply E A)
      → Returns w r
      → ((w' : Writer E Out) → Follows w w' → Returns w' (next w'))
      → Returns w (and_then r next)
  and_then-Returns w (w', done u) next (f, h) later = Returns-trans w w' (next w') f (later w' f)
  and_then-Returns w (w', failed e) next (f, h) later = (f, h)
  and_then-Returns w (w', blocked) next (f, h) later = elim h [ ]

  module _ (env : Env E Out) where
    write_pending_loop-Returns :
        (fuel : ℕ) (w : Writer E Out)
        → Live w
        → length w.pending < fuel
        → Returns w (write_pending_loop env fuel w)
    unfolding write_pending_loop
    write_pending_loop-Returns zero w v h = absurd (omega (arith, h))
    write_pending_loop-Returns (suc fuel) w v h =
        elim (Option-cases (pending_at w.write_index w.pending)) [
          | inl e ↦ rw (e, write_pending_loop) (Follows-refl w v, tt)
          | inr (bytes, e) ↦
              let pending : Pending = remove w.write_index w.pending in
              let output : Out = (env.write_all w.output bytes).0 in
              elim (Option-cases (env.write_all w.output bytes).1) [
                | inl e' ↦
                    let f = touch-Follows w pending output (next_u32 w.write_index) w.schedule v in
                    let w' : Writer E Out = record w {
                      pending = pending;
                      output = output;
                      write_index = next_u32 w.write_index;
                    } in
                    rw (e, e', write_pending_loop)
                      (Returns-trans w w' (write_pending_loop env fuel w') f (
                        write_pending_loop-Returns fuel w' f.live
                          (omega (arith, length-remove_lt w.write_index w.pending bytes e, h))))
                | inr (error, e') ↦
                    rw (e, e', write_pending_loop)
                      (touch-Follows w pending output w.write_index w.schedule v, tt)
              ]
        ]

    pub write_pending-Returns : (w : Writer E Out) → Live w → Returns w (write_pending env w)
    unfolding write_pending
    write_pending-Returns w v =
        write_pending_loop-Returns (suc (length w.pending)) w v (omega arith)

    pub recording-Returns :
        (w : Writer E Out) (r : Writer E Out × Reply E (Unit {0}))
        → Returns w r
        → Returns w (recording env r)
    unfolding recording
    recording-Returns w (w', done u) v = v
    recording-Returns w (w', blocked) (f, h) = elim h [ ]
    recording-Returns w (w', failed e) (f, h) =
        (Follows-trans w w' (record_err e w') f (record_err-Follows e w' f.live), tt)

    drain_ready_loop-Returns :
        (fuel : ℕ) (w : Writer E Out)
        → Live w
        → length w.workers < fuel
        → Returns w (drain_ready_loop env fuel w)
    unfolding drain_ready_loop
    drain_ready_loop-Returns zero w v h = absurd (omega (arith, h))
    drain_ready_loop-Returns (suc fuel) w v h = elim (try_receive-cases w.workers w.schedule) [
      | inl e ↦
          let schedule = (try_receive w.workers w.schedule).1 in
          let f = touch-Follows w w.pending w.output w.write_index schedule v in
          let w' : Writer E Out = record w { schedule = schedule } in
          rw (e, drain_ready_loop)
            (Returns-trans w w' (write_pending env w') f (write_pending-Returns w' f.live))
      | inr ((i, chunk), workers, e, t) ↦
          let schedule = (try_receive w.workers w.schedule).1 in
          elim (Result-cases (env.chunk_fn i chunk)) [
            | inl (error, e') ↦
                rw (e, e', drain_ready_loop)
                  ((arrive-Follows w (i, chunk) workers schedule v t).0, tt)
            | inr (bytes, e') ↦
                let w' : Writer E Out = stash i bytes (arrive workers schedule w) in
                let f = arrive-Follows w (i, chunk) workers schedule v t in
                let g = stash-Follows i bytes (arrive workers schedule w) f.0.live in
                rw (e, e', drain_ready_loop)
                  (Returns-trans w w' (drain_ready_loop env fuel w')
                    (Follows-trans w (arrive workers schedule w) w' f.0 g)
                    (drain_ready_loop-Returns fuel w' g.live (omega (arith, h, t.one_less))))
          ]
    ]

    pub drain_ready-Returns : (w : Writer E Out) → Live w → Returns w (drain_ready env w)
    unfolding drain_ready
    drain_ready-Returns w v = drain_ready_loop-Returns (suc (length w.workers)) w v (omega arith)

    -- One round of a loop that waits: the result comes, and is handled.
    pub wait_loop-Returns :
        (fuel : ℕ) (w : Writer E Out)
        → Live w
        → w.in_flight < fuel
        → Returns w (wait_loop env fuel w)
    unfolding wait_loop
    wait_loop-Returns zero w v h = absurd (omega (arith, h))
    wait_loop-Returns (suc fuel) w v h = elim (Bool-cases (leb w.max_in_flight w.in_flight)) [
      | inr e ↦ rw (e, wait_loop) (Follows-refl w v, tt)
      | inl e ↦
          let ((i, chunk), workers, schedule, e', t) =
            receive-Takes w.workers w.schedule (waiting e) in
          let (f, less) = arrive-Follows w (i, chunk) workers schedule v t in
          elim (Result-cases (env.chunk_fn i chunk)) [
            | inl (error, e'') ↦
                rw (e, e', e'', wait_loop)
                  (recording-Returns w (arrive workers schedule w, failed error) (f, tt))
            | inr (bytes, e'') ↦
                let w' : Writer E Out = stash i bytes (arrive workers schedule w) in
                let g : Follows w w' =
                  Follows-trans w (arrive workers schedule w) w' f
                    (stash-Follows i bytes (arrive workers schedule w) f.live) in
                let r =
                  recording-Returns w' (write_pending env w') (write_pending-Returns w' g.live) in
                rw (e, e', e'', wait_loop)
                  (Returns-trans w w'
                    (and_then (recording env (write_pending env w')) (wait_loop env fuel)) g
                    (and_then-Returns w' (recording env (write_pending env w')) (wait_loop env fuel)
                      r
                      (λ w'' k.
                        wait_loop-Returns fuel w'' k.live (omega (arith, k.fewer, less, h)))))
          ]
    ]
      where
        waiting : leb w.max_in_flight w.in_flight ≡ true → 0 < length w.workers
        waiting e = ground (arith, e, v.counted, v.capacity)
