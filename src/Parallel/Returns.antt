-- ===== src/Parallel/Returns.antt =====
-- Every call of the writer returns: no receive waits for a result that no worker is to send. And what
-- `finalize` and `write` do with a recorded error.
use gpzip.Prelude.{
  ℕ, zero, suc, ◌<◌, ◌==◌, ltb, ◌≡◌, refl, sym, ◌∙◌, inl, inr, if◌then◌else◌, Bool, true, false,
  Option, none, some, List, [], ◌∷◌, length, arith, length-append, subst, Bool-cases, Option-cases,
  Result-cases,
}
use gpzip.Parallel.Jobs.{receive-Takes}
use gpzip.Parallel.State.{
  Env, Writer, Reply, done, failed, blocked, record_err, check_sticky, arrive, stash,
}
use gpzip.Parallel.Ops.{
  write_pending, drain_ready, recording, regardless, wait_loop, spawn, dispatch_chunk,
  dispatch_current, collect_loop, flush_and_check, finalize, write,
}
use gpzip.Parallel.Live.{
  Ends, Live, Sticks, Follows, Follows-refl, Follows-trans, record_err-Follows, arrive-Follows,
  Returns, Returns-trans, touch-Follows, stash-Follows, and_then-Returns, write_pending-Returns,
  recording-Returns, drain_ready-Returns, wait_loop-Returns,
}

module _ {E Out : Type 0} where
  -- The call returns, and leaves a writer in such a state, which may have more in flight.
  abbrev Settles : {A : Type 0} → Writer E Out → Writer E Out × Reply E A → Type 0
  Settles w (w', res) = Live w' × Sticks w w' × Ends res

  Settles-Returns :
      {A : Type 0} (w w' : Writer E Out) (r : Writer E Out × Reply E A)
      → Sticks w w'
      → Returns w' r
      → Settles w r
  Settles-Returns w w' (w'', res) s (f, h) = (f.live, (λ e k. f.sticks e (s e k)), h)

  module _ (env : Env E Out) where
    -- A new job.
    spawn-Live : (w : Writer E Out) → Live w → Live (spawn env w)
    spawn-Live w v = record {
      counted = omega (arith, v.counted, length-append w.workers ((w.next_index, w.current) ∷ []));
      room = omega (arith, v.room);
      capacity = v.capacity;
    }

    dispatch_chunk-Settles : (w : Writer E Out) → Live w → Settles w (dispatch_chunk env w)
    unfolding dispatch_chunk
    dispatch_chunk-Settles w v =
        let s = spawn-Live w v in
        Settles-Returns w (spawn env w) (dispatch_chunk env w) (λ e h. h)
          (and_then-Returns (spawn env w) (recording env (drain_ready env (spawn env w)))
            (λ w'. wait_loop env (suc w'.in_flight) w')
            (recording-Returns env (spawn env w) (drain_ready env (spawn env w))
              (drain_ready-Returns env (spawn env w) s))
            (λ w' f. wait_loop-Returns env (suc w'.in_flight) w' f.live (omega arith)))

    dispatch_current-Settles : (w : Writer E Out) → Live w → Settles w (dispatch_current env w)
    unfolding dispatch_current
    dispatch_current-Settles w v = go w.sticky_err
      where
        go :
            (o : Option E)
            → Settles {A = Unit {0}} w (elim o [
              | some e ↦ (w, failed e)
              | none ↦ if length w.current == 0 then (w, done tt) else dispatch_chunk env w
            ])
        go (some e) = (v, (λ e h. h), tt)
        go none = elim (Bool-cases (length w.current == 0)) [
          | inl e ↦ rw e (v, (λ e h. h), tt)
          | inr e ↦ rw e (dispatch_chunk-Settles w v)
        ]

    -- The loop of `finalize` receives every result there is to come.
    collect_loop-Returns :
        (fuel : ℕ) (w : Writer E Out)
        → Live w
        → w.in_flight < fuel
        → Returns w (collect_loop env fuel w)
    unfolding collect_loop
    collect_loop-Returns zero w v h = absurd (omega (arith, h))
    collect_loop-Returns (suc fuel) w v h = elim (Bool-cases (ltb 0 w.in_flight)) [
      | inr e ↦ rw (e, collect_loop) (Follows-refl w v, tt)
      | inl e ↦
          let ((i, chunk), workers, schedule, e', t) =
            receive-Takes w.workers w.schedule (waiting e) in
          let (f, less) = arrive-Follows w (i, chunk) workers schedule v t in
          let w₀ : Writer E Out = arrive workers schedule w in
          elim (Result-cases (env.chunk_fn i chunk)) [
            | inl (error, e'') ↦
                let g = record_err-Follows error w₀ f.live in
                rw (e, e', e'', collect_loop)
                  (on (collect_loop-Returns fuel) (record_err error w₀)
                    (Follows-trans w w₀ (record_err error w₀) f g) (omega (arith, g.fewer, less)))
            | inr (bytes, e'') ↦
                let w₁ : Writer E Out = stash i bytes w₀ in
                let w₂ : Writer E Out = (recording env (write_pending env w₁)).0 in
                let s = stash-Follows i bytes w₀ f.live in
                let (g, ends) =
                  recording-Returns env w₁ (write_pending env w₁)
                    (write_pending-Returns env w₁ s.live) in
                rw (e, e', e'', collect_loop)
                  (on (collect_loop-Returns fuel) w₂
                    (Follows-trans w w₁ w₂ (Follows-trans w w₀ w₁ f s) g)
                    (omega (arith, g.fewer, s.fewer, less)))
          ]
    ]
      where
        waiting : ltb 0 w.in_flight ≡ true → 0 < length w.workers
        waiting e = ground (arith, e, v.counted)

        on :
            ((w' : Writer E Out)
              → Live w'
              → w'.in_flight < fuel
              → Returns w' (collect_loop env fuel w'))
            → (w' : Writer E Out) → Follows w w'
            → w'.in_flight < w.in_flight
            → Returns w (collect_loop env fuel w')
        on rest w' f less =
            Returns-trans w w' (collect_loop env fuel w') f
              (rest w' f.live (omega (arith, less, h)))

    -- The reply is the recorded error, if there is one.
    Checked : Writer E Out → Writer E Out × Reply E (Unit {0}) → Type 0
    Checked w (w', res) = Live w' × Sticks w w' × (res ≡ check_sticky w')

    flush_and_check-Checked : (w : Writer E Out) → Live w → Checked w (flush_and_check env w)
    unfolding flush_and_check Checked
    flush_and_check-Checked w v = elim (Option-cases (env.flush w.output).1) [
      | inl e ↦ rw e (f.live, f.sticks, refl)
      | inr (error, e) ↦
          let g = record_err-Follows error flushed f.live in
          rw e (g.live, (λ e' h. g.sticks e' (f.sticks e' h)), refl)
    ]
      where
        flushed : Writer E Out
        flushed = record w { output = (env.flush w.output).0 }

        f : Follows w flushed
        f = touch-Follows w w.pending (env.flush w.output).0 w.write_index w.schedule v

    regardless-Checked :
        (w : Writer E Out) (r : Writer E Out × Reply E (Unit {0}))
        (next : Writer E Out → Writer E Out × Reply E (Unit {0}))
        → Settles w r
        → ((w' : Writer E Out) → Live w' → Checked w' (next w'))
        → Checked w (regardless r next)
    unfolding Checked
    regardless-Checked w (w', done u) next (v, s, h) later =
        let (v', s', e) = later w' v in (v', (λ e' k. s' e' (s e' k)), e)
    regardless-Checked w (w', failed error) next (v, s, h) later =
        let (v', s', e) = later w' v in (v', (λ e' k. s' e' (s e' k)), e)
    regardless-Checked w (w', blocked) next (v, s, h) later = elim h [ ]

    -- Every call of `finalize` returns, on every schedule and whatever fails.
    finalize-Checked : (w : Writer E Out) → Live w → Checked w (finalize env w)
    unfolding finalize Checked
    finalize-Checked w v = go w.finalized
      where
        w' : Writer E Out
        w' = record w { finalized = true }

        v' : Live w'
        v' = record { counted = v.counted; room = v.room; capacity = v.capacity }

        rest : Writer E Out → Writer E Out × Reply E (Unit {0})
        rest w₁ = regardless (collect_loop env (suc w₁.in_flight) w₁) (flush_and_check env)

        go :
            (b : Bool)
            → Checked w
                (if b then (w, check_sticky w) else regardless (dispatch_current env w') rest)
        go true = (v, (λ e h. h), refl)
        go false =
            regardless-Checked w (dispatch_current env w') rest (dispatch_current-Settles w' v')
              (λ w₁ v₁.
                regardless-Checked w₁ (collect_loop env (suc w₁.in_flight) w₁) (flush_and_check env)
                  (Settles-Returns w₁ w₁ (collect_loop env (suc w₁.in_flight) w₁) (λ e h. h)
                    (collect_loop-Returns (suc w₁.in_flight) w₁ v₁ (omega arith)))
                  flush_and_check-Checked)

    check_sticky-Ends : (w : Writer E Out) → Ends (check_sticky w)
    unfolding check_sticky
    check_sticky-Ends w =
        elim w.sticky_err
          as (λ o. Ends {E = E} {A = Unit {0}} (elim o [ none ↦ done tt | some e ↦ failed e ])) [
            | none ↦ tt
            | some e ↦ tt
          ]

    -- On every schedule, and whichever chunks and writes fail, `finalize` returns, of a writer with a
    -- result outstanding for each chunk in flight, room in its buffer and a capacity above 0: its loops
    -- stop, and no receive waits for a result that does not come.
    pub finalize-Ends : (w : Writer E Out) → Live w → Ends (finalize env w).1
    unfolding Checked
    finalize-Ends w v =
        let (v', s, e) = finalize-Checked w v in
        subst (λ r. Ends r) (sym e) (check_sticky-Ends (finalize env w).0)

    -- On every schedule, `finalize` of such a writer with a recorded error returns that error, the first
    -- there was, however many chunks or writes fail later.
    pub finalize-sticky_err :
        (w : Writer E Out) (e : E) → Live w → w.sticky_err ≡ some e → (finalize env w).1 ≡ failed e
    unfolding Checked check_sticky
    finalize-sticky_err w e v h =
        let (v', s, k) = finalize-Checked w v in k ∙ rw (s e h, check_sticky) refl

    -- The writer with the error `e` recorded, an empty buffer and nothing in flight.
    abbrev pub with_error : E → Writer E Out → Writer E Out
    with_error e w = record w {
      current = [];
      in_flight = 0;
      finalized = false;
      sticky_err = some e;
    }

    -- On a writer with a recorded error `e`, an empty buffer, nothing in flight and an inner writer
    -- that flushes, `write` returns `e` and takes it out, so that the `finalize` behind it succeeds.
    pub finalize-write :
        (w : Writer E Out) (buf : List ℕ) (e : E)
        → (env.flush w.output).1 ≡ none
        → ((write env buf (with_error e w)).1 ≡ failed e)
          × ((finalize env (write env buf (with_error e w)).0).1 ≡ done tt)
    unfolding write finalize dispatch_current collect_loop flush_and_check check_sticky
    finalize-write w buf e h = (refl, rw h refl)
