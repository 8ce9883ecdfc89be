-- ===== src/Parallel/Correct.antt =====
-- What the writer is for: on every schedule the output is the members of the input's chunks, in order.
use gpzip.Prelude.{
  ℕ, zero, suc, ◌+◌, ◌-◌, ◌≤◌, ◌<◌, min, leb, ◌≡◌, refl, ap, sym, ◌∙◌, subst, inl, inr, false,
  Option, none, some, List, [], ◌∷◌, ◌++◌, length, take, drop, arith, Bool-cases, length-append,
  length-take, length-drop, take-append-drop, All-append, append_assoc, append-nil,
}
use gpzip.Parallel.Pending.{pending_at}
use gpzip.Parallel.State.{Env, Writer, Reply, done, failed, blocked, new}
use gpzip.Parallel.Ops.{and_then, dispatch_current, write_loop, write}
use gpzip.Parallel.Accepts.{Accepts, members}
use gpzip.Parallel.Inv.{fill-Inv}
use gpzip.Parallel.Drain.{Ready, Goes}
use gpzip.Parallel.Cut.{concat, concat-append, Cut, Short, few}
use gpzip.Parallel.Dispatch.{some_not_none, dispatch_current-Goes}

-- The reply of a call that goes on behind a success.
and_then-done :
    {E Out A : Type 0} (r : Writer E Out × Reply E (Unit {0}))
    (next : Writer E Out → Writer E Out × Reply E A)
    → r.1 ≡ done tt
    → and_then r next ≡ next r.0
and_then-done (w, done u) next e = refl
and_then-done (w, failed e') next e = absurd (no e)
  where
    no : failed e' ≡ done tt → ⊥
    no h = cc
and_then-done (w, blocked) next e = search e

module _ {E Out : Type 0} {env : Env E Out} (a : Accepts env) (start : List ℕ) (size cap : ℕ)
    (pos : 0 < size) (pos' : 0 < cap) where
  -- The writer has taken `input`, which is cut into what is dispatched and what is in the buffer.
  pub record Took (input : List ℕ) (w : Writer E Out) : Type 0 where
    pub chunks : List (List ℕ)
    pub cut : Cut size pos input chunks w.current
    pub ready : Ready a start size cap false chunks w.current w

  -- One more part of the input is in the buffer, which is full.
  full-Took :
      (input front : List ℕ) (w : Writer E Out)
      → (t : Took input w) → length (w.current ++ front) ≡ size
      → Short size pos (input ++ front)
      → (dispatch_current env (record w { current = w.current ++ front })).1 ≡ done tt
        × Took (input ++ front) (dispatch_current env (record w { current = w.current ++ front })).0
  full-Took input front w t e short = (
    g.succeeds,
    record {
      chunks = chunks';
      cut = subst (λ c. Cut size pos (input ++ front) chunks' c) (sym g.ready.inv.buffer) cut;
      ready =
          subst (λ c. Ready a start size cap false chunks' c w') (sym g.ready.inv.buffer) g.ready;
    },
  )
    where
      current' : List ℕ
      current' = w.current ++ front

      chunks' : List (List ℕ)
      chunks' = t.chunks ++ (current' ∷ [])

      filled : Writer E Out
      filled = record w { current = current' }

      w' : Writer E Out
      w' = (dispatch_current env filled).0

      cut : Cut size pos (input ++ front) chunks' []
      cut = record {
        joined =
            append-nil (concat chunks')
            ∙ concat-append t.chunks current'
            ∙ sym (append_assoc (concat t.chunks) w.current front)
            ∙ ap (λ c. c ++ front) t.cut.joined;
        full = All-append (λ c. length c ≡ size) t.chunks (current' ∷ []) t.cut.full (e, tt);
        room = pos;
      }

      g : Goes a start size cap false chunks' [] (w.in_flight + 1) (dispatch_current env filled)
      g =
          dispatch_current-Goes a start size cap false pos' t.chunks current' filled
            (fill-Inv a start size cap false t.chunks w.current w w.schedule current' t.ready.inv)
            (omega (arith, e, pos))
            (few size pos t.chunks t.cut.full (
              omega (
                arith,
                short,
                length-append (concat t.chunks) w.current,
                ap length t.cut.joined,
                length-append input front,
              )))

  -- The buffer has room left.
  room-Took :
      (input front : List ℕ) (w : Writer E Out)
      → Took input w
      → length (w.current ++ front) < size
      → Took (input ++ front) (record w { current = w.current ++ front })
  room-Took input front w t h = record {
    chunks = t.chunks;
    cut = record {
      joined =
          sym (append_assoc (concat t.chunks) w.current front) ∙ ap (λ c. c ++ front) t.cut.joined;
      full = t.cut.full;
      room = h;
    };
    ready = record {
      inv =
          fill-Inv a start size cap false t.chunks w.current w w.schedule (w.current ++ front)
            t.ready.inv;
      caught_up = t.ready.caught_up;
    };
  }

  -- The call takes all its bytes.
  unfoldable pub TakesAll : List ℕ → ℕ → Writer E Out × Reply E ℕ → Type 0
  TakesAll input count (w, res) = (res ≡ done count) × Took input w

  write_loop-TakesAll :
      (fuel : ℕ) (buf : List ℕ) (written : ℕ) (input : List ℕ) (w : Writer E Out)
      → Took input w
      → Short size pos (input ++ buf)
      → length buf ≤ fuel
      → TakesAll (input ++ buf) (written + length buf) (write_loop env fuel buf written w)
  unfolding write_loop TakesAll
  write_loop-TakesAll fuel [] written input w t short h =
      (ap (λ n. done n) (omega arith), subst (λ i. Took i w) (sym (append-nil input)) t)
  write_loop-TakesAll zero (b ∷ bs) written input w t short h = absurd (omega (arith, h))
  write_loop-TakesAll (suc fuel) (b ∷ bs) written input w t short h =
      elim (Bool-cases (leb w.chunk_size (length (w.current ++ front)))) [
        | inr e ↦
            rw (e, write_loop)
              (regroup (write_loop env fuel back (written + count) filled) (
                write_loop-TakesAll fuel back (written + count) (input ++ front) filled
                  (room-Took input front w t (ground (arith, e, sized))) shorter less))
        | inl e ↦
            let (succeeds, t') = full-Took input front w t (ground (arith, e, sized, fits)) (
              omega (
                arith,
                short,
                length-append input front,
                length-append input buf,
                count_le,
                front_length,
              )) in
            rw
              (
                e,
                and_then-done (dispatch_current env filled)
                    (write_loop env fuel back (written + count)) succeeds,
                write_loop,
              )
              (regroup (write_loop env fuel back (written + count) (dispatch_current env filled).0)
                (write_loop-TakesAll fuel back (written + count) (input ++ front)
                  (dispatch_current env filled).0 t' shorter less))
      ]
    where
      buf : List ℕ
      buf = b ∷ bs

      count : ℕ
      count = min (length buf) (w.chunk_size - length w.current)

      front : List ℕ
      front = take count buf

      back : List ℕ
      back = drop count buf

      filled : Writer E Out
      filled = record w { current = w.current ++ front }

      apart : (input ++ front) ++ back ≡ input ++ buf
      apart = append_assoc input front back ∙ ap (λ t. input ++ t) (take-append-drop count buf)

      shorter : Short size pos ((input ++ front) ++ back)
      shorter = subst (λ i. Short size pos i) (sym apart) short

      sized : w.chunk_size ≡ size
      sized = t.ready.inv.sizes.0

      count_le : count ≤ length buf
      count_le = omega arith

      front_length : length front ≡ count
      front_length = omega (arith, length-take count buf)

      less : length back ≤ fuel
      less = omega (arith, length-drop count buf, h, t.cut.room, sized)

      fits : length (w.current ++ front) ≤ size
      fits = omega (arith, length-append w.current front, front_length, t.cut.room, sized)

      regroup :
          (r : Writer E Out × Reply E ℕ)
          → TakesAll ((input ++ front) ++ back) ((written + count) + length back) r
          → TakesAll (input ++ buf) (written + length buf) r
      regroup r (res, t') = (
        res ∙ ap (λ n. done n) (omega (arith, length-drop count buf, count_le)),
        subst (λ i. Took i r.0) apart t',
      )

  pub write-TakesAll :
      (buf input : List ℕ) (w : Writer E Out)
      → Took input w
      → Short size pos (input ++ buf)
      → TakesAll (input ++ buf) (length buf) (write env buf w)
  unfolding write
  write-TakesAll buf input w t short = go w.sticky_err t.ready.inv.no_error
    where
      go :
          (o : Option E)
          → o ≡ none
          → TakesAll (input ++ buf) (length buf) (elim o [
            | some e ↦ (record w { sticky_err = none }, failed e)
            | none ↦ write_loop env (suc (length buf)) buf 0 w
          ])
      go (some e) h = absurd (some_not_none e h)
      go none h =
          subst (λ n. TakesAll (input ++ buf) n (write_loop env (suc (length buf)) buf 0 w))
            (omega arith)
            (write_loop-TakesAll (suc (length buf)) buf 0 input w t short (omega arith))

  pub new-Took :
      (o : Out) (schedule : List ℕ) → a.contents o ≡ start → Took [] (new o size cap schedule)
  unfolding new pending_at
  new-Took o schedule e = record {
    chunks = [];
    cut = record { joined = unfold concat in refl; full = tt; room = pos };
    ready = record {
      inv = record {
        buffer = refl;
        sizes = (refl, refl);
        next = refl;
        small = omega arith;
        behind = omega arith;
        written = unfold members in (e ∙ sym (append-nil start));
        stashed = λ i. inl refl;
        jobs = tt;
        counted = refl;
        covered = λ i lo hi. absurd (omega (arith, hi));
        no_error = refl;
        flagged = refl;
      };
      caught_up = refl;
    };
  }
