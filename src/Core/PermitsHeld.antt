-- ===== src/Core/PermitsHeld.antt =====
-- However the calls of the hybrid chunk function interleave, the permits bound the calls on the GPU.
use gpzip.Prelude.{
  ℕ, ◌+◌, ◌≤◌, ◌≡◌, refl, ap, sym, ◌∙◌, Bool, true, false, not, ltb, ◌==◌, ◌&&◌, ◌||◌, Bool-cases,
  inl, inr, Option, none, some, List, [], ◌∷◌, ◌++◌, map, All, arith, ◌⊎◌,
}
use gpzip.Core.Permits.{
  Shared, gpu_warmup_chunks, Phase, started, counted, probing, probed, acquiring, on_gpu, releasing,
  on_cpu, finished, get_or_init, try_acquire, advance, initial, Reachable, begin, move,
}

-- The permits that a call holds.
abbrev pub held : {R : Type 0} → Phase R → ℕ
held (started bytes) = 0
held (counted n bytes) = 0
held (probing n bytes) = 0
held (probed found n bytes) = 0
held (acquiring cur n bytes) = 0
held (on_gpu n bytes) = 1
held (releasing n bytes result) = 1
held (on_cpu n bytes) = 0
held (finished n bytes result) = 0

abbrev pub holders : {R : Type 0} → List (Phase R) → ℕ
holders [] = 0
holders (p ∷ ps) = held p + holders ps

abbrev pub bytes_of : {R : Type 0} → Phase R → List ℕ
bytes_of (started bytes) = bytes
bytes_of (counted n bytes) = bytes
bytes_of (probing n bytes) = bytes
bytes_of (probed found n bytes) = bytes
bytes_of (acquiring cur n bytes) = bytes
bytes_of (on_gpu n bytes) = bytes
bytes_of (releasing n bytes result) = bytes
bytes_of (on_cpu n bytes) = bytes
bytes_of (finished n bytes result) = bytes

holders-middle :
    {R : Type 0} (before : List (Phase R)) (p : Phase R) (after : List (Phase R))
    → holders (before ++ (p ∷ after)) ≡ held p + holders (before ++ after)
holders-middle [] p after = refl
holders-middle (b ∷ bs) p after = omega (arith, holders-middle bs p after)

map-middle :
    {R : Type 0} (before : List (Phase R)) (p p' : Phase R) (after : List (Phase R))
    → bytes_of p' ≡ bytes_of p
    → map bytes_of (before ++ (p' ∷ after)) ≡ map bytes_of (before ++ (p ∷ after))
map-middle [] p p' after e = ap (λ b. b ∷ map bytes_of after) e
map-middle (b ∷ bs) p p' after e = ap (λ t. bytes_of b ∷ t) (map-middle bs p p' after e)

All-middle :
    {R : Type 0} (P : Phase R → Type 0) (before : List (Phase R)) (p p' : Phase R)
    (after : List (Phase R))
    → (P p → P p')
    → All P (before ++ (p ∷ after))
    → All P (before ++ (p' ∷ after))
All-middle P [] p p' after f (h, hs) = (f h, hs)
All-middle P (b ∷ bs) p p' after f (h, hs) = (h, All-middle P bs p p' after f hs)

module _ {R : Type 0} (cpu_fn gpu_fn : List ℕ → R) (adapter : Bool) (gpu_workers : ℕ) where
  -- A call that may use the GPU is behind the warm-up, and there is an adapter.
  abbrev pub MayUse : ℕ → Type 0
  MayUse n = (gpu_warmup_chunks ≤ n) × (adapter ≡ true)

  -- What holds of a call where it is. A finished one has the CPU's result, or the GPU's where it may
  -- use that.
  abbrev pub Fits : Phase R → Type 0
  Fits (started bytes) = Unit {0}
  Fits (counted n bytes) = Unit {0}
  Fits (probing n bytes) = gpu_warmup_chunks ≤ n
  Fits (probed found n bytes) = (gpu_warmup_chunks ≤ n) × (found ≡ adapter)
  Fits (acquiring cur n bytes) = MayUse n
  Fits (on_gpu n bytes) = MayUse n
  Fits (releasing n bytes result) = MayUse n × (result ≡ gpu_fn bytes)
  Fits (on_cpu n bytes) = Unit {0}
  Fits (finished n bytes result) = (result ≡ cpu_fn bytes) ⊎ (MayUse n × (result ≡ gpu_fn bytes))

  abbrev CellFits : Option Bool → Type 0
  CellFits none = Unit {0}
  CellFits (some found) = found ≡ adapter

  -- A step keeps what is there: the permits with those the call holds, and what the call is for.
  Keeps : Shared → Phase R → Shared × Phase R → Type 0
  Keeps s p (s', p') =
      (s'.permits + held p' ≡ s.permits + held p)
      × (bytes_of p' ≡ bytes_of p)
      × (CellFits s.gpu_fn_cell → CellFits s'.gpu_fn_cell)
      × (CellFits s.gpu_fn_cell → Fits p → Fits p')

  try_acquire-Keeps :
      (spurious : Bool) (s : Shared) (cur n : ℕ) (bytes : List ℕ)
      → Keeps s
          (acquiring cur n bytes)
          (try_acquire cpu_fn gpu_fn adapter gpu_workers spurious s cur n bytes)
  unfolding Keeps try_acquire
  try_acquire-Keeps spurious s cur n bytes = elim (Bool-cases (cur == 0)) [
    | inl e ↦ rw (e, try_acquire) (refl, refl, λ c. c, λ c f. tt)
    | inr e ↦ elim (Bool-cases ((s.permits == cur) && not spurious)) [
      | inl same ↦ rw (e, same, try_acquire) (ground (arith, e, same), refl, λ c. c, λ c f. f)
      | inr other ↦ rw (e, other, try_acquire) (refl, refl, λ c. c, λ c f. f)
    ]
  ]

  get_or_init-adapter :
      (cell : Option Bool)
      → CellFits cell
      → get_or_init cpu_fn gpu_fn adapter gpu_workers cell ≡ adapter
  unfolding get_or_init
  get_or_init-adapter none c = refl
  get_or_init-adapter (some found) c = c

  advance-Keeps :
      (spurious : Bool) (s : Shared) (p : Phase R)
      → Keeps s p (advance cpu_fn gpu_fn adapter gpu_workers spurious s p)
  unfolding Keeps advance
  advance-Keeps spurious s (started bytes) = (refl, refl, λ c. c, λ c f. tt)
  advance-Keeps spurious s (counted n bytes) =
      elim (Bool-cases (not (ltb 0 gpu_workers) || ltb n gpu_warmup_chunks)) [
        | inl e ↦ rw (e, advance) (refl, refl, λ c. c, λ c f. tt)
        | inr e ↦ rw (e, advance) (refl, refl, λ c. c, λ c f. ground (arith, e))
      ]
  advance-Keeps spurious s (probing n bytes) = (
    refl,
    refl,
    get_or_init-adapter s.gpu_fn_cell,
    λ c f. (f, get_or_init-adapter s.gpu_fn_cell c),
  )
  advance-Keeps spurious s (probed false n bytes) = (refl, refl, λ c. c, λ c f. tt)
  advance-Keeps spurious s (probed true n bytes) = (refl, refl, λ c. c, λ c f. (f.0, sym f.1))
  advance-Keeps spurious s (acquiring cur n bytes) = try_acquire-Keeps spurious s cur n bytes
  advance-Keeps spurious s (on_gpu n bytes) = (refl, refl, λ c. c, λ c f. (f, refl))
  advance-Keeps spurious s (releasing n bytes result) = (omega arith, refl, λ c. c, λ c f. inr f)
  advance-Keeps spurious s (on_cpu n bytes) = (refl, refl, λ c. c, λ c f. inl refl)
  advance-Keeps spurious s (finished n bytes result) = (refl, refl, λ c. c, λ c f. f)

  -- The permits and those that calls hold are all the permits, the calls are still for their chunks, and
  -- each fits.
  abbrev pub Bounded : List (List ℕ) → Shared → List (Phase R) → Type 0
  Bounded calls s ps =
      (s.permits + holders ps ≡ gpu_workers) × (map bytes_of ps ≡ calls) × All Fits ps

  begins :
      (calls : List (List ℕ))
      → Bounded calls (initial gpu_workers) (map (λ bytes. started bytes) calls)
  begins [] = (omega arith, refl, tt)
  begins (c ∷ cs) =
      let (all, same, fit) = begins cs in (omega (arith, all), ap (λ t. c ∷ t) same, (tt, fit))

  reached :
      {calls : List (List ℕ)} {s : Shared} {ps : List (Phase R)}
      → Reachable cpu_fn gpu_fn adapter gpu_workers calls s ps
      → Bounded calls s ps × CellFits s.gpu_fn_cell
  unfolding Keeps
  reached {calls = calls} begin = (begins calls, tt)
  reached (move spurious s before p after r) =
      let ((all, same, fit), cell) = reached r in
      let next = advance cpu_fn gpu_fn adapter gpu_workers spurious s p in
      let (keeps, for_it, cell_fits, fits) = advance-Keeps spurious s p in
      (
        (
          omega (
            arith,
            all,
            keeps,
            holders-middle before p after,
            holders-middle before next.1 after,
          ),
          map-middle before p next.1 after for_it ∙ same,
          All-middle Fits before p next.1 after (fits cell) fit,
        ),
        cell_fits cell,
      )

  -- However calls of the hybrid chunk function for a list of chunks interleave, in every state the
  -- permits that are left and those that calls hold are all the permits, so no more calls are on the GPU;
  -- each call is for its chunk; one that is on the GPU has a number behind the warm-up, and there is an
  -- adapter; and a finished call has what the CPU's function gives for its chunk, or, with such a number
  -- and an adapter, what the GPU's gives.
  pub Reachable-Bounded :
      {calls : List (List ℕ)} {s : Shared} {ps : List (Phase R)}
      → Reachable cpu_fn gpu_fn adapter gpu_workers calls s ps
      → Bounded calls s ps
  Reachable-Bounded r = (reached r).0
