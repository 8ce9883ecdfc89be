-- ===== src/Core/Serves.antt =====
-- A backend's factories serve what the backend says it supports, and what that means for a registry.
use gpzip.Prelude.{
  ℕ, Bool, true, false, ltb, ◌&&◌, ◌<◌, ◌≡◌, refl, ap, sym, ◌∙◌, subst, none, some, Result, ok, err,
  List, [], ◌∷◌, ◌++◌, All, arith, ◌⊎◌, inl, inr,
}
use gpzip.Core.Algorithm.{
  Algorithm, deflate, gzip, zstd, lzma, bzip2, rar, Level, Error, no_backend, can_compress,
  can_decompress,
}
use gpzip.Core.Registry.{find, ok_or, pick_compressor, Picks, pick_compressor-Picks}
use gpzip.Core.Backends.{
  Compressor, compresses, decompresses, Backend, CpuBackend, with_config, cpu_supports,
  cpu_compressor, cpu_decompressor, cpu_backend, GpuBackend, gpu_supports, gpu_compressor,
  gpu_decompressor, gpu_backend, lazy_compressor, lazy_gpu_backend, hybrid_compressor,
  hybrid_backend, BackendChoice, cpu, gpu, auto, build_registry, gzip_compressor,
}

-- A factory's result is for the algorithm, exactly where the test says that there is one.
abbrev pub ServedBy : {A : Type 0} → (A → Algorithm) → Algorithm → Bool → Result Error A → Type 0
ServedBy which algo can (ok a) = (can ≡ true) × (which a ≡ algo)
ServedBy which algo can (err e) = can ≡ false

-- Both factories of a backend do what `supports` says.
abbrev pub Serves : Backend → Type 0
Serves b =
    (algo : Algorithm) (level : Level)
    → ServedBy compresses algo (can_compress (b.supports algo)) (b.compressor algo level)
      × ServedBy decompresses algo (can_decompress (b.supports algo)) (b.decompressor algo)

cpu_backend-Serves : (b : CpuBackend) → Serves (cpu_backend b)
unfolding cpu_backend cpu_supports cpu_compressor cpu_decompressor compresses decompresses
cpu_backend-Serves b deflate level = ((refl, refl), (refl, refl))
cpu_backend-Serves b gzip level = ((refl, refl), (refl, refl))
cpu_backend-Serves b zstd level = ((refl, refl), (refl, refl))
cpu_backend-Serves b lzma level = (refl, (refl, refl))
cpu_backend-Serves b bzip2 level = (refl, (refl, refl))
cpu_backend-Serves b rar level = (refl, (refl, refl))

gpu_backend-Serves : (g : GpuBackend) → Serves (gpu_backend g)
unfolding gpu_backend gpu_supports gpu_compressor gpu_decompressor compresses decompresses
gpu_backend-Serves g deflate level = (refl, refl)
gpu_backend-Serves g gzip level = ((refl, refl), refl)
gpu_backend-Serves g zstd level = (refl, refl)
gpu_backend-Serves g lzma level = (refl, refl)
gpu_backend-Serves g bzip2 level = (refl, refl)
gpu_backend-Serves g rar level = (refl, refl)

-- With an adapter, the lazy backend is the GPU backend.
lazy_gpu_backend-Serves : (g : GpuBackend) → Serves (lazy_gpu_backend (some g))
unfolding lazy_gpu_backend lazy_compressor
lazy_gpu_backend-Serves g algo level = unfold gpu_backend in gpu_backend-Serves g algo level

hybrid_backend-Serves : (b : CpuBackend) → Serves (hybrid_backend b)
unfolding hybrid_backend hybrid_compressor cpu_supports cpu_compressor cpu_decompressor compresses
    decompresses
hybrid_backend-Serves b deflate level = ((refl, refl), (refl, refl))
hybrid_backend-Serves b gzip level = ((refl, refl), (refl, refl))
hybrid_backend-Serves b zstd level = ((refl, refl), (refl, refl))
hybrid_backend-Serves b lzma level = (refl, (refl, refl))
hybrid_backend-Serves b bzip2 level = (refl, (refl, refl))
hybrid_backend-Serves b rar level = (refl, (refl, refl))

-- Each backend of the source, where a GPU adapter is there: both factories return something exactly for
-- the algorithms that `supports` claims, and what they return is for that algorithm.
pub backends-Serves :
    (b : CpuBackend) (g : GpuBackend)
    → All Serves (cpu_backend b ∷ hybrid_backend b ∷ gpu_backend g ∷ lazy_gpu_backend (some g) ∷ [])
backends-Serves b g = (
  cpu_backend-Serves b,
  (hybrid_backend-Serves b, (gpu_backend-Serves g, (lazy_gpu_backend-Serves g, tt))),
)

-- Pick a backend and make its compressor, as `pack` does.
unfoldable pub make_compressor : List Backend → Algorithm → Level → Result Error Compressor
unfolding pick_compressor
make_compressor r algo level = elim (pick_compressor r algo) [
  | err e ↦ err e
  | ok b ↦ b.compressor algo level
]

middle :
    (before : List Backend) (b : Backend) (after : List Backend)
    → All Serves (before ++ (b ∷ after))
    → Serves b
middle [] b after h = h.0
middle (x ∷ xs) b after h = middle xs b after h.1

-- From a registry whose backends do what they claim, picking a backend and making its compressor gives
-- a compressor for the algorithm, or the error that there is no backend, where none supports it.
pub make_compressor-ServedBy :
    (r : List Backend) (algo : Algorithm) (level : Level)
    → All Serves r
    → ((c : Compressor) × (make_compressor r algo level ≡ ok c) × (compresses c ≡ algo))
      ⊎ ((make_compressor r algo level ≡ err (no_backend algo))
          × All (λ b. can_compress (b.supports algo) ≡ false) r)
unfolding make_compressor
make_compressor-ServedBy r algo level h =
    go (pick_compressor r algo) (pick_compressor-Picks r algo).0
  where
    made :
        (b : Backend)
        → ServedBy compresses algo true (b.compressor algo level)
        → (c : Compressor) × (b.compressor algo level ≡ ok c) × (compresses c ≡ algo)
    made b s = from (b.compressor algo level) s
      where
        from :
            (x : Result Error Compressor)
            → ServedBy compresses algo true x
            → (c : Compressor) × (x ≡ ok c) × (compresses c ≡ algo)
        from (ok c) s = (c, refl, s.1)
        from (err e) s = absurd cc

    go :
        (picked : Result Error Backend)
        → Picks (λ b. can_compress (b.supports algo)) r (no_backend algo) picked
        → ((c : Compressor) × ((elim picked [ err e ↦ err e | ok b ↦ b.compressor algo level ])
              ≡ ok c)
            × (compresses c ≡ algo))
          ⊎ (((elim picked [ err e ↦ err e | ok b ↦ b.compressor algo level ])
                ≡ err (no_backend algo))
              × All (λ b. can_compress (b.supports algo) ≡ false) r)
    go (err e) (same, all) = inr (ap (λ e'. err e') same, all)
    go (ok b) (before, after, same, fail, pass) =
        let serves = middle before b after (subst (All Serves) same h) in
        inl (
          made b (
            subst (λ can. ServedBy compresses algo can (b.compressor algo level)) pass
              (serves algo level).0))

-- There is a compressor for each algorithm that the CPU can compress.
Compresses : List Backend → Type 0
Compresses r =
    (algo : Algorithm) (level : Level)
    → can_compress (cpu_supports algo) ≡ true
    → (c : Compressor) × (make_compressor r algo level ≡ ok c) × (compresses c ≡ algo)

-- A registry of backends that serve, one of which supports what the CPU does.
serving-Compresses :
    (r : List Backend)
    → All Serves r
    → ((algo : Algorithm)
        → All (λ b. can_compress (b.supports algo) ≡ false) r
        → can_compress (cpu_supports algo) ≡ false)
    → Compresses r
unfolding Compresses
serving-Compresses r h last algo level can = elim (make_compressor-ServedBy r algo level h) [
  | inl made ↦ made
  | inr (e, all) ↦ absurd (let no : true ≡ false = sym can ∙ last algo all in cc)
]

valid_config :
    (chunk_size threads : ℕ)
    → 0 < chunk_size
    → 0 < threads
    → (ltb 0 chunk_size && ltb 0 threads) ≡ true
valid_config chunk_size threads h k =
    let a : ltb 0 chunk_size ≡ true = ground (arith, h) in
    let b : ltb 0 threads ≡ true = ground (arith, k) in rw (a, b) refl

-- The registry of every choice of backend, for `gpu` with an adapter, is built where the chunk size and
-- the number of threads are above 0, and it has a compressor for each algorithm that the CPU can
-- compress.
pub build_registry-Compresses :
    (adapter : Bool) (choice : BackendChoice) (chunk_size threads : ℕ)
    → (choice ≡ gpu → adapter ≡ true)
    → 0 < chunk_size
    → 0 < threads
    → (r : List Backend) × (build_registry adapter choice chunk_size threads ≡ some r)
      × ((algo : Algorithm) (level : Level)
          → can_compress (cpu_supports algo) ≡ true
          → (c : Compressor) × (make_compressor r algo level ≡ ok c) × (compresses c ≡ algo))
unfolding build_registry with_config Compresses
build_registry-Compresses adapter cpu chunk_size threads a h k =
    let c : CpuBackend = record { chunk_size = chunk_size; max_in_flight = threads } in
    (
      cpu_backend c ∷ [],
      rw (valid_config chunk_size threads h k) refl,
      serving-Compresses (cpu_backend c ∷ []) (cpu_backend-Serves c, tt)
          (λ algo all. unfold cpu_backend in all.0),
    )
build_registry-Compresses adapter auto chunk_size threads a h k =
    let c : CpuBackend = record { chunk_size = chunk_size; max_in_flight = threads } in
    (
      hybrid_backend c ∷ [],
      rw (valid_config chunk_size threads h k) refl,
      serving-Compresses (hybrid_backend c ∷ []) (hybrid_backend-Serves c, tt)
          (λ algo all. unfold hybrid_backend in all.0),
    )
build_registry-Compresses false gpu chunk_size threads a h k =
    absurd (let no : false ≡ true = a refl in cc)
build_registry-Compresses true gpu chunk_size threads a h k =
    let c : CpuBackend = record { chunk_size = chunk_size; max_in_flight = threads } in
    let g : GpuBackend = record { chunk_size = 131072; max_in_flight = 16 } in
    (
      lazy_gpu_backend (some g) ∷ (cpu_backend c ∷ []),
      rw (valid_config chunk_size threads h k) refl,
      serving-Compresses (lazy_gpu_backend (some g) ∷ (cpu_backend c ∷ []))
          (lazy_gpu_backend-Serves g, (cpu_backend-Serves c, tt))
          (λ algo all. unfold cpu_backend in all.1.0),
    )

-- Without an adapter, the registry of the choice `gpu` gives the error that there is no backend for
-- gzip, although the CPU backend behind the lazy one has a compressor for it.
pub build_registry-no_adapter :
    (chunk_size threads : ℕ) (level : Level)
    → 0 < chunk_size
    → 0 < threads
    → (r : List Backend) × (cpu_behind : CpuBackend) × (build_registry false gpu chunk_size threads
        ≡ some r)
      × (r ≡ lazy_gpu_backend none ∷ (cpu_backend cpu_behind ∷ []))
      × (make_compressor r gzip level ≡ err (no_backend gzip))
      × ((c : Compressor) × ((cpu_backend cpu_behind).compressor gzip level ≡ ok c))
unfolding build_registry with_config make_compressor pick_compressor find ok_or
build_registry-no_adapter chunk_size threads level h k =
    let c : CpuBackend = record { chunk_size = chunk_size; max_in_flight = threads } in
    (
      lazy_gpu_backend none ∷ (cpu_backend c ∷ []),
      c,
      rw (valid_config chunk_size threads h k) refl,
      refl,
      unfold lazy_gpu_backend gpu_supports lazy_compressor in refl,
      (gzip_compressor level chunk_size threads, (unfold cpu_backend cpu_compressor in refl)),
    )
