-- ===== src/Gpu/HashBatch.antt =====
-- A batch through the hash match finder, and the pool that it takes its buffers from.
use gpzip.Prelude.{
  ℕ, zero, suc, ◌+◌, ◌-◌, ◌≤◌, ◌<◌, ◌≡◌, refl, leb, ltb, Option, none, some, ◌>>=◌, List, [], ◌∷◌,
  length, get_elem?, take, set, All, All-append, arith, length-append, length-take, Bool-cases, inl,
  inr, subst, get_elem?-lt, get_elem?-some_lt, length-replicate, length-set,
}
use mathlib.Core.Option.{some-injective}
use gpzip.Gpu.HashHost.{BufferSet, new, Pool, position, swap_remove, acquire, release}
use gpzip.Gpu.HashChunk.{Sized}

-- What holds of the pool between calls: eight sets at most, each with buffers of its capacity.
abbrev pub IsPool : Pool → Type 0
IsPool pool = All Sized pool × (length pool ≤ 8)

new-Sized : (capacity : ℕ) → Sized (new capacity)
unfolding new
new-Sized capacity = (length-replicate capacity 0, length-replicate capacity 0)

module _ {A : Type 0} (P : A → Type 0) where
  All-take : (n : ℕ) (xs : List A) → All P xs → All P (take n xs)
  All-take zero xs h = tt
  All-take (suc n) [] h = tt
  All-take (suc n) (x ∷ xs) (h, hs) = (h, All-take n xs hs)

  All-set : (xs : List A) (i : ℕ) (a : A) → P a → All P xs → All P (set xs i a)
  All-set [] i a h hs = tt
  All-set (x ∷ xs) zero a h (_, hs) = (h, hs)
  All-set (x ∷ xs) (suc i) a h (hx, hs) = (hx, All-set xs i a h hs)

  All-get : (xs : List A) (i : ℕ) (a : A) → All P xs → get_elem? xs i ≡ some a → P a
  All-get [] i a h e = cc
  All-get (x ∷ xs) zero a (h, hs) e = subst P (some-injective _ _ e) h
  All-get (x ∷ xs) (suc i) a (h, hs) e = All-get xs i a hs e

-- The place of a set that is large enough.
Place : ℕ → Pool → Option ℕ → Type 0
Place capacity pool none = Unit {0}
Place capacity pool (some i) =
    (s : BufferSet) × (get_elem? pool i ≡ some s) × (capacity ≤ s.capacity_bytes)

position-Place : (capacity : ℕ) (pool : Pool) → Place capacity pool (position capacity pool)
unfolding position Place
position-Place capacity [] = tt
position-Place capacity (s ∷ pool) = elim (Bool-cases (leb capacity s.capacity_bytes)) [
  | inl fits ↦ rw fits (s, refl, ground (arith, fits))
  | inr small ↦ rw small (go (position capacity pool) (position-Place capacity pool))
]
  where
    go :
        (o : Option ℕ) → Place capacity pool o → Place capacity (s ∷ pool) (o >>= λ i. some (i + 1))
    go none h = tt
    go (some i) (s', e, h) =
        (s', subst (λ k. get_elem? (s ∷ pool) k ≡ some s') {x = suc i} (omega arith) e, h)

-- `acquire` gives a set that is large enough, and leaves the pool a pool.
abbrev pub Acquired : ℕ → Option (BufferSet × Pool) → Type 0
Acquired capacity r =
    (s : BufferSet) × (pool : Pool) × (r ≡ some (s, pool))
    × Sized s
    × (capacity ≤ s.capacity_bytes)
    × IsPool pool

swap_remove-Acquired :
    (capacity idx : ℕ) (pool : Pool)
    → IsPool pool
    → Place capacity pool (some idx)
    → Acquired capacity (swap_remove idx pool)
unfolding swap_remove Place
swap_remove-Acquired capacity idx pool h (s, e, room) =
    let some_set : idx < length pool = get_elem?-some_lt idx pool s e in
    let (last, e') = get_elem?-lt (length pool - 1) pool (omega arith) in
    (
      s,
      set (take (length pool - 1) pool) idx last,
      rw (e, e') refl,
      All-get Sized pool idx s h.0 e,
      room,
      (
        All-set Sized (take (length pool - 1) pool) idx last
            (All-get Sized pool (length pool - 1) last h.0 e')
            (All-take Sized (length pool - 1) pool h.0),
        omega (
          arith,
          h,
          length-set (take (length pool - 1) pool) idx last,
          length-take (length pool - 1) pool,
        ),
      ),
    )

pub acquire-Acquired :
    (capacity : ℕ) (pool : Pool) → IsPool pool → Acquired capacity (acquire capacity pool)
unfolding acquire
acquire-Acquired capacity pool h = go (position capacity pool) (position-Place capacity pool)
  where
    go :
        (o : Option ℕ)
        → Place capacity pool o
        → Acquired capacity
            (elim o [ none ↦ some (new capacity, pool) | some idx ↦ swap_remove idx pool ])
    go none place = (new capacity, pool, refl, new-Sized capacity, unfold new in omega arith, h)
    go (some idx) place = swap_remove-Acquired capacity idx pool h place

pub release-IsPool : (s : BufferSet) (pool : Pool) → Sized s → IsPool pool → IsPool (release s pool)
unfolding release
release-IsPool s pool sized h = elim (Bool-cases (ltb (length pool) 8)) [
  | inl room ↦ rw room (
    All-append Sized pool (s ∷ []) h.0 (sized, tt),
    ground (arith, room, length-append pool (s ∷ [])),
  )
  | inr full ↦ rw full h
]
