-- ===== src/Parallel/Pending.antt =====
-- The `BTreeMap<u32, Vec<u8>>` of `ParallelChunkedWriter` (crates/gpzip-codec-cpu/src/parallel.rs), by
-- its entries.
use gpzip.Prelude.{
  ℕ, ◌≤◌, ◌<◌, ◌==◌, ◌≡◌, ◌≢◌, refl, if◌then◌else◌, Option, none, some, List, [], ◌∷◌, length,
  arith,
}
use native.Mathlib.Decide.{ℕ_discrete}

abbrev pub Pending : Type 0
Pending = List (ℕ × List ℕ)

-- `BTreeMap::get`
unfoldable pub pending_at : ℕ → Pending → Option (List ℕ)
pending_at k [] = none
pending_at k ((i, bytes) ∷ rest) = if i == k then some bytes else pending_at k rest

-- The map that `BTreeMap::remove` leaves.
unfoldable pub remove : ℕ → Pending → Pending
remove k [] = []
remove k ((i, bytes) ∷ rest) =
    let left = remove k rest in if i == k then left else (i, bytes) ∷ left

-- `BTreeMap::insert`
unfoldable pub insert : ℕ → List ℕ → Pending → Pending
insert k bytes m = (k, bytes) ∷ remove k m

pub remove_self : (k : ℕ) (m : Pending) (i : ℕ) → i ≡ k → pending_at i (remove k m) ≡ none
unfolding pending_at remove
remove_self k [] i e = refl
remove_self k ((j, bytes) ∷ rest) i e =
    let rec = remove_self k rest i e in
    elim (ℕ_discrete j k) [ yes h ↦ ground arith | no h ↦ ground arith ]

pub remove_ne : (k : ℕ) (m : Pending) (i : ℕ) → i ≢ k → pending_at i (remove k m) ≡ pending_at i m
unfolding pending_at remove
remove_ne k [] i h = refl
remove_ne k ((j, bytes) ∷ rest) i h =
    let rec = remove_ne k rest i h in
    elim (ℕ_discrete j k) [ yes e ↦ ground arith | no e ↦ ground arith ]

pub insert_self :
    (k : ℕ) (bytes : List ℕ) (m : Pending) (i : ℕ)
    → i ≡ k
    → pending_at i (insert k bytes m) ≡ some bytes
unfolding pending_at insert
insert_self k bytes m i e = ground arith

pub insert_ne :
    (k : ℕ) (bytes : List ℕ) (m : Pending) (i : ℕ)
    → i ≢ k
    → pending_at i (insert k bytes m) ≡ pending_at i m
unfolding pending_at insert
insert_ne k bytes m i h = let rec = remove_ne k m i h in ground arith

-- What is removed makes the map smaller.
length-remove : (k : ℕ) (m : Pending) → length (remove k m) ≤ length m
unfolding remove
length-remove k [] = omega arith
length-remove k ((j, bytes) ∷ rest) = let rec = length-remove k rest in ground arith

pub length-remove_lt :
    (k : ℕ) (m : Pending) (bytes : List ℕ)
    → pending_at k m ≡ some bytes
    → length (remove k m) < length m
unfolding pending_at remove
length-remove_lt k [] bytes h = ground (arith, h)
length-remove_lt k ((j, b) ∷ rest) bytes h = elim (ℕ_discrete j k) [
  | yes e ↦ let less = length-remove k rest in ground (arith, less, e)
  | no e ↦
      let less = length-remove_lt k rest bytes (ground (arith, h, e)) in ground (arith, less, e)
]
