-- ===== src/Core/Registry.antt =====
-- `BackendRegistry` of registry.rs.
use gpzip.Prelude.{
  Bool, true, false, ◌≡◌, refl, ap, ◌==◌, ◌&&◌, if◌then◌else◌, Bool-cases, inl, inr, Option, none,
  some, Result, ok, err, List, [], ◌∷◌, ◌++◌, All, map,
}
use gpzip.Core.Algorithm.{
  Algorithm, Name, Error, no_backend, CodecBackend, can_compress, can_decompress,
}

-- `iter().find(..)`
unfoldable pub find : {A : Type 0} → (A → Bool) → List A → Option A
find p [] = none
find p (x ∷ xs) = if p x then some x else find p xs

unfoldable pub ok_or : {A : Type 0} → Error → Option A → Result Error A
ok_or e none = err e
ok_or e (some a) = ok a

unfoldable pub same_name : Name → Name → Bool
same_name [] [] = true
same_name [] (y ∷ ys) = false
same_name (x ∷ xs) [] = false
same_name (x ∷ xs) (y ∷ ys) = (x == y) && same_name xs ys

-- The ordered backends.
abbrev pub BackendRegistry : Type 0 → Type 0 → Type 0
BackendRegistry C D = List (CodecBackend C D)

module _ {C D : Type 0} where
  abbrev pub new : BackendRegistry C D
  new = []

  abbrev pub push : CodecBackend C D → BackendRegistry C D → BackendRegistry C D
  push b r = r ++ (b ∷ [])

  abbrev pub names : BackendRegistry C D → List Name
  names r = map (λ b. b.name) r

  unfoldable pub pick_compressor : BackendRegistry C D → Algorithm → Result Error (CodecBackend C D)
  unfolding find ok_or
  pick_compressor r algo = ok_or (no_backend algo) (find (λ b. can_compress (b.supports algo)) r)

  unfoldable pub pick_decompressor :
      BackendRegistry C D → Algorithm → Result Error (CodecBackend C D)
  unfolding find ok_or
  pick_decompressor r algo =
      ok_or (no_backend algo) (find (λ b. can_decompress (b.supports algo)) r)

  unfoldable pub by_name : BackendRegistry C D → Name → Option (CodecBackend C D)
  unfolding find same_name
  by_name r name = find (λ b. same_name b.name name) r

-- What `find` returns: the first that passes, or none where all fail.
abbrev pub Finds : {A : Type 0} → (A → Bool) → List A → Option A → Type 0
Finds p xs none = All (λ x. p x ≡ false) xs
Finds {A = A} p xs (some x) =
    (before : List A) × (after : List A) × (xs ≡ before ++ (x ∷ after))
    × All (λ y. p y ≡ false) before
    × (p x ≡ true)

pub find-Finds : {A : Type 0} (p : A → Bool) (xs : List A) → Finds p xs (find p xs)
unfolding find
find-Finds p [] = tt
find-Finds p (x ∷ xs) = elim (Bool-cases (p x)) [
  | inl e ↦ rw e ([], xs, refl, tt, e)
  | inr e ↦ rw e (later (find p xs) e (find-Finds p xs))
]
  where
    later : (found : _) → p x ≡ false → Finds p xs found → Finds p (x ∷ xs) found
    later none e all = (e, all)
    later (some y) e (before, after, same, fail, pass) =
        (x ∷ before, after, ap (λ t. x ∷ t) same, (e, fail), pass)

-- What a pick returns: the first backend that passes the test, or that there is no backend, where none
-- passes.
abbrev pub Picks : {A : Type 0} → (A → Bool) → List A → Error → Result Error A → Type 0
Picks p xs e (err e') = (e' ≡ e) × All (λ x. p x ≡ false) xs
Picks p xs e (ok x) = Finds p xs (some x)

ok_or-Picks :
    {A : Type 0} (p : A → Bool) (xs : List A) (e : Error) (found : Option A)
    → Finds p xs found
    → Picks p xs e (ok_or e found)
unfolding ok_or
ok_or-Picks p xs e none h = (refl, h)
ok_or-Picks p xs e (some x) h = h

-- `pick_compressor` and `pick_decompressor` return the first backend of the registry that can do it, or
-- `NoBackend`, exactly where none can.
pub pick_compressor-Picks :
    {C D : Type 0} (r : List (CodecBackend C D)) (algo : Algorithm)
    → Picks (λ b. can_compress (b.supports algo)) r (no_backend algo) (pick_compressor r algo)
      × Picks (λ b. can_decompress (b.supports algo)) r (no_backend algo) (pick_decompressor r algo)
unfolding pick_compressor pick_decompressor
pick_compressor-Picks r algo = (
  ok_or-Picks _ r (no_backend algo) (find _ r) (find-Finds _ r),
  ok_or-Picks _ r (no_backend algo) (find _ r) (find-Finds _ r),
)
