-- ===== src/Core/SafeJoin.antt =====
-- `safe_join` of archive/unpack.rs: no entry of an archive is written outside the destination.
use gpzip.Prelude.{◌≡◌, sym, ◌∙◌, Result, ok, err, List, [], ◌∷◌, ◌++◌, append_assoc, append-nil}
use gpzip.Core.Algorithm.{Name}

-- `std::path::Component`
pub data Component : Type 0 where
  normal : Name → Component
  cur_dir : Component
  parent_dir : Component
  root_dir : Component
  prefix : Component

-- The error `InvalidArchive`, whose text names the entry.
pub data Unsafe : Type 0 where
  unsafe_entry : Unsafe

-- The loop over the components. A path is its components; pushing a normal one appends it.
unfoldable pub safe_join : List Name → List Component → Result Unsafe (List Name)
safe_join out [] = ok out
safe_join out (normal n ∷ cs) = safe_join (out ++ (n ∷ [])) cs
safe_join out (cur_dir ∷ cs) = safe_join out cs
safe_join out (parent_dir ∷ cs) = err unsafe_entry
safe_join out (root_dir ∷ cs) = err unsafe_entry
safe_join out (prefix ∷ cs) = err unsafe_entry

-- The names of an entry that goes only down.
pub data Below : List Component → List Name → Type 0 where
  here : Below [] []
  down :
      (n : Name) {cs : List Component} {names : List Name}
      → Below cs names
      → Below (normal n ∷ cs) (n ∷ names)
  stay : {cs : List Component} {names : List Name} → Below cs names → Below (cur_dir ∷ cs) names

-- An entry that has a component which leads up or elsewhere.
pub data Escapes : List Component → Type 0 where
  up : {cs : List Component} → Escapes (parent_dir ∷ cs)
  root : {cs : List Component} → Escapes (root_dir ∷ cs)
  volume : {cs : List Component} → Escapes (prefix ∷ cs)
  later : (c : Component) {cs : List Component} → Escapes cs → Escapes (c ∷ cs)

abbrev pub Joined : List Name → List Component → Result Unsafe (List Name) → Type 0
Joined dest cs (ok out) = (names : List Name) × Below cs names × (out ≡ dest ++ names)
Joined dest cs (err e) = Escapes cs

-- Joining gives the destination and below it the entry's names, where the entry goes only down, and an
-- error where some component leads up or elsewhere.
pub safe_join-Joined : (dest : List Name) (cs : List Component) → Joined dest cs (safe_join dest cs)
unfolding safe_join
safe_join-Joined dest [] = ([], here, sym (append-nil dest))
safe_join-Joined dest (normal n ∷ cs) =
    go (safe_join (dest ++ (n ∷ [])) cs) (safe_join-Joined (dest ++ (n ∷ [])) cs)
  where
    go :
        (r : Result Unsafe (List Name))
        → Joined (dest ++ (n ∷ [])) cs r
        → Joined dest (normal n ∷ cs) r
    go (ok out) (names, below, e) = (n ∷ names, down n below, e ∙ append_assoc dest (n ∷ []) names)
    go (err e) esc = later (normal n) esc
safe_join-Joined dest (cur_dir ∷ cs) = go (safe_join dest cs) (safe_join-Joined dest cs)
  where
    go : (r : Result Unsafe (List Name)) → Joined dest cs r → Joined dest (cur_dir ∷ cs) r
    go (ok out) (names, below, e) = (names, stay below, e)
    go (err e) esc = later cur_dir esc
safe_join-Joined dest (parent_dir ∷ cs) = up
safe_join-Joined dest (root_dir ∷ cs) = root
safe_join-Joined dest (prefix ∷ cs) = volume
