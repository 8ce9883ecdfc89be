-- ===== src/Parallel/Accepts.antt =====
-- The environment in which nothing fails, and the members that the writer is to write.
use gpzip.Prelude.{
  ℕ, ◌+◌, ◌≡◌, refl, ap, sym, ◌∙◌, Option, none, some, ◌>>=◌, List, [], ◌∷◌, ◌++◌, length, arith,
  append_assoc, append-nil, ok,
}
use mathlib.Core.Option.{some-injective}
use gpzip.Parallel.State.{Env}

-- What the concatenated members are: `member i chunk` for each chunk, in order.
unfoldable pub members : (ℕ → List ℕ → List ℕ) → ℕ → List (List ℕ) → List ℕ
members member i [] = []
members member i (c ∷ cs) = member i c ++ members member (i + 1) cs

pub members-append :
    (member : ℕ → List ℕ → List ℕ) (i k : ℕ) (xs : List (List ℕ)) (c : List ℕ)
    → i + length xs ≡ k
    → members member i (xs ++ (c ∷ [])) ≡ members member i xs ++ member k c
unfolding members
members-append member i k [] c e = append-nil (member i c) ∙ ap (λ t. member t c) (omega arith)
members-append member i k (x ∷ xs) c e =
    ap (λ t. member i x ++ t) (members-append member (i + 1) k xs c (omega arith))
    ∙ sym (append_assoc (member i x) (members member (i + 1) xs) (member k c))

-- An environment in which every chunk compresses, to `member` of its index and bytes, and the inner
-- `Write` accepts everything, as a `File` or a `Vec` with room does.
pub record Accepts {E Out : Type 0} (env : Env E Out) : Type 0 where
  pub member : ℕ → List ℕ → List ℕ
  pub contents : Out → List ℕ
  pub chunk_ok : (i : ℕ) (chunk : List ℕ) → env.chunk_fn i chunk ≡ ok (member i chunk)
  pub write_ok : (o : Out) (bytes : List ℕ) → (env.write_all o bytes).1 ≡ none
  pub flush_ok : (o : Out) → (env.flush o).1 ≡ none
  pub contents-write :
      (o : Out) (bytes : List ℕ) → contents (env.write_all o bytes).0 ≡ contents o ++ bytes
  pub contents-flush : (o : Out) → contents (env.flush o).0 ≡ contents o

pub some_of_bind :
    (o : Option (List ℕ)) (f : List ℕ → List ℕ) (bytes : List ℕ)
    → (o >>= λ c. some (f c)) ≡ some bytes
    → (c : List ℕ) × (o ≡ some c) × (bytes ≡ f c)
some_of_bind none f bytes h = elim (no h) [ ]
  where
    no : none ≡ some bytes → ⊥
    no h = cc
some_of_bind (some c) f bytes h = (c, refl, sym (some-injective (f c) bytes h))
