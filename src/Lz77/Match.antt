-- ===== src/Lz77/Match.antt =====
-- `reconstruct` on match tokens: copying a match that is really in the input extends a prefix of it.
use gpzip.Prelude.{
  ℕ, zero, suc, ◌+◌, ◌-◌, ◌≤◌, ◌<◌, ◌≡◌, ap, ◌≢◌, ◌∙◌, some, ◌>>=◌, List, [], ◌∷◌, ◌++◌, length,
  get_elem?, take, arith, get_elem?-take, take-suc, get_elem?-lt, length-take, Option-cases, inl,
  inr, if◌then◌else◌, sym,
}
use native.Mathlib.Decide.{ℕ_discrete}
use native.Mathlib.Nat.{mod-eq_of_lt}
use native.Mathlib.Numerals.{add-one}
use gpzip.Lz77.{Token, is_literal, copy_match, put_token, reconstruct_loop}

-- What a token found at position `p` of the input has to satisfy: a literal is the byte there, and a
-- back-reference stays inside the input and points back to equal bytes.
pub record IsMatch (input : List ℕ) (p : ℕ) (t : Token) : Type 0 where
  pub is_byte : t.length ≡ 0 → (get_elem? input p ≡ some t.distance) × (t.distance < 256)
  pub inside : p + t.length ≤ length input
  pub behind : t.length ≢ 0 → (1 ≤ t.distance) × (t.distance ≤ p)
  pub equal :
      (k : ℕ) → k < t.length → get_elem? input (p + k) ≡ get_elem? input (p + k - t.distance)

-- `n` rounds of the copy loop, from `from`, on the prefix of length `q`.
copy_match-take :
    (n from q d : ℕ) (input : List ℕ)
    → from + d ≡ q
    → 1 ≤ d
    → q + n ≤ length input
    → ((k : ℕ) → k < n → get_elem? input (q + k) ≡ get_elem? input (q + k - d))
    → copy_match n from (take q input) ≡ some (take (q + n) input)
unfolding copy_match
copy_match-take zero from q d input e hd hn same = ap (λ k. some (take k input)) (omega arith)
copy_match-take (suc n) from q d input e hd hn same =
    go (get_elem?-lt q input (omega arith)) (copy_match-take n (from + 1) (suc q) d input)
  where
    shift : (k m : ℕ) → k ≡ m → get_elem? input k ≡ get_elem? input m
    shift k m h = ap (get_elem? input) h

    go :
        (x : (b : ℕ) × (get_elem? input q ≡ some b))
        → (from + 1 + d ≡ suc q
            → 1 ≤ d
            → suc q + n ≤ length input
            → ((k : ℕ) → k < n → get_elem? input (suc q + k) ≡ get_elem? input (suc q + k - d))
            → copy_match n (from + 1) (take (suc q) input) ≡ some (take (suc q + n) input))
        → copy_match (suc n) from (take q input) ≡ some (take (q + suc n) input)
    go (b, hb) ih =
        rw (read, copy_match)
          (rw (take-suc q input b hb)
            (ih (omega arith) hd (omega arith) later ∙ ap (λ k. some (take k input)) (omega arith)))
      where
        read : get_elem? (take q input) from ≡ some b
        read =
            get_elem?-take q from input (omega arith)
            ∙ shift from (q + 0 - d) (omega arith)
            ∙ sym (same 0 (omega arith))
            ∙ shift (q + 0) q (omega arith)
            ∙ hb

        later : (k : ℕ) → k < n → get_elem? input (suc q + k) ≡ get_elem? input (suc q + k - d)
        later k h =
            shift (suc q + k) (q + suc k) (omega arith)
            ∙ same (suc k) (omega arith)
            ∙ shift (q + suc k - d) (suc q + k - d) (omega arith)

-- One token that matches at `p` extends the prefix of length `p` by what it stands for.
pub put_token-take :
    (input : List ℕ) (p : ℕ) (t : Token)
    → IsMatch input p t
    → put_token t (take p input) ≡ some (take (p + (if is_literal t then 1 else t.length)) input)
unfolding put_token
put_token-take input p t m = elim (ℕ_discrete t.length 0) [
  | yes h ↦ ground (
    arith,
    take-suc p input t.distance (m.is_byte h).0,
    mod-eq_of_lt (m.is_byte h).1,
    ap (λ (k : ℕ). take k input) (add-one p),
  )
  | no h ↦ ground (
    arith,
    length-take p input,
    m.behind h,
    copy_match-take t.length (p - t.distance) p t.distance input (ground (arith, m.behind h))
        (m.behind h).0 m.inside m.equal,
  )
]

-- The loop over a list that grows at its end takes one more round.
pub reconstruct_loop-append :
    (ts : List Token) (t : Token) (out : List ℕ)
    → reconstruct_loop (ts ++ (t ∷ [])) out ≡ (reconstruct_loop ts out >>= put_token t)
unfolding reconstruct_loop
reconstruct_loop-append [] t out = elim (Option-cases (put_token t out)) [
  | inl e ↦ rw e
  | inr (a, e) ↦ rw e
]
reconstruct_loop-append (u ∷ ts) t out = elim (Option-cases (put_token u out)) [
  | inl e ↦ rw e
  | inr (a, e) ↦ rw e (reconstruct_loop-append ts t a)
]
