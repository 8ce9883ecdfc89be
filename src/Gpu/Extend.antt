-- ===== src/Gpu/Extend.antt =====
-- How the shaders of the match finders measure a match: the loop that lengthens it, which lz77.wgsl and
-- lz77_hash_lookup.wgsl have alike.
use gpzip.Prelude.{
  ℕ, zero, suc, ◌+◌, ◌-◌, ◌%◌, ◌^◌, ◌≤◌, ◌<◌, ◌≡◌, ap, sym, ◌∙◌, ◌==◌, leb, ltb, not, ==_iff,
  if◌then◌else◌, some, List, [], ◌∷◌, ◌++◌, length, get_elem?, All, arith, ◌⊎◌, inl, inr,
  Bool-cases, get_elem?-lt, get_elem?-some_lt, subst,
}
use mathlib.Core.Option.{some-injective}
use gpzip.Lz77.{Token, literal, back_ref}
use gpzip.Lz77.Match.{IsMatch}
use gpzip.Lz77.Walk.{IsTable, literal-IsMatch}
use gpzip.Gpu.Buffer.{words, pad_to_u32, read_byte, add_u32}
use gpzip.Gpu.Bytes.{IsByte, read_byte-words}

-- `rounds` is `max_match - len`.
unfoldable pub extend : List ℕ → ℕ → ℕ → ℕ → ℕ → ℕ → ℕ
extend input_buf input_len zero cand p len = len
extend input_buf input_len (suc rounds) cand p len =
    let longer = extend input_buf input_len rounds cand p (add_u32 len 1) in
    if leb input_len (add_u32 p len)
    then len
    else if not (read_byte input_buf (add_u32 cand len) == read_byte input_buf (add_u32 p len))
    then len
    else longer

-- The first `len` bytes from `cand` on are those from `p` on.
abbrev pub Same : List ℕ → ℕ → ℕ → ℕ → Type 0
Same input_buf cand p len =
    (k : ℕ) → k < len → read_byte input_buf (cand + k) ≡ read_byte input_buf (p + k)

-- The longest such run that the loop may find.
abbrev pub Extends : List ℕ → ℕ → ℕ → ℕ → ℕ → ℕ → Type 0
Extends input_buf input_len most cand p len =
    Same input_buf cand p len × (p + len ≤ input_len) × (len ≤ most)

module _ (input_buf : List ℕ) (input_len cand p : ℕ) (before : cand ≤ p) (inside : p < input_len)
    (fits : input_len + 258 < 2 ^ 32) where
  Same-suc :
      (len : ℕ)
      → Same input_buf cand p len
      → read_byte input_buf (cand + len) ≡ read_byte input_buf (p + len)
      → Same input_buf cand p (len + 1)
  Same-suc len same e k h = elim (Bool-cases (ltb k len)) [
    | inl below ↦ same k (ground (arith, below))
    | inr last ↦
        let here : k ≡ len = ground (arith, last) in
        ap (λ j. read_byte input_buf (cand + j)) here
        ∙ e
        ∙ ap (λ j. read_byte input_buf (p + j)) (sym here)
  ]

  pub extend-Extends :
      (rounds len : ℕ)
      → len + rounds ≤ 258
      → Same input_buf cand p len
      → p + len ≤ input_len
      → Extends input_buf input_len
          (len + rounds)
          cand
          p
          (extend input_buf input_len rounds cand p len)
        × (len ≤ extend input_buf input_len rounds cand p len)
  unfolding extend
  extend-Extends zero len most same le = ((same, le, omega arith), omega arith)
  extend-Extends (suc rounds) len most same le = elim (Bool-cases (leb input_len (p + len))) [
    | inl end ↦ rw (at_p, end) ((same, le, omega arith), omega arith)
    | inr more ↦
        elim (Bool-cases (read_byte input_buf (cand + len) == read_byte input_buf (p + len))) [
          | inl e ↦
              let (ext, low) =
                extend-Extends rounds (len + 1) (omega arith)
                  (Same-suc len same (
                    (==_iff (read_byte input_buf (cand + len)) (read_byte input_buf (p + len))).0
                      e))
                  (ground (arith, more)) in
              rw (at_p, more, at_cand, e, next)
                ((ext.0, ext.1, omega (arith, ext.2)), omega (arith, low))
          | inr e ↦ rw (at_p, more, at_cand, e) ((same, le, omega arith), omega arith)
        ]
  ]
    where
      at_p : (p + len) % 2 ^ 32 ≡ p + len
      at_p = omega arith

      at_cand : (cand + len) % 2 ^ 32 ≡ cand + len
      at_cand = omega arith

      next : (len + 1) % 2 ^ 32 ≡ len + 1
      next = omega arith

-- What a shader has found for the place `p`: nothing, or a run of equal bytes within the window.
abbrev pub Found : List ℕ → ℕ → ℕ → ℕ → ℕ × ℕ → Type 0
Found input_buf input_len window p (len, dist) =
    (len ≡ 0)
    ⊎ ((1 ≤ dist)
        × (dist ≤ p)
        × (dist ≤ window)
        × (p + len ≤ input_len)
        × (len ≤ 258)
        × ((k : ℕ) → k < len → read_byte input_buf (p + k) ≡ read_byte input_buf (p + k - dist)))

-- A run that the loop has found, with the distance to it.
pub Extends-Found :
    (input_buf : List ℕ) (input_len window cand p len : ℕ)
    → cand < p
    → p - cand ≤ window
    → Extends input_buf input_len 258 cand p len
    → Found input_buf input_len window p (len, p - cand)
Extends-Found input_buf input_len window cand p len h w (same, inside, most) =
    inr (omega arith, omega arith, w, inside, most, back)
  where
    back :
        (k : ℕ) → k < len → read_byte input_buf (p + k) ≡ read_byte input_buf (p + k - (p - cand))
    back k lt = sym (same k lt) ∙ ap (read_byte input_buf) (omega arith)

pub byte-lt : (input : List ℕ) (i b : ℕ) → All IsByte input → get_elem? input i ≡ some b → b < 256
byte-lt [] i b h e = cc
byte-lt (x ∷ xs) zero b h e = ground arith
byte-lt (x ∷ xs) (suc i) b (h, hs) e = byte-lt xs i b hs e

-- What a shader reads from the buffer is the input.
abbrev pub Holds : List ℕ → List ℕ → Type 0
Holds input_buf input =
    (i : ℕ) → i < length input → get_elem? input i ≡ some (read_byte input_buf i)

pub words-Holds :
    (input rest : List ℕ) → All IsByte input → Holds (words (pad_to_u32 input) ++ rest) input
words-Holds input rest bytes i h =
    let (b, e) = get_elem?-lt i input h in
    e ∙ ap (λ c. some c) (sym (read_byte-words i b input rest bytes e))

module _ (input_buf input : List ℕ) (bytes : All IsByte input) (reads : Holds input_buf input) where
  pub literal-at : (p : ℕ) → p < length input → IsMatch input p (literal (read_byte input_buf p))
  literal-at p h = literal-IsMatch input p _ (reads p h) (byte-lt input p _ bytes (reads p h))

  pub Found-IsMatch :
      (window p len dist : ℕ)
      → 1 ≤ len
      → Found input_buf (length input) window p (len, dist)
      → IsMatch input p (back_ref len dist)
  Found-IsMatch window p len dist some_len (inl none_len) = absurd (omega arith)
  Found-IsMatch window p len dist some_len (inr (d₁, d₂, w, inside, most, equal)) = record {
    is_byte = λ e. absurd (omega arith);
    inside = inside;
    behind = λ e. (d₁, d₂);
    equal = same;
  }
    where
      same : (k : ℕ) → k < len → get_elem? input (p + k) ≡ get_elem? input (p + k - dist)
      same k h =
          reads (p + k) (omega arith)
          ∙ ap (λ c. some c) (equal k h)
          ∙ sym (reads (p + k - dist) (omega arith))

  -- A list with a true match for each place.
  pub pointwise-IsTable :
      (tokens : List Token) (value : ℕ → Token)
      → length tokens ≡ length input
      → ((p : ℕ) → p < length input → get_elem? tokens p ≡ some (value p))
      → ((p : ℕ) → p < length input → IsMatch input p (value p))
      → IsTable tokens input
  pointwise-IsTable tokens value same at fit = record {
    same_length = same;
    bytes = λ p b e. byte-lt input p b bytes e;
    matches = matches;
  }
    where
      matches : (p : ℕ) (t : Token) → get_elem? tokens p ≡ some t → IsMatch input p t
      matches p t e =
          let inside : p < length input = omega (arith, same, get_elem?-some_lt p tokens t e) in
          subst (IsMatch input p) (some-injective _ _ (sym (at p inside) ∙ e)) (fit p inside)
