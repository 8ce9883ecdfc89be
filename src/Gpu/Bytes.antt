-- ===== src/Gpu/Bytes.antt =====
-- A shader reads the bytes that the host has uploaded, and a dispatch writes every element.
use gpzip.Prelude.{
  ℕ, zero, suc, ◌+◌, ◌-◌, ◌*◌, ◌/◌, ◌%◌, ◌^◌, ◌<◌, ◌≡◌, ◌≢◌, refl, ap, sym, ◌∙◌, leb, some, List,
  [], ◌∷◌, ◌++◌, length, get_elem?, set, replicate, All, arith, inl, inr, Bool-cases, subst,
  length-set,
}
use native.Mathlib.Decide.{ℕ_discrete}
use mathlib.Core.Option.{some-injective}
use gpzip.Gpu.Buffer.{next_multiple_of_4, pad_to_u32, words, read_byte, invoke, dispatch, Runs}

abbrev pub IsByte : ℕ → Type 0
IsByte b = b < 256

word_bytes :
    (a b c d : ℕ)
    → IsByte a
    → IsByte b
    → IsByte c
    → IsByte d
    → ((a + b * 2 ^ 8 + c * 2 ^ 16 + d * 2 ^ 24) / 2 ^ 0 % 2 ^ 8 ≡ a)
      × ((a + b * 2 ^ 8 + c * 2 ^ 16 + d * 2 ^ 24) / 2 ^ 8 % 2 ^ 8 ≡ b)
      × ((a + b * 2 ^ 8 + c * 2 ^ 16 + d * 2 ^ 24) / 2 ^ 16 % 2 ^ 8 ≡ c)
      × ((a + b * 2 ^ 8 + c * 2 ^ 16 + d * 2 ^ 24) / 2 ^ 24 % 2 ^ 8 ≡ d)
word_bytes a b c d ha hb hc hd = omega arith

later_word : (w i : ℕ) (ws : List ℕ) → read_byte (w ∷ ws) (suc (suc (suc (suc i)))) ≡ read_byte ws i
unfolding read_byte
later_word w i ws = rw (place, shift) refl
  where
    place : suc (suc (suc (suc i))) / 4 ≡ suc (i / 4)
    place = omega arith

    shift : suc (suc (suc (suc i))) % 4 ≡ i % 4
    shift = omega arith

pub read_byte-words :
    (i b : ℕ) (input stale : List ℕ)
    → All IsByte input
    → get_elem? input i ≡ some b
    → read_byte (words (pad_to_u32 input) ++ stale) i ≡ b
unfolding words pad_to_u32 read_byte
read_byte-words i b [] stale h e = cc
read_byte-words zero b (x ∷ []) stale h e = ground arith
read_byte-words (suc i) b (x ∷ []) stale h e = cc
read_byte-words zero b (x ∷ y ∷ []) stale h e = ground arith
read_byte-words (suc zero) b (x ∷ y ∷ []) stale h e = ground arith
read_byte-words (suc (suc i)) b (x ∷ y ∷ []) stale h e = cc
read_byte-words zero b (x ∷ y ∷ z ∷ []) stale h e = ground arith
read_byte-words (suc zero) b (x ∷ y ∷ z ∷ []) stale h e = ground arith
read_byte-words (suc (suc zero)) b (x ∷ y ∷ z ∷ []) stale h e = ground arith
read_byte-words (suc (suc (suc i))) b (x ∷ y ∷ z ∷ []) stale h e = cc
read_byte-words zero b (x ∷ y ∷ z ∷ w ∷ rest) stale h e = ground arith
read_byte-words (suc zero) b (x ∷ y ∷ z ∷ w ∷ rest) stale h e = ground arith
read_byte-words (suc (suc zero)) b (x ∷ y ∷ z ∷ w ∷ rest) stale h e = ground arith
read_byte-words (suc (suc (suc zero))) b (x ∷ y ∷ z ∷ w ∷ rest) stale h e = ground arith
read_byte-words (suc (suc (suc (suc i)))) b (x ∷ y ∷ z ∷ w ∷ rest) stale (hx, (hy, (hz, (hw, hs))))
      e =
    later_word (x + y * 2 ^ 8 + z * 2 ^ 16 + w * 2 ^ 24) i _
    ∙ ap (λ k. read_byte (words (rest ++ replicate k 0) ++ stale) i) padding
    ∙ read_byte-words i b rest stale hs e
  where
    padding :
        next_multiple_of_4 (length (x ∷ y ∷ z ∷ w ∷ rest)) - length (x ∷ y ∷ z ∷ w ∷ rest)
        ≡ next_multiple_of_4 (length rest) - length rest
    padding = omega arith

module _ {A : Type 0} where
  pub get_elem?-set_self :
      (xs : List A) (i : ℕ) (a : A) → i < length xs → get_elem? (set xs i a) i ≡ some a
  get_elem?-set_self [] i a h = absurd (omega (arith, h))
  get_elem?-set_self (x ∷ xs) zero a h = refl
  get_elem?-set_self (x ∷ xs) (suc i) a h = get_elem?-set_self xs i a (omega arith)

  pub get_elem?-set_ne :
      (xs : List A) (i j : ℕ) (a : A) → i ≢ j → get_elem? (set xs i a) j ≡ get_elem? xs j
  get_elem?-set_ne [] i j a h = refl
  get_elem?-set_ne (x ∷ xs) zero zero a h = absurd (h refl)
  get_elem?-set_ne (x ∷ xs) zero (suc j) a h = refl
  get_elem?-set_ne (x ∷ xs) (suc i) zero a h = refl
  get_elem?-set_ne (x ∷ xs) (suc i) (suc j) a h = get_elem?-set_ne xs i j a (λ e. h (ap suc e))

module _ {A : Type 0} (count : ℕ) (value : ℕ → A) where
  length-invoke :
      (pos : ℕ) (buffer : List A) → length (invoke count value pos buffer) ≡ length buffer
  length-invoke pos buffer = ground (arith, length-set buffer pos (value pos))

  pub length-dispatch :
      (order : List ℕ) (buffer : List A)
      → length (dispatch count value order buffer) ≡ length buffer
  unfolding dispatch
  length-dispatch [] buffer = refl
  length-dispatch (pos ∷ order) buffer =
      length-dispatch order (invoke count value pos buffer) ∙ length-invoke pos buffer

  -- What is written stays, since every invocation for a place writes the same.
  invoke_keeps :
      (pos p : ℕ) (buffer : List A)
      → p < length buffer
      → get_elem? buffer p ≡ some (value p)
      → get_elem? (invoke count value pos buffer) p ≡ some (value p)
  invoke_keeps pos p buffer h e = elim (Bool-cases (leb count pos)) [
    | inl out ↦ rw out e
    | inr inside ↦ rw inside (elim (ℕ_discrete pos p) [
      | yes same ↦
          subst (λ q. get_elem? (set buffer q (value q)) p ≡ some (value p)) (sym same)
            (get_elem?-set_self buffer p (value p) h)
      | no other ↦ get_elem?-set_ne buffer pos p (value pos) other ∙ e
    ])
  ]

  dispatch_keeps :
      (order : List ℕ) (p : ℕ) (buffer : List A)
      → p < length buffer
      → get_elem? buffer p ≡ some (value p)
      → get_elem? (dispatch count value order buffer) p ≡ some (value p)
  unfolding dispatch
  dispatch_keeps [] p buffer h e = e
  dispatch_keeps (pos ∷ order) p buffer h e =
      dispatch_keeps order p (invoke count value pos buffer)
        (omega (arith, length-invoke pos buffer, h)) (invoke_keeps pos p buffer h e)

  dispatch_at :
      (order : List ℕ) (i p : ℕ) (buffer : List A)
      → get_elem? order i ≡ some p
      → p < count
      → p < length buffer
      → get_elem? (dispatch count value order buffer) p ≡ some (value p)
  unfolding dispatch
  dispatch_at [] i p buffer e lt h = cc
  dispatch_at (pos ∷ order) zero p buffer e lt h =
      dispatch_keeps order p (invoke count value pos buffer)
        (omega (arith, length-invoke pos buffer, h))
        (subst (λ q. get_elem? (invoke count value q buffer) p ≡ some (value p))
          (sym (some-injective _ _ e)) written)
    where
      written : get_elem? (invoke count value p buffer) p ≡ some (value p)
      written = ground (arith, get_elem?-set_self buffer p (value p))
  dispatch_at (pos ∷ order) (suc i) p buffer e lt h =
      dispatch_at order i p (invoke count value pos buffer) e lt
        (omega (arith, length-invoke pos buffer, h))

  -- Whatever the order of the invocations, each element is what its invocation writes.
  pub dispatch-value :
      (order : List ℕ) (n p : ℕ) (buffer : List A)
      → Runs n order
      → p < n
      → p < count
      → p < length buffer
      → get_elem? (dispatch count value order buffer) p ≡ some (value p)
  dispatch-value order n p buffer runs lt in_count h =
      let (i, e) = runs p lt in dispatch_at order i p buffer e in_count h
