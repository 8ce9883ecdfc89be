-- ===== src/Gpu/HashMatch.antt =====
-- The lookup checks the bytes of its candidates, so it finds true matches whatever the tables hold.
use gpzip.Prelude.{
  ℕ, zero, suc, ◌+◌, ◌-◌, ◌*◌, ◌/◌, ◌%◌, ◌^◌, ◌≤◌, ◌<◌, ◌≡◌, refl, ap, ◌∙◌, ◌==◌, leb, ltb, not,
  ◌||◌, if◌then◌else◌, Bool, true, false, List, length, All, arith, inl, inr, Bool-cases, bit_or,
}
use gpzip.Lz77.{unpack_token}
use gpzip.Lz77.Pack.{unpack_token-shift, unpack_token-byte}
use gpzip.Lz77.Match.{IsMatch}
use gpzip.Gpu.Buffer.{read_byte, add_u32}
use gpzip.Gpu.Bytes.{IsByte}
use gpzip.Gpu.Extend.{
  extend, extend-Extends, Same, Found, Extends-Found, Holds, Found-IsMatch, literal-at, byte-lt,
}
use gpzip.Gpu.Hash.{Params, Table, hash3, try_candidate, better, seg_index, lookup_loop, lookup}

if_keeps :
    (P : ℕ × ℕ → Type 0) (b : Bool) (x y : ℕ × ℕ)
    → (b ≡ true → P x)
    → (b ≡ false → P y)
    → P (if b then x else y)
if_keeps P true x y h k = h refl
if_keeps P false x y h k = k refl

module _ (input_buf : List ℕ) (params : Params) (most : params.max_match ≡ 258)
    (fits : params.input_len + 258 < 2 ^ 32) (p : ℕ) (inside : p + 2 < params.input_len) where
  abbrev FoundHere : ℕ × ℕ → Type 0
  FoundHere = Found input_buf params.input_len params.window p

  three_bytes :
      (cand : ℕ)
      → cand < p
      → (not (read_byte input_buf cand == read_byte input_buf p)
          || (not (read_byte input_buf (add_u32 cand 1) == read_byte input_buf (add_u32 p 1))
              || not (read_byte input_buf (add_u32 cand 2) == read_byte input_buf (add_u32 p 2))))
        ≡ false
      → Same input_buf cand p 3
  three_bytes cand h e zero lt =
      let e0 : read_byte input_buf cand ≡ read_byte input_buf p = ground (arith, e) in
      ap (read_byte input_buf) at_cand ∙ e0 ∙ ap (read_byte input_buf) at_p
    where
      at_cand : cand + 0 ≡ cand
      at_cand = omega arith

      at_p : p ≡ p + 0
      at_p = omega arith
  three_bytes cand h e (suc zero) lt =
      let e1 : read_byte input_buf (add_u32 cand 1) ≡ read_byte input_buf (add_u32 p 1) =
        ground (arith, e) in
      ap (read_byte input_buf) at_cand ∙ e1 ∙ ap (read_byte input_buf) at_p
    where
      at_cand : cand + 1 ≡ add_u32 cand 1
      at_cand = omega arith

      at_p : add_u32 p 1 ≡ p + 1
      at_p = omega arith
  three_bytes cand h e (suc (suc zero)) lt =
      let e2 : read_byte input_buf (add_u32 cand 2) ≡ read_byte input_buf (add_u32 p 2) =
        ground (arith, e) in
      ap (read_byte input_buf) at_cand ∙ e2 ∙ ap (read_byte input_buf) at_p
    where
      at_cand : cand + 2 ≡ add_u32 cand 2
      at_cand = omega arith

      at_p : add_u32 p 2 ≡ p + 2
      at_p = omega arith
  three_bytes cand h e (suc (suc (suc k))) lt = absurd (omega arith)

  try_candidate-Found :
      (raw cur_best : ℕ) → FoundHere (try_candidate input_buf params raw p cur_best)
  unfolding try_candidate
  try_candidate-Found raw cur_best =
      if_keeps FoundHere ((raw == 0) || (raw == 0xffff_ffff)) (0, 0) _ (λ _. inl refl)
        (λ _.
          if_keeps FoundHere (leb p (raw - 1)) (0, 0) _ (λ _. inl refl)
            (λ before.
              if_keeps FoundHere (ltb params.window (p - (raw - 1))) (0, 0) _ (λ _. inl refl)
                (λ near.
                  if_keeps FoundHere _ (0, 0) _ (λ _. inl refl)
                    (λ equal.
                      if_keeps FoundHere (ltb cur_best _) _ (0, 0)
                        (λ _.
                          measured (raw - 1) (ground (arith, before)) (ground (arith, near)) equal)
                        (λ _. inl refl)))))
    where
      measured :
          (cand : ℕ)
          → cand < p
          → p - cand ≤ params.window
          → (not (read_byte input_buf cand == read_byte input_buf p)
              || (not (read_byte input_buf (add_u32 cand 1) == read_byte input_buf (add_u32 p 1))
                  || not
                      (read_byte input_buf (add_u32 cand 2) == read_byte input_buf (add_u32 p 2))))
            ≡ false
          → FoundHere (extend input_buf params.input_len (params.max_match - 3) cand p 3, p - cand)
      measured cand h near equal =
          Extends-Found input_buf params.input_len params.window cand p _ h near (
            rw most
              (extend-Extends input_buf params.input_len cand p (omega arith) (omega arith) fits 255
                3 (omega arith) (three_bytes cand h equal) (omega arith)).0)

  better-Found : (r best : ℕ × ℕ) → FoundHere r → FoundHere best → FoundHere (better r best)
  unfolding better
  better-Found r best hr hb = elim (Bool-cases (ltb 0 r.0)) [ inl e ↦ rw e hr | inr e ↦ rw e hb ]

  lookup_loop-Found :
      (tables : Table × Table) (h segs : ℕ) (best : ℕ × ℕ)
      → FoundHere best
      → FoundHere (lookup_loop input_buf params tables h p segs best)
  unfolding lookup_loop
  lookup_loop-Found tables h zero best found = found
  lookup_loop-Found tables h (suc seg) best found =
      elim (Bool-cases (leb params.max_match first.0)) [
        | inl e ↦ rw e newer
        | inr e ↦ elim (Bool-cases (ltb first.0 16)) [
          | inl f ↦ elim (Bool-cases (leb params.max_match second.0)) [
            | inl g ↦ rw (e, f, g) older
            | inr g ↦ rw (e, f, g) (lookup_loop-Found tables h seg second older)
          ]
          | inr f ↦ rw (e, f) (lookup_loop-Found tables h seg first newer)
        ]
      ]
    where
      first : ℕ × ℕ
      first =
          better (try_candidate input_buf params (tables.1 (seg_index params h seg)) p best.0) best

      newer : FoundHere first
      newer =
          better-Found _ best (try_candidate-Found (tables.1 (seg_index params h seg)) best.0) found

      second : ℕ × ℕ
      second =
          better (try_candidate input_buf params (tables.0 (seg_index params h seg)) p first.0)
            first

      older : FoundHere second
      older =
          better-Found _ first (try_candidate-Found (tables.0 (seg_index params h seg)) first.0)
            newer

-- What an invocation of the lookup writes stands for a true match, whatever the tables hold.
pub lookup-IsMatch :
    (input_buf input : List ℕ) (params : Params) (tables : Table × Table) (p : ℕ)
    → All IsByte input
    → Holds input_buf input
    → params.input_len ≡ length input
    → params.max_match ≡ 258
    → params.window < 2 ^ 16
    → length input + 258 < 2 ^ 32
    → p < length input
    → IsMatch input p (unpack_token (lookup input_buf params tables p))
unfolding lookup
lookup-IsMatch input_buf input params tables p bytes reads same most near fits inside =
    elim (Bool-cases (leb params.input_len (add_u32 p 2))) [
      | inl end ↦ rw end byte
      | inr more ↦ rw more (go best (found more))
    ]
  where
    byte : IsMatch input p (unpack_token (read_byte input_buf p))
    byte =
        let here = reads p inside in
        rw (unpack_token-byte (read_byte input_buf p) (omega (arith, byte-lt input p _ bytes here)))
          (literal-at input_buf input bytes reads p inside)

    best : ℕ × ℕ
    best =
        lookup_loop input_buf params tables (hash3 input_buf params p) p
          (p / 2 ^ params.seg_log2 + 1) (0, 0)

    found :
        leb params.input_len (add_u32 p 2) ≡ false
        → Found input_buf params.input_len params.window p best
    found more =
        lookup_loop-Found input_buf params most (omega (arith, same, fits)) p
          (ground (arith, more, same, inside, fits)) tables (hash3 input_buf params p)
          (p / 2 ^ params.seg_log2 + 1) (0, 0) (inl refl)

    go :
        (b : ℕ × ℕ)
        → Found input_buf params.input_len params.window p b
        → IsMatch input p (
            unpack_token
              (if b.0 == 0 then read_byte input_buf p else bit_or (b.0 * 2 ^ 16 % 2 ^ 32) b.1))
    go (len, dist) f = elim (Bool-cases (len == 0)) [
      | inl none ↦ rw none byte
      | inr some_len ↦ rw some_len (long f (ground (arith, some_len)))
    ]
      where
        long :
            Found input_buf params.input_len params.window p (len, dist)
            → 1 ≤ len
            → IsMatch input p (unpack_token (bit_or (len * 2 ^ 16 % 2 ^ 32) dist))
        long (inl e) h = absurd (omega arith)
        long (inr f) h = rw (unpack_token-shift len dist (omega arith) (omega (arith, near))) (
            Found-IsMatch input_buf input bytes reads params.window p len dist h
              (rw (← same) (inr f)))
