-- ===== src/Gpu/WalkStrict.antt =====
-- The strict walk of the host is the plain walk on the packed tokens.
use gpzip.Prelude.{
  ℕ, zero, suc, ◌+◌, ◌/◌, ◌^◌, ◌≤◌, ◌<◌, ◌≡◌, refl, ap, sym, ◌∙◌, ltb, false, if◌then◌else◌, some,
  List, [], ◌∷◌, ◌++◌, length, get_elem?, get_or, map, All, arith, Option-cases, inl, inr,
  length-map, append-nil, append_assoc, get_elem?-none_le, get_elem?-some_lt, get_elem?-All,
}
use mathlib.Core.Option.{some-injective}
use gpzip.Lz77.{Token, is_literal, pack_token, pack_per_position, strict_loop}
use gpzip.Lz77.Pack.{FitsU16, pack_token-sum}
use gpzip.Gpu.WalkLoop.{step, walk_from, walk_from-lt, walk_from-le}

get_or-pack :
    (xs : List Token) (i : ℕ) (t : Token)
    → get_elem? xs i ≡ some t
    → get_or (map pack_token xs) i 0 ≡ pack_token t
get_or-pack [] i t e = cc
get_or-pack (x ∷ xs) zero t e = ap pack_token (some-injective _ _ e)
get_or-pack (x ∷ xs) (suc i) t e = get_or-pack xs i t e

pub small_words : (ts : List Token) → All FitsU16 ts → All (λ w. w < 2 ^ 32) (map pack_token ts)
small_words [] h = tt
small_words (t ∷ ts) (h, hs) = (omega (arith, pack_token-sum t h, h), small_words ts hs)

step-pack :
    (t : Token) (p : ℕ)
    → FitsU16 t
    → step (pack_token t) p ≡ (if is_literal t then p + 1 else p + t.length)
step-pack t p h = rw high refl
  where
    high : pack_token t / 2 ^ 16 ≡ t.length
    high = omega (arith, pack_token-sum t h, h)

-- `host_strict_greedy` from `p` on gives what the plain walk gives.
pub strict_loop-walk_from :
    (ts : List Token)
    → All FitsU16 ts
    → (fuel p : ℕ) (out : List Token) → length ts ≤ p + fuel
    → (chosen : List Token) × (strict_loop fuel ts p out ≡ some (out ++ chosen))
      × (pack_per_position chosen ≡ walk_from (pack_per_position ts) p)
unfolding strict_loop
strict_loop-walk_from ts fit zero p out h =
    let end : ltb p (length ts) ≡ false = ground (arith, h) in
    (
      [],
      rw (end, append-nil out) refl,
      unfold pack_per_position in
          sym (walk_from-le (map pack_token ts) p (omega (arith, h, length-map pack_token ts))),
    )
strict_loop-walk_from ts fit (suc fuel) p out h = elim (Option-cases (get_elem? ts p)) [
  | inl e ↦ (
    [],
    rw (e, strict_loop, append-nil out) refl,
    unfold pack_per_position in
        sym (
          walk_from-le (map pack_token ts) p
            (omega (arith, get_elem?-none_le p ts e, length-map pack_token ts))),
  )
  | inr (t, e) ↦
      let (chosen, same, packed) =
        strict_loop-walk_from ts fit fuel (if is_literal t then p + 1 else p + t.length)
          (out ++ (t ∷ [])) (ground (arith, h)) in
      (
        t ∷ chosen,
        rw (e, strict_loop) (same ∙ ap (λ l. some l) (append_assoc out (t ∷ []) chosen)),
        whole p t e chosen packed,
      )
]
  where
    whole :
        (p : ℕ) (t : Token)
        → get_elem? ts p ≡ some t
        → (chosen : List Token)
        → pack_per_position chosen
          ≡ walk_from (pack_per_position ts) (if is_literal t then p + 1 else p + t.length)
        → pack_per_position (t ∷ chosen) ≡ walk_from (pack_per_position ts) p
    whole p t e chosen packed =
        let packed' : map pack_token chosen
            ≡ walk_from (map pack_token ts) (if is_literal t then p + 1 else p + t.length) =
          unfold pack_per_position in packed in
        let w : get_or (map pack_token ts) p 0 ≡ pack_token t = get_or-pack ts p t e in
        unfold pack_per_position in
        ap (λ l. pack_token t ∷ l) packed'
        ∙ ap (λ q. pack_token t ∷ walk_from (map pack_token ts) q)
            (sym (step-pack t p (get_elem?-All FitsU16 ts p t fit e)))
        ∙ ap (λ v. v ∷ walk_from (map pack_token ts) (step v p)) (sym w)
        ∙ sym (
            walk_from-lt (map pack_token ts) p
              (omega (arith, get_elem?-some_lt p ts t e, length-map pack_token ts)))
