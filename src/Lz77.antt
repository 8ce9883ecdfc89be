-- ===== src/Lz77.antt =====
-- LZ77 tokens and what a token stream stands for (crates/gpzip-codec-gpu/src/gpu/lz77.rs), with
-- the packed form of the GPU buffers (lz77_hash.rs, walk.rs). A byte is a number below 256.
pub mod Match
pub mod Walk
pub mod Total
pub mod Chosen
pub mod Sample
pub mod Pack
mod Tests
use gpzip.Prelude.{
  ℕ, zero, suc, ◌+◌, ◌-◌, ◌*◌, ◌/◌, ◌%◌, ◌^◌, ◌==◌, ltb, Bool, true, false, if◌then◌else◌, not,
  ◌&&◌, Option, none, some, ◌>>=◌, List, [], ◌∷◌, ◌++◌, map, length, get_elem?, bit_or, bit_and,
}

-- `length` 0 is a literal whose byte is `distance`; otherwise a back-reference.
pub record Token : Type 0 where
  pub length : ℕ
  pub distance : ℕ

abbrev pub literal : ℕ → Token
literal byte = record { length = 0; distance = byte }

abbrev pub back_ref : ℕ → ℕ → Token
back_ref length distance = record { length = length; distance = distance }

abbrev pub is_literal : Token → Bool
is_literal t = t.length == 0

-- The inner loop of `reconstruct`: `n` bytes still to copy, the next from index `from` of the output
-- itself, which grows under it. `none` is a panic (an index out of range).
pub copy_match : ℕ → ℕ → List ℕ → Option (List ℕ)
copy_match zero from out = some out
copy_match (suc n) from out = elim (get_elem? out from) [
  | none ↦ none
  | some b ↦ copy_match n (from + 1) (out ++ (b ∷ []))
]

-- One round of the outer loop. `out.len() - distance` panics below 0.
pub put_token : Token → List ℕ → Option (List ℕ)
unfolding copy_match
put_token t out =
    if is_literal t
    then some (out ++ (t.distance % 256 ∷ []))
    else if ltb (length out) t.distance
    then none
    else copy_match t.length (length out - t.distance) out

pub reconstruct_loop : List Token → List ℕ → Option (List ℕ)
unfolding put_token
reconstruct_loop [] out = some out
reconstruct_loop (t ∷ ts) out = put_token t out >>= reconstruct_loop ts

unfoldable pub reconstruct : List Token → Option (List ℕ)
unfolding reconstruct_loop
reconstruct tokens = reconstruct_loop tokens []

-- The lazy test: the next position has a strictly longer match.
abbrev pub defers : Token → Option Token → Bool
defers t none = false
defers t (some next) = not (is_literal next) && ltb t.length next.length

-- What one round of `greedy_walk` pushes at position `p` with the token `t` there, and the next `p`.
-- `none` is a panic (`input[p]` out of range).
pub greedy_choice : List Token → List ℕ → ℕ → Token → Option (Token × ℕ)
greedy_choice per_position input p t =
    if is_literal t
    then some (t, p + 1)
    else if defers t (get_elem? per_position (p + 1))
    then (get_elem? input p >>= λ b. some (literal b, p + 1))
    else some (t, p + t.length)

-- The loop of `greedy_walk` at position `p`. A spent fuel gives `none`.
pub greedy_loop : ℕ → List Token → List ℕ → ℕ → List Token → Option (List Token)
unfolding greedy_choice
greedy_loop zero per_position input p out = if ltb p (length per_position) then none else some out
greedy_loop (suc fuel) per_position input p out = elim (get_elem? per_position p) [
  | none ↦ some out
  | some t ↦ elim (greedy_choice per_position input p t) [
    | none ↦ none
    | some (chosen, p') ↦ greedy_loop fuel per_position input p' (out ++ (chosen ∷ []))
  ]
]

unfoldable pub greedy_walk : List Token → List ℕ → Option (List Token)
unfolding greedy_loop
greedy_walk per_position input = greedy_loop (length per_position) per_position input 0 []

-- `host_strict_greedy`: the walk with no look at the next position. It reads no input.
unfoldable pub strict_loop : ℕ → List Token → ℕ → List Token → Option (List Token)
strict_loop zero per_position p out = if ltb p (length per_position) then none else some out
strict_loop (suc fuel) per_position p out = elim (get_elem? per_position p) [
  | none ↦ some out
  | some t ↦
      strict_loop fuel per_position (if is_literal t then p + 1 else p + t.length) (out ++ (t ∷ []))
]

unfoldable pub host_strict_greedy : List Token → Option (List Token)
unfolding strict_loop
host_strict_greedy per_position = strict_loop (length per_position) per_position 0 []

-- `(t.length << 16) | (t.distance & 0xFFFF)` in a u32.
pub pack_token : Token → ℕ
pack_token t = bit_or (t.length * 2 ^ 16 % 2 ^ 32) (bit_and t.distance 0xffff)

unfoldable pub pack_per_position : List Token → List ℕ
unfolding pack_token
pack_per_position = map pack_token

pub unpack_token : ℕ → Token
unpack_token w = record { length = w / 2 ^ 16; distance = bit_and w 0xffff }

-- `unpack_tokens` of lz77_hash.rs and `unpack_walked` of walk.rs.
unfoldable pub unpack_tokens : List ℕ → List Token
unfolding unpack_token
unpack_tokens = map unpack_token
