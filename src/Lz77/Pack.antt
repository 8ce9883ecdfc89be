-- ===== src/Lz77/Pack.antt =====
-- The packed u32 form of a token, `length << 16 | distance`, in the buffers of the GPU.
use gpzip.Prelude.{ℕ, bit_or, ◌%◌, ◌+◌, ◌*◌, ◌^◌, ◌<◌, ◌≡◌, refl, ap₂, List, [], ◌∷◌, All, arith}
use gpzip.Prelude.Bits.{shift-bit_or, bit_and-mask}
use gpzip.Lz77.{
  Token, literal, back_ref, pack_token, pack_per_position, unpack_token, unpack_tokens,
}

-- Both fields fit 16 bits, as those of the match finder do: lengths are at most 258, distances at
-- most 32768.
abbrev pub FitsU16 : Token → Type 0
FitsU16 t = (t.length < 2 ^ 16) × (t.distance < 2 ^ 16)

pub pack_token-sum : (t : Token) → FitsU16 t → pack_token t ≡ t.length * 2 ^ 16 + t.distance
unfolding pack_token
pack_token-sum t h = ground (arith, bit_and-mask 16 t.distance, shift-bit_or 16 t.distance t.length)

unpack_token-pack_token : (t : Token) → FitsU16 t → unpack_token (pack_token t) ≡ t
unfolding unpack_token
unpack_token-pack_token t h =
    rw (pack_token-sum t h, bit_and-mask 16 (t.length * 2 ^ 16 + t.distance)) (ground arith)

-- Unpacking gives back every list of tokens whose fields fit 16 bits.
pub unpack_tokens-pack_per_position :
    (ts : List Token) → All FitsU16 ts → unpack_tokens (pack_per_position ts) ≡ ts
unfolding unpack_tokens pack_per_position
unpack_tokens-pack_per_position [] h = refl
unpack_tokens-pack_per_position (t ∷ ts) (h, hs) =
    ap₂ ◌∷◌ (unpack_token-pack_token t h) (unpack_tokens-pack_per_position ts hs)

-- The packed token of the hash shader, and a byte, unpacked.
pub unpack_token-shift :
    (length distance : ℕ)
    → length < 2 ^ 16
    → distance < 2 ^ 16
    → unpack_token (bit_or (length * 2 ^ 16 % 2 ^ 32) distance) ≡ back_ref length distance
unfolding unpack_token
unpack_token-shift length distance h k =
    rw (whole, shift-bit_or 16 distance length k, bit_and-mask 16 (length * 2 ^ 16 + distance))
      (ground arith)
  where
    whole : length * 2 ^ 16 % 2 ^ 32 ≡ length * 2 ^ 16
    whole = omega arith

pub unpack_token-byte : (b : ℕ) → b < 2 ^ 16 → unpack_token b ≡ literal b
unfolding unpack_token
unpack_token-byte b h = rw (bit_and-mask 16 b) (ground arith)
