-- ===== src/Deflate/Fixed.antt =====
-- The reference encoder of fixed-Huffman blocks: `write_fixed_block` and `encode_fixed_block` of
-- deflate.rs.
use gpzip.Prelude.{ℕ, ltb, if◌then◌else◌, Option, some, ◌>>=◌, List, [], ◌∷◌}
use gpzip.Lz77.{Token, is_literal}
use gpzip.Deflate.Accum.{BitWriter, new}
use gpzip.Deflate.BitWriter.{write_bits, write_huffman, finish}
use gpzip.Deflate.Codes.{length_code, distance_code, fixed_litlen_code, fixed_dist_code}

-- `if extra_bits > 0 { bw.write_bits(..) }`
unfoldable pub write_extra : ℕ → ℕ → BitWriter → BitWriter
write_extra value count w = if ltb 0 count then write_bits value count w else w

unfoldable pub write_litlen : ℕ → BitWriter → Option BitWriter
write_litlen symbol w = do (code, bits) ← fixed_litlen_code symbol; some (write_huffman code bits w)

-- The body of the loop over the tokens. `none` is a panic.
unfoldable pub write_token : Token → BitWriter → Option BitWriter
write_token t w = if is_literal t then write_litlen t.distance w else do
  let (lcode, lextra_bits, lextra_val) = length_code t.length
  w₁ ← write_litlen lcode w
  let (dcode, dextra_bits, dextra_val) = distance_code t.distance
  let (dhuf, dhuf_bits) = fixed_dist_code dcode
  let w₂ = write_huffman dhuf dhuf_bits (write_extra lextra_val lextra_bits w₁)
  some (write_extra dextra_val dextra_bits w₂)

unfoldable pub write_tokens : List Token → BitWriter → Option BitWriter
write_tokens [] w = some w
write_tokens (t ∷ ts) w = write_token t w >>= write_tokens ts

unfoldable pub write_fixed_block : List Token → BitWriter → Option BitWriter
write_fixed_block tokens w = write_tokens tokens (write_bits 0b011 3 w) >>= write_litlen 256

unfoldable pub encode_fixed_block : List Token → Option (List ℕ)
encode_fixed_block tokens = do w ← write_fixed_block tokens new; some (finish w)
