-- ===== src/Gpu/Buffer.antt =====
-- Storage buffers and dispatches. A buffer is the list of its elements; a dispatch runs the shader's
-- invocations one after the other, in the order that the device chooses.
use gpzip.Prelude.{
  ℕ, ◌+◌, ◌-◌, ◌*◌, ◌/◌, ◌%◌, ◌^◌, ◌<◌, ◌≡◌, leb, ◌==◌, if◌then◌else◌, Option, none, some, take,
  List, [], ◌∷◌, ◌++◌, length, get_elem?, get_or, set, replicate,
}

-- `next_multiple_of(4)`
abbrev pub next_multiple_of_4 : ℕ → ℕ
next_multiple_of_4 n = (n + 3) / 4 * 4

-- `resize(padded, 0)`
unfoldable pub pad_to_u32 : List ℕ → List ℕ
pad_to_u32 input = input ++ replicate (next_multiple_of_4 (length input) - length input) 0

-- Bytes read as `array<u32>`, low byte first.
unfoldable pub words : List ℕ → List ℕ
words (a ∷ b ∷ c ∷ d ∷ rest) = (a + b * 2 ^ 8 + c * 2 ^ 16 + d * 2 ^ 24) ∷ words rest
words [] = []
words (a ∷ []) = []
words (a ∷ b ∷ []) = []
words (a ∷ b ∷ c ∷ []) = []

-- `buffer.slice(0..n)`, to map it. `none` is the panic of wgpu at an empty range.
unfoldable pub slice : {A : Type 0} → ℕ → List A → Option (List A)
slice n buffer = if n == 0 then none else some (take n buffer)

-- `read_byte` of the shaders. No shader reads out of range; what is there is taken as 0.
unfoldable pub read_byte : List ℕ → ℕ → ℕ
read_byte input_buf idx = get_or input_buf (idx / 4) 0 / 2 ^ (idx % 4 * 8) % 2 ^ 8

-- The invocations in the device's order, each of which writes at most its own element.
module _ {A : Type 0} (count : ℕ) (value : ℕ → A) where
  -- `if (pos >= count) { return; } buffer[pos] = value;`
  abbrev pub invoke : ℕ → List A → List A
  invoke pos buffer = if leb count pos then buffer else set buffer pos (value pos)

  unfoldable pub dispatch : List ℕ → List A → List A
  dispatch [] buffer = buffer
  dispatch (pos ∷ order) buffer = dispatch order (invoke pos buffer)

-- The device runs every invocation of the dispatched workgroups.
abbrev pub Runs : ℕ → List ℕ → Type 0
Runs n order = (pos : ℕ) → pos < n → (i : ℕ) × (get_elem? order i ≡ some pos)

-- `n.div_ceil(64)` workgroups of 64.
abbrev pub invocations : ℕ → ℕ
invocations n = (n + 63) / 64 * 64

-- `+` of two u32.
abbrev pub add_u32 : ℕ → ℕ → ℕ
add_u32 a b = (a + b) % 2 ^ 32

-- The device runs every invocation of the lookup for each chunk.
abbrev pub RunsEach : (ℕ → List ℕ × List ℕ) → ℕ → List (List ℕ) → Type 0
RunsEach orders i [] = Unit {0}
RunsEach orders i (input ∷ inputs) =
    Runs (invocations (length input)) (orders i).1 × RunsEach orders (i + 1) inputs
