-- ===== src/Gpu/BruteForce.antt =====
-- `Lz77Pipeline::match_find` of lz77.rs and its shader, lz77.wgsl: for each place every earlier one in
-- the window is tried.
use gpzip.Prelude.{
  ℕ, zero, suc, ◌+◌, ◌-◌, ◌%◌, ◌^◌, ◌≤◌, ◌<◌, ◌≡◌, refl, ◌∙◌, ◌==◌, leb, ltb, if◌then◌else◌, List,
  [], length, replicate, All, arith, inl, inr, Bool-cases, subst, append-nil, length-replicate,
}
use gpzip.Lz77.{Token, literal, back_ref}
use gpzip.Lz77.Match.{IsMatch}
use gpzip.Lz77.Walk.{IsTable}
use gpzip.Gpu.Buffer.{words, pad_to_u32, read_byte, dispatch, Runs, invocations}
use gpzip.Gpu.Bytes.{IsByte, dispatch-value, length-dispatch}
use gpzip.Gpu.Extend.{
  extend, extend-Extends, Extends, Holds, words-Holds, Found, Extends-Found, Found-IsMatch,
  literal-at, pointwise-IsTable,
}

pub record Params : Type 0 where
  pub input_len : ℕ
  pub window : ℕ
  pub min_match : ℕ
  pub max_match : ℕ

abbrev pub min_match : ℕ
min_match = 3

abbrev pub max_match : ℕ
max_match = 258

abbrev pub params_for : ℕ → ℕ → Params
params_for n window = record {
  input_len = n;
  window = window;
  min_match = min_match;
  max_match = max_match;
}

-- One round of the loop over the window, on `(best_len, best_dist)`.
unfoldable pub try_prev : List ℕ → Params → ℕ → ℕ → ℕ × ℕ → ℕ × ℕ
unfolding extend
try_prev input_buf params pos prev best =
    let len = extend input_buf params.input_len params.max_match prev pos 0 in
    if ltb best.0 len then (len, pos - prev) else best

-- `for prev in window_start..pos`, with `n` rounds to go.
unfoldable pub try_window : List ℕ → Params → ℕ → ℕ → ℕ → ℕ × ℕ → ℕ × ℕ
unfolding try_prev
try_window input_buf params pos zero prev best = best
try_window input_buf params pos (suc n) prev best =
    try_window input_buf params pos n (prev + 1) (try_prev input_buf params pos prev best)

-- What the invocation at `pos` writes; the saturating subtraction is that of ℕ.
unfoldable pub token_at : List ℕ → Params → ℕ → Token
unfolding try_window
token_at input_buf params pos =
    let window_start = pos - params.window in
    let best = try_window input_buf params pos (pos - window_start) window_start (0, 0) in
    if leb params.min_match best.0
    then back_ref best.0 best.1
    else literal (read_byte input_buf pos)

-- The tokens buffer is made with zeros; `order` is the order in which the device runs the invocations.
unfoldable pub match_find : List ℕ → List ℕ → ℕ → List Token
unfolding token_at dispatch
match_find order input window =
    let n = length input % 2 ^ 32 in
    let params = params_for n window in
    if n == 0
    then []
    else dispatch n (token_at (words (pad_to_u32 input)) params) order (replicate n (literal 0))

module _ (input_buf : List ℕ) (params : Params) (most : params.max_match ≡ 258)
    (fits : params.input_len + 258 < 2 ^ 32) where
  try_prev-Found :
      (pos prev : ℕ) (best : ℕ × ℕ)
      → prev < pos
      → pos - prev ≤ params.window
      → pos < params.input_len
      → Found input_buf params.input_len params.window pos best
      → Found input_buf params.input_len params.window pos (try_prev input_buf params pos prev best)
  unfolding try_prev
  try_prev-Found pos prev best h w inside found =
      elim (Bool-cases
        (ltb best.0 (extend input_buf params.input_len params.max_match prev pos 0))) [
          | inl longer ↦
              rw longer (Extends-Found input_buf params.input_len params.window prev pos _ h w run)
          | inr shorter ↦ rw shorter found
        ]
    where
      run :
          Extends input_buf params.input_len 258 prev pos
            (extend input_buf params.input_len params.max_match prev pos 0)
      run =
          rw most
            (extend-Extends input_buf params.input_len prev pos (omega arith) inside fits 258 0
              (omega arith) (λ k lt. absurd (omega arith)) (omega arith)).0

  try_window-Found :
      (pos n prev : ℕ) (best : ℕ × ℕ)
      → prev + n ≡ pos
      → pos - prev ≤ params.window
      → pos < params.input_len
      → Found input_buf params.input_len params.window pos best
      → Found input_buf params.input_len params.window pos
          (try_window input_buf params pos n prev best)
  unfolding try_window
  try_window-Found pos zero prev best e w inside found = found
  try_window-Found pos (suc n) prev best e w inside found =
      try_window-Found pos n (prev + 1) (try_prev input_buf params pos prev best) (omega arith)
        (omega arith) inside (try_prev-Found pos prev best (omega arith) w inside found)

  token_at-Found :
      (pos : ℕ)
      → pos < params.input_len
      → Found input_buf params.input_len params.window pos (
          try_window input_buf params pos
            (pos - (pos - params.window))
            (pos - params.window)
            (0, 0))
  token_at-Found pos inside =
      try_window-Found pos (pos - (pos - params.window)) (pos - params.window) (0, 0) (omega arith)
        (omega arith) inside (inl refl)

reads_input : (input : List ℕ) → All IsByte input → Holds (words (pad_to_u32 input)) input
reads_input input bytes =
    subst (λ b. Holds b input) (append-nil (words (pad_to_u32 input))) (words-Holds input [] bytes)

-- What one invocation writes is a true match.
token_at-IsMatch :
    (input : List ℕ) (window p : ℕ)
    → All IsByte input
    → length input + 258 < 2 ^ 32
    → p < length input
    → IsMatch input p (token_at (words (pad_to_u32 input)) (params_for (length input) window) p)
unfolding token_at
token_at-IsMatch input window p bytes fits inside =
    go
      (try_window (words (pad_to_u32 input)) (params_for (length input) window) p (p - (p - window))
        (p - window) (0, 0))
      (token_at-Found (words (pad_to_u32 input)) (params_for (length input) window) refl fits p
        inside)
  where
    reads : Holds (words (pad_to_u32 input)) input
    reads = reads_input input bytes

    go :
        (best : ℕ × ℕ)
        → Found (words (pad_to_u32 input)) (length input) window p best
        → IsMatch input p (
            if leb 3 best.0
            then back_ref best.0 best.1
            else literal (read_byte (words (pad_to_u32 input)) p))
    go (len, dist) found = elim (Bool-cases (leb 3 len)) [
      | inl long ↦ rw long (
          Found-IsMatch (words (pad_to_u32 input)) input bytes reads window p len dist
            (ground (arith, long)) found)
      | inr short ↦ rw short (literal-at (words (pad_to_u32 input)) input bytes reads p inside)
    ]

-- For bytes below 256, fewer than 2^32 - 258 of them, and any window, the match finder that tries every
-- earlier place writes a true match or the byte for each place, in whatever order the device runs the
-- invocations.
pub match_find-IsTable :
    (order input : List ℕ) (window : ℕ)
    → All IsByte input
    → length input + 258 < 2 ^ 32
    → Runs (invocations (length input)) order
    → IsTable (match_find order input window) input
unfolding match_find
match_find-IsTable order input window bytes fits runs = elim (Bool-cases (length input == 0)) [
  | inl none ↦
      rw (whole, none)
        (pointwise-IsTable (words (pad_to_u32 input)) input bytes (reads_input input bytes) []
          (λ p. literal 0) (ground (arith, none)) (λ p h. absurd (ground (arith, none, h)))
          (λ p h. absurd (ground (arith, none, h))))
  | inr some_bytes ↦
      rw (whole, some_bytes)
        (pointwise-IsTable (words (pad_to_u32 input)) input bytes (reads_input input bytes) _ value
          (length-dispatch (length input) value order buffer
            ∙ length-replicate (length input) (literal 0))
          (λ p h.
            dispatch-value (length input) value order (invocations (length input)) p buffer runs
              (omega arith) h (omega (arith, length-replicate (length input) (literal 0))))
          (λ p h. token_at-IsMatch input window p bytes fits h))
]
  where
    whole : length input % 2 ^ 32 ≡ length input
    whole = omega arith

    buffer : List Token
    buffer = replicate (length input) (literal 0)

    value : ℕ → Token
    value = token_at (words (pad_to_u32 input)) (params_for (length input) window)
