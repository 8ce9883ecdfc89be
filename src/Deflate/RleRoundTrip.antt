-- ===== src/Deflate/RleRoundTrip.antt =====
-- The run-length form says the lengths that it was made from, to a reader written from RFC 1951,
-- section 3.2.7.
use gpzip.Prelude.{
  ℕ, zero, suc, ◌+◌, ◌-◌, ◌≤◌, ◌<◌, ◌==◌, leb, min, if◌then◌else◌, ◌≡◌, ◌⊎◌, refl, ap, ap₂, sym,
  ◌∙◌, subst, ltb, true, ◌^◌, inl, inr, Option, none, some, List, [], ◌∷◌, ◌++◌, length, drop,
  replicate, All, arith, append_assoc, Bool-cases, length-drop, All-drop,
}
use gpzip.Deflate.RleReader.{readable, expand}
use gpzip.Deflate.Rle.{
  RleEntry, entry, run_length, repeat_loop, zero_run, value_run, rle_loop, rle_encode_lengths,
}

-- The length before what follows `n` times the length `v`.
abbrev after : ℕ → Option ℕ → ℕ → Option ℕ
after zero prev v = prev
after (suc n) prev v = some v

-- The entries stand for `n` times the length `v`, whatever follows.
Says : List RleEntry → Option ℕ → ℕ → ℕ → Type 0
Says es prev n v =
    (rest : List RleEntry) (r : List ℕ)
    → expand rest (after n prev v) ≡ some r
    → expand (es ++ rest) prev ≡ some (replicate n v ++ r)

zero_plus : (m : ℕ) → m ≡ zero + m
zero_plus m = omega arith

suc_plus : (n m : ℕ) → suc (n + m) ≡ suc n + m
suc_plus n m = omega arith

replicate-append :
    (n m v : ℕ) (r : List ℕ) → replicate n v ++ (replicate m v ++ r) ≡ replicate (n + m) v ++ r
replicate-append zero m v r = ap (λ k. replicate k v ++ r) (zero_plus m)
replicate-append (suc n) m v r =
    ap (λ t. v ∷ t) (replicate-append n m v r) ∙ ap (λ k. replicate k v ++ r) (suc_plus n m)

after-pos : (n : ℕ) (prev : Option ℕ) (v : ℕ) → 0 < n → after n prev v ≡ some v
after-pos zero prev v h = absurd (omega (arith, h))
after-pos (suc n) prev v h = refl

after-sum : (n m : ℕ) (prev : Option ℕ) (v : ℕ) → after m (after n prev v) v ≡ after (n + m) prev v
after-sum zero m prev v = ap (λ k. after k prev v) (zero_plus m)
after-sum (suc n) zero prev v = ap (λ k. after k prev v) (suc_plus n zero)
after-sum (suc n) (suc m) prev v = ap (λ k. after k prev v) (suc_plus n (suc m))

Says-append :
    (xs ys : List RleEntry) (prev : Option ℕ) (n m v k : ℕ)
    → n + m ≡ k
    → Says xs prev n v
    → Says ys (after n prev v) m v
    → Says (xs ++ ys) prev k v
unfolding Says
Says-append xs ys prev n m v k e s t =
    subst (λ k. Says (xs ++ ys) prev k v) e
      (λ rest r h.
        ap (λ es. expand es prev) (append_assoc xs ys rest)
        ∙ s (ys ++ rest) (replicate m v ++ r)
            (t rest r (ap (expand rest) (after-sum n m prev v) ∙ h))
        ∙ ap (λ l. some l) (replicate-append n m v r))

-- One symbol that means `n` times `v`.
Says-one :
    (e : RleEntry) (prev : Option ℕ) (n v : ℕ)
    → 0 < n
    → readable e prev ≡ some (n, v)
    → Says (e ∷ []) prev n v
unfolding Says expand
Says-one e prev n v pos k rest r h =
    rw (k, sym (ap (expand rest) (after-pos n prev v pos)) ∙ h) refl

Says-literals : (n v : ℕ) (prev : Option ℕ) → v < 16 → Says (replicate n (entry v 0 0)) prev n v
Says-literals zero v prev small = unfold Says in λ rest r h. h
Says-literals (suc n) v prev small =
    Says-append (entry v 0 0 ∷ []) (replicate n (entry v 0 0)) prev 1 n v (suc n) (omega arith)
      (Says-one (entry v 0 0) prev 1 v (omega arith) (ground (arith, small)))
      (Says-literals n v (some v) small)

-- A repeat symbol, handed the value that stands before it or zeros, says what its loop takes off the run.
repeat_loop-Says :
    (code extra_bits low high : ℕ) (v : ℕ) (prev : Option ℕ)
    → 0 < low
    → low ≤ high
    → high < low + 2 ^ extra_bits
    → ((prev' : Option ℕ)
        → (prev' ≡ prev) ⊎ (prev' ≡ some v)
        → (x : ℕ) → x < 2 ^ extra_bits
        → readable (entry code extra_bits x) prev' ≡ some (low + x, v))
    → (fuel run : ℕ)
    → (n : ℕ) × (n + (repeat_loop code extra_bits low high fuel run).1 ≡ run)
      × Says (repeat_loop code extra_bits low high fuel run).0 prev n v
unfolding repeat_loop
repeat_loop-Says code extra_bits low high v prev pos le wide means zero run =
    (0, omega arith, unfold Says in λ rest r h. h)
repeat_loop-Says code extra_bits low high v prev pos le wide means (suc fuel) run =
    elim (Bool-cases (leb low run)) [
      | inr e ↦ rw (e, repeat_loop) (0, omega arith, unfold Says in λ rest r h. h)
      | inl e ↦
          let enough : low ≤ run = ground (arith, e) in
          let n : ℕ = min run high in
          let some_taken : 0 < n = omega (arith, pos, le, enough) in
          let (m, sum, says) =
            repeat_loop-Says code extra_bits low high v (some v) pos le wide
              (λ prev' h x. means prev' (inr (elim h [ inl e ↦ e | inr e ↦ e ])) x) fuel
              (run - n) in
          rw (e, repeat_loop)
            (
              n + m,
              omega (arith, sum),
              Says-append (entry code extra_bits (n - low) ∷ [])
                  (repeat_loop code extra_bits low high fuel (run - n)).0 prev n m v (n + m) refl
                  (Says-one (entry code extra_bits (n - low)) prev n v some_taken (
                    means prev (inl refl) (n - low) (omega (arith, wide))
                    ∙ ap (λ k. some (k, v)) (omega (arith, le, enough))))
                  (subst (λ p. Says (repeat_loop code extra_bits low high fuel (run - n)).0 p m v)
                    (sym (after-pos n prev v some_taken)) says),
            )
    ]

reads_16 :
    (v : ℕ) (prev : Option ℕ) (x : ℕ)
    → prev ≡ some v
    → x < 2 ^ 2
    → readable (entry 16 2 x) prev ≡ some (3 + x, v)
reads_16 v prev x e fits = let t : ltb x (2 ^ 2) ≡ true = ground arith in rw (t, e) refl

reads_17 : (prev : Option ℕ) (x : ℕ) → x < 2 ^ 3 → readable (entry 17 3 x) prev ≡ some (3 + x, 0)
reads_17 prev x fits = let t : ltb x (2 ^ 3) ≡ true = ground arith in rw t refl

reads_18 : (prev : Option ℕ) (x : ℕ) → x < 2 ^ 7 → readable (entry 18 7 x) prev ≡ some (11 + x, 0)
reads_18 prev x fits = let t : ltb x (2 ^ 7) ≡ true = ground arith in rw t refl

zero_run-Says : (run : ℕ) (prev : Option ℕ) → Says (zero_run run) prev run 0
unfolding zero_run
zero_run-Says run prev =
    let (n, sum, says) =
      repeat_loop-Says 18 7 11 138 0 prev (omega arith) (omega arith) (omega arith)
        (λ prev' h x fits. reads_18 prev' x fits) run run in
    let left : ℕ = (repeat_loop 18 7 11 138 run run).1 in
    let (m, sum', says') =
      repeat_loop-Says 17 3 3 10 0 (after n prev 0) (omega arith) (omega arith) (omega arith)
        (λ prev' h x fits. reads_17 prev' x fits) left left in
    let left' : ℕ = (repeat_loop 17 3 3 10 left left).1 in
    Says-append (repeat_loop 18 7 11 138 run run).0
      ((repeat_loop 17 3 3 10 left left).0 ++ replicate left' (entry 0 0 0)) prev n left 0 run sum
      says
      (Says-append (repeat_loop 17 3 3 10 left left).0 (replicate left' (entry 0 0 0))
        (after n prev 0) m left' 0 left sum' says'
        (Says-literals left' 0 (after m (after n prev 0) 0) (omega arith)))

value_run-Says :
    (cur run : ℕ) (prev : Option ℕ) → 0 < run → cur < 16 → Says (value_run cur run) prev run cur
unfolding value_run
value_run-Says cur run prev pos small =
    let (n, sum, says) =
      repeat_loop-Says 16 2 3 6 cur (some cur) (omega arith) (omega arith) (omega arith)
        (λ prev' h x fits. reads_16 cur prev' x (elim h [ inl e ↦ e | inr e ↦ e ]) fits) (run - 1)
        (run - 1) in
    let left : ℕ = (repeat_loop 16 2 3 6 (run - 1) (run - 1)).1 in
    Says-append (entry cur 0 0 ∷ [])
      ((repeat_loop 16 2 3 6 (run - 1) (run - 1)).0 ++ replicate left (entry cur 0 0)) prev 1
      (run - 1) cur run (omega (arith, pos))
      (Says-one (entry cur 0 0) prev 1 cur (omega arith) (ground (arith, small)))
      (Says-append (repeat_loop 16 2 3 6 (run - 1) (run - 1)).0 (replicate left (entry cur 0 0))
        (some cur) n left cur (run - 1) sum says
        (Says-literals left cur (after n (some cur) cur) small))

run_length-split :
    (cur : ℕ) (xs : List ℕ) → replicate (run_length cur xs) cur ++ drop (run_length cur xs) xs ≡ xs
unfolding run_length
run_length-split cur [] = refl
run_length-split cur (x ∷ xs) = elim (Bool-cases (x == cur)) [
  | inl e ↦ rw (e, run_length) (ap₂ ◌∷◌ (ground (arith, e)) (run_length-split cur xs))
  | inr e ↦ rw (e, run_length) refl
]

rle_loop-expand :
    (fuel : ℕ) (lens : List ℕ) (prev : Option ℕ)
    → length lens ≤ fuel
    → All (λ l. l < 16) lens
    → expand (rle_loop fuel lens) prev ≡ some lens
unfolding rle_loop Says
rle_loop-expand fuel [] prev h small = unfold expand in refl
rle_loop-expand zero (cur ∷ rest) prev h small = absurd (omega (arith, h))
rle_loop-expand (suc fuel) (cur ∷ rest) prev h small =
    says later back (
      rle_loop-expand fuel back (some cur)
        (omega (arith, h, length-drop (run_length cur rest) rest))
        (All-drop (λ l. l < 16) (run_length cur rest) rest small.1))
    ∙ ap (λ t. some (cur ∷ t)) (run_length-split cur rest)
  where
    run : ℕ
    run = suc (run_length cur rest)

    back : List ℕ
    back = drop (run_length cur rest) rest

    later : List RleEntry
    later = rle_loop fuel back

    says : Says (if cur == 0 then zero_run run else value_run cur run) prev run cur
    says = elim (Bool-cases (cur == 0)) [
      | inl e ↦
          rw e (
            subst (λ v. Says (zero_run run) prev run v) (ground (arith, e))
              (zero_run-Says run prev))
      | inr e ↦ rw e (value_run-Says cur run prev (omega arith) small.0)
    ]

-- For code lengths up to 15, the reader of the run-length form, which takes only entries that have as
-- many extra bits as their symbol is read with and a value that fits them, gets back exactly those
-- lengths.
pub expand-rle_encode_lengths :
    (lens : List ℕ) → All (λ l. l < 16) lens → expand (rle_encode_lengths lens) none ≡ some lens
unfolding rle_encode_lengths
expand-rle_encode_lengths lens small = rle_loop-expand (length lens) lens none (omega arith) small
