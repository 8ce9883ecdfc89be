-- ===== src/Parallel/Jobs.antt =====
-- What a receive does to the jobs: it takes one out, and loses and invents none.
use gpzip.Prelude.{
  ◌<◌, ℕ, zero, suc, ◌≡◌, refl, ap, ◌⊎◌, inl, inr, none, some, List, [], ◌∷◌, ◌++◌, length,
  get_elem?, All, arith,
}
use gpzip.Parallel.Channel.{Job, take_job, receive, try_receive}

-- A job with index `i` is among them.
abbrev pub HasJob : ℕ → List Job → Type 0
HasJob i [] = ⊥
HasJob i (j ∷ js) = (i ≡ j.0) ⊎ HasJob i js

-- The job is about the chunk at its index.
abbrev pub IsJob : List (List ℕ) → Job → Type 0
IsJob chunks j = get_elem? chunks j.0 ≡ some j.1

pub record Takes (before : List Job) (job : Job) (after : List Job) : Type 0 where
  pub one_less : length before ≡ suc (length after)
  pub jobs :
      (chunks : List (List ℕ))
      → All (IsJob chunks) before
      → IsJob chunks job × All (IsJob chunks) after
  pub keeps : (i : ℕ) → HasJob i before → (i ≡ job.0) ⊎ HasJob i after

take_job-Takes :
    (c : ℕ) (j : Job) (js : List Job) → Takes (j ∷ js) (take_job c j js).0 (take_job c j js).1
unfolding take_job
take_job-Takes zero j js = record { one_less = refl; jobs = λ chunks h. h; keeps = λ i h. h }
take_job-Takes (suc c) j [] = record { one_less = refl; jobs = λ chunks h. h; keeps = λ i h. h }
take_job-Takes (suc c) j (k ∷ js) =
    let t = take_job-Takes c k js in
    record {
      one_less = ap suc t.one_less;
      jobs = λ chunks h. let (x, r) = t.jobs chunks h.1 in (x, (h.0, r));
      keeps = λ i h. keep i h (t.keeps i);
    }
  where
    keep :
        (i : ℕ)
        → HasJob i (j ∷ k ∷ js)
        → (HasJob i (k ∷ js) → (i ≡ (take_job c k js).0.0) ⊎ HasJob i (take_job c k js).1)
        → (i ≡ (take_job c k js).0.0) ⊎ HasJob i (j ∷ (take_job c k js).1)
    keep i (inl e) later = inr (inl e)
    keep i (inr h) later = elim (later h) [ inl e ↦ inl e | inr h' ↦ inr (inr h') ]

-- A receive that waits gets a job wherever one is left.
pub receive-Takes :
    (workers : List Job) (schedule : List ℕ)
    → 0 < length workers
    → (job : Job) × (after : List Job) × (schedule' : List ℕ) × (receive workers schedule
        ≡ some (job, after, schedule'))
      × Takes workers job after
unfolding receive
receive-Takes [] schedule h = elim (none_left h) [ ]
  where
    none_left : 0 < 0 → ⊥
    none_left h = omega (arith, h)
receive-Takes (j ∷ js) [] h = (j, js, [], refl, take_job-Takes zero j js)
receive-Takes (j ∷ js) (c ∷ cs) h =
    ((take_job c j js).0, (take_job c j js).1, cs, refl, take_job-Takes c j js)

-- One that does not wait gets a job or none.
pub try_receive-cases :
    (workers : List Job) (schedule : List ℕ)
    → ((try_receive workers schedule).0 ≡ none)
      ⊎ ((job : Job) × (after : List Job) × ((try_receive workers schedule).0 ≡ some (job, after))
          × Takes workers job after)
unfolding try_receive
try_receive-cases [] schedule = inl refl
try_receive-cases (j ∷ js) [] = inl refl
try_receive-cases (j ∷ js) (zero ∷ cs) = inl refl
try_receive-cases (j ∷ js) (suc c ∷ cs) =
    inr ((take_job c j js).0, (take_job c j js).1, refl, take_job-Takes c j js)

pub HasJob-append : (i : ℕ) (js : List Job) (j : Job) → HasJob i js → HasJob i (js ++ (j ∷ []))
HasJob-append i (k ∷ js) j (inl e) = inl e
HasJob-append i (k ∷ js) j (inr h) = inr (HasJob-append i js j h)
HasJob-append i [] j h = elim h [ ]

pub HasJob-last : (js : List Job) (j : Job) → HasJob j.0 (js ++ (j ∷ []))
HasJob-last [] j = inl refl
HasJob-last (k ∷ js) j = inr (HasJob-last js j)
