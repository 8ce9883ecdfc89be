-- ===== src/Parallel/Channel.antt =====
-- The channel between the workers and the writer: jobs whose result is still to come, and a schedule
-- that says which comes next.
use gpzip.Prelude.{ℕ, zero, suc, Option, none, some, List, [], ◌∷◌}

-- The index of a chunk and its bytes.
abbrev pub Job : Type 0
Job = ℕ × List ℕ

-- The job that the choice `c` points at among the jobs `j ∷ js` (the last one if it points past the
-- end), and the others.
unfoldable pub take_job : ℕ → Job → List Job → Job × List Job
take_job zero j js = (j, js)
take_job (suc c) j [] = (j, [])
take_job (suc c) j (k ∷ js) = let (job, rest) = take_job c k js in (job, j ∷ rest)

-- `rx.recv()`: some result comes, if a worker is left; then the rest of the jobs and of the schedule.
unfoldable pub receive : List Job → List ℕ → Option (Job × List Job × List ℕ)
unfolding take_job
receive [] schedule = none
receive (j ∷ js) [] = some (j, js, [])
receive (j ∷ js) (c ∷ cs) = let (job, rest) = take_job c j js in some (job, rest, cs)

-- `rx.try_recv()`: the choice 0 says that no result is there yet, and a spent schedule says so too.
unfoldable pub try_receive : List Job → List ℕ → Option (Job × List Job) × List ℕ
unfolding take_job
try_receive [] schedule = (none, schedule)
try_receive (j ∷ js) [] = (none, [])
try_receive (j ∷ js) (zero ∷ cs) = (none, cs)
try_receive (j ∷ js) (suc c ∷ cs) = (some (take_job c j js), cs)
