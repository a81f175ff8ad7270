-- ===== src/Jobs/Blocks/Owned.antt =====
-- The blocks that the structures of workers and of jobs own, from their making to their end.
use httpserv.Prelude.{
  ℕ, zero, suc, ◌+◌, ◌≡◌, refl, Bool, List, [], ◌∷◌, length, some, arith, times, ◌>>=◌,
}
use httpserv.Memory.{Heap, malloc}
use httpserv.Memory.Owned.{Owns, Owns-same, malloc-Owns, free-Owns}
use httpserv.Jobs.Blocks.{
  result_new_in, JobBlocks, job_new_in, WorkerBlocks, worker_data_new_in, worker_new_in,
  worker_stop_in, workers_new_in, jobs_new_in, workers_stop_in, jobs_destroy_in,
}

-- The blocks of workers, and of jobs, that a destruction frees and that it keeps.
abbrev pub worker_structs : List WorkerBlocks → List ℕ
worker_structs [] = []
worker_structs (w ∷ ws) = w.struct ∷ worker_structs ws

abbrev pub worker_rest : List WorkerBlocks → List ℕ
worker_rest [] = []
worker_rest (w ∷ ws) = w.thread ∷ (w.data_block ∷ worker_rest ws)

abbrev pub job_structs : List JobBlocks → List ℕ
job_structs [] = []
job_structs (j ∷ js) = j.struct ∷ job_structs js

abbrev pub job_rest : List JobBlocks → List ℕ
job_rest [] = []
job_rest (j ∷ js) = (j.jres).struct ∷ ((j.jres).mutex ∷ ((j.jres).cond ∷ job_rest js))

pub workers_new_in-Owns :
    (live : ℕ → Bool) (n : ℕ) (m : ℕ → ℕ) (h : Heap)
    → Owns live m h
    → let made = workers_new_in n h in
      Owns live (λ q. times q (worker_structs made.0) + times q (worker_rest made.0) + m q) made.1
      × (length (worker_rest made.0) ≡ n + n)
unfolding workers_new_in worker_new_in worker_data_new_in
workers_new_in-Owns live zero m h k = (Owns-same live _ _ h (λ q. omega arith) k, refl)
workers_new_in-Owns live (suc n) m h k =
    let three =
      malloc-Owns live _ (malloc (malloc h))
        (malloc-Owns live _ (malloc h) (malloc-Owns live m h k)) in
    let (rest, number) = workers_new_in-Owns live n _ (malloc (malloc (malloc h))) three in
    (Owns-same live _ _ _ (λ q. omega arith) rest, omega (arith, number))

pub jobs_new_in-Owns :
    (live : ℕ → Bool) (n : ℕ) (m : ℕ → ℕ) (h : Heap)
    → Owns live m h
    → let made = jobs_new_in n h in
      Owns live (λ q. times q (job_structs made.0) + times q (job_rest made.0) + m q) made.1
      × (length (job_rest made.0) ≡ n + n + n)
      × (length (job_structs made.0) ≡ n)
unfolding jobs_new_in job_new_in result_new_in
jobs_new_in-Owns live zero m h k = (Owns-same live _ _ h (λ q. omega arith) k, refl, refl)
jobs_new_in-Owns live (suc n) m h k =
    let two = malloc-Owns live _ (malloc h) (malloc-Owns live m h k) in
    let four =
      malloc-Owns live _ (malloc (malloc (malloc h)))
        (malloc-Owns live _ (malloc (malloc h)) two) in
    let (rest, number, structs) =
      jobs_new_in-Owns live n _ (malloc (malloc (malloc (malloc h)))) four in
    (Owns-same live _ _ _ (λ q. omega arith) rest, omega (arith, number), omega (arith, structs))

pub workers_stop_in-Owns :
    (live : ℕ → Bool) (ws : List WorkerBlocks) (m : ℕ → ℕ) (h : Heap)
    → Owns live (λ q. times q (worker_structs ws) + m q) h
    → (h' : Heap) × (workers_stop_in ws h ≡ some h') × Owns live m h'
unfolding workers_stop_in worker_stop_in
workers_stop_in-Owns live [] m h k = (h, refl, Owns-same live _ _ h (λ q. omega arith) k)
workers_stop_in-Owns live (w ∷ ws) m h k =
    let (h1, f1, k1) =
      free-Owns live w.struct _ (λ q. times q (worker_structs ws) + m q) h (λ q. omega arith) k in
    let (h2, f2, k2) = workers_stop_in-Owns live ws m h1 k1 in (h2, rw (f1, ◌>>=◌) f2, k2)

pub jobs_destroy_in-Owns :
    (live : ℕ → Bool) (js : List JobBlocks) (m : ℕ → ℕ) (h : Heap)
    → Owns live (λ q. times q (job_structs js) + m q) h
    → (h' : Heap) × (jobs_destroy_in js h ≡ some h') × Owns live m h'
unfolding jobs_destroy_in
jobs_destroy_in-Owns live [] m h k = (h, refl, Owns-same live _ _ h (λ q. omega arith) k)
jobs_destroy_in-Owns live (j ∷ js) m h k =
    let (h1, f1, k1) =
      free-Owns live j.struct _ (λ q. times q (job_structs js) + m q) h (λ q. omega arith) k in
    let (h2, f2, k2) = jobs_destroy_in-Owns live js m h1 k1 in (h2, rw (f1, ◌>>=◌) f2, k2)
