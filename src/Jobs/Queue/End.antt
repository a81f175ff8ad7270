-- ===== src/Jobs/Queue/End.antt =====
-- `threadpool_job_queue_destroy` of src/job.c.
use httpserv.Prelude.{
  ℕ, zero, suc, ◌+◌, ◌<◌, ◌≡◌, refl, ◌==◌, List, [], ◌∷◌, length, Option, some, none, arith, ◌>>=◌,
  if◌then◌else◌,
}
use mathlib.Core.List.{map}
use httpserv.Jobs.{Task}
use httpserv.Jobs.Queue.{Cells, Memory}
use httpserv.Jobs.Queue.Chain.{Chain}
use httpserv.Jobs.Queue.Fifo.{IsQueue}

-- `threadpool_job_destroy`
unfoldable pub job_destroy : Cells → ℕ → Cells
job_destroy cells p q = if p == q then none else cells q

-- The loop, with the rounds that are left: the jobs that are freed, in order. `none` is an access
-- through NULL or to a job that was freed.
unfoldable pub destroy_jobs : ℕ → Option ℕ → Cells → Option (List ℕ)
unfolding job_destroy
destroy_jobs zero cur cells = some []
destroy_jobs (suc n) none cells = none
destroy_jobs (suc n) (some p) cells = do
  job ← cells p
  rest ← destroy_jobs n job.next (job_destroy cells p)
  some (p ∷ rest)

-- `threadpool_job_queue_destroy`
unfoldable pub queue_destroy : Memory → Option (List ℕ)
unfolding destroy_jobs
queue_destroy m = destroy_jobs m.size m.head m.cells

Chain-job_destroy :
    (cells : Cells) (q lo hi : ℕ) (p : Option ℕ) (xs : List (ℕ × Task))
    → q < lo
    → Chain cells lo hi p xs
    → Chain (job_destroy cells q) lo hi p xs
unfolding job_destroy
Chain-job_destroy cells q lo hi p [] h c = c
Chain-job_destroy cells q lo hi p ((x, t) ∷ xs) h c =
    let (job, here, task, rest) = c.3 in
    (
      c.0,
      c.1,
      c.2,
      (
        job,
        ground arith,
        task,
        Chain-job_destroy cells q (x + 1) hi job.next xs (omega arith) rest,
      ),
    )

abbrev pub addresses : List (ℕ × Task) → List ℕ
addresses = map λ (j : ℕ × Task). j.0

destroy_jobs-Chain :
    (cells : Cells) (lo hi : ℕ) (p : Option ℕ) (xs : List (ℕ × Task))
    → Chain cells lo hi p xs
    → destroy_jobs (length xs) p cells ≡ some (addresses xs)
unfolding destroy_jobs
destroy_jobs-Chain cells lo hi p [] c = refl
destroy_jobs-Chain cells lo hi p ((x, t) ∷ xs) c =
    let (job, here, task, rest) = c.3 in
    let later =
      destroy_jobs-Chain (job_destroy cells x) (x + 1) hi job.next xs
        (Chain-job_destroy cells x (x + 1) hi job.next xs (omega arith) rest) in
    rw (c.2, destroy_jobs) (rw (here, ◌>>=◌) (rw (later, ◌>>=◌) refl))

-- The destruction of a queue in good order frees its jobs, each once.
pub queue_destroy-IsQueue :
    (m : Memory) (xs : List (ℕ × Task)) → IsQueue m xs → queue_destroy m ≡ some (addresses xs)
unfolding queue_destroy
queue_destroy-IsQueue m xs q = rw q.counted (destroy_jobs-Chain m.cells 0 m.free m.head xs q.chain)
