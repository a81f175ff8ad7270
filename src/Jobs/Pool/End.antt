-- ===== src/Jobs/Pool/End.antt =====
-- `threadpool_destroy`, `threadpool_worker_stop` and `threadpool_ensure_jobs_done` of
-- src/threadpool.c.
use httpserv.Prelude.{
  Bool, true, not, ltb, ◌<◌, arith, ℕ, zero, suc, ◌+◌, ◌≡◌, refl, List, [], ◌∷◌, ◌++◌, Option, some,
  ap, length, ◌>>=◌,
}
use mathlib.Core.List.{map}
use httpserv.Jobs.{Task}
use httpserv.Jobs.Exec.{Functions}
use httpserv.Jobs.Queue.Fifo.{IsQueue}
use httpserv.Jobs.Queue.End.{queue_destroy, addresses, queue_destroy-IsQueue}
use httpserv.Jobs.Pool.{Pool, Reach, pool_new}
use httpserv.Jobs.Pool.Count.{held, times}
use httpserv.Jobs.Pool.Drain.{queued-empty}
use httpserv.Jobs.Pool.Once.{Reach-pool_new-IsOnce}

-- What the end of a pool does, in order: to the worker with a number, to the job at an address, and to
-- the pool.
pub data Ending : Type 0 where
  cancelled joined worker_freed job_freed : ℕ → Ending
  pool_freed : Ending

-- `threadpool_worker_stop`. The thread is detached, so the join returns with an error at once.
abbrev pub worker_stop : ℕ → List Ending
worker_stop i = cancelled i ∷ joined i ∷ worker_freed i ∷ []

-- The loop over `i` with the rounds that are left.
pub stop_workers : ℕ → ℕ → List Ending
stop_workers i zero = []
stop_workers i (suc n) = worker_stop i ++ stop_workers (i + 1) n

-- `threadpool_destroy`; `none` is an access through NULL or to a job that was freed.
unfoldable pub threadpool_destroy : Pool → Option (List Ending)
unfolding stop_workers
threadpool_destroy pool = do
  jobs ← queue_destroy pool.memory
  some (stop_workers 0 (length pool.workers) ++ (map job_freed jobs ++ pool_freed ∷ []))

-- The numbers of the workers that are cancelled.
abbrev pub cancellations : List Ending → List ℕ
cancellations [] = []
cancellations (cancelled i ∷ es) = i ∷ cancellations es
cancellations (_ ∷ es) = cancellations es

-- The addresses of the jobs that are freed.
abbrev pub frees : List Ending → List ℕ
frees [] = []
frees (job_freed p ∷ es) = p ∷ frees es
frees (_ ∷ es) = frees es

abbrev pub from_up : ℕ → ℕ → List ℕ
from_up i zero = []
from_up i (suc n) = i ∷ from_up (i + 1) n

cancellations-stop_workers :
    (i n : ℕ) (jobs : List ℕ)
    → cancellations (stop_workers i n ++ (map job_freed jobs ++ pool_freed ∷ [])) ≡ from_up i n
unfolding stop_workers
cancellations-stop_workers i zero [] = refl
cancellations-stop_workers i zero (p ∷ jobs) = cancellations-stop_workers i zero jobs
cancellations-stop_workers i (suc n) jobs = ap (◌∷◌ i) (cancellations-stop_workers (i + 1) n jobs)

frees-stop_workers :
    (i n : ℕ) (jobs : List ℕ)
    → frees (stop_workers i n ++ (map job_freed jobs ++ pool_freed ∷ [])) ≡ jobs
unfolding stop_workers
frees-stop_workers i zero [] = refl
frees-stop_workers i zero (p ∷ jobs) = ap (◌∷◌ p) (frees-stop_workers i zero jobs)
frees-stop_workers i (suc n) jobs = frees-stop_workers (i + 1) n jobs

-- In every state that a new pool reaches, the destruction of the pool follows no pointer that is
-- NULL or freed, cancels each worker once, in order, and frees just the jobs that are still queued,
-- each once.
pub threadpool_destroy_lem :
    (run : Functions) (size : ℕ) {s t : Pool}
    → pool_new size ≡ some s
    → Reach run s t
    → (xs : List (ℕ × Task)) × (es : List Ending) × IsQueue t.memory xs
      × (threadpool_destroy t ≡ some es)
      × (cancellations es ≡ from_up 0 (length t.workers))
      × (frees es ≡ addresses xs)
unfolding threadpool_destroy
threadpool_destroy_lem run size {s} {t} e r =
    let h = Reach-pool_new-IsOnce run size e r in
    (
      h.queue,
      stop_workers 0 (length t.workers) ++ (map job_freed (addresses h.queue) ++ pool_freed ∷ []),
      h.ordered,
      rw (queue_destroy-IsQueue t.memory h.queue h.ordered, ◌>>=◌) refl,
      cancellations-stop_workers 0 (length t.workers) (addresses h.queue),
      frees-stop_workers 0 (length t.workers) (addresses h.queue),
    )

-- Whether the loop of `threadpool_ensure_jobs_done` is left in a state.
unfoldable pub ensure_jobs_done : Pool → Bool
ensure_jobs_done pool = not (ltb 0 pool.memory.size)

-- Where that loop is left each job that was submitted was executed once, or a worker still has it.
pub ensure_jobs_done_lem :
    (run : Functions) (size p : ℕ) {s t : Pool}
    → pool_new size ≡ some s
    → Reach run s t
    → ensure_jobs_done t ≡ true
    → p < t.memory.free
    → held p t.workers + times p t.executed ≡ 1
unfolding ensure_jobs_done
ensure_jobs_done_lem run size p {s} {t} e r done below =
    let h = Reach-pool_new-IsOnce run size e r in
    let empty : t.memory.size ≡ 0 = ground arith in
    ground (arith, h.once p, queued-empty t.memory h.queue p h.ordered empty)
