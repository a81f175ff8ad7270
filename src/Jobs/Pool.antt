-- ===== src/Jobs/Pool.antt =====
-- The workers of src/threadpool.c, `threadpool_worker_func`, as steps on a common state. What a worker
-- does while it holds the mutex of the pool is one step. A worker that sleeps may wake at any time,
-- as `pthread_cond_wait` allows. The worker of a pool is cancelled by no step.
pub mod Count
pub mod Once
pub mod End
pub mod Tasks
pub mod Progress
pub mod Runs
pub mod Finish
pub mod Drain
pub mod Signals
pub mod Results
pub mod Cancel
use httpserv.Prelude.{ℕ, zero, suc, ◌≡◌, List, [], ◌∷◌, ◌++◌, Option, some, none, ◌>>=◌}
use httpserv.Jobs.{Task, Job}
use httpserv.Jobs.Exec.{Functions, job_exec}
use httpserv.Jobs.Queue.{Cells, update, Memory, queue_new, add_work, pop_job}

-- Where a worker is: before the lock at the head of its loop, in `pthread_cond_wait`, woken from it, or
-- behind the unlock with a job.
pub data Phase : Type 0 where
  looping waiting woken : Phase
  executing : ℕ → Phase

pub record Pool : Type 0 where
  pub memory : Memory
  pub workers : List Phase
  pub executed : List ℕ

abbrev pub with_job : Phase → Option ℕ → Phase
with_job idle none = idle
with_job idle (some x) = executing x

-- A take of a job, and the phase behind it, which is `idle` without one.
unfoldable pub try_pop : Phase → Memory → Option (Phase × Memory)
try_pop idle m = do (p, m') ← pop_job m; some (with_job idle p, m')

-- The job `x` in memory behind `threadpool_job_exec`.
abbrev pub execute : Functions → Memory → ℕ → Job → Memory
execute run m x job = record m { cells = update m.cells x (job_exec run job) }

-- A step of the worker between `before` and `after`.
pub data WorkerStep (run : Functions) : Pool → Pool → Type 0 where
  first_take :
      {m m' : Memory} {e : List ℕ} (before after : List Phase) {w : Phase}
      → try_pop waiting m ≡ some (w, m')
      → WorkerStep run
          (record { memory = m; workers = before ++ (looping ∷ after); executed = e })
          (record { memory = m'; workers = before ++ (w ∷ after); executed = e })
  wake :
      {m : Memory} {e : List ℕ} (before after : List Phase)
      → WorkerStep run
          (record { memory = m; workers = before ++ (waiting ∷ after); executed = e })
          (record { memory = m; workers = before ++ (woken ∷ after); executed = e })
  second_take :
      {m m' : Memory} {e : List ℕ} (before after : List Phase) {w : Phase}
      → try_pop looping m ≡ some (w, m')
      → WorkerStep run
          (record { memory = m; workers = before ++ (woken ∷ after); executed = e })
          (record { memory = m'; workers = before ++ (w ∷ after); executed = e })
  finish :
      {m : Memory} {e : List ℕ} (before after : List Phase) (x : ℕ) (job : Job)
      → m.cells x ≡ some job
      → WorkerStep run
          (record { memory = m; workers = before ++ (executing x ∷ after); executed = e })
          (record {
            memory = execute run m x job;
            workers = before ++ (looping ∷ after);
            executed = x ∷ e;
          })

-- One step of the pool: a submission, or a step of a worker.
pub data Step (run : Functions) : Pool → Pool → Type 0 where
  submit :
      {m m' : Memory} {ws : List Phase} {e : List ℕ} (task : Task)
      → add_work m task ≡ some m'
      → Step run
          (record { memory = m; workers = ws; executed = e })
          (record { memory = m'; workers = ws; executed = e })
  work : {s t : Pool} → WorkerStep run s t → Step run s t

pub data Reach (run : Functions) (s : Pool) : Pool → Type 0 where
  here : Reach run s s
  next : {t u : Pool} → Reach run s t → Step run t u → Reach run s u

-- `size` new workers.
abbrev pub idle_workers : ℕ → List Phase
idle_workers zero = []
idle_workers (suc n) = looping ∷ idle_workers n

-- `threadpool_new`; a pool with no worker is refused.
unfoldable pub pool_new : ℕ → Option Pool
pool_new zero = none
pool_new (suc n) =
    some (record { memory = queue_new; workers = idle_workers (suc n); executed = [] })
