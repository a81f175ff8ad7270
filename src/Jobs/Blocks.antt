-- ===== src/Jobs/Blocks.antt =====
-- The blocks of results, jobs, workers and pools: what src/job.c and src/threadpool.c allocate and free.
mod Owned
pub mod Leaks
use httpserv.Prelude.{ℕ, zero, suc, ◌+◌, List, [], ◌∷◌, Option, some, none, ◌>>=◌}
use httpserv.Memory.{Heap, malloc, free, free_all}

-- A `threadpool_job_result_t`.
pub record ResultBlocks : Type 0 where
  pub struct : ℕ
  pub mutex : ℕ
  pub cond : ℕ

-- `threadpool_job_result_new`
unfoldable pub result_new_in : Heap → ResultBlocks × Heap
result_new_in h = (
  record { struct = h.fresh; mutex = h.fresh + 1; cond = h.fresh + 1 + 1 },
  malloc (malloc (malloc h)),
)

-- `threadpool_job_result_destroy`
unfoldable pub result_destroy : ResultBlocks → Heap → Option Heap
result_destroy jres h = do h1 ← free jres.mutex h; free jres.struct h1

-- A `threadpool_job_t` and its result.
pub record JobBlocks : Type 0 where
  pub struct : ℕ
  pub jres : ResultBlocks

-- `threadpool_job_new`
unfoldable pub job_new_in : Heap → JobBlocks × Heap
unfolding result_new_in
job_new_in h =
    let made = result_new_in (malloc h) in (record { struct = h.fresh; jres = made.0 }, made.1)

-- A `threadpool_worker_t`, the block of its thread, and its `threadpool_worker_data_t`.
pub record WorkerBlocks : Type 0 where
  pub struct : ℕ
  pub thread : ℕ
  pub data_block : ℕ

-- `threadpool_worker_data_new` and `threadpool_worker_data_destroy`, which nothing calls.
unfoldable pub worker_data_new_in : Heap → ℕ × Heap
worker_data_new_in h = (h.fresh, malloc h)

unfoldable pub worker_data_destroy : ℕ → Heap → Option Heap
worker_data_destroy p h = free p h

-- `threadpool_worker_new`
unfoldable pub worker_new_in : Heap → WorkerBlocks × Heap
unfolding worker_data_new_in
worker_new_in h =
    let made = worker_data_new_in (malloc (malloc h)) in
    (record { struct = h.fresh; thread = h.fresh + 1; data_block = made.0 }, made.1)

-- `threadpool_worker_stop`
unfoldable pub worker_stop_in : WorkerBlocks → Heap → Option Heap
worker_stop_in worker h = free worker.struct h

-- A `threadpool_t` with its array, its queue with a mutex and a condition variable, its own mutex and
-- condition variable, and its workers.
pub record PoolBlocks : Type 0 where
  pub struct : ℕ
  pub array : ℕ
  pub queue : ℕ
  pub queue_mutex : ℕ
  pub queue_cond : ℕ
  pub mutex : ℕ
  pub cond : ℕ
  pub workers : List WorkerBlocks

-- The loop of `threadpool_new`.
unfoldable pub workers_new_in : ℕ → Heap → List WorkerBlocks × Heap
unfolding worker_new_in
workers_new_in zero h = ([], h)
workers_new_in (suc n) h =
    let first = worker_new_in h in let rest = workers_new_in n first.1 in (first.0 ∷ rest.0, rest.1)

-- `threadpool_new`, with `threadpool_job_queue_new`; a size of 0 gives NULL.
unfoldable pub pool_new_in : ℕ → Heap → Option PoolBlocks × Heap
unfolding workers_new_in
pool_new_in zero h = (none, h)
pool_new_in (suc n) h =
    let made =
      workers_new_in (suc n) (malloc (malloc (malloc (malloc (malloc (malloc (malloc h))))))) in
    (
      some (record {
        struct = h.fresh;
        array = h.fresh + 1;
        queue = h.fresh + 1 + 1;
        queue_mutex = h.fresh + 1 + 1 + 1;
        queue_cond = h.fresh + 1 + 1 + 1 + 1;
        mutex = h.fresh + 1 + 1 + 1 + 1 + 1;
        cond = h.fresh + 1 + 1 + 1 + 1 + 1 + 1;
        workers = made.0;
      }),
      made.1,
    )

-- Calls of `threadpool_job_new` by `threadpool_add_work`.
unfoldable pub jobs_new_in : ℕ → Heap → List JobBlocks × Heap
unfolding job_new_in
jobs_new_in zero h = ([], h)
jobs_new_in (suc n) h =
    let first = job_new_in h in let rest = jobs_new_in n first.1 in (first.0 ∷ rest.0, rest.1)

-- The loop of `threadpool_destroy`.
unfoldable pub workers_stop_in : List WorkerBlocks → Heap → Option Heap
workers_stop_in [] h = some h
workers_stop_in (w ∷ ws) h = do h1 ← worker_stop_in w h; workers_stop_in ws h1

-- The loop of `threadpool_job_queue_destroy`, on the jobs that are queued.
unfoldable pub jobs_destroy_in : List JobBlocks → Heap → Option Heap
jobs_destroy_in [] h = some h
jobs_destroy_in (j ∷ js) h = do h1 ← free j.struct h; jobs_destroy_in js h1

-- `threadpool_destroy`, with `threadpool_job_queue_destroy`.
unfoldable pub pool_destroy_in : PoolBlocks → List JobBlocks → Heap → Option Heap
pool_destroy_in pool queued h = do
  h1 ← workers_stop_in pool.workers h
  h2 ← jobs_destroy_in queued h1
  h3 ← free pool.queue h2
  free pool.struct h3
