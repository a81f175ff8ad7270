-- ===== src/Jobs.antt =====
-- src/job.c: the jobs of the thread pool, their results and the queue that holds them.
pub mod Exec
pub mod Queue
pub mod Await
pub mod Blocks
pub mod Pool
use httpserv.Prelude.{ℕ, Option, some, none}

-- The values 1, 0 and -1 of `done` in `threadpool_job_result_t`.
pub data Done : Type 0 where
  pending finished failed : Done

-- `threadpool_job_result_t`, with the number of signals that its condition variable has been sent.
pub record JobResult : Type 0 where
  pub res : Option ℕ
  pub done : Done
  pub signals : ℕ

-- The function of a job, or NULL, and its argument.
pub record Task : Type 0 where
  pub function : Option ℕ
  pub arg : ℕ

-- `threadpool_job_t`; a link is an address, or NULL.
pub record Job : Type 0 where
  pub task : Task
  pub next : Option ℕ
  pub jres : JobResult

-- `threadpool_job_result_new`
abbrev pub job_result_new : JobResult
job_result_new = record { res = none; done = pending; signals = 0 }

-- `threadpool_job_new`
unfoldable pub job_new : Task → Job
job_new task = record { task = task; next = none; jres = job_result_new }
