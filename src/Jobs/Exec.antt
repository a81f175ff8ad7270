-- ===== src/Jobs/Exec.antt =====
-- `threadpool_job_exec` and `threadpool_job_result_await` of src/job.c.
use httpserv.Prelude.{ℕ, ◌+◌, ◌≡◌, Bool, true, false, Option, some, none, arith}
use Prim.Native.Nat.{compare, Ordering}
use mathlib.Core.Bool.{not}
use httpserv.Jobs.{pending, finished, failed, JobResult, Job}

-- What a function of the program returns for an argument; `none` is NULL.
abbrev pub Functions : Type 0
Functions = ℕ → ℕ → Option ℕ

-- `threadpool_job_result_set`
abbrev pub result_set : JobResult → Option ℕ → JobResult
result_set jres res = record jres { res = res }

-- `threadpool_job_exec`: without a function the job has failed, and nobody is told.
pub exec_function : Functions → Job → Option ℕ → Job
exec_function run job none = record job { jres = record job.jres { done = failed } }
exec_function run job (some f) =
    let stored = result_set job.jres (run f job.task.arg) in
    record job { jres = record stored { done = finished; signals = stored.signals + 1 } }

unfoldable pub job_exec : Functions → Job → Job
unfolding exec_function
job_exec run job = exec_function run job job.task.function

-- One test of the loop in `threadpool_job_result_await`: `done > 0`.
unfoldable pub keeps_waiting : JobResult → Bool
keeps_waiting jres = elim jres.done [ pending ↦ true | _ ↦ false ]

-- A caller that sleeps in `pthread_cond_wait` since `seen` signals looks at `done` again after the
-- next one.
unfoldable pub wakes : ℕ → JobResult → Bool
unfolding keeps_waiting
wakes seen jres = elim (compare seen jres.signals) [
  | Ordering.lt ↦ not (keeps_waiting jres)
  | _ ↦ false
]

-- After a job with a function the result is there, the loop of a caller ends, and a caller that
-- slept before is woken.
pub exec-finishes :
    (run : Functions) (job : Job) (f : ℕ)
    → job.task.function ≡ some f
    → ((job_exec run job).jres.res ≡ run f job.task.arg)
      × (keeps_waiting (job_exec run job).jres ≡ false)
      × (wakes job.jres.signals (job_exec run job).jres ≡ true)
unfolding job_exec wakes
exec-finishes run job f h = ground arith

-- After a job without a function the loop of a caller would end too, but a caller that already
-- sleeps is not woken.
pub exec-fails :
    (run : Functions) (job : Job)
    → job.task.function ≡ none
    → (keeps_waiting (job_exec run job).jres ≡ false)
      × (wakes job.jres.signals (job_exec run job).jres ≡ false)
unfolding job_exec wakes
exec-fails run job h = ground arith
