-- ===== src/Jobs/Await.antt =====
-- `threadpool_job_result_await` and `threadpool_job_exec` of src/job.c as steps of threads that share a
-- result: the thread that executes the job, and callers that wait for it. What a thread does with
-- the mutex of the result held is one step, the test of the loop and the start of the sleep included.
pub mod Results
pub mod Sleepers
pub mod Returns
use httpserv.Prelude.{ℕ, zero, suc, ◌+◌, ◌≡◌, true, false, List, [], ◌∷◌, ◌++◌, Option, some, none}
use httpserv.Jobs.{finished, failed, JobResult, job_result_new, Task}
use httpserv.Jobs.Exec.{Functions, result_set, keeps_waiting}

-- Where the thread of the job is: before the result is stored, behind `threadpool_job_result_set`, or
-- behind its last unlock.
pub data Stage : Type 0 where
  running stored over : Stage

-- Where a caller is: before its lock, in `pthread_cond_wait`, woken from it, behind its unlock, or
-- behind its return.
pub data Caller : Type 0 where
  outside asleep woken leaving : Caller
  returned : Option ℕ → Caller

pub record Wait : Type 0 where
  pub jres : JobResult
  pub stage : Stage
  pub callers : List Caller

-- A step of one caller: the test of the loop, or the read of the result.
pub data CallerStep (jres : JobResult) : Caller → Caller → Type 0 where
  sleeps : keeps_waiting jres ≡ true → CallerStep jres outside asleep
  passes : keeps_waiting jres ≡ false → CallerStep jres outside leaving
  sleeps_again : keeps_waiting jres ≡ true → CallerStep jres woken asleep
  leaves : keeps_waiting jres ≡ false → CallerStep jres woken leaving
  returns : CallerStep jres leaving (returned jres.res)

abbrev pub sleeping : Caller → ℕ
sleeping outside = 0
sleeping asleep = 1
sleeping woken = 0
sleeping leaving = 0
sleeping (returned v) = 0

abbrev pub sleepers : List Caller → ℕ
sleepers [] = 0
sleepers (c ∷ cs) = sleeping c + sleepers cs

-- `pthread_cond_signal`: one caller that sleeps is woken, if there is one.
pub data Signalled : List Caller → List Caller → Type 0 where
  wakes_one :
      (before after : List Caller)
      → Signalled (before ++ (asleep ∷ after)) (before ++ (woken ∷ after))
  nobody : {cs : List Caller} → sleepers cs ≡ 0 → Signalled cs cs

-- `done` is set, and for a job with a function the condition is signalled.
abbrev pub told : JobResult → JobResult
told jres = record jres { done = finished; signals = jres.signals + 1 }

abbrev pub gave_up : JobResult → JobResult
gave_up jres = record jres { done = failed }

-- A step of the thread of the job, or of a caller.
pub data Step (run : Functions) (task : Task) : Wait → Wait → Type 0 where
  store :
      {jres : JobResult} {cs : List Caller} (f : ℕ)
      → task.function ≡ some f
      → Step run task
          (record { jres = jres; stage = running; callers = cs })
          (record { jres = result_set jres (run f task.arg); stage = stored; callers = cs })
  tell :
      {jres : JobResult} {cs cs' : List Caller}
      → Signalled cs cs'
      → Step run task
          (record { jres = jres; stage = stored; callers = cs })
          (record { jres = told jres; stage = over; callers = cs' })
  give_up :
      {jres : JobResult} {cs : List Caller}
      → task.function ≡ none
      → Step run task
          (record { jres = jres; stage = running; callers = cs })
          (record { jres = gave_up jres; stage = over; callers = cs })
  call :
      {jres : JobResult} {stage : Stage} (before after : List Caller) {c c' : Caller}
      → CallerStep jres c c'
      → Step run task
          (record { jres = jres; stage = stage; callers = before ++ (c ∷ after) })
          (record { jres = jres; stage = stage; callers = before ++ (c' ∷ after) })

-- Steps one behind the other.
pub data Steps (run : Functions) (task : Task) (s : Wait) : Wait → Type 0 where
  here : Steps run task s s
  next : {t u : Wait} → Steps run task s t → Step run task t u → Steps run task s u

-- The states that are reached when `pthread_cond_wait` may also return without a signal.
pub data Reach (run : Functions) (task : Task) (s : Wait) : Wait → Type 0 where
  start : Reach run task s s
  step : {t u : Wait} → Reach run task s t → Step run task t u → Reach run task s u
  spurious :
      {jres : JobResult} {stage : Stage} (before after : List Caller)
      → Reach run task s
          (record { jres = jres; stage = stage; callers = before ++ (asleep ∷ after) })
      → Reach run task s
          (record { jres = jres; stage = stage; callers = before ++ (woken ∷ after) })

abbrev pub outsiders : ℕ → List Caller
outsiders zero = []
outsiders (suc n) = outside ∷ outsiders n

-- A new job that `n` callers will wait for.
abbrev pub wait_new : ℕ → Wait
wait_new n = record { jres = job_result_new; stage = running; callers = outsiders n }
