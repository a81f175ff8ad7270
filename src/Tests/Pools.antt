-- ===== src/Tests/Pools.antt =====
-- An instance for the pool: a job is submitted, taken by the only worker, and executed.
use httpserv.Prelude.{◌+◌, refl, [], ◌∷◌, some, none}
use httpserv.Jobs.{Task, job_new}
use httpserv.Jobs.Exec.{Functions}
use httpserv.Jobs.Queue.{update, Memory, queue_new, add_work, pop_job}
use httpserv.Jobs.Pool.{
  looping, executing, Pool, try_pop, execute, work, submit, first_take, finish, Reach, here, next,
  pool_new,
}
use httpserv.Jobs.Pool.Once.{IsOnce, Reach-pool_new-IsOnce}

abbrev pub task : Task
task = record { function = some 1; arg = 5 }

abbrev pub twice : Functions
twice f a = some (a + a)

abbrev start : Pool
start = record { memory = queue_new; workers = looping ∷ []; executed = [] }

abbrev pub submitted : Memory
submitted = record {
  cells = update (λ p. none) 0 (job_new task);
  free = 1;
  head = some 0;
  tail = some 0;
  size = 1;
}

abbrev pub taken : Memory
taken = record submitted { cells = update submitted.cells 0 (job_new task); head = none; size = 0 }

abbrev finished : Pool
finished = record {
  memory = execute twice taken 0 (job_new task);
  workers = looping ∷ [];
  executed = 0 ∷ [];
}

finished-Reach : Reach twice start finished
unfolding queue_new add_work pop_job try_pop job_new
finished-Reach =
    next
      (next (next here (submit task refl))
        (work (first_take {m' = taken} [] [] {w = executing 0} refl)))
      (work (finish [] [] 0 (job_new task) refl))

Reach-pool_new-IsOnce_example : IsOnce finished
unfolding pool_new
Reach-pool_new-IsOnce_example = Reach-pool_new-IsOnce twice 1 {s = start} refl finished-Reach

submitted-Reach : Reach twice start (record start { memory = submitted })
unfolding queue_new add_work job_new
submitted-Reach = next here (submit task refl)
