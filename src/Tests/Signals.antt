-- ===== src/Tests/Signals.antt =====
-- Instances for a pool whose workers wake by signals only.
use httpserv.Prelude.{some, ℕ, ◌+◌, ◌≡◌, ◌≤◌, refl, [], ◌∷◌, ltb, arith}
use httpserv.Jobs.{Job, job_new}
use httpserv.Jobs.Exec.{job_exec}
use httpserv.Jobs.Queue.{queue_new, add_work, pop_job}
use httpserv.Jobs.Pool.{
  looping, waiting, woken, executing, Pool, try_pop, execute, first_take, second_take, finish,
  pool_new,
}
use httpserv.Jobs.Pool.Count.{one_if, times}
use httpserv.Jobs.Pool.Signals.{
  wakes_one, add, turn, SignalReach, start, next, Turns, stays, goes, Turn,
}
use httpserv.Jobs.Pool.Signals.Awake.{WorkerStep-sleepers}
use httpserv.Jobs.Pool.Signals.Stops.{weights, Turns-bound, Turns-finish}
use httpserv.Jobs.Pool.Signals.Finals.{Turns-results}
use httpserv.Tests.Pools.{task, twice, submitted, taken}

abbrev fresh_pool : Pool
fresh_pool = record { memory = queue_new; workers = looping ∷ []; executed = [] }

abbrev asleep_pool : Pool
asleep_pool = record { memory = queue_new; workers = waiting ∷ []; executed = [] }

abbrev signalled_pool : Pool
signalled_pool = record { memory = submitted; workers = woken ∷ []; executed = [] }

abbrev busy_pool : Pool
busy_pool = record { memory = taken; workers = executing 0 ∷ []; executed = [] }

abbrev done_pool : Pool
done_pool = record {
  memory = execute twice taken 0 (job_new task);
  workers = looping ∷ [];
  executed = 0 ∷ [];
}

abbrev rest_pool : Pool
rest_pool = record done_pool { workers = waiting ∷ [] }

signalled-SignalReach : SignalReach twice fresh_pool signalled_pool
unfolding queue_new add_work pop_job try_pop job_new
signalled-SignalReach =
    next (next start (turn (first_take {m' = queue_new} [] [] {w = waiting} refl, tt)))
      (add {s = asleep_pool} task refl (wakes_one [] []))

three_steps : Turns twice signalled_pool 3 rest_pool
unfolding queue_new add_work pop_job try_pop job_new
three_steps =
    goes
      (goes (goes stays (second_take {m' = taken} [] [] {w = executing 0} refl, tt))
        (finish [] [] 0 (job_new task) refl, tt))
      (first_take [] [] {w = waiting} refl, tt)

Turns-bound_example : 3 ≤ 1 + 1 + weights (woken ∷ [])
unfolding pool_new
Turns-bound_example = Turns-bound twice 1 3 {s = fresh_pool} refl signalled-SignalReach three_steps

at_rest : (v : Pool) → Turn twice rest_pool v → ⊥
at_rest v one = absurd (omega (arith, WorkerStep-sleepers twice one.0 one.1))

Turns-finish_example :
    (rest_pool.memory.size ≡ 0)
    × ((p : ℕ) → times p rest_pool.executed ≡ one_if (ltb p rest_pool.memory.free))
unfolding pool_new
Turns-finish_example =
    Turns-finish twice 1 3 {s = fresh_pool} refl signalled-SignalReach three_steps at_rest

Turns-results_example :
    (job : Job) × (rest_pool.memory.cells 0 ≡ some job)
    × (job.jres ≡ (job_exec twice (job_new job.task)).jres)
unfolding pool_new
Turns-results_example =
    Turns-results twice 1 3 0 {s = fresh_pool} {u = rest_pool} refl signalled-SignalReach
      three_steps at_rest (omega arith)
