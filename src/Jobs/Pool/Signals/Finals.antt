-- ===== src/Jobs/Pool/Signals/Finals.antt =====
-- The results of the jobs of a pool at rest.
use httpserv.Prelude.{ℕ, ◌<◌, ◌≡◌, ap, ◌∙◌, some, arith}
use httpserv.Jobs.{Job, job_new}
use httpserv.Jobs.Exec.{Functions, job_exec}
use httpserv.Jobs.Pool.{Pool, pool_new}
use httpserv.Jobs.Pool.Count.{times}
use httpserv.Jobs.Pool.Results.{result_after, Reach-HasResults}
use httpserv.Jobs.Pool.Signals.{Turn, SignalReach, Turns}
use httpserv.Jobs.Pool.Signals.Awake.{SignalReach-Reach}
use httpserv.Jobs.Pool.Signals.Stops.{Turns-SignalReach, Turns-finish}

-- In a new pool whose workers wake by signals only: after any submissions and steps of the workers
-- in any order, and then any further steps of the workers to a state where no worker can make a
-- step, each job that was submitted is in memory, with the result that `threadpool_job_exec` gives
-- for its task in a new job, whatever the order of the steps was.
pub Turns-results :
    (run : Functions) (size n p : ℕ) {s t u : Pool}
    → pool_new size ≡ some s
    → SignalReach run s t
    → Turns run t n u
    → ((v : Pool) → Turn run u v → ⊥)
    → p < u.memory.free
    → (job : Job) × (u.memory.cells p ≡ some job)
      × (job.jres ≡ (job_exec run (job_new job.task)).jres)
Turns-results run size n p {s} {t} {u} e r turns no_turn below =
    let (empty, once) = Turns-finish run size n e r turns no_turn in
    let h = Reach-HasResults run size e (SignalReach-Reach run (Turns-SignalReach run r turns)) in
    let (job, at_p, result) = h.results p below in
    let executed : times p u.executed ≡ 1 = ground (arith, once p, below) in
    (job, at_p, result ∙ ap (result_after run job.task) executed)
