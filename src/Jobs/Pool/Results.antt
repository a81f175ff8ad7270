-- ===== src/Jobs/Pool/Results.antt =====
-- What the jobs of a pool have for a result.
use httpserv.Prelude.{
  ℕ, zero, suc, ◌≡◌, ◌<◌, refl, sym, ap, ◌∙◌, Bool-cases, inl, inr, ◌==◌, ==_iff, ltb, List, [],
  ◌∷◌, ◌++◌, some, arith,
}
use mathlib.Core.Path.{subst}
use httpserv.Jobs.{JobResult, job_result_new, Task, Job, job_new}
use httpserv.Jobs.Exec.{Functions, job_exec}
use httpserv.Jobs.Queue.{Memory, queue_new, add_work, pop_job}
use httpserv.Jobs.Queue.Stored.{Preserves, add_work-Preserves, pop_job-Preserves, >>=-some}
use httpserv.Jobs.Pool.{
  Phase, looping, waiting, executing, Pool, try_pop, execute, WorkerStep, first_take, wake,
  second_take, finish, submit, work, Reach, here, next, idle_workers, pool_new,
}
use httpserv.Jobs.Pool.Count.{times, held-append}
use httpserv.Jobs.Pool.Once.{IsOnce, Reach-pool_new-IsOnce}

-- The result of a job that was executed so often.
abbrev pub result_after : Functions → Task → ℕ → JobResult
result_after run task zero = job_result_new
result_after run task (suc n) = (job_exec run (job_new task)).jres

abbrev pub HasResult : Functions → Memory → List ℕ → ℕ → Type 0
HasResult run m e p =
    (job : Job) × (m.cells p ≡ some job) × (job.jres ≡ result_after run job.task (times p e))

-- Each job that was submitted is in memory, with the result that its executions gave.
pub record HasResults (run : Functions) (s : Pool) : Type 0 where
  pub results : (p : ℕ) → p < s.memory.free → HasResult run s.memory s.executed p

Preserves-HasResult :
    (run : Functions) (m m' : Memory) (e : List ℕ) (p : ℕ)
    → Preserves m.cells m'.cells
    → HasResult run m e p
    → HasResult run m' e p
Preserves-HasResult run m m' e p kept (job, at_p, result) =
    let (job', at_p', task, jres) = kept p job at_p in
    (job', at_p', jres ∙ result ∙ ap (λ t. result_after run t (times p e)) (sym task))

try_pop-HasResults :
    (run : Functions) (idle w : Phase) (m m' : Memory) (e : List ℕ) (ws vs : List Phase)
    → try_pop idle m ≡ some (w, m')
    → HasResults run (record { memory = m; workers = ws; executed = e })
    → HasResults run (record { memory = m'; workers = vs; executed = e })
unfolding try_pop
try_pop-HasResults run idle w m m' e ws vs popped h =
    let ((o, m1), taken, r) = >>=-some (pop_job m) _ popped in
    let (kept, free) = pop_job-Preserves m m1 o taken in
    let same : m1 ≡ m' = cc in
    subst (λ (m' : Memory). HasResults run (record { memory = m'; workers = vs; executed = e }))
      same
      (record {
        results = λ p below.
            Preserves-HasResult run m m1 e p kept (h.results p (omega (arith, below, free)));
      })

-- A new job, executed by a worker, has the result that it would have had at once.
exec-result :
    (run : Functions) (job : Job)
    → job.jres ≡ job_result_new
    → (job_exec run job).jres ≡ result_after run (job_exec run job).task 1
unfolding job_exec job_new
exec-result run job new = ground arith

finish-HasResults :
    (run : Functions) (m : Memory) (e : List ℕ) (before after : List Phase) (x : ℕ) (job : Job)
    → m.cells x ≡ some job
    → IsOnce (record { memory = m; workers = before ++ (executing x ∷ after); executed = e })
    → HasResults run
        (record { memory = m; workers = before ++ (executing x ∷ after); executed = e })
    → HasResults run (record {
      memory = execute run m x job;
      workers = before ++ (looping ∷ after);
      executed = x ∷ e;
    })
finish-HasResults run m e before after x job stored once h = record {
  results = λ p below. elim (Bool-cases (x == p)) [
    | inl hit ↦
        let never : times x e ≡ 0 =
          ground (arith, once.once x, held-append x before (executing x ∷ after)) in
        let at : x ≡ p = (==_iff x p).0 hit in
        let (old, at_x, result) =
          h.results x (ground (arith, once.once x, held-append x before (executing x ∷ after))) in
        let found : some old ≡ some job = sym at_x ∙ stored in
        let same : old ≡ job = cc in
        let new : job.jres ≡ job_result_new =
          ap (λ (j : Job). j.jres) (sym same) ∙ result ∙ ap (result_after run old.task) never in
        let at_p : times p e ≡ 0 = ap (λ q. times q e) (sym at) ∙ never in
        let count : 1 ≡ times p (x ∷ e) = ground (arith, hit, at_p) in
        (
          job_exec run job,
          rw (hit) refl,
          exec-result run job new ∙ ap (result_after run (job_exec run job).task) count,
        )
    | inr miss ↦
        let (old, at_p, result) = h.results p below in
        let count : times p e ≡ times p (x ∷ e) = ground (arith, miss) in
        (old, rw (miss) at_p, result ∙ ap (result_after run old.task) count)
  ];
}

submit-HasResults :
    (run : Functions) (m m' : Memory) (ws : List Phase) (e : List ℕ) (task : Task)
    → add_work m task ≡ some m'
    → IsOnce (record { memory = m; workers = ws; executed = e })
    → HasResults run (record { memory = m; workers = ws; executed = e })
    → HasResults run (record { memory = m'; workers = ws; executed = e })
unfolding job_new
submit-HasResults run m m' ws e task added once h =
    let (kept, (new, at_free, is_task, fresh), free) = add_work-Preserves m m' task added in
    record {
      results = λ p below. elim (Bool-cases (ltb p m.free)) [
        | inl old ↦
            let (job, at_p, result) = h.results p (ground arith) in
            let (job', at_p', task', jres) = kept p job (ground arith) at_p in
            (job', at_p', jres ∙ result ∙ ap (λ t. result_after run t (times p e)) (sym task'))
        | inr not_old ↦
            let last : m.free ≡ p = ground (arith, free) in
            let never : 0 ≡ times p e = ground (arith, once.once p, not_old) in
            (
              new,
              subst (λ q. m'.cells q ≡ some new) last at_free,
              fresh ∙ ap (result_after run new.task) never,
            )
      ];
    }

WorkerStep-HasResults :
    (run : Functions) {s t : Pool}
    → WorkerStep run s t
    → IsOnce s
    → HasResults run s
    → HasResults run t
WorkerStep-HasResults run (first_take before after popped) once h =
    try_pop-HasResults run waiting _ _ _ _ _ _ popped h
WorkerStep-HasResults run (second_take before after popped) once h =
    try_pop-HasResults run looping _ _ _ _ _ _ popped h
WorkerStep-HasResults run (wake before after) once h = record { results = h.results }
WorkerStep-HasResults run (finish before after x job stored) once h =
    finish-HasResults run _ _ before after x job stored once h

pool_new-HasResults :
    (run : Functions) (size : ℕ) {s : Pool} → pool_new size ≡ some s → HasResults run s
unfolding pool_new queue_new
pool_new-HasResults run zero e = cc
pool_new-HasResults run (suc n) {s} e =
    let same : record { memory = queue_new; workers = idle_workers (suc n); executed = [] } ≡ s =
      cc in
    subst (HasResults run) same (record { results = λ p below. absurd (omega (arith, below)) })

pub Reach-HasResults :
    (run : Functions) (size : ℕ) {s t : Pool}
    → pool_new size ≡ some s
    → Reach run s t
    → HasResults run t
Reach-HasResults run size e here = pool_new-HasResults run size e
Reach-HasResults run size e (next r (submit task added)) =
    submit-HasResults run _ _ _ _ task added (Reach-pool_new-IsOnce run size e r)
      (Reach-HasResults run size e r)
Reach-HasResults run size e (next r (work step)) =
    WorkerStep-HasResults run step (Reach-pool_new-IsOnce run size e r)
      (Reach-HasResults run size e r)
