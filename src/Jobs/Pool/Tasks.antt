-- ===== src/Jobs/Pool/Tasks.antt =====
-- The tasks that were submitted to a pool, in order: the job at the address `p` is the one at `p`.
use httpserv.Prelude.{
  ℕ, zero, suc, ◌≡◌, ◌<◌, refl, List, [], ◌∷◌, ◌++◌, some, arith, ◌⊎◌, inl, inr, length, get_elem?,
  length-append,
}
use mathlib.Core.Path.{subst}
use httpserv.Jobs.{Task, Job}
use httpserv.Jobs.Exec.{Functions, job_exec}
use httpserv.Jobs.Queue.{Memory, queue_new, add_work, pop_job}
use httpserv.Jobs.Queue.Stored.{
  Stored, Keeps, Keeps-update, add_work-Stored, pop_job-Stored, >>=-some,
}
use httpserv.Jobs.Pool.{
  Phase, Pool, try_pop, execute, WorkerStep, first_take, wake, second_take, finish,
}

pub record HasTasks (ts : List Task) (m : Memory) : Type 0 where
  pub counted : length ts ≡ m.free
  pub stored : (p : ℕ) (t : Task) → get_elem? ts p ≡ some t → Stored m.cells p t

get_elem?-lt : (ts : List Task) (p : ℕ) (t : Task) → get_elem? ts p ≡ some t → p < length ts
get_elem?-lt [] p t e = cc
get_elem?-lt (x ∷ ts) zero t e = omega arith
get_elem?-lt (x ∷ ts) (suc p) t e = omega (arith, get_elem?-lt ts p t e)

get_elem?-concat :
    (ts : List Task) (x : Task) (p : ℕ) (t : Task)
    → get_elem? (ts ++ x ∷ []) p ≡ some t
    → (get_elem? ts p ≡ some t) ⊎ ((p ≡ length ts) × (x ≡ t))
get_elem?-concat [] x zero t e = inr (refl, cc)
get_elem?-concat [] x (suc p) t e = cc
get_elem?-concat (y ∷ ts) x zero t e = inl e
get_elem?-concat (y ∷ ts) x (suc p) t e = elim (get_elem?-concat ts x p t e) [
  | inl old ↦ inl old
  | inr (last, same) ↦ inr (omega (arith, last), same)
]

pub queue_new-HasTasks : HasTasks [] queue_new
unfolding queue_new
queue_new-HasTasks = record { counted = refl; stored = λ p t e. cc }

pub add_work-HasTasks :
    (ts : List Task) (m m' : Memory) (task : Task)
    → add_work m task ≡ some m'
    → HasTasks ts m
    → HasTasks (ts ++ task ∷ []) m'
add_work-HasTasks ts m m' task e h =
    let (kept, new, free) = add_work-Stored m m' task e in
    record {
      counted = omega (arith, length-append {0} ts (task ∷ []), free, h.counted);
      stored = λ p t at_p. elim (get_elem?-concat ts task p t at_p) [
        | inl old ↦ kept p t (omega (arith, h.counted, get_elem?-lt ts p t old)) (h.stored p t old)
        | inr (last, same) ↦
            subst (λ q. Stored m'.cells q t) (omega (arith, last, h.counted))
              (subst (Stored m'.cells m.free) same new)
      ];
    }

-- A change that keeps every task and adds no job.
Keeps-HasTasks :
    (ts : List Task) (m m' : Memory)
    → Keeps m.cells m'.cells
    → m'.free ≡ m.free
    → HasTasks ts m
    → HasTasks ts m'
Keeps-HasTasks ts m m' kept free h = record {
  counted = omega (arith, free, h.counted);
  stored = λ p t e. kept p t (h.stored p t e);
}

try_pop-HasTasks :
    (ts : List Task) (idle w : Phase) (m m' : Memory)
    → try_pop idle m ≡ some (w, m')
    → HasTasks ts m
    → HasTasks ts m'
unfolding try_pop
try_pop-HasTasks ts idle w m m' e h =
    let ((o, m1), popped, r) = >>=-some (pop_job m) _ e in
    let (kept, free) = pop_job-Stored m m1 o popped in
    let same : m1 ≡ m' = cc in subst (HasTasks ts) same (Keeps-HasTasks ts m m1 kept free h)

job_exec-task : (run : Functions) (job : Job) → (job_exec run job).task ≡ job.task
unfolding job_exec
job_exec-task run job = ground arith

execute-HasTasks :
    (ts : List Task) (run : Functions) (m : Memory) (x : ℕ) (job : Job)
    → m.cells x ≡ some job
    → HasTasks ts m
    → HasTasks ts (execute run m x job)
execute-HasTasks ts run m x job stored h =
    Keeps-HasTasks ts m (execute run m x job)
      (Keeps-update m.cells x job (job_exec run job) stored (job_exec-task run job)) refl h

pub WorkerStep-HasTasks :
    (ts : List Task) (run : Functions) {s t : Pool}
    → WorkerStep run s t
    → HasTasks ts s.memory
    → HasTasks ts t.memory
WorkerStep-HasTasks ts run (first_take before after popped) h = try_pop-HasTasks ts _ _ _ _ popped h
WorkerStep-HasTasks ts run (second_take before after popped) h =
    try_pop-HasTasks ts _ _ _ _ popped h
WorkerStep-HasTasks ts run (wake before after) h = h
WorkerStep-HasTasks ts run (finish before after x job stored) h =
    execute-HasTasks ts run _ x job stored h
