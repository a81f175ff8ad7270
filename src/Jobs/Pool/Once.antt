-- ===== src/Jobs/Pool/Once.antt =====
-- Where each job is that was submitted to a pool.
use httpserv.Prelude.{
  ℕ, zero, suc, ◌+◌, ◌≡◌, refl, List, [], ◌∷◌, ◌++◌, Option, some, arith, ltb, ◌>>=◌,
}
use mathlib.Core.Path.{subst}
use httpserv.Jobs.{Task, Job}
use httpserv.Jobs.Exec.{Functions, job_exec}
use httpserv.Jobs.Queue.{Memory, queue_new, add_work}
use httpserv.Jobs.Queue.Fifo.{
  IsQueue, queue_new-IsQueue, add_work-IsQueue, pop_job_empty, pop_job-IsQueue,
}
use httpserv.Jobs.Pool.{
  Phase, looping, waiting, woken, executing, Pool, try_pop, execute, WorkerStep, Step, work, submit,
  first_take, wake, second_take, finish, Reach, here, next, idle_workers, pool_new,
}
use httpserv.Jobs.Pool.Count.{
  one_if, queued, held, times, queued-append, held-append, Chain-other, held-idle_workers,
}

-- The queue is in good order, and each job that was submitted is in exactly one place.
pub record IsOnce (s : Pool) : Type 0 where
  pub queue : List (ℕ × Task)
  pub ordered : IsQueue s.memory queue
  pub once :
      (p : ℕ)
      → queued p queue + held p s.workers + times p s.executed ≡ one_if (ltb p s.memory.free)

pub submit-IsOnce :
    (m m' : Memory) (ws : List Phase) (e : List ℕ) (task : Task)
    → add_work m task ≡ some m'
    → IsOnce (record { memory = m; workers = ws; executed = e })
    → IsOnce (record { memory = m'; workers = ws; executed = e })
submit-IsOnce m m' ws e task added h =
    let (m1, added1, q, free) = add_work-IsQueue m h.queue task h.ordered in
    let same : m1 ≡ m' = cc in
    subst (λ m. IsOnce (record { memory = m; workers = ws; executed = e })) same
      (record {
        queue = h.queue ++ (m.free, task) ∷ [];
        ordered = q;
        once = λ p. ground (arith, free, queued-append p m.free task h.queue, h.once p);
      })

-- What a take of a job moves from the queue to the worker.
record Takes (m m' : Memory) (xs : List (ℕ × Task)) (w : Phase) : Type 0 where
  queue : List (ℕ × Task)
  ordered : IsQueue m' queue
  free_kept : m'.free ≡ m.free
  moved : (p : ℕ) → queued p queue + held p (w ∷ []) ≡ queued p xs

pub same_pair :
    (v w : Phase) (m m' : Memory)
    → ◌≡◌ {A = Option (Phase × Memory)} (some (v, m)) (some (w, m'))
    → (v ≡ w) × (m ≡ m')
same_pair v w m m' e = (cc, cc)

Takes-subst :
    (m m1 m' : Memory) (xs : List (ℕ × Task)) (v w : Phase)
    → v ≡ w
    → m1 ≡ m'
    → Takes m m1 xs v
    → Takes m m' xs w
Takes-subst m m1 m' xs v w same_w same_m h =
    subst (λ m'. Takes m m' xs w) same_m (subst (λ w. Takes m m1 xs w) same_w h)

try_pop-Takes :
    (idle : Phase) (m m' : Memory) (w : Phase) (xs : List (ℕ × Task))
    → ((p : ℕ) → held p (idle ∷ []) ≡ 0)
    → IsQueue m xs
    → try_pop idle m ≡ some (w, m')
    → Takes m m' xs w
unfolding try_pop
try_pop-Takes idle m m' w [] free q e =
    let (same_w, same_m) = same_pair idle w m m' (rw (pop_job_empty m q, ◌>>=◌) at e) in
    Takes-subst m m m' [] idle w same_w same_m
      (record { queue = []; ordered = q; free_kept = refl; moved = λ p. omega (arith, free p) })
try_pop-Takes idle m m' w ((x, t) ∷ xs) free q e =
    let (m1, popped, q1, kept, left) = pop_job-IsQueue m x t xs q in
    let (same_w, same_m) = same_pair (executing x) w m1 m' (rw (popped, ◌>>=◌) at e) in
    Takes-subst m m1 m' ((x, t) ∷ xs) (executing x) w same_w same_m
      (record { queue = xs; ordered = q1; free_kept = kept; moved = λ p. omega arith })

-- A worker that holds nothing takes a job, or nothing.
take-IsOnce :
    (v idle : Phase) (m m' : Memory) (e : List ℕ) (before after : List Phase) (w : Phase)
    → ((p : ℕ) → held p (v ∷ []) ≡ 0)
    → ((p : ℕ) → held p (idle ∷ []) ≡ 0)
    → try_pop idle m ≡ some (w, m')
    → IsOnce (record { memory = m; workers = before ++ (v ∷ after); executed = e })
    → IsOnce (record { memory = m'; workers = before ++ (w ∷ after); executed = e })
take-IsOnce v idle m m' e before after w f g popped h =
    let t = try_pop-Takes idle m m' w h.queue g h.ordered popped in
    record {
      queue = t.queue;
      ordered = t.ordered;
      once = λ p. rw t.free_kept (
          omega (
            arith,
            t.moved p,
            h.once p,
            f p,
            held-append p before (v ∷ after),
            held-append p (v ∷ []) after,
            held-append p before (w ∷ after),
            held-append p (w ∷ []) after,
          ));
    }

finish-IsOnce :
    (run : Functions) (m : Memory) (e : List ℕ) (before after : List Phase) (x : ℕ) (job : Job)
    → m.cells x ≡ some job
    → IsOnce (record { memory = m; workers = before ++ (executing x ∷ after); executed = e })
    → IsOnce (record {
      memory = execute run m x job;
      workers = before ++ (looping ∷ after);
      executed = x ∷ e;
    })
finish-IsOnce run m e before after x job stored h = record {
  queue = h.queue;
  ordered = record {
    chain =
        Chain-other m.cells x 0 m.free (job_exec run job) m.head h.queue
          (ground (arith, h.once x, held-append x before (executing x ∷ after))) h.ordered.chain;
    counted = h.ordered.counted;
    ends = h.ordered.ends;
  };
  once = λ p. omega (
    arith,
    h.once p,
    held-append p before (executing x ∷ after),
    held-append p before (looping ∷ after),
  );
}

pub WorkerStep-IsOnce : (run : Functions) {s t : Pool} → WorkerStep run s t → IsOnce s → IsOnce t
WorkerStep-IsOnce run (first_take before after popped) h =
    take-IsOnce looping waiting _ _ _ before after _ (λ p. refl) (λ p. refl) popped h
WorkerStep-IsOnce run (second_take before after popped) h =
    take-IsOnce woken looping _ _ _ before after _ (λ p. refl) (λ p. refl) popped h
WorkerStep-IsOnce run (wake before after) h = record {
  queue = h.queue;
  ordered = h.ordered;
  once = λ p. omega (
    arith,
    h.once p,
    held-append p before (waiting ∷ after),
    held-append p before (woken ∷ after),
  );
}
WorkerStep-IsOnce run (finish before after x job stored) h =
    finish-IsOnce run _ _ before after x job stored h

Step-IsOnce : (run : Functions) {s t : Pool} → Step run s t → IsOnce s → IsOnce t
Step-IsOnce run (submit task added) h = submit-IsOnce _ _ _ _ task added h
Step-IsOnce run (work step) h = WorkerStep-IsOnce run step h

Reach-IsOnce : (run : Functions) {s t : Pool} → Reach run s t → IsOnce s → IsOnce t
Reach-IsOnce run here h = h
Reach-IsOnce run (next r step) h = Step-IsOnce run step (Reach-IsOnce run r h)

pub pool_new-IsOnce : (size : ℕ) {s : Pool} → pool_new size ≡ some s → IsOnce s
unfolding pool_new queue_new
pool_new-IsOnce zero e = cc
pool_new-IsOnce (suc n) {s} e =
    let same : record { memory = queue_new; workers = idle_workers (suc n); executed = [] } ≡ s =
      cc in
    subst IsOnce same (record {
      queue = [];
      ordered = queue_new-IsQueue;
      once = λ p. ground (arith, held-idle_workers p n);
    })

-- In every state that a new pool reaches by submissions and steps of its workers in any order, the
-- queue is in good order, and each job that was submitted is in exactly one place: once in the
-- queue, with one worker, or once among the executed jobs.
pub Reach-pool_new-IsOnce :
    (run : Functions) (size : ℕ) {s t : Pool} → pool_new size ≡ some s → Reach run s t → IsOnce t
Reach-pool_new-IsOnce run size e r = Reach-IsOnce run r (pool_new-IsOnce size e)
