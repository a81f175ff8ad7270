-- ===== src/Jobs/Pool/Progress.antt =====
-- No worker of a pool is ever stuck, and no submission fails.
use httpserv.Prelude.{
  ℕ, zero, suc, ◌≡◌, ◌≢◌, ◌<◌, refl, sym, List, [], ◌∷◌, ◌++◌, Option, some, none, arith, length,
  get_elem?, ◌>>=◌,
}
use mathlib.Core.Path.{subst}
use httpserv.Jobs.{Task, Job}
use httpserv.Jobs.Exec.{Functions}
use httpserv.Jobs.Queue.{Memory, queue_new, add_work}
use httpserv.Jobs.Queue.Fifo.{IsQueue, add_work-IsQueue, pop_job_empty, pop_job-IsQueue}
use httpserv.Jobs.Pool.{
  Phase, looping, waiting, woken, executing, Pool, with_job, try_pop, WorkerStep, Reach, submit,
  work, first_take, wake, second_take, finish, here, next, idle_workers, pool_new,
}
use httpserv.Jobs.Pool.Count.{held-append}
use httpserv.Jobs.Pool.Once.{IsOnce, Reach-pool_new-IsOnce}
use httpserv.Jobs.Pool.Tasks.{HasTasks, queue_new-HasTasks, add_work-HasTasks, WorkerStep-HasTasks}

-- The worker behind `before` makes a step to another phase.
pub record Moves (run : Functions) (s : Pool) (before after : List Phase) (w : Phase) : Type 0 where
  pub state : Pool
  pub phase : Phase
  pub step : WorkerStep run s state
  pub placed : state.workers ≡ before ++ (phase ∷ after)
  pub changed : w ≢ phase

pub Reach-HasTasks :
    (run : Functions) (ts : List Task) {s t : Pool}
    → Reach run s t
    → HasTasks ts s.memory
    → (us : List Task) × HasTasks us t.memory
Reach-HasTasks run ts here h = (ts, h)
Reach-HasTasks run ts (next r (submit task added)) h =
    let (us, k) = Reach-HasTasks run ts r h in
    (us ++ task ∷ [], add_work-HasTasks us _ _ task added k)
Reach-HasTasks run ts (next r (work step)) h =
    let (us, k) = Reach-HasTasks run ts r h in (us, WorkerStep-HasTasks us run step k)

-- A take of a job from a queue in good order.
pub try_pop-some :
    (idle : Phase) (m : Memory) (xs : List (ℕ × Task))
    → IsQueue m xs
    → (o : Option ℕ) × (m' : Memory) × (try_pop idle m ≡ some (with_job idle o, m'))
unfolding try_pop
try_pop-some idle m [] q = (none, m, rw (pop_job_empty m q, ◌>>=◌))
try_pop-some idle m ((x, t) ∷ xs) q =
    let (m', popped, _, _, _) = pop_job-IsQueue m x t xs q in (some x, m', rw (popped, ◌>>=◌))

with_job-ne :
    (v idle : Phase) (o : Option ℕ) → v ≢ idle → ((x : ℕ) → v ≢ executing x) → v ≢ with_job idle o
with_job-ne v idle none h k = h
with_job-ne v idle (some x) h k = k x

get_elem?-some : (ts : List Task) (p : ℕ) → p < length ts → (t : Task) × (get_elem? ts p ≡ some t)
get_elem?-some [] p h = absurd (omega arith)
get_elem?-some (t ∷ ts) zero h = (t, refl)
get_elem?-some (t ∷ ts) (suc p) h = get_elem?-some ts p (omega arith)

-- A job that a worker holds was submitted.
held-lt :
    (m : Memory) (before after : List Phase) (x : ℕ) (e : List ℕ)
    → IsOnce (record { memory = m; workers = before ++ (executing x ∷ after); executed = e })
    → x < m.free
held-lt m before after x e h = ground (arith, h.once x, held-append x before (executing x ∷ after))

pub held-Stored :
    (m : Memory) (before after : List Phase) (x : ℕ) (e : List ℕ) (ts : List Task)
    → HasTasks ts m
    → IsOnce (record { memory = m; workers = before ++ (executing x ∷ after); executed = e })
    → (job : Job) × (m.cells x ≡ some job)
held-Stored m before after x e ts k h =
    let (t, at_x) = get_elem?-some ts x (omega (arith, k.counted, held-lt m before after x e h)) in
    let (job, stored, _) = k.stored x t at_x in (job, stored)

moves :
    (run : Functions) (m : Memory) (e : List ℕ) (ts : List Task) (before after : List Phase)
    (w : Phase)
    → HasTasks ts m
    → IsOnce (record { memory = m; workers = before ++ (w ∷ after); executed = e })
    → Moves run
        (record { memory = m; workers = before ++ (w ∷ after); executed = e })
        before
        after
        w
moves run m e ts before after looping k h =
    let (o, m', popped) = try_pop-some waiting m h.queue h.ordered in
    record {
      state = _;
      phase = _;
      step = first_take before after popped;
      placed = refl;
      changed = with_job-ne looping waiting o (λ e. cc) (λ x e. cc);
    }
moves run m e ts before after waiting k h = record {
  state = _;
  phase = _;
  step = wake before after;
  placed = refl;
  changed = λ e. cc;
}
moves run m e ts before after woken k h =
    let (o, m', popped) = try_pop-some looping m h.queue h.ordered in
    record {
      state = _;
      phase = _;
      step = second_take before after popped;
      placed = refl;
      changed = with_job-ne woken looping o (λ e. cc) (λ x e. cc);
    }
moves run m e ts before after (executing x) k h =
    let (job, stored) = held-Stored m before after x e ts k h in
    record {
      state = _;
      phase = _;
      step = finish before after x job stored;
      placed = refl;
      changed = λ e. cc;
    }

pub pool_new-HasTasks : (size : ℕ) {s : Pool} → pool_new size ≡ some s → HasTasks [] s.memory
unfolding pool_new
pool_new-HasTasks zero e = cc
pool_new-HasTasks (suc n) {s} e =
    let same : record { memory = queue_new; workers = idle_workers (suc n); executed = [] } ≡ s =
      cc in
    subst (λ (s : Pool). HasTasks [] s.memory) same queue_new-HasTasks

-- In every state that a new pool reaches, each worker can make a step to another phase: no take of
-- a job and no job follows a pointer that is NULL or to no job.
pub pool_progress :
    (run : Functions) (size : ℕ) {s t : Pool} (before after : List Phase) (w : Phase)
    → pool_new size ≡ some s
    → Reach run s t
    → t.workers ≡ before ++ (w ∷ after)
    → Moves run t before after w
pool_progress run size {s} {t} before after w e r split =
    let (ts, k) = Reach-HasTasks run [] r (pool_new-HasTasks size e) in
    let as_split : record t { workers = before ++ (w ∷ after) } ≡ t = rw split refl in
    subst (λ t. Moves run t before after w) as_split
      (moves run t.memory t.executed ts before after w k
        (subst IsOnce (sym as_split) (Reach-pool_new-IsOnce run size e r)))

-- In every state that a new pool reaches, a further submission is accepted.
pub pool_accepts :
    (run : Functions) (size : ℕ) {s t : Pool} (task : Task)
    → pool_new size ≡ some s
    → Reach run s t
    → (m : Memory) × (add_work t.memory task ≡ some m)
pool_accepts run size {s} {t} task e r =
    let h = Reach-pool_new-IsOnce run size e r in
    let (m, added, _, _) = add_work-IsQueue t.memory h.queue task h.ordered in (m, added)
