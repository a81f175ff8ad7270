-- ===== src/Jobs/Pool/Drain.antt =====
-- From every state of a pool its workers can finish all jobs.
use httpserv.Prelude.{
  ℕ, zero, suc, ◌≡◌, refl, sym, ap, ◌∙◌, List, [], ◌∷◌, ◌++◌, length-append, some, arith, ltb,
  length, All,
}
use mathlib.Core.Path.{subst}
use httpserv.Jobs.{Task}
use httpserv.Jobs.Exec.{Functions}
use httpserv.Jobs.Queue.{Memory, queue_new}
use httpserv.Jobs.Queue.Fifo.{IsQueue}
use httpserv.Jobs.Pool.{
  Phase, looping, waiting, woken, executing, Pool, WorkerStep, first_take, wake, second_take,
  finish, Reach, here, next, submit, work, idle_workers, pool_new,
}
use httpserv.Jobs.Pool.Count.{one_if, queued, held, times}
use httpserv.Jobs.Pool.Once.{IsOnce, Reach-pool_new-IsOnce}
use httpserv.Jobs.Pool.Progress.{Reach-HasTasks, pool_new-HasTasks}
use httpserv.Jobs.Pool.Runs.{
  Runs, stays, Runs-append, IsGood, Stepped, finish_one, IsIdle, take_one,
}
use httpserv.Jobs.Pool.Finish.{Finished, finish_all}

-- A state in which no worker has a job and no job is queued, and the steps to it.
record Drained (run : Functions) (s : Pool) : Type 0 where
  state : Pool
  steps : Runs run s state
  good : IsGood state
  idle : All IsIdle state.workers
  size : state.memory.size ≡ 0
  free : state.memory.free ≡ s.memory.free

Stepped-Drained :
    (run : Functions) {s : Pool} {ws : List Phase} {n : ℕ} (t : Stepped run s ws n)
    → Drained run t.state
    → Drained run s
Stepped-Drained run t d = record {
  state = d.state;
  steps = Runs-append run t.steps d.steps;
  good = d.good;
  idle = d.idle;
  size = d.size;
  free = d.free ∙ t.free;
}

-- With one worker that has no job the queue can be emptied.
drain_queue :
    (run : Functions) (n : ℕ) (s : Pool) (w : Phase) (ws : List Phase)
    → s.workers ≡ w ∷ ws
    → All IsIdle (w ∷ ws)
    → s.memory.size ≡ n
    → IsGood s
    → Drained run s
drain_queue run zero s w ws e i size g = record {
  state = s;
  steps = stays;
  good = g;
  idle = subst (All IsIdle) (sym e) i;
  size = size;
  free = refl;
}
drain_queue run (suc n) s w ws e i size g =
    let taken = take_one run s w ws n e i.0 size g in
    let t = taken.stepped in
    let f = finish_one run t.state [] ws taken.job t.workers t.good in
    Stepped-Drained run t (
      Stepped-Drained run f
        (drain_queue run n f.state looping ws f.workers (tt, i.1) (f.size ∙ t.size) f.good))

held-idle : (p : ℕ) (ws : List Phase) → All IsIdle ws → held p ws ≡ 0
held-idle p [] i = refl
held-idle p (executing x ∷ ws) i = absurd i.0
held-idle p (looping ∷ ws) i = held-idle p ws i.1
held-idle p (waiting ∷ ws) i = held-idle p ws i.1
held-idle p (woken ∷ ws) i = held-idle p ws i.1

-- With a worker at all, every job can be executed.
drain : (run : Functions) (s : Pool) (n : ℕ) → Finished run s (suc n) → Drained run s
drain run s n f = go f.workers refl
  where
    go : (ws : List Phase) → ws ≡ f.workers → Drained run s
    go [] e = absurd (omega (arith, f.number, ap length e))
    go (w ∷ ws) e = Stepped-Drained run f.stepped (
        drain_queue run f.stepped.state.memory.size f.stepped.state w ws (f.stepped.workers ∙ sym e)
          (subst (All IsIdle) (sym e) f.idle) refl f.stepped.good)

pub queued-empty :
    (m : Memory) (xs : List (ℕ × Task)) (p : ℕ) → IsQueue m xs → m.size ≡ 0 → queued p xs ≡ 0
queued-empty m [] p q e = refl
queued-empty m (x ∷ xs) p q e = absurd (omega (arith, q.counted))

pub executed_once :
    (s : Pool) (p : ℕ)
    → IsOnce s
    → s.memory.size ≡ 0
    → All IsIdle s.workers
    → times p s.executed ≡ one_if (ltb p s.memory.free)
executed_once s p h empty idle =
    omega
      (arith, h.once p, queued-empty s.memory h.queue p h.ordered empty, held-idle p s.workers idle)

same_length :
    (before after : List Phase) (v w : Phase)
    → length (before ++ (v ∷ after)) ≡ length (before ++ (w ∷ after))
same_length before after v w =
    omega (arith, length-append before (v ∷ after), length-append before (w ∷ after))

pub WorkerStep-length :
    (run : Functions) {s t : Pool} → WorkerStep run s t → length s.workers ≡ length t.workers
WorkerStep-length run (first_take before after popped) = same_length before after _ _
WorkerStep-length run (wake before after) = same_length before after _ _
WorkerStep-length run (second_take before after popped) = same_length before after _ _
WorkerStep-length run (finish before after x job stored) = same_length before after _ _

Reach-length : (run : Functions) {s t : Pool} → Reach run s t → length s.workers ≡ length t.workers
Reach-length run here = refl
Reach-length run (next r (submit task added)) = Reach-length run r
Reach-length run (next r (work step)) = Reach-length run r ∙ WorkerStep-length run step

pub pool_new-length :
    (size : ℕ) {s : Pool}
    → pool_new size ≡ some s
    → (n : ℕ) × (size ≡ suc n) × (length s.workers ≡ suc n)
unfolding pool_new
pool_new-length zero e = cc
pool_new-length (suc n) {s} e =
    let same : record { memory = queue_new; workers = idle_workers (suc n); executed = [] } ≡ s =
      cc in
    (n, refl, subst (λ (s : Pool). length s.workers ≡ suc n) same (number (suc n)))
  where
    number : (n : ℕ) → length (idle_workers n) ≡ n
    number zero = refl
    number (suc n) = ap suc (number n)

-- What steps of the workers alone can make of a state with a worker.
pub record Executed (run : Functions) (s : Pool) : Type 0 where
  pub state : Pool
  pub steps : Runs run s state
  pub free : state.memory.free ≡ s.memory.free
  pub empty : state.memory.size ≡ 0
  pub once : (p : ℕ) → times p state.executed ≡ one_if (ltb p s.memory.free)

pub IsGood-Executed :
    (run : Functions) (s : Pool) (n : ℕ) → IsGood s → length s.workers ≡ suc n → Executed run s
IsGood-Executed run s n good number =
    let f = finish_all run s [] s.workers refl tt good in
    let d = drain run s n (subst (Finished run s) (omega (arith, number)) f) in
    record {
      state = d.state;
      steps = d.steps;
      free = d.free;
      empty = d.size;
      once = λ p.
          executed_once d.state p d.good.once d.size d.idle
          ∙ ap (λ free. one_if (ltb p free)) d.free;
    }

-- From every state that a new pool reaches there are steps of its workers alone, with no
-- submission, to a state with an empty queue in which each job that was submitted has been executed
-- just once.
pub pool_drains :
    (run : Functions) (size : ℕ) {s t : Pool}
    → pool_new size ≡ some s
    → Reach run s t
    → (u : Pool) × Runs run t u
      × (u.memory.free ≡ t.memory.free)
      × (u.memory.size ≡ 0)
      × ((p : ℕ) → times p u.executed ≡ one_if (ltb p t.memory.free))
pool_drains run size {s} {t} e r =
    let (ts, k) = Reach-HasTasks run [] r (pool_new-HasTasks size e) in
    let good : IsGood t = record {
      once = Reach-pool_new-IsOnce run size e r;
      tasks = ts;
      stored = k;
    } in
    let (n, _, number) = pool_new-length size e in
    let d = IsGood-Executed run t n good (sym (Reach-length run r) ∙ number) in
    (d.state, d.steps, d.free, d.empty, d.once)
