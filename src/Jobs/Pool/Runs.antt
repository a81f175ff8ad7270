-- ===== src/Jobs/Pool/Runs.antt =====
-- Steps of the workers of a pool, with no submission: a worker finishes its job, or takes one.
use httpserv.Prelude.{ℕ, suc, ◌≡◌, refl, List, [], ◌∷◌, ◌++◌, some, arith, ◌>>=◌}
use mathlib.Core.Path.{subst}
use httpserv.Jobs.{Task}
use httpserv.Jobs.Exec.{Functions}
use httpserv.Jobs.Queue.{Memory}
use httpserv.Jobs.Queue.Fifo.{IsQueue, pop_job-IsQueue}
use httpserv.Jobs.Pool.{
  Phase, looping, waiting, woken, executing, Pool, try_pop, WorkerStep, first_take, wake,
  second_take, finish,
}
use httpserv.Jobs.Pool.Once.{IsOnce, WorkerStep-IsOnce}
use httpserv.Jobs.Pool.Tasks.{HasTasks, WorkerStep-HasTasks}
use httpserv.Jobs.Pool.Progress.{held-Stored}

-- Steps of workers, with no submission.
pub data Runs (run : Functions) : Pool → Pool → Type 0 where
  stays : {s : Pool} → Runs run s s
  runs : {s t u : Pool} → WorkerStep run s t → Runs run t u → Runs run s u

pub Runs-append : (run : Functions) {s t u : Pool} → Runs run s t → Runs run t u → Runs run s u
Runs-append run stays q = q
Runs-append run (runs step r) q = runs step (Runs-append run r q)

pub record IsGood (s : Pool) : Type 0 where
  pub once : IsOnce s
  pub tasks : List Task
  pub stored : HasTasks tasks s.memory

WorkerStep-IsGood : (run : Functions) {s t : Pool} → WorkerStep run s t → IsGood s → IsGood t
WorkerStep-IsGood run step g = record {
  once = WorkerStep-IsOnce run step g.once;
  tasks = g.tasks;
  stored = WorkerStep-HasTasks g.tasks run step g.stored;
}

-- The state behind some steps, with these workers and this number of queued jobs.
pub record Stepped (run : Functions) (s : Pool) (ws : List Phase) (n : ℕ) : Type 0 where
  pub state : Pool
  pub steps : Runs run s state
  pub good : IsGood state
  pub workers : state.workers ≡ ws
  pub size : state.memory.size ≡ n
  pub free : state.memory.free ≡ s.memory.free

-- A state may be taken apart by its workers.
by_workers :
    (P : Pool → Type 0) (s : Pool) (ws : List Phase)
    → s.workers ≡ ws
    → P (record s { workers = ws })
    → P s
by_workers P s ws e = subst P (rw e refl)

pub finish_one :
    (run : Functions) (s : Pool) (before after : List Phase) (x : ℕ)
    → s.workers ≡ before ++ (executing x ∷ after)
    → IsGood s
    → Stepped run s (before ++ (looping ∷ after)) s.memory.size
finish_one run s before after x e =
    by_workers (λ s. IsGood s → Stepped run s (before ++ (looping ∷ after)) s.memory.size) s
      (before ++ (executing x ∷ after)) e
      (λ g.
        let (job, stored) =
          held-Stored s.memory before after x s.executed g.tasks g.stored g.once in
        let step : WorkerStep run (record s { workers = before ++ (executing x ∷ after) }) _ =
          finish {m = s.memory} {e = s.executed} before after x job stored in
        record {
          state = _;
          steps = runs step stays;
          good = WorkerStep-IsGood run step g;
          workers = refl;
          size = refl;
          free = refl;
        })

abbrev pub IsIdle : Phase → Type 0
IsIdle (executing x) = ⊥
IsIdle _ = Unit

-- The oldest job of a queue that is not empty can be taken.
try_pop-suc :
    (idle : Phase) (s : Pool) (n : ℕ)
    → s.memory.size ≡ suc n
    → IsGood s
    → (x : ℕ) × (m' : Memory) × (try_pop idle s.memory ≡ some (executing x, m'))
      × (m'.size ≡ n)
      × (m'.free ≡ s.memory.free)
unfolding try_pop
try_pop-suc idle s n e g = go g.once.queue g.once.ordered
  where
    go :
        (xs : List (ℕ × Task))
        → IsQueue s.memory xs
        → (x : ℕ) × (m' : Memory) × (try_pop idle s.memory ≡ some (executing x, m'))
          × (m'.size ≡ n)
          × (m'.free ≡ s.memory.free)
    go [] q = absurd (omega (arith, q.counted))
    go ((x, t) ∷ xs) q =
        let (m', popped, rest, free, _) = pop_job-IsQueue s.memory x t xs q in
        (x, m', rw (popped, ◌>>=◌) refl, omega (arith, q.counted, rest.counted), free)

-- A state with this many queued jobs in which the first worker has taken one.
pub record Taken (run : Functions) (s : Pool) (ws : List Phase) (n : ℕ) : Type 0 where
  pub job : ℕ
  pub stepped : Stepped run s (executing job ∷ ws) n

abbrev with_first : Pool → Phase → List Phase → Pool
with_first s w ws = record s { workers = w ∷ ws }

take_woken :
    (run : Functions) (s : Pool) (ws : List Phase) (n : ℕ)
    → s.memory.size ≡ suc n
    → IsGood (with_first s woken ws)
    → Taken run (with_first s woken ws) ws n
take_woken run s ws n e g =
    let (x, m', popped, size, free) = try_pop-suc looping (with_first s woken ws) n e g in
    let step : WorkerStep run (with_first s woken ws) _ =
      second_take {e = s.executed} [] ws popped in
    record {
      job = x;
      stepped = record {
        state = _;
        steps = runs step stays;
        good = WorkerStep-IsGood run step g;
        workers = refl;
        size = size;
        free = free;
      };
    }

take_looping :
    (run : Functions) (s : Pool) (ws : List Phase) (n : ℕ)
    → s.memory.size ≡ suc n
    → IsGood (with_first s looping ws)
    → Taken run (with_first s looping ws) ws n
take_looping run s ws n e g =
    let (x, m', popped, size, free) = try_pop-suc waiting (with_first s looping ws) n e g in
    let step : WorkerStep run (with_first s looping ws) _ =
      first_take {e = s.executed} [] ws popped in
    record {
      job = x;
      stepped = record {
        state = _;
        steps = runs step stays;
        good = WorkerStep-IsGood run step g;
        workers = refl;
        size = size;
        free = free;
      };
    }

take_waiting :
    (run : Functions) (s : Pool) (ws : List Phase) (n : ℕ)
    → s.memory.size ≡ suc n
    → IsGood (with_first s waiting ws)
    → Taken run (with_first s waiting ws) ws n
take_waiting run s ws n e g =
    let step : WorkerStep run (with_first s waiting ws) _ =
      wake {m = s.memory} {e = s.executed} [] ws in
    let taken = take_woken run s ws n e (WorkerStep-IsGood run step g) in
    let t = taken.stepped in
    record {
      job = taken.job;
      stepped = record {
        state = t.state;
        steps = runs step t.steps;
        good = t.good;
        workers = t.workers;
        size = t.size;
        free = t.free;
      };
    }

pub take_one :
    (run : Functions) (s : Pool) (w : Phase) (ws : List Phase) (n : ℕ)
    → s.workers ≡ w ∷ ws
    → IsIdle w
    → s.memory.size ≡ suc n
    → IsGood s
    → Taken run s ws n
take_one run s looping ws n e i size =
    by_workers (λ s. IsGood s → Taken run s ws n) s (looping ∷ ws) e (take_looping run s ws n size)
take_one run s waiting ws n e i size =
    by_workers (λ s. IsGood s → Taken run s ws n) s (waiting ∷ ws) e (take_waiting run s ws n size)
take_one run s woken ws n e i size =
    by_workers (λ s. IsGood s → Taken run s ws n) s (woken ∷ ws) e (take_woken run s ws n size)
take_one run s (executing x) ws n e i size = absurd i
