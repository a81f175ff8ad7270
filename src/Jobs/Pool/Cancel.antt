-- ===== src/Jobs/Pool/Cancel.antt =====
-- The workers of src/threadpool.c when `threadpool_worker_stop` cancels them. A worker is cancelled in
-- `pthread_cond_wait` only: the other calls in its loop are no cancellation points, or are made while
-- cancellation is disabled. POSIX has the mutex taken again before a thread that is cancelled there
-- ends, and no cleanup handler of the worker releases it.
pub mod Ends
use httpserv.Prelude.{ℕ, ◌≡◌, Bool, true, false, List, [], ◌∷◌, ◌++◌, some}
use httpserv.Jobs.{Job}
use httpserv.Jobs.Exec.{Functions}
use httpserv.Jobs.Queue.{Memory}
use httpserv.Jobs.Pool.{Phase, looping, waiting, woken, executing, try_pop, execute}

-- A worker, with whether a cancellation of it is pending.
pub data Thread : Type 0 where
  alive : Phase → Bool → Thread
  ended : Thread

-- The pool; `locked` tells whether its mutex is held by a thread that has ended.
pub record Stopping : Type 0 where
  pub memory : Memory
  pub locked : Bool
  pub threads : List Thread

-- A worker behind the first take of a job. Without one it calls `pthread_cond_wait`, where a pending
-- cancellation ends it with the mutex held.
unfoldable pub settle : Phase → Bool → Thread × Bool
settle waiting true = (ended, true)
settle waiting false = (alive waiting false, false)
settle looping pending = (alive looping pending, false)
settle woken pending = (alive woken pending, false)
settle (executing x) pending = (alive (executing x) pending, false)

-- A step: a cancellation is requested, acted upon, or a worker goes on. A step with the mutex needs it
-- free.
pub data CancelStep (run : Functions) : Stopping → Stopping → Type 0 where
  request :
      {m : Memory} {l : Bool} (before after : List Thread) (w : Phase) (pending : Bool)
      → CancelStep run
          (record { memory = m; locked = l; threads = before ++ (alive w pending ∷ after) })
          (record { memory = m; locked = l; threads = before ++ (alive w true ∷ after) })
  act :
      {m : Memory} (before after : List Thread)
      → CancelStep run
          (record { memory = m; locked = false; threads = before ++ (alive waiting true ∷ after) })
          (record { memory = m; locked = true; threads = before ++ (ended ∷ after) })
  first_take :
      {m m' : Memory} (before after : List Thread) (w : Phase) (pending : Bool)
      → try_pop waiting m ≡ some (w, m')
      → CancelStep run
          (record {
            memory = m;
            locked = false;
            threads = before ++ (alive looping pending ∷ after);
          })
          (record {
            memory = m';
            locked = (settle w pending).1;
            threads = before ++ ((settle w pending).0 ∷ after);
          })
  wake :
      {m : Memory} {l : Bool} (before after : List Thread) (pending : Bool)
      → CancelStep run
          (record { memory = m; locked = l; threads = before ++ (alive waiting pending ∷ after) })
          (record { memory = m; locked = l; threads = before ++ (alive woken pending ∷ after) })
  second_take :
      {m m' : Memory} (before after : List Thread) (w : Phase) (pending : Bool)
      → try_pop looping m ≡ some (w, m')
      → CancelStep run
          (record { memory = m; locked = false; threads = before ++ (alive woken pending ∷ after) })
          (record { memory = m'; locked = false; threads = before ++ (alive w pending ∷ after) })
  finish :
      {m : Memory} {l : Bool} (before after : List Thread) (pending : Bool) (x : ℕ) (job : Job)
      → m.cells x ≡ some job
      → CancelStep run
          (record {
            memory = m;
            locked = l;
            threads = before ++ (alive (executing x) pending ∷ after);
          })
          (record {
            memory = execute run m x job;
            locked = l;
            threads = before ++ (alive looping pending ∷ after);
          })

pub data CancelReach (run : Functions) (s : Stopping) : Stopping → Type 0 where
  here : CancelReach run s s
  next : {t u : Stopping} → CancelReach run s t → CancelStep run t u → CancelReach run s u

-- The workers of a pool before any is cancelled.
abbrev pub all_alive : List Phase → List Thread
all_alive [] = []
all_alive (w ∷ ws) = alive w false ∷ all_alive ws
