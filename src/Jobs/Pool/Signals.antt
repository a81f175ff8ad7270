-- ===== src/Jobs/Pool/Signals.antt =====
-- The pool when a worker wakes only by the `pthread_cond_signal` in `threadpool_add_work` of
-- src/threadpool.c, and never without a signal.
pub mod Awake
pub mod Stops
pub mod Finals
pub mod Serves
pub mod Rest
pub mod Taken
use httpserv.Prelude.{ℕ, zero, suc, ◌+◌, ◌≡◌, List, [], ◌∷◌, ◌++◌, some}
use httpserv.Jobs.{Task}
use httpserv.Jobs.Exec.{Functions}
use httpserv.Jobs.Queue.{Memory, add_work}
use httpserv.Jobs.Pool.{
  Phase, looping, waiting, woken, executing, Pool, WorkerStep, first_take, wake, second_take,
  finish,
}

abbrev pub sleeping : Phase → ℕ
sleeping looping = 0
sleeping waiting = 1
sleeping woken = 0
sleeping (executing x) = 0

-- How many workers are in `pthread_cond_wait`.
abbrev pub sleepers : List Phase → ℕ
sleepers [] = 0
sleepers (w ∷ ws) = sleeping w + sleepers ws

-- `pthread_cond_signal`: one worker that sleeps is woken, if there is one.
pub data Signalled : List Phase → List Phase → Type 0 where
  wakes_one :
      (before after : List Phase)
      → Signalled (before ++ (waiting ∷ after)) (before ++ (woken ∷ after))
  nobody : {ws : List Phase} → sleepers ws ≡ 0 → Signalled ws ws

-- A step of a worker that does not wake.
abbrev pub IsAwakeStep : {run : Functions} {s t : Pool} → WorkerStep run s t → Type 0
IsAwakeStep (first_take before after popped) = Unit
IsAwakeStep (wake before after) = ⊥
IsAwakeStep (second_take before after popped) = Unit
IsAwakeStep (finish before after x job stored) = Unit

abbrev pub Turn : Functions → Pool → Pool → Type 0
Turn run s t = (step : WorkerStep run s t) × IsAwakeStep step

-- `threadpool_add_work`, with its signal, or a step of a worker.
pub data SignalStep (run : Functions) : Pool → Pool → Type 0 where
  add :
      {s : Pool} {ws : List Phase} (task : Task) {m : Memory}
      → add_work s.memory task ≡ some m
      → Signalled s.workers ws
      → SignalStep run s (record s { memory = m; workers = ws })
  turn : {s t : Pool} → Turn run s t → SignalStep run s t

pub data SignalReach (run : Functions) (s : Pool) : Pool → Type 0 where
  start : SignalReach run s s
  next : {t u : Pool} → SignalReach run s t → SignalStep run t u → SignalReach run s u

-- So many steps of the workers, with no submission.
pub data Turns (run : Functions) (s : Pool) : ℕ → Pool → Type 0 where
  stays : Turns run s 0 s
  goes : {n : ℕ} {t u : Pool} → Turns run s n t → Turn run t u → Turns run s (suc n) u
