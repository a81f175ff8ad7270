-- ===== src/Jobs/Pool/Signals/Serves.antt =====
-- A pool in which some jobs never return: the others are served while a worker is left for them.
use httpserv.Prelude.{
  ℕ, suc, ◌+◌, ◌≤◌, ◌≡◌, refl, ap, ◌⊎◌, inl, inr, Bool, true, List, [], ◌∷◌, ◌++◌, length-append,
  some, arith,
}
use httpserv.Jobs.{Task}
use httpserv.Jobs.Exec.{Functions}
use httpserv.Jobs.Queue.{Memory, add_work}
use httpserv.Jobs.Queue.Fifo.{add_work-IsQueue}
use httpserv.Jobs.Pool.{
  Phase, looping, waiting, woken, executing, Pool, WorkerStep, first_take, wake, second_take,
  finish,
}
use httpserv.Jobs.Pool.Once.{IsOnce}
use httpserv.Jobs.Pool.Signals.{
  sleeping, sleepers, Signalled, wakes_one, nobody, IsAwakeStep, Turns, stays, goes,
}
use httpserv.Jobs.Pool.Signals.Awake.{TakeEnd, try_pop-TakeEnd, sleepers-append}

-- A step other than the end of a job that never returns.
abbrev pub IsReturning : {run : Functions} {s t : Pool} → (ℕ → Bool) → WorkerStep run s t → Type 0
IsReturning ends (first_take before after popped) = Unit
IsReturning ends (wake before after) = Unit
IsReturning ends (second_take before after popped) = Unit
IsReturning ends (finish before after x job stored) = ends x ≡ true

-- A step of a worker that neither wakes nor returns from a job that never does.
abbrev pub Service : Functions → (ℕ → Bool) → Pool → Pool → Type 0
Service run ends s t = (step : WorkerStep run s t) × IsAwakeStep step × IsReturning ends step

-- So many of them.
pub data Services (run : Functions) (ends : ℕ → Bool) (s : Pool) : ℕ → Pool → Type 0 where
  none_yet : Services run ends s 0 s
  one_more :
      {n : ℕ} {t u : Pool}
      → Services run ends s n t
      → Service run ends t u
      → Services run ends s (suc n) u

pub Services-Turns :
    (run : Functions) (ends : ℕ → Bool) {s : Pool} {n : ℕ} {t : Pool}
    → Services run ends s n t
    → Turns run s n t
Services-Turns run ends none_yet = stays
Services-Turns run ends (one_more r (step, a, _)) = goes (Services-Turns run ends r) (step, a)

-- How many workers are about to take a job.
abbrev pub ready : Phase → ℕ
ready looping = 1
ready waiting = 0
ready woken = 1
ready (executing x) = 0

abbrev pub ready_workers : List Phase → ℕ
ready_workers [] = 0
ready_workers (w ∷ ws) = ready w + ready_workers ws

ready_workers-append :
    (xs ys : List Phase) → ready_workers (xs ++ ys) ≡ ready_workers xs + ready_workers ys
ready_workers-append [] ys = omega arith
ready_workers-append (x ∷ xs) ys = omega (arith, ready_workers-append xs ys)

-- While a worker sleeps, each queued job has a worker that is about to take one.
abbrev pub IsServed : ℕ → List Phase → Type 0
IsServed size ws = (sleepers ws ≡ 0) ⊎ (size ≤ ready_workers ws)

-- The worker between `before` and `after` changes.
module _ (before after : List Phase) (v w : Phase) where
  sleepers-change :
      sleepers (before ++ (w ∷ after)) + sleeping v ≡ sleepers (before ++ (v ∷ after)) + sleeping w
  sleepers-change =
      omega (arith, sleepers-append before (w ∷ after), sleepers-append before (v ∷ after))

  ready-change :
      ready_workers (before ++ (w ∷ after)) + ready v
      ≡ ready_workers (before ++ (v ∷ after)) + ready w
  ready-change =
      omega
        (arith, ready_workers-append before (w ∷ after), ready_workers-append before (v ∷ after))

-- No more jobs for each worker that is about to take one, and no more sleepers.
keeps-IsServed :
    (size size' : ℕ) (before after : List Phase) (v w : Phase)
    → sleeping w ≤ sleeping v
    → size' + ready v ≤ size + ready w
    → IsServed size (before ++ (v ∷ after))
    → IsServed size' (before ++ (w ∷ after))
keeps-IsServed size size' before after v w h k (inl awake) =
    inl (omega (arith, awake, h, sleepers-change before after v w))
keeps-IsServed size size' before after v w h k (inr enough) =
    inr (omega (arith, enough, k, ready-change before after v w))

take-IsServed :
    (v idle : Phase) (m m' : Memory) (w : Phase) (before after : List Phase)
    → sleeping v ≡ 0
    → ready v ≡ 1
    → TakeEnd idle m w m'
    → IsServed m.size (before ++ (v ∷ after))
    → IsServed m'.size (before ++ (w ∷ after))
take-IsServed v idle m m' w before after h k (inl (same, empty, was)) s = inr (omega (arith, empty))
take-IsServed v idle m m' w before after h k (inr (x, same, less)) s =
    keeps-IsServed m.size m'.size before after v w (omega (arith, ap sleeping same))
      (omega (arith, k, less)) s

pub WorkerStep-IsServed :
    (run : Functions) {s t : Pool}
    → WorkerStep run s t
    → IsOnce s
    → IsServed s.memory.size s.workers
    → IsServed t.memory.size t.workers
WorkerStep-IsServed run (first_take {m} {m'} before after {w} popped) h s =
    take-IsServed looping waiting m m' w before after refl refl
      (try_pop-TakeEnd waiting m m' w h popped) s
WorkerStep-IsServed run (wake {m} before after) h s =
    keeps-IsServed m.size m.size before after waiting woken (omega arith) (omega arith) s
WorkerStep-IsServed run (second_take {m} {m'} before after {w} popped) h s =
    take-IsServed woken looping m m' w before after refl refl
      (try_pop-TakeEnd looping m m' w h popped) s
WorkerStep-IsServed run (finish {m} before after x job stored) h s =
    keeps-IsServed m.size m.size before after (executing x) looping (omega arith) (omega arith) s

-- The queue behind a submission.
pub add_work-size :
    (s : Pool) (m : Memory) (task : Task)
    → IsOnce s
    → add_work s.memory task ≡ some m
    → m.size ≡ s.memory.size + 1
add_work-size s m task h added =
    let (m', added', q, _) = add_work-IsQueue s.memory h.queue task h.ordered in
    let same : m' ≡ m = cc in
    omega (
      arith,
      ap (λ (x : Memory). x.size) same,
      q.counted,
      h.ordered.counted,
      length-append {0} h.queue ((s.memory.free, task) ∷ []),
    )

-- A submission with its signal.
pub add_work-IsServed :
    (s : Pool) (m : Memory) {ws : List Phase} (task : Task)
    → IsOnce s
    → add_work s.memory task ≡ some m
    → Signalled s.workers ws
    → IsServed s.memory.size s.workers
    → IsServed m.size ws
add_work-IsServed s m task h added (nobody e) k = inl e
add_work-IsServed s m task h added (wakes_one before after) k =
    keeps-IsServed s.memory.size m.size before after waiting woken (omega arith)
      (omega (arith, add_work-size s m task h added)) k
