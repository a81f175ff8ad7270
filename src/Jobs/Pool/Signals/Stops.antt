-- ===== src/Jobs/Pool/Signals/Stops.antt =====
-- In whatever order the workers step, they come to rest, with every job executed.
use httpserv.Prelude.{
  ℕ, ◌+◌, ◌<◌, ◌≤◌, ◌≡◌, ◌≢◌, refl, sym, ap, inl, inr, List, [], ◌∷◌, ◌++◌, append_assoc, length,
  some, arith, All, ltb,
}
use mathlib.Core.Path.{subst}
use httpserv.Jobs.{Task}
use httpserv.Jobs.Exec.{Functions}
use httpserv.Jobs.Queue.{Memory}
use httpserv.Jobs.Pool.{
  Phase, looping, waiting, woken, executing, Pool, WorkerStep, first_take, wake, second_take,
  finish, pool_new,
}
use httpserv.Jobs.Pool.Count.{one_if, times}
use httpserv.Jobs.Pool.Once.{IsOnce, WorkerStep-IsOnce, Reach-pool_new-IsOnce}
use httpserv.Jobs.Pool.Tasks.{HasTasks}
use httpserv.Jobs.Pool.Progress.{Reach-HasTasks, pool_new-HasTasks, try_pop-some, held-Stored}
use httpserv.Jobs.Pool.Runs.{IsIdle}
use httpserv.Jobs.Pool.Drain.{executed_once}
use httpserv.Jobs.Pool.Signals.{sleepers, IsAwakeStep, Turn, SignalReach, turn, Turns, stays, goes}
use httpserv.Jobs.Pool.Signals.Awake.{
  TakeEnd, try_pop-TakeEnd, SignalReach-Reach, SignalReach-IsAwake,
}

-- How many steps a worker can still make before it sleeps, and all of them with the jobs queued.
abbrev pub weight : Phase → ℕ
weight looping = 1
weight waiting = 0
weight woken = 2
weight (executing x) = 2

abbrev pub weights : List Phase → ℕ
weights [] = 0
weights (w ∷ ws) = weight w + weights ws

abbrev pub steps_left : Pool → ℕ
steps_left s = s.memory.size + s.memory.size + weights s.workers

weights-append : (xs ys : List Phase) → weights (xs ++ ys) ≡ weights xs + weights ys
weights-append [] ys = omega arith
weights-append (x ∷ xs) ys = omega (arith, weights-append xs ys)

weight_bound : (w : Phase) → weight w ≤ 2
weight_bound looping = omega arith
weight_bound waiting = omega arith
weight_bound woken = omega arith
weight_bound (executing x) = omega arith

pub weights_bound : (ws : List Phase) → weights ws ≤ length ws + length ws
weights_bound [] = omega arith
weights_bound (w ∷ ws) = omega (arith, weight_bound w, weights_bound ws)

take-steps_left :
    (v idle : Phase) (m m' : Memory) (w : Phase) (before after : List Phase)
    → TakeEnd idle m w m'
    → weight idle < weight v
    → m'.size + m'.size + weights (before ++ (w ∷ after))
      < m.size + m.size + weights (before ++ (v ∷ after))
take-steps_left v idle m m' w before after (inl (same, empty, was)) h = omega (
  arith,
  h,
  empty,
  was,
  ap weight same,
  weights-append before (w ∷ after),
  weights-append before (v ∷ after),
)
take-steps_left v idle m m' w before after (inr (x, same, less)) h = omega (
  arith,
  h,
  less,
  ap weight same,
  weights-append before (w ∷ after),
  weights-append before (v ∷ after),
)

pub WorkerStep-steps_left :
    (run : Functions) {s t : Pool} (step : WorkerStep run s t)
    → IsAwakeStep step
    → IsOnce s
    → steps_left t < steps_left s
WorkerStep-steps_left run (first_take {m} {m'} before after {w} popped) a h =
    take-steps_left looping waiting m m' w before after (try_pop-TakeEnd waiting m m' w h popped)
      (omega arith)
WorkerStep-steps_left run (wake before after) a h = absurd a
WorkerStep-steps_left run (second_take {m} {m'} before after {w} popped) a h =
    take-steps_left woken looping m m' w before after (try_pop-TakeEnd looping m m' w h popped)
      (omega arith)
WorkerStep-steps_left run (finish before after x job stored) a h =
    omega
      (arith, weights-append before (executing x ∷ after), weights-append before (looping ∷ after))

Turns-IsOnce :
    (run : Functions) {s : Pool} {n : ℕ} {t : Pool} → Turns run s n t → IsOnce s → IsOnce t
Turns-IsOnce run stays h = h
Turns-IsOnce run (goes r (step, a)) h = WorkerStep-IsOnce run step (Turns-IsOnce run r h)

pub Turns-steps_left :
    (run : Functions) {s : Pool} {n : ℕ} {t : Pool}
    → Turns run s n t
    → IsOnce s
    → n + steps_left t ≤ steps_left s
Turns-steps_left run stays h = omega arith
Turns-steps_left run (goes r (step, a)) h =
    omega (arith, Turns-steps_left run r h, WorkerStep-steps_left run step a (Turns-IsOnce run r h))

-- In a new pool whose workers wake by signals only: from every state that is reached, any steps of
-- the workers with no submission, in any order, are at most twice as many as the queued jobs, and
-- one more for each worker at the head of its loop and two more for each that is woken or has a
-- job.
pub Turns-bound :
    (run : Functions) (size n : ℕ) {s t u : Pool}
    → pool_new size ≡ some s
    → SignalReach run s t
    → Turns run t n u
    → n ≤ t.memory.size + t.memory.size + weights t.workers
Turns-bound run size n e r turns =
    omega (
      arith,
      Turns-steps_left run turns (Reach-pool_new-IsOnce run size e (SignalReach-Reach run r)),
    )

pub Turns-SignalReach :
    (run : Functions) {s t : Pool} {n : ℕ} {u : Pool}
    → SignalReach run s t
    → Turns run t n u
    → SignalReach run s u
Turns-SignalReach run r stays = r
Turns-SignalReach run r (goes q one) = SignalReach.next (Turns-SignalReach run r q) (turn one)

-- A worker that does not sleep can make a step.
can_step :
    (run : Functions) (m : Memory) (e : List ℕ) (ts : List Task) (before after : List Phase)
    (w : Phase)
    → w ≢ waiting
    → HasTasks ts m
    → IsOnce (record { memory = m; workers = before ++ (w ∷ after); executed = e })
    → (u : Pool) × Turn run (record { memory = m; workers = before ++ (w ∷ after); executed = e }) u
can_step run m e ts before after looping ne k h =
    let (o, m', popped) = try_pop-some waiting m h.queue h.ordered in
    (_, (first_take before after popped, tt))
can_step run m e ts before after waiting ne k h = absurd (ne refl)
can_step run m e ts before after woken ne k h =
    let (o, m', popped) = try_pop-some looping m h.queue h.ordered in
    (_, (second_take before after popped, tt))
can_step run m e ts before after (executing x) ne k h =
    let (job, stored) = held-Stored m before after x e ts k h in
    (_, (finish before after x job stored, tt))

-- Where no worker can make a step, all behind `before` sleep.
all_sleep :
    (run : Functions) (m : Memory) (e : List ℕ) (ts : List Task) (before after : List Phase)
    → HasTasks ts m
    → IsOnce (record { memory = m; workers = before ++ after; executed = e })
    → ((u : Pool) → Turn run (record { memory = m; workers = before ++ after; executed = e }) u → ⊥)
    → All IsIdle after × (sleepers after ≡ length after)
all_sleep run m e ts before [] k h no_turn = (tt, refl)
all_sleep run m e ts before (waiting ∷ after) k h no_turn =
    let same = append_assoc before (waiting ∷ []) after in
    let (idle, asleep) =
      all_sleep run m e ts (before ++ waiting ∷ []) after k
        (subst (λ ws. IsOnce (record { memory = m; workers = ws; executed = e })) (sym same) h)
        (subst
          (λ ws. (u : Pool) → Turn run (record { memory = m; workers = ws; executed = e }) u → ⊥)
          (sym same) no_turn) in
    ((tt, idle), omega (arith, asleep))
all_sleep run m e ts before (looping ∷ after) k h no_turn =
    let (u, one) = can_step run m e ts before after looping (λ q. cc) k h in absurd (no_turn u one)
all_sleep run m e ts before (woken ∷ after) k h no_turn =
    let (u, one) = can_step run m e ts before after woken (λ q. cc) k h in absurd (no_turn u one)
all_sleep run m e ts before (executing x ∷ after) k h no_turn =
    let (u, one) = can_step run m e ts before after (executing x) (λ q. cc) k h in
    absurd (no_turn u one)

-- In a new pool whose workers wake by the signals of submissions only, and never without one: after
-- any submissions and steps of the workers in any order, and then any further steps of the workers
-- with no submission, to a state where no worker can make a step, the queue is empty and each job
-- that was submitted has been executed just once.
pub Turns-finish :
    (run : Functions) (size n : ℕ) {s t u : Pool}
    → pool_new size ≡ some s
    → SignalReach run s t
    → Turns run t n u
    → ((v : Pool) → Turn run u v → ⊥)
    → (u.memory.size ≡ 0) × ((p : ℕ) → times p u.executed ≡ one_if (ltb p u.memory.free))
Turns-finish run size n {s} {t} {u} e r turns no_turn =
    let reached = Turns-SignalReach run r turns in
    let h = Reach-pool_new-IsOnce run size e (SignalReach-Reach run reached) in
    let (ts, k) =
      Reach-HasTasks run [] (SignalReach-Reach run reached) (pool_new-HasTasks size e) in
    let (idle, asleep) = all_sleep run u.memory u.executed ts [] u.workers k h no_turn in
    let up = (SignalReach-IsAwake run size e reached).awake in
    let empty : u.memory.size ≡ 0 = elim up [
      | inl none_left ↦ none_left
      | inr some_up ↦ absurd (omega (arith, some_up, asleep))
    ] in
    (empty, λ p. executed_once u p h empty idle)
