-- ===== src/Jobs/Pool/Signals/Awake.antt =====
-- No signal of a submission is lost.
use httpserv.Prelude.{
  ℕ, suc, ◌+◌, ◌<◌, ◌≤◌, ◌≡◌, refl, sym, ap, ◌∙◌, ◌⊎◌, inl, inr, List, [], ◌∷◌, ◌++◌, length,
  length-append, some, arith, ◌>>=◌,
}
use httpserv.Jobs.{Task}
use httpserv.Jobs.Exec.{Functions}
use httpserv.Jobs.Queue.{Memory, queue_new}
use httpserv.Jobs.Queue.Fifo.{IsQueue, pop_job_empty, pop_job-IsQueue}
use httpserv.Jobs.Pool.{
  Phase, looping, waiting, woken, executing, Pool, try_pop, WorkerStep, first_take, wake,
  second_take, finish, Reach, here, next, work, submit, pool_new,
}
use httpserv.Jobs.Pool.Once.{IsOnce, WorkerStep-IsOnce, Reach-pool_new-IsOnce, same_pair}
use httpserv.Jobs.Pool.Drain.{pool_new-length, WorkerStep-length}
use httpserv.Jobs.Pool.Signals.{
  sleeping, sleepers, Signalled, wakes_one, nobody, IsAwakeStep, Turn, SignalStep, add, turn,
  SignalReach, start,
}
use httpserv.Jobs.Pool.Signals

-- How a take ends: without a job the queue is empty, with one it has one job less.
abbrev pub TakeEnd : Phase → Memory → Phase → Memory → Type 0
TakeEnd idle m w m' =
    ((w ≡ idle) × (m'.size ≡ 0) × (m.size ≡ 0))
    ⊎ ((x : ℕ) × (w ≡ executing x) × (m.size ≡ suc m'.size))

try_pop-queue :
    (idle : Phase) (m m' : Memory) (w : Phase) (xs : List (ℕ × Task))
    → IsQueue m xs
    → try_pop idle m ≡ some (w, m')
    → TakeEnd idle m w m'
unfolding try_pop
try_pop-queue idle m m' w [] q e =
    let (same_w, same_m) = same_pair idle w m m' (rw (pop_job_empty m q, ◌>>=◌) at e) in
    inl (sym same_w, ap (λ (x : Memory). x.size) (sym same_m) ∙ q.counted, q.counted)
try_pop-queue idle m m' w ((x, t) ∷ xs) q e =
    let (m1, popped, q1, kept, left) = pop_job-IsQueue m x t xs q in
    let (same_w, same_m) = same_pair (executing x) w m1 m' (rw (popped, ◌>>=◌) at e) in
    inr (x, sym same_w, omega (arith, q.counted, q1.counted, ap (λ (x : Memory). x.size) same_m))

pub try_pop-TakeEnd :
    (idle : Phase) (m m' : Memory) (w : Phase) {ws : List Phase} {e : List ℕ}
    → IsOnce (record { memory = m; workers = ws; executed = e })
    → try_pop idle m ≡ some (w, m')
    → TakeEnd idle m w m'
try_pop-TakeEnd idle m m' w h popped = try_pop-queue idle m m' w h.queue h.ordered popped

pub sleepers-append : (xs ys : List Phase) → sleepers (xs ++ ys) ≡ sleepers xs + sleepers ys
sleepers-append [] ys = omega arith
sleepers-append (x ∷ xs) ys = omega (arith, sleepers-append xs ys)

sleeping_bound : (w : Phase) → sleeping w ≤ 1
sleeping_bound looping = omega arith
sleeping_bound waiting = omega arith
sleeping_bound woken = omega arith
sleeping_bound (executing x) = omega arith

sleepers_bound : (ws : List Phase) → sleepers ws ≤ length ws
sleepers_bound [] = omega arith
sleepers_bound (w ∷ ws) = omega (arith, sleeping_bound w, sleepers_bound ws)

-- While a job is queued some worker is awake.
pub record IsAwake (s : Pool) : Type 0 where
  pub some_worker : 1 ≤ length s.workers
  pub awake : (s.memory.size ≡ 0) ⊎ (sleepers s.workers < length s.workers)

-- A worker that does not sleep is awake.
not_all_sleep :
    (before after : List Phase) (w : Phase)
    → sleeping w ≡ 0
    → sleepers (before ++ (w ∷ after)) < length (before ++ (w ∷ after))
not_all_sleep before after w h = omega (
  arith,
  h,
  sleepers-append before (w ∷ after),
  length-append before (w ∷ after),
  sleepers_bound before,
  sleepers_bound after,
)

take-awake :
    (idle : Phase) (m m' : Memory) (w : Phase) (before after : List Phase)
    → TakeEnd idle m w m'
    → (m'.size ≡ 0) ⊎ (sleepers (before ++ (w ∷ after)) < length (before ++ (w ∷ after)))
take-awake idle m m' w before after (inl (same, empty, was)) = inl empty
take-awake idle m m' w before after (inr (x, same, less)) =
    inr (not_all_sleep before after w (ap sleeping same))

WorkerStep-awake :
    (run : Functions) {s t : Pool} (step : WorkerStep run s t)
    → IsAwakeStep step
    → IsOnce s
    → (t.memory.size ≡ 0) ⊎ (sleepers t.workers < length t.workers)
WorkerStep-awake run (first_take {m} {m'} before after {w} popped) a h =
    take-awake waiting m m' w before after (try_pop-TakeEnd waiting m m' w h popped)
WorkerStep-awake run (wake before after) a h = absurd a
WorkerStep-awake run (second_take {m} {m'} before after {w} popped) a h =
    take-awake looping m m' w before after (try_pop-TakeEnd looping m m' w h popped)
WorkerStep-awake run (finish before after x job stored) a h =
    inr (not_all_sleep before after looping refl)

-- A step that is no waking is one of a worker that does not sleep.
pub WorkerStep-sleepers :
    (run : Functions) {s t : Pool} (step : WorkerStep run s t)
    → IsAwakeStep step
    → sleepers s.workers < length s.workers
WorkerStep-sleepers run (first_take before after popped) a = not_all_sleep before after looping refl
WorkerStep-sleepers run (wake before after) a = absurd a
WorkerStep-sleepers run (second_take before after popped) a = not_all_sleep before after woken refl
WorkerStep-sleepers run (finish before after x job stored) a =
    not_all_sleep before after (executing x) refl

pub Signalled-length : {ws vs : List Phase} → Signalled ws vs → length ws ≡ length vs
Signalled-length (wakes_one before after) =
    omega (arith, length-append before (waiting ∷ after), length-append before (woken ∷ after))
Signalled-length (nobody e) = refl

Signalled-awake :
    {ws vs : List Phase}
    → Signalled ws vs
    → 1 ≤ length ws
    → (length vs ≡ length ws) × (sleepers vs < length vs)
Signalled-awake (wakes_one before after) h =
    (sym (Signalled-length (wakes_one before after)), not_all_sleep before after woken refl)
Signalled-awake (nobody e) h = (refl, omega (arith, e, h))

Signalled-cons :
    (w : Phase) {ws vs : List Phase}
    → Signalled ws vs
    → sleeping w ≡ 0
    → Signalled (w ∷ ws) (w ∷ vs)
Signalled-cons w (wakes_one before after) h = wakes_one (w ∷ before) after
Signalled-cons w (nobody e) h = nobody (omega (arith, e, h))

-- A signal can always be sent.
pub signal_any : (ws : List Phase) → (vs : List Phase) × Signalled ws vs
signal_any [] = ([], nobody refl)
signal_any (waiting ∷ ws) = (woken ∷ ws, wakes_one [] ws)
signal_any (looping ∷ ws) =
    let (vs, k) = signal_any ws in (looping ∷ vs, Signalled-cons looping k refl)
signal_any (woken ∷ ws) = let (vs, k) = signal_any ws in (woken ∷ vs, Signalled-cons woken k refl)
signal_any (executing x ∷ ws) =
    let (vs, k) = signal_any ws in (executing x ∷ vs, Signalled-cons (executing x) k refl)

pub Signalled-IsOnce :
    (run : Functions) {m : Memory} {e : List ℕ} {ws vs : List Phase}
    → Signalled ws vs
    → IsOnce (record { memory = m; workers = ws; executed = e })
    → IsOnce (record { memory = m; workers = vs; executed = e })
Signalled-IsOnce run (wakes_one before after) h = WorkerStep-IsOnce run (wake before after) h
Signalled-IsOnce run (nobody none_there) h = h

signalled :
    (run : Functions) {s : Pool} {m : Memory} {e : List ℕ} {ws vs : List Phase}
    → Signalled ws vs
    → Reach run s (record { memory = m; workers = ws; executed = e })
    → Reach run s (record { memory = m; workers = vs; executed = e })
signalled run (wakes_one before after) r = next r (work (wake before after))
signalled run (nobody none_there) r = r

-- Steps with signals are steps of the pool.
pub SignalReach-Reach : (run : Functions) {s t : Pool} → SignalReach run s t → Reach run s t
SignalReach-Reach run start = here
SignalReach-Reach run (Signals.next r (turn (step, a))) = next (SignalReach-Reach run r) (work step)
SignalReach-Reach run (Signals.next r (add task added signal)) =
    signalled run signal (next (SignalReach-Reach run r) (submit task added))

pub pool_new-IsAwake : (size : ℕ) {s : Pool} → pool_new size ≡ some s → IsAwake s
unfolding pool_new queue_new
pool_new-IsAwake size {s} e =
    let (n, same, number) = pool_new-length size e in
    record { some_worker = omega (arith, number); awake = inl (ground arith) }

pub SignalReach-IsAwake :
    (run : Functions) (size : ℕ) {s t : Pool}
    → pool_new size ≡ some s
    → SignalReach run s t
    → IsAwake t
SignalReach-IsAwake run size e start = pool_new-IsAwake size e
SignalReach-IsAwake run size e (Signals.next r (turn (step, a))) =
    let h = SignalReach-IsAwake run size e r in
    record {
      some_worker = omega (arith, h.some_worker, WorkerStep-length run step);
      awake =
          WorkerStep-awake run step a (Reach-pool_new-IsOnce run size e (SignalReach-Reach run r));
    }
SignalReach-IsAwake run size e (Signals.next r (add task added signal)) =
    let h = SignalReach-IsAwake run size e r in
    let (number, up) = Signalled-awake signal h.some_worker in
    record { some_worker = omega (arith, number, h.some_worker); awake = inr up }
