-- ===== src/Jobs/Pool/Cancel/Ends.antt =====
-- How many workers of a pool end when they are cancelled.
use httpserv.Prelude.{
  ℕ, ◌+◌, ◌≤◌, ◌≡◌, refl, ◌∙◌, Bool, true, false, List, [], ◌∷◌, ◌++◌, length, length-append, arith,
  one_if,
}
use httpserv.Jobs.Exec.{Functions}
use httpserv.Jobs.Queue.{Memory}
use httpserv.Jobs.Pool.{Phase, looping, waiting, woken, executing, Pool}
use httpserv.Jobs.Pool.Cancel.{
  Thread, alive, ended, Stopping, settle, CancelStep, request, act, first_take, wake, second_take,
  finish, CancelReach, here, next, all_alive,
}

abbrev pub gone : Thread → ℕ
gone (alive w pending) = 0
gone ended = 1

-- How many threads have ended.
abbrev pub ends : List Thread → ℕ
ends [] = 0
ends (t ∷ ts) = gone t + ends ts

ends-append : (xs ys : List Thread) → ends (xs ++ ys) ≡ ends xs + ends ys
ends-append [] ys = omega arith
ends-append (x ∷ xs) ys = omega (arith, ends-append xs ys)

settle-gone : (w : Phase) (pending : Bool) → gone (settle w pending).0 ≡ one_if (settle w pending).1
unfolding settle
settle-gone waiting true = refl
settle-gone waiting false = refl
settle-gone looping pending = refl
settle-gone woken pending = refl
settle-gone (executing x) pending = refl

-- A thread has ended just when the mutex is lost.
pub record IsCounted (n : ℕ) (s : Stopping) : Type 0 where
  pub number : length s.threads ≡ n
  pub lost : ends s.threads ≡ one_if s.locked

-- One thread changes.
change-IsCounted :
    (n : ℕ) (m m' : Memory) (l l' : Bool) (before after : List Thread) (t t' : Thread)
    → gone t' + one_if l ≡ gone t + one_if l'
    → IsCounted n (record { memory = m; locked = l; threads = before ++ (t ∷ after) })
    → IsCounted n (record { memory = m'; locked = l'; threads = before ++ (t' ∷ after) })
change-IsCounted n m m' l l' before after t t' same h = record {
  number =
      omega (arith, h.number, length-append before (t ∷ after), length-append before (t' ∷ after));
  lost =
      omega (arith, same, h.lost, ends-append before (t ∷ after), ends-append before (t' ∷ after));
}

CancelStep-IsCounted :
    (run : Functions) (n : ℕ) {s t : Stopping} → CancelStep run s t → IsCounted n s → IsCounted n t
CancelStep-IsCounted run n (request before after w pending) h =
    change-IsCounted n _ _ _ _ before after _ _ refl h
CancelStep-IsCounted run n (act before after) h =
    change-IsCounted n _ _ false true before after (alive waiting true) ended refl h
CancelStep-IsCounted run n (first_take before after w pending popped) h =
    change-IsCounted n _ _ false (settle w pending).1 before after (alive looping pending)
      (settle w pending).0 (omega (arith, settle-gone w pending)) h
CancelStep-IsCounted run n (wake before after pending) h =
    change-IsCounted n _ _ _ _ before after _ _ refl h
CancelStep-IsCounted run n (second_take before after w pending popped) h =
    change-IsCounted n _ _ _ _ before after _ _ refl h
CancelStep-IsCounted run n (finish before after pending x job stored) h =
    change-IsCounted n _ _ _ _ before after _ _ refl h

CancelReach-IsCounted :
    (run : Functions) (n : ℕ) {s t : Stopping} → CancelReach run s t → IsCounted n s → IsCounted n t
CancelReach-IsCounted run n here h = h
CancelReach-IsCounted run n (next r one) h =
    CancelStep-IsCounted run n one (CancelReach-IsCounted run n r h)

all_alive-IsCounted :
    (m : Memory) (ws : List Phase)
    → IsCounted (length ws) (record { memory = m; locked = false; threads = all_alive ws })
all_alive-IsCounted m [] = record { number = refl; lost = refl }
all_alive-IsCounted m (w ∷ ws) =
    let h = all_alive-IsCounted m ws in
    record { number = omega (arith, h.number); lost = omega (arith, h.lost) }

-- The pool at the start of `threadpool_destroy`.
abbrev pub stopping : Pool → Stopping
stopping pool = record { memory = pool.memory; locked = false; threads = all_alive pool.workers }

-- At most one worker of the pool ends.
CancelReach-ends :
    (run : Functions) (pool : Pool) {s : Stopping}
    → CancelReach run (stopping pool) s
    → (ends s.threads ≡ one_if s.locked) × (length s.threads ≡ length pool.workers)
CancelReach-ends run pool r =
    let h =
      CancelReach-IsCounted run (length pool.workers) r
        (all_alive-IsCounted pool.memory pool.workers) in
    (h.lost, h.number)

-- Where the mutex is lost it stays so, and the queue stays as it is.
CancelStep-locked :
    (run : Functions) {s t : Stopping}
    → CancelStep run s t
    → s.locked ≡ true
    → (t.locked ≡ true) × (t.memory.size ≡ s.memory.size)
CancelStep-locked run (request before after w pending) h = (h, refl)
CancelStep-locked run (act before after) h = let e : false ≡ true = h in cc
CancelStep-locked run (first_take before after w pending popped) h = let e : false ≡ true = h in cc
CancelStep-locked run (wake before after pending) h = (h, refl)
CancelStep-locked run (second_take before after w pending popped) h = let e : false ≡ true = h in cc
CancelStep-locked run (finish before after pending x job stored) h = (h, refl)

CancelReach-locked :
    (run : Functions) {s t : Stopping}
    → CancelReach run s t
    → s.locked ≡ true
    → (t.locked ≡ true) × (t.memory.size ≡ s.memory.size)
CancelReach-locked run here h = (h, refl)
CancelReach-locked run (next r one) h =
    let (kept, same) = CancelReach-locked run r h in
    let (kept', same') = CancelStep-locked run one kept in (kept', same' ∙ same)

CancelReach-append :
    (run : Functions) {s t u : Stopping}
    → CancelReach run s t
    → CancelReach run t u
    → CancelReach run s u
CancelReach-append run r here = r
CancelReach-append run r (next q one) = next (CancelReach-append run r q) one

-- When the workers of a pool are cancelled, in any order between their own steps and from any state
-- of the pool: from a state on in which at least one worker has ended, just one has ended and no
-- other ever does, and no queued job is taken any more.
pub CancelReach-stuck :
    (run : Functions) (pool : Pool) {s t : Stopping}
    → CancelReach run (stopping pool) s
    → 1 ≤ ends s.threads
    → CancelReach run s t
    → (ends t.threads ≡ 1)
      × (length t.threads ≡ length pool.workers)
      × (t.memory.size ≡ s.memory.size)
CancelReach-stuck run pool {s} {t} r one_gone rest =
    let (lost, number) = CancelReach-ends run pool r in
    let (kept, same) = CancelReach-locked run rest (ground (arith, lost, one_gone)) in
    let (lost', number') = CancelReach-ends run pool (CancelReach-append run r rest) in
    (ground (arith, lost', kept), number', same)
