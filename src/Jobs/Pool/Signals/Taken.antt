-- ===== src/Jobs/Pool/Signals/Taken.antt =====
-- What is left to workers that sleep or have jobs that never return.
use httpserv.Prelude.{ℕ, ◌≡◌, refl, Bool, false, List, [], ◌∷◌, ◌++◌, All}
use httpserv.Jobs.Exec.{Functions}
use httpserv.Jobs.Pool.{
  Phase, looping, waiting, woken, executing, Pool, WorkerStep, first_take, wake, second_take,
  finish,
}
use httpserv.Jobs.Pool.Signals.{Signalled, wakes_one, nobody}
use httpserv.Jobs.Pool.Signals.Serves.{IsReturning, Service}
use httpserv.Jobs.Pool.Signals.Rest.{IsAtRest, IsTaken}

All-at :
    (P : Phase → Type 0) (before after : List Phase) (w : Phase)
    → All P (before ++ (w ∷ after))
    → P w
All-at P [] after w h = h.0
All-at P (v ∷ before) after w h = All-at P before after w h.1

-- Where all workers are at rest, no service is left.
pub rest-Service :
    (run : Functions) (ends : ℕ → Bool) {s t : Pool}
    → All (IsAtRest ends) s.workers
    → Service run ends s t
    → ⊥
rest-Service run ends h (first_take before after popped, a, r) =
    All-at (IsAtRest ends) before after looping h
rest-Service run ends h (wake before after, a, r) = a
rest-Service run ends h (second_take before after popped, a, r) =
    All-at (IsAtRest ends) before after woken h
rest-Service run ends h (finish before after x job stored, a, r) =
    let never : ends x ≡ false = All-at (IsAtRest ends) before after (executing x) h in cc

-- Where all workers are taken, only the end of a job that never returns is a step of one.
pub taken-WorkerStep :
    (run : Functions) (ends : ℕ → Bool) {s t : Pool}
    → All (IsTaken ends) s.workers
    → (step : WorkerStep run s t) → IsReturning ends step
    → ⊥
taken-WorkerStep run ends h (first_take before after popped) r =
    All-at (IsTaken ends) before after looping h
taken-WorkerStep run ends h (wake before after) r = All-at (IsTaken ends) before after waiting h
taken-WorkerStep run ends h (second_take before after popped) r =
    All-at (IsTaken ends) before after woken h
taken-WorkerStep run ends h (finish before after x job stored) r =
    let never : ends x ≡ false = All-at (IsTaken ends) before after (executing x) h in cc

-- Then a signal wakes nobody.
pub taken-Signalled :
    (ends : ℕ → Bool) {ws vs : List Phase} → All (IsTaken ends) ws → Signalled ws vs → vs ≡ ws
taken-Signalled ends h (wakes_one before after) =
    absurd (All-at (IsTaken ends) before after waiting h)
taken-Signalled ends h (nobody e) = refl
