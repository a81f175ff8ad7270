-- ===== src/Jobs/Await/Results.antt =====
-- What the callers of `threadpool_job_result_await` return.
use httpserv.Prelude.{
  ℕ, zero, suc, ◌≡◌, refl, ap, ◌∙◌, true, false, List, [], ◌∷◌, ◌++◌, All, some, none, arith,
}
use mathlib.Core.Path.{subst}
use httpserv.Jobs.{JobResult, job_result_new, Task, job_new}
use httpserv.Jobs.Exec.{Functions, result_set, keeps_waiting, job_exec}
use httpserv.Jobs.Await.{
  Stage, running, stored, over, Caller, outside, asleep, woken, leaving, returned, Wait, CallerStep,
  sleeps, passes, sleeps_again, leaves, returns, Signalled, wakes_one, nobody, told, gave_up, Step,
  store, tell, give_up, call, Reach, start, step, spurious, outsiders, wait_new,
}

-- The result that `threadpool_job_exec` leaves in a new job.
abbrev pub final : Functions → Task → JobResult
final run task = (job_exec run (job_new task)).jres

-- What the result is at each stage.
abbrev pub IsAt : Functions → Task → Stage → JobResult → Type 0
IsAt run task running jres = jres ≡ job_result_new
IsAt run task stored jres =
    (f : ℕ) × (task.function ≡ some f) × (jres ≡ result_set job_result_new (run f task.arg))
IsAt run task over jres = jres ≡ final run task

-- A caller is behind the loop only when the job is over.
abbrev pub IsRight : JobResult → JobResult → Caller → Type 0
IsRight end jres outside = Unit
IsRight end jres asleep = Unit
IsRight end jres woken = Unit
IsRight end jres leaving = jres ≡ end
IsRight end jres (returned v) = (jres ≡ end) × (v ≡ end.res)

pub record IsFair (run : Functions) (task : Task) (s : Wait) : Type 0 where
  pub at : IsAt run task s.stage s.jres
  pub right : All (IsRight (final run task) s.jres) s.callers

pub final-keeps_waiting : (run : Functions) (task : Task) → keeps_waiting (final run task) ≡ false
unfolding job_exec keeps_waiting job_new
final-keeps_waiting run task = ground arith

-- A result that keeps callers waiting has none behind the loop.
waiting-IsRight :
    (end jres jres' : JobResult) (cs : List Caller)
    → keeps_waiting jres ≡ true
    → keeps_waiting end ≡ false
    → All (IsRight end jres) cs
    → All (IsRight end jres') cs
waiting-IsRight end jres jres' [] w h k = tt
waiting-IsRight end jres jres' (outside ∷ cs) w h k =
    (tt, waiting-IsRight end jres jres' cs w h k.1)
waiting-IsRight end jres jres' (asleep ∷ cs) w h k = (tt, waiting-IsRight end jres jres' cs w h k.1)
waiting-IsRight end jres jres' (woken ∷ cs) w h k = (tt, waiting-IsRight end jres jres' cs w h k.1)
waiting-IsRight end jres jres' (leaving ∷ cs) w h k = let e : jres ≡ end = k.0 in cc
waiting-IsRight end jres jres' (returned v ∷ cs) w h k = let e : jres ≡ end = k.0.0 in cc

-- A change of one caller.
pub All-change {ℓ κ} :
    {A : Type ℓ} (P : A → Type κ) (before after : List A) {x y : A}
    → (P x → P y)
    → All P (before ++ (x ∷ after))
    → All P (before ++ (y ∷ after))
All-change P [] after f h = (f h.0, h.1)
All-change P (b ∷ before) after f h = (h.0, All-change P before after f h.1)

Signalled-IsRight :
    (end jres : JobResult) {cs cs' : List Caller}
    → Signalled cs cs'
    → All (IsRight end jres) cs
    → All (IsRight end jres) cs'
Signalled-IsRight end jres (wakes_one before after) h =
    All-change (IsRight end jres) before after (λ k. tt) h
Signalled-IsRight end jres (nobody e) h = h

-- Before the job is over the loop of a caller goes on.
IsAt-final :
    (run : Functions) (task : Task) (stage : Stage) (jres : JobResult)
    → IsAt run task stage jres
    → keeps_waiting jres ≡ false
    → jres ≡ final run task
unfolding keeps_waiting
IsAt-final run task running jres h e = ground arith
IsAt-final run task stored jres (f, has, h) e = ground arith
IsAt-final run task over jres h e = h

CallerStep-IsRight :
    (end jres : JobResult) {c c' : Caller}
    → (keeps_waiting jres ≡ false → jres ≡ end)
    → CallerStep jres c c'
    → IsRight end jres c
    → IsRight end jres c'
CallerStep-IsRight end jres f (sleeps e) h = tt
CallerStep-IsRight end jres f (passes e) h = f e
CallerStep-IsRight end jres f (sleeps_again e) h = tt
CallerStep-IsRight end jres f (leaves e) h = f e
CallerStep-IsRight end jres f returns h = let e : jres ≡ end = h in (e, cc)

tell-final :
    (run : Functions) (task : Task) (jres : JobResult)
    → IsAt run task stored jres
    → told jres ≡ final run task
unfolding job_exec job_new
tell-final run task jres (f, has, h) = ground arith

give_up-final :
    (run : Functions) (task : Task) (jres : JobResult)
    → task.function ≡ none
    → jres ≡ job_result_new
    → gave_up jres ≡ final run task
unfolding job_exec job_new
give_up-final run task jres none_there h = ground arith

running-waits : (jres : JobResult) → jres ≡ job_result_new → keeps_waiting jres ≡ true
unfolding keeps_waiting
running-waits jres h = ground arith

stored-waits :
    (run : Functions) (task : Task) (jres : JobResult)
    → IsAt run task stored jres
    → keeps_waiting jres ≡ true
unfolding keeps_waiting
stored-waits run task jres (f, has, h) = ground arith

pub Step-IsFair :
    (run : Functions) (task : Task) {s t : Wait}
    → Step run task s t
    → IsFair run task s
    → IsFair run task t
Step-IsFair run task (store {jres} {cs} f has) h = record {
  at = (f, has, ap (λ j. result_set j (run f task.arg)) h.at);
  right =
      waiting-IsRight (final run task) jres _ cs (running-waits jres h.at)
        (final-keeps_waiting run task) h.right;
}
Step-IsFair run task (tell {jres} {cs} {cs'} signal) h = record {
  at = tell-final run task jres h.at;
  right = Signalled-IsRight (final run task) _ signal (
      waiting-IsRight (final run task) jres _ cs (stored-waits run task jres h.at)
        (final-keeps_waiting run task) h.right);
}
Step-IsFair run task (give_up {jres} {cs} none_there) h = record {
  at = give_up-final run task jres none_there h.at;
  right =
      waiting-IsRight (final run task) jres _ cs (running-waits jres h.at)
        (final-keeps_waiting run task) h.right;
}
Step-IsFair run task (call {jres} {stage} before after one) h = record {
  at = h.at;
  right =
      All-change (IsRight (final run task) jres) before after
        (CallerStep-IsRight (final run task) jres (IsAt-final run task stage jres h.at) one)
        h.right;
}

pub Reach-IsFair :
    (run : Functions) (task : Task) {s t : Wait}
    → Reach run task s t
    → IsFair run task s
    → IsFair run task t
Reach-IsFair run task start h = h
Reach-IsFair run task (step r one) h = Step-IsFair run task one (Reach-IsFair run task r h)
Reach-IsFair run task (spurious {jres} before after r) h =
    let k = Reach-IsFair run task r h in
    record {
      at = k.at;
      right = All-change (IsRight (final run task) jres) before after (λ q. tt) k.right;
    }

outsiders-IsRight : (end jres : JobResult) (n : ℕ) → All (IsRight end jres) (outsiders n)
outsiders-IsRight end jres zero = tt
outsiders-IsRight end jres (suc n) = (tt, outsiders-IsRight end jres n)

pub wait_new-IsFair : (run : Functions) (task : Task) (n : ℕ) → IsFair run task (wait_new n)
wait_new-IsFair run task n = record { at = refl; right = outsiders-IsRight _ _ n }

-- The loop of a caller ends when the job is over.
pub over-keeps_waiting :
    (run : Functions) (task : Task) {s : Wait}
    → IsFair run task s
    → s.stage ≡ over
    → keeps_waiting s.jres ≡ false
over-keeps_waiting run task {s} h e =
    let same : s.jres ≡ final run task = subst (λ x. IsAt run task x s.jres) e h.at in
    ap keeps_waiting same ∙ final-keeps_waiting run task

-- For a new job and any number of callers of `threadpool_job_result_await`, also when they wake
-- without a signal: in every state that is reached a caller is behind the loop only when the job is
-- over, and a caller that has returned has the result that `threadpool_job_exec` leaves, which is
-- NULL for a job without a function.
pub Reach-wait_new-IsRight :
    (run : Functions) (task : Task) (n : ℕ) {s : Wait}
    → Reach run task (wait_new n) s
    → All (IsRight (final run task) s.jres) s.callers
Reach-wait_new-IsRight run task n r = (Reach-IsFair run task r (wait_new-IsFair run task n)).right
