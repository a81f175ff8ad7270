-- ===== src/Jobs/Await/Returns.antt =====
-- A caller that waits alone returns.
use httpserv.Prelude.{ℕ, ◌≤◌, ◌≡◌, refl, ap, ◌∙◌, List, [], ◌∷◌, Option, some, arith}
use mathlib.Core.Path.{subst}
use httpserv.Jobs.{JobResult, Task, job_new}
use httpserv.Jobs.Exec.{Functions, result_set, job_exec}
use httpserv.Jobs.Await.{
  Stage, running, stored, over, Caller, outside, asleep, woken, leaving, returned, Wait, passes,
  leaves, returns, sleepers, Signalled, wakes_one, nobody, told, Step, store, tell, call, Steps,
  here, next, Reach, wait_new,
}
use httpserv.Jobs.Await.Results.{
  final, IsFair, Step-IsFair, Reach-IsFair, wait_new-IsFair, over-keeps_waiting,
}
use httpserv.Jobs.Await.Sleepers.{IsSpared, Reach-wait_new-IsSpared}

-- Steps by which the only caller returns `v`.
abbrev Ends : Functions → Task → Wait → Option ℕ → Type 0
Ends run task s v = (t : Wait) × Steps run task s t × (t.callers ≡ returned v ∷ [])

prepend :
    (run : Functions) (task : Task) {s t u : Wait}
    → Step run task s t
    → Steps run task t u
    → Steps run task s u
prepend run task one here = next here one
prepend run task one (next r two) = next (prepend run task one r) two

Ends-Step :
    (run : Functions) (task : Task) {s t : Wait} (v : Option ℕ)
    → Step run task s t
    → Ends run task t v
    → Ends run task s v
Ends-Step run task v one (u, r, e) = (u, prepend run task one r, e)

-- Behind the loop of a job that is over.
leaving-Ends :
    (run : Functions) (task : Task) (jres : JobResult)
    → Ends run task (record { jres = jres; stage = over; callers = leaving ∷ [] }) jres.res
leaving-Ends run task jres = (_, next here (call [] [] returns), refl)

over-Ends :
    (run : Functions) (task : Task) (jres : JobResult) (c : Caller)
    → IsFair run task (record { jres = jres; stage = over; callers = c ∷ [] })
    → sleepers (c ∷ []) ≤ 0
    → Ends run task (record { jres = jres; stage = over; callers = c ∷ [] }) jres.res
over-Ends run task jres outside fair h =
    Ends-Step run task jres.res (call [] [] (passes (over-keeps_waiting run task fair refl)))
      (leaving-Ends run task jres)
over-Ends run task jres asleep fair h = absurd (omega (arith, h))
over-Ends run task jres woken fair h =
    Ends-Step run task jres.res (call [] [] (leaves (over-keeps_waiting run task fair refl)))
      (leaving-Ends run task jres)
over-Ends run task jres leaving fair h = leaving-Ends run task jres
over-Ends run task jres (returned v) fair h =
    let same : jres ≡ final run task = fair.right.0.0 in
    let read : v ≡ (final run task).res = fair.right.0.1 in (_, here, cc)

-- A signal to one caller.
signal_one : (c : Caller) → (c' : Caller) × Signalled (c ∷ []) (c' ∷ []) × (sleepers (c' ∷ []) ≤ 0)
signal_one outside = (outside, nobody (omega arith), omega arith)
signal_one asleep = (woken, wakes_one [] [], omega arith)
signal_one woken = (woken, nobody (omega arith), omega arith)
signal_one leaving = (leaving, nobody (omega arith), omega arith)
signal_one (returned v) = (returned v, nobody (omega arith), omega arith)

stored-Ends :
    (run : Functions) (task : Task) (jres : JobResult) (c : Caller)
    → IsFair run task (record { jres = jres; stage = stored; callers = c ∷ [] })
    → Ends run task (record { jres = jres; stage = stored; callers = c ∷ [] }) jres.res
stored-Ends run task jres c fair =
    let (c', signal, up) = signal_one c in
    Ends-Step run task jres.res (tell signal)
      (over-Ends run task (told jres) c' (Step-IsFair run task (tell signal) fair) up)

running-Ends :
    (run : Functions) (task : Task) (f : ℕ) (jres : JobResult) (c : Caller)
    → task.function ≡ some f
    → IsFair run task (record { jres = jres; stage = running; callers = c ∷ [] })
    → Ends run task (record { jres = jres; stage = running; callers = c ∷ [] }) (run f task.arg)
running-Ends run task f jres c has fair = Ends-Step run task (run f task.arg) (store f has) (
    stored-Ends run task (result_set jres (run f task.arg)) c
      (Step-IsFair run task (store f has) fair))

final-res :
    (run : Functions) (task : Task) (f : ℕ)
    → task.function ≡ some f
    → (final run task).res ≡ run f task.arg
unfolding job_exec job_new
final-res run task f has = ground arith

stage-Ends :
    (run : Functions) (task : Task) (f : ℕ) (jres : JobResult) (stage : Stage) (cs : List Caller)
    → task.function ≡ some f
    → IsFair run task (record { jres = jres; stage = stage; callers = cs })
    → IsSpared 1 (record { jres = jres; stage = stage; callers = cs })
    → Ends run task (record { jres = jres; stage = stage; callers = cs }) (run f task.arg)
stage-Ends run task f jres stage [] has fair h = absurd (omega (arith, h.number))
stage-Ends run task f jres running (c ∷ []) has fair h = running-Ends run task f jres c has fair
stage-Ends run task f jres stored (c ∷ []) has fair h =
    let (g, had, same) = fair.at in
    let f_is_g : g ≡ f = cc in
    let res : jres.res ≡ run f task.arg = cc in
    subst (λ v. Ends run task (record { jres = jres; stage = stored; callers = c ∷ [] }) v) res
      (stored-Ends run task jres c fair)
stage-Ends run task f jres over (c ∷ []) has fair h =
    subst (λ v. Ends run task (record { jres = jres; stage = over; callers = c ∷ [] }) v)
      (ap (λ (j : JobResult). j.res) fair.at ∙ final-res run task f has)
      (over-Ends run task jres c fair (omega (arith, h.spared refl)))
stage-Ends run task f jres stage (c ∷ (d ∷ cs)) has fair h = absurd (omega (arith, h.number))

-- For a new job with a function and one caller of `threadpool_job_result_await`: from every state
-- that is reached there are steps, none of them a waking without a signal, to a state in which the
-- caller has returned what the function returns for its argument.
pub sole_caller_returns :
    (run : Functions) (task : Task) (f : ℕ) {s : Wait}
    → task.function ≡ some f
    → Reach run task (wait_new 1) s
    → (t : Wait) × Steps run task s t × (t.callers ≡ returned (run f task.arg) ∷ [])
sole_caller_returns run task f {s} has r =
    stage-Ends run task f s.jres s.stage s.callers has
      (Reach-IsFair run task r (wait_new-IsFair run task 1))
      (Reach-wait_new-IsSpared run task 1 f has r)
