-- ===== src/Jobs/Await/Sleepers.antt =====
-- How many callers stay asleep when a job is over.
use httpserv.Prelude.{
  ℕ, zero, suc, ◌+◌, ◌-◌, ◌≤◌, ◌≡◌, ◌≢◌, refl, ◌∙◌, false, List, [], ◌∷◌, ◌++◌, Option, some, none,
  arith, length, length-append,
}
use httpserv.Jobs.{JobResult, Task}
use httpserv.Jobs.Exec.{Functions, keeps_waiting}
use httpserv.Jobs.Await.{
  running, stored, over, Caller, outside, asleep, woken, leaving, returned, Wait, CallerStep,
  sleeps, passes, sleeps_again, leaves, returns, sleeping, sleepers, Signalled, wakes_one, nobody,
  Step, store, tell, give_up, call, Steps, here, next, Reach, start, step, spurious, outsiders,
  wait_new,
}
use httpserv.Jobs.Await.Results.{
  IsFair, Step-IsFair, Reach-IsFair, wait_new-IsFair, over-keeps_waiting,
}

pub sleepers-append : (xs ys : List Caller) → sleepers (xs ++ ys) ≡ sleepers xs + sleepers ys
sleepers-append [] ys = omega arith
sleepers-append (x ∷ xs) ys = omega (arith, sleepers-append xs ys)

sleeping_bound : (c : Caller) → sleeping c ≤ 1
sleeping_bound outside = omega arith
sleeping_bound asleep = omega arith
sleeping_bound woken = omega arith
sleeping_bound leaving = omega arith
sleeping_bound (returned v) = omega arith

pub sleepers_bound : (xs : List Caller) → sleepers xs ≤ length xs
sleepers_bound [] = omega arith
sleepers_bound (x ∷ xs) = omega (arith, sleeping_bound x, sleepers_bound xs)

-- A signal wakes one of those that sleep.
pub Signalled-sleepers : {cs cs' : List Caller} → Signalled cs cs' → sleepers cs' ≡ sleepers cs - 1
Signalled-sleepers (wakes_one before after) =
    omega (arith, sleepers-append before (asleep ∷ after), sleepers-append before (woken ∷ after))
Signalled-sleepers (nobody e) = omega (arith, e)

-- When the loop would end, a step of a caller neither starts nor ends a sleep.
CallerStep-sleeping :
    (jres : JobResult) {c c' : Caller}
    → keeps_waiting jres ≡ false
    → CallerStep jres c c'
    → sleeping c' ≡ sleeping c
CallerStep-sleeping jres h (sleeps e) = cc
CallerStep-sleeping jres h (passes e) = refl
CallerStep-sleeping jres h (sleeps_again e) = cc
CallerStep-sleeping jres h (leaves e) = refl
CallerStep-sleeping jres h returns = refl

-- The job is over, and its result lets callers pass.
pub record IsOver (s : Wait) : Type 0 where
  pub stage_over : s.stage ≡ over
  pub passable : keeps_waiting s.jres ≡ false

Step-IsOver :
    (run : Functions) (task : Task) {s t : Wait}
    → Step run task s t
    → IsOver s
    → IsOver t × (sleepers t.callers ≡ sleepers s.callers)
Step-IsOver run task (store f has) h = let e : running ≡ over = h.stage_over in cc
Step-IsOver run task (tell signal) h = let e : stored ≡ over = h.stage_over in cc
Step-IsOver run task (give_up none_there) h = let e : running ≡ over = h.stage_over in cc
Step-IsOver run task (call {jres} before after {c} {c'} one) h = (
  record { stage_over = h.stage_over; passable = h.passable },
  omega (
    arith,
    sleepers-append before (c ∷ after),
    sleepers-append before (c' ∷ after),
    CallerStep-sleeping jres h.passable one,
  ),
)

pub Steps-IsOver :
    (run : Functions) (task : Task) {s t : Wait}
    → Steps run task s t
    → IsOver s
    → IsOver t × (sleepers t.callers ≡ sleepers s.callers)
Steps-IsOver run task here h = (h, refl)
Steps-IsOver run task (next r one) h =
    let (k, same) = Steps-IsOver run task r h in
    let (k', same') = Step-IsOver run task one k in (k', same' ∙ same)

-- 1 for a job with a function.
abbrev pub told_of : Option ℕ → ℕ
told_of none = 0
told_of (some f) = 1

last_step :
    (run : Functions) (task : Task) {s t : Wait}
    → Step run task s t
    → s.stage ≢ over
    → t.stage ≡ over
    → IsFair run task s
    → sleepers t.callers ≡ sleepers s.callers - told_of task.function
last_step run task (store f has) h e fair = let e' : stored ≡ over = e in cc
last_step run task (tell signal) h e fair =
    let (f, has, same) = fair.at in rw has (Signalled-sleepers signal)
last_step run task (give_up none_there) h e fair = rw none_there (omega arith)
last_step run task (call before after one) h e fair = absurd (h e)

-- For a new job and any number of callers: when the step by which the job is over is made in a
-- state that is reached, then after any further steps, none of them a waking without a signal, as
-- many callers sleep as before that step, less one if the job has a function.
pub over-sleepers :
    (run : Functions) (task : Task) (n : ℕ) {s t u : Wait}
    → Reach run task (wait_new n) s
    → s.stage ≢ over
    → Step run task s t
    → t.stage ≡ over
    → Steps run task t u
    → sleepers u.callers ≡ sleepers s.callers - told_of task.function
over-sleepers run task n {s} {t} r before last e rest =
    let fair = Reach-IsFair run task r (wait_new-IsFair run task n) in
    let fair' = Step-IsFair run task last fair in
    (Steps-IsOver run task rest
      (record { stage_over = e; passable = over-keeps_waiting run task fair' e })).1
    ∙ last_step run task last before e fair

-- The callers are `n`, and when a job with a function is over one of them does not sleep.
pub record IsSpared (n : ℕ) (s : Wait) : Type 0 where
  pub number : length s.callers ≡ n
  pub spared : s.stage ≡ over → sleepers s.callers ≤ n - 1

length-change :
    (before after : List Caller) (c c' : Caller)
    → length (before ++ (c' ∷ after)) ≡ length (before ++ (c ∷ after))
length-change before after c c' =
    omega (arith, length-append before (c ∷ after), length-append before (c' ∷ after))

Signalled-length : {cs cs' : List Caller} → Signalled cs cs' → length cs' ≡ length cs
Signalled-length (wakes_one before after) = length-change before after asleep woken
Signalled-length (nobody e) = refl

Step-IsSpared :
    (run : Functions) (task : Task) (n f : ℕ) {s t : Wait}
    → task.function ≡ some f
    → IsFair run task s
    → Step run task s t
    → IsSpared n s
    → IsSpared n t
Step-IsSpared run task n f some_there fair (store g has) h = record {
  number = h.number;
  spared = λ (e : stored ≡ over). cc;
}
Step-IsSpared run task n f some_there fair (tell {jres} {cs} {cs'} signal) h = record {
  number = Signalled-length signal ∙ h.number;
  spared = λ e. omega (arith, Signalled-sleepers signal, sleepers_bound cs, h.number);
}
Step-IsSpared run task n f some_there fair (give_up none_there) h = cc
Step-IsSpared run task n f some_there fair (call {jres} {stage} before after {c} {c'} one) h =
    record {
      number = length-change before after c c' ∙ h.number;
      spared = λ e. omega (
        arith,
        h.spared e,
        sleepers-append before (c ∷ after),
        sleepers-append before (c' ∷ after),
        CallerStep-sleeping jres (over-keeps_waiting run task fair e) one,
      );
    }

Reach-IsSpared :
    (run : Functions) (task : Task) (n f : ℕ) {s t : Wait}
    → task.function ≡ some f
    → Reach run task s t
    → IsFair run task s
    → IsSpared n s
    → IsSpared n t
Reach-IsSpared run task n f some_there start fair h = h
Reach-IsSpared run task n f some_there (step r one) fair h =
    Step-IsSpared run task n f some_there (Reach-IsFair run task r fair) one
      (Reach-IsSpared run task n f some_there r fair h)
Reach-IsSpared run task n f some_there (spurious before after r) fair h =
    let k = Reach-IsSpared run task n f some_there r fair h in
    record {
      number = length-change before after asleep woken ∙ k.number;
      spared = λ e. omega (
        arith,
        k.spared e,
        sleepers-append before (asleep ∷ after),
        sleepers-append before (woken ∷ after),
      );
    }

length-outsiders : (n : ℕ) → length (outsiders n) ≡ n
length-outsiders zero = refl
length-outsiders (suc n) = omega (arith, length-outsiders n)

pub Reach-wait_new-IsSpared :
    (run : Functions) (task : Task) (n f : ℕ) {s : Wait}
    → task.function ≡ some f
    → Reach run task (wait_new n) s
    → IsSpared n s
Reach-wait_new-IsSpared run task n f some_there r =
    Reach-IsSpared run task n f some_there r (wait_new-IsFair run task n)
      (record { number = length-outsiders n; spared = λ (e : running ≡ over). cc })
