-- ===== src/Jobs/Pool/Signals/Rest.antt =====
-- Where the services of a pool end in which some jobs never return.
use httpserv.Prelude.{
  ℕ, zero, suc, ◌≤◌, ◌+◌, ◌≡◌, ◌≢◌, refl, sym, ◌⊎◌, inl, inr, Bool, true, false, Bool-cases, List,
  [], ◌∷◌, ◌++◌, append_assoc, arith, All, ltb,
}
use mathlib.Core.Path.{subst}
use httpserv.Jobs.{Task}
use httpserv.Jobs.Exec.{Functions}
use httpserv.Jobs.Queue.{Memory}
use httpserv.Jobs.Pool.{
  Phase, looping, waiting, woken, executing, Pool, first_take, second_take, finish,
}
use httpserv.Jobs.Pool.Count.{one_if, held, times}
use httpserv.Jobs.Pool.Once.{IsOnce, WorkerStep-IsOnce}
use httpserv.Jobs.Pool.Tasks.{HasTasks, WorkerStep-HasTasks}
use httpserv.Jobs.Pool.Progress.{try_pop-some, held-Stored}
use httpserv.Jobs.Pool.Drain.{queued-empty}
use httpserv.Jobs.Pool.Signals.{sleepers}
use httpserv.Jobs.Pool.Signals.Stops.{steps_left, WorkerStep-steps_left}
use httpserv.Jobs.Pool.Signals.Serves.{
  Service, Services, none_yet, one_more, ready_workers, IsServed, WorkerStep-IsServed,
}

-- A worker that sleeps, or has a job that never returns.
abbrev pub IsAtRest : (ℕ → Bool) → Phase → Type 0
IsAtRest ends waiting = Unit
IsAtRest ends (executing x) = ends x ≡ false
IsAtRest ends _ = ⊥

-- A worker with a job that never returns.
abbrev pub IsTaken : (ℕ → Bool) → Phase → Type 0
IsTaken ends (executing x) = ends x ≡ false
IsTaken ends _ = ⊥

serves_or_rests :
    (run : Functions) (ends : ℕ → Bool) (m : Memory) (e : List ℕ) (ts : List Task)
    (before after : List Phase) (w : Phase)
    → HasTasks ts m
    → IsOnce (record { memory = m; workers = before ++ (w ∷ after); executed = e })
    → ((u : Pool) × Service run ends
          (record { memory = m; workers = before ++ (w ∷ after); executed = e })
          u)
      ⊎ IsAtRest ends w
serves_or_rests run ends m e ts before after looping k h =
    let (o, m', popped) = try_pop-some waiting m h.queue h.ordered in
    inl (_, (first_take before after popped, tt, tt))
serves_or_rests run ends m e ts before after waiting k h = inr tt
serves_or_rests run ends m e ts before after woken k h =
    let (o, m', popped) = try_pop-some looping m h.queue h.ordered in
    inl (_, (second_take before after popped, tt, tt))
serves_or_rests run ends m e ts before after (executing x) k h = elim (Bool-cases (ends x)) [
  | inl returns ↦
      let (job, stored) = held-Stored m before after x e ts k h in
      inl (_, (finish before after x job stored, tt, returns))
  | inr never ↦ inr never
]

-- Some worker behind `before` can make a service, or they are all at rest.
some_serve_or_rest :
    (run : Functions) (ends : ℕ → Bool) (m : Memory) (e : List ℕ) (ts : List Task)
    (before after : List Phase)
    → HasTasks ts m
    → IsOnce (record { memory = m; workers = before ++ after; executed = e })
    → ((u : Pool) × Service run ends
          (record { memory = m; workers = before ++ after; executed = e })
          u)
      ⊎ All (IsAtRest ends) after
some_serve_or_rest run ends m e ts before [] k h = inr tt
some_serve_or_rest run ends m e ts before (w ∷ after) k h =
    let same = append_assoc before (w ∷ []) after in
    let others =
      some_serve_or_rest run ends m e ts (before ++ w ∷ []) after k
        (subst (λ ws. IsOnce (record { memory = m; workers = ws; executed = e })) (sym same) h) in
    elim (serves_or_rests run ends m e ts before after w k h) [
      | inl one ↦ inl one
      | inr rests ↦ elim others [
        | inl one ↦ inl (
            subst
              (λ ws.
                (u : Pool) × Service run ends (record { memory = m; workers = ws; executed = e }) u)
              same one)
        | inr rest ↦ inr (rests, rest)
      ]
    ]

rest-ready : (ends : ℕ → Bool) (ws : List Phase) → All (IsAtRest ends) ws → ready_workers ws ≡ 0
rest-ready ends [] h = refl
rest-ready ends (waiting ∷ ws) h = omega (arith, rest-ready ends ws h.1)
rest-ready ends (executing x ∷ ws) h = omega (arith, rest-ready ends ws h.1)
rest-ready ends (looping ∷ ws) h = absurd h.0
rest-ready ends (woken ∷ ws) h = absurd h.0

rest-IsTaken :
    (ends : ℕ → Bool) (ws : List Phase)
    → All (IsAtRest ends) ws
    → sleepers ws ≡ 0
    → All (IsTaken ends) ws
rest-IsTaken ends [] h k = tt
rest-IsTaken ends (waiting ∷ ws) h k = absurd (omega (arith, k))
rest-IsTaken ends (executing x ∷ ws) h k = (h.0, rest-IsTaken ends ws h.1 (omega (arith, k)))
rest-IsTaken ends (looping ∷ ws) h k = absurd h.0
rest-IsTaken ends (woken ∷ ws) h k = absurd h.0

-- No worker at rest has a job that returns.
rest-held :
    (ends : ℕ → Bool) (p : ℕ) (ws : List Phase)
    → ends p ≡ true
    → All (IsAtRest ends) ws
    → held p ws ≡ 0
rest-held ends p [] e h = refl
rest-held ends p (waiting ∷ ws) e h = rest-held ends p ws e h.1
rest-held ends p (executing x ∷ ws) e h =
    let other : x ≢ p = λ same. cc in ground (arith, rest-held ends p ws e h.1, other)
rest-held ends p (looping ∷ ws) e h = absurd h.0
rest-held ends p (woken ∷ ws) e h = absurd h.0

-- How far the workers come: all have a job that never returns, or the queue is empty, each job is
-- executed or with a worker, and each that returns is executed.
abbrev pub IsServedOut : (ℕ → Bool) → Pool → Type 0
IsServedOut ends s =
    All (IsTaken ends) s.workers
    ⊎ ((s.memory.size ≡ 0)
        × ((p : ℕ) → held p s.workers + times p s.executed ≡ one_if (ltb p s.memory.free))
        × ((p : ℕ) → ends p ≡ true → times p s.executed ≡ one_if (ltb p s.memory.free)))

pub rest-IsServedOut :
    (run : Functions) (ends : ℕ → Bool) (s : Pool) (ts : List Task)
    → IsOnce s
    → HasTasks ts s.memory
    → IsServed s.memory.size s.workers
    → ((u : Pool) → Service run ends s u → ⊥)
    → IsServedOut ends s
rest-IsServedOut run ends s ts h k served none_left =
    let rest : All (IsAtRest ends) s.workers =
      elim (some_serve_or_rest run ends s.memory s.executed ts [] s.workers k h) [
        | inl (u, one) ↦ absurd (none_left u one)
        | inr rest ↦ rest
      ] in
    elim served [
      | inl awake ↦ inl (rest-IsTaken ends s.workers rest awake)
      | inr enough ↦
          let empty : s.memory.size ≡ 0 = omega (arith, enough, rest-ready ends s.workers rest) in
          inr (
            empty,
            λ p. omega (arith, h.once p, queued-empty s.memory h.queue p h.ordered empty),
            λ p returns. omega (
              arith,
              h.once p,
              queued-empty s.memory h.queue p h.ordered empty,
              rest-held ends p s.workers returns rest,
            ),
          )
    ]

-- What services keep.
pub record IsKept (ts : List Task) (s : Pool) : Type 0 where
  pub once : IsOnce s
  pub stored : HasTasks ts s.memory
  pub served : IsServed s.memory.size s.workers

pub Services-IsKept :
    (run : Functions) (ends : ℕ → Bool) (ts : List Task) {s : Pool} {n : ℕ} {t : Pool}
    → Services run ends s n t
    → IsKept ts s
    → IsKept ts t
Services-IsKept run ends ts none_yet h = h
Services-IsKept run ends ts (one_more r (step, _, _)) h =
    let k = Services-IsKept run ends ts r h in
    record {
      once = WorkerStep-IsOnce run step k.once;
      stored = WorkerStep-HasTasks ts run step k.stored;
      served = WorkerStep-IsServed run step k.once k.served;
    }

Services-cons :
    (run : Functions) (ends : ℕ → Bool) {s t : Pool} {n : ℕ} {u : Pool}
    → Service run ends s t
    → Services run ends t n u
    → Services run ends s (suc n) u
Services-cons run ends one none_yet = one_more none_yet one
Services-cons run ends one (one_more r last) = one_more (Services-cons run ends one r) last

rest_within :
    (run : Functions) (ends : ℕ → Bool) (ts : List Task) (fuel : ℕ) (s : Pool)
    → steps_left s ≤ fuel
    → IsKept ts s
    → (n : ℕ) × (q : Pool) × Services run ends s n q × All (IsAtRest ends) q.workers
rest_within run ends ts zero s below h =
    elim (some_serve_or_rest run ends s.memory s.executed ts [] s.workers h.stored h.once) [
      | inl (t, one) ↦ absurd (omega (arith, below, WorkerStep-steps_left run one.0 one.1 h.once))
      | inr rest ↦ (0, s, none_yet, rest)
    ]
rest_within run ends ts (suc fuel) s below h =
    elim (some_serve_or_rest run ends s.memory s.executed ts [] s.workers h.stored h.once) [
      | inl (t, one) ↦
          let (n, q, r, rest) =
            rest_within run ends ts fuel t
              (omega (arith, below, WorkerStep-steps_left run one.0 one.1 h.once))
              (Services-IsKept run ends ts (one_more none_yet one) h) in
          (suc n, q, Services-cons run ends one r, rest)
      | inr rest ↦ (0, s, none_yet, rest)
    ]

-- There are services to a state with all workers at rest.
pub comes_to_rest :
    (run : Functions) (ends : ℕ → Bool) (ts : List Task) (s : Pool)
    → IsKept ts s
    → (n : ℕ) × (q : Pool) × Services run ends s n q × All (IsAtRest ends) q.workers
comes_to_rest run ends ts s h = rest_within run ends ts (steps_left s) s (omega arith) h
