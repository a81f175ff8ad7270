-- ===== src/Server/Accept/Drain.antt =====
-- From every state of the loop the workers serve the connections that were handed over.
use httpserv.Prelude.{
  ℕ, zero, suc, ◌+◌, ◌<◌, ◌≤◌, ◌≡◌, refl, sym, ◌∙◌, ◌⊎◌, inl, inr, Bool, true, List, [], ◌∷◌, arith,
  length, length-append, All, some,
}
use mathlib.Core.Path.{subst}
use httpserv.Net.{Event, returns}
use httpserv.Jobs.Exec.{Functions}
use httpserv.Jobs.Queue.{queue_new}
use httpserv.Jobs.Pool.{Pool, pool_new}
use httpserv.Jobs.Pool.Count.{held, times}
use httpserv.Jobs.Pool.Drain.{WorkerStep-length, pool_new-length}
use httpserv.Jobs.Pool.Signals.Awake.{Signalled-length}
use httpserv.Jobs.Pool.Signals.Stops.{weights_bound, Turns-steps_left}
use httpserv.Jobs.Pool.Signals.Serves.{
  Service, Services, none_yet, one_more, Services-Turns, IsServed, WorkerStep-IsServed,
  add_work-IsServed,
}
use httpserv.Jobs.Pool.Signals.Rest.{
  IsTaken, IsAtRest, comes_to_rest, rest-IsServedOut, Services-IsKept,
}
use httpserv.Jobs.Pool.Signals.Taken.{rest-Service}
use httpserv.Server.Life.{Sockets, Server}
use httpserv.Server.Accept.{
  System, worker_task, loops, ready, server_run, Step, enter, leave, accept, hand, drop, interrupt,
  work, Reach, here, next,
}
use httpserv.Server.Accept.Handed.{IsHandled, worker_tasks, Reach-IsHandled}
use httpserv.Server.Accept.Start.{server_run-ready, server_run-IsHandled}

length-worker_tasks : (n : ℕ) → length (worker_tasks n) ≡ n
length-worker_tasks zero = refl
length-worker_tasks (suc n) =
    omega (arith, length-append {0} (worker_tasks n) (worker_task n ∷ []), length-worker_tasks n)

pool_new-IsServed :
    (size : ℕ) {s : Pool} → pool_new size ≡ some s → IsServed s.memory.size s.workers
unfolding pool_new queue_new
pool_new-IsServed size e = inr (ground arith)

module _ {Regex : Type 0} where
  -- The number of workers stays as it is.
  Step-length :
      (run : Functions) {u v : System Regex}
      → Step run u v
      → length u.pool.workers ≡ length v.pool.workers
  Step-length run (enter at alive) = refl
  Step-length run (leave at stopped) = refl
  Step-length run (accept connfd at made) = refl
  Step-length run (hand at alive added signal) = Signalled-length signal
  Step-length run (drop at stopped destroyed) = refl
  Step-length run (interrupt alive) = refl
  Step-length run (work step) = WorkerStep-length run step

  Reach-length :
      (run : Functions) {u v : System Regex}
      → Reach run u v
      → length u.pool.workers ≡ length v.pool.workers
  Reach-length run here = refl
  Reach-length run (next r step) = Reach-length run r ∙ Step-length run step

  Step-IsServed :
      (run : Functions) {u v : System Regex}
      → Step run u v
      → IsHandled u
      → IsServed u.pool.memory.size u.pool.workers
      → IsServed v.pool.memory.size v.pool.workers
  Step-IsServed run (enter at alive) h k = k
  Step-IsServed run (leave at stopped) h k = k
  Step-IsServed run (accept connfd at made) h k = k
  Step-IsServed run {u} (hand {m} at alive added signal) h k =
      add_work-IsServed u.pool m (worker_task (length u.handed)) h.once added signal k
  Step-IsServed run (drop at stopped destroyed) h k = k
  Step-IsServed run (interrupt alive) h k = k
  Step-IsServed run (work step) h k = WorkerStep-IsServed run step h.once k

  Reach-IsServed :
      (run : Functions) {u v : System Regex}
      → Reach run u v
      → IsHandled u
      → IsServed u.pool.memory.size u.pool.workers
      → IsServed v.pool.memory.size v.pool.workers
  Reach-IsServed run here h k = k
  Reach-IsServed run (next r step) h k =
      Step-IsServed run step (Reach-IsHandled run r h) (Reach-IsServed run r h k)

  loop-IsServed :
      (run : Functions) (sys : Sockets) (s : Server Regex) (threads : ℕ) {u v : System Regex}
      {es : List Event}
      → server_run sys s threads ≡ returns (loops u) es
      → Reach run u v
      → IsServed v.pool.memory.size v.pool.workers
  unfolding ready
  loop-IsServed run sys s threads {u} e r =
      let (pool, made, start) = server_run-ready sys s threads e in
      Reach-IsServed run r (server_run-IsHandled run sys s threads e here) (
        subst (λ (u : System Regex). IsServed u.pool.memory.size u.pool.workers) (sym start)
          (pool_new-IsServed threads made))

  -- Services of the workers alone leave the rest of the system as it is.
  Services-Reach :
      (run : Functions) (ends : ℕ → Bool) (v : System Regex) {n : ℕ} {q : Pool}
      → Services run ends v.pool n q
      → Reach run v (record v { pool = q }) × (length v.pool.workers ≡ length q.workers)
  Services-Reach run ends v none_yet = (here, refl)
  Services-Reach run ends v (one_more r (step, _, _)) =
      let (reached, same) = Services-Reach run ends v r in
      (next reached (work step), same ∙ WorkerStep-length run step)

  -- Every worker has a job that never returns; or no job is queued, the job of each connection is
  -- with a worker or executed, and it is executed if it returns.
  abbrev pub AllServed : (ℕ → Bool) → System Regex → Pool → Type 0
  AllServed ends v q =
      All (IsTaken ends) q.workers
      ⊎ ((q.memory.size ≡ 0)
          × ((p : ℕ) → p < length v.handed → held p q.workers + times p q.executed ≡ 1)
          × ((p : ℕ) → p < length v.handed → ends p ≡ true → times p q.executed ≡ 1))

  -- The pool of the system behind services, at the end of them.
  served_out :
      (run : Functions) (ends : ℕ → Bool) (v : System Regex) {n : ℕ} {q : Pool}
      → IsHandled v
      → IsServed v.pool.memory.size v.pool.workers
      → Services run ends v.pool n q
      → ((r : Pool) → Service run ends q r → ⊥)
      → AllServed ends v q
  served_out run ends v {n} {q} h served services none_left =
      let ts = worker_tasks (length v.handed) in
      let k =
        Services-IsKept run ends ts services
          (record { once = h.once; stored = h.tasks; served = served }) in
      let number : length v.handed ≡ q.memory.free =
        sym (length-worker_tasks (length v.handed)) ∙ k.stored.counted in
      elim (rest-IsServedOut run ends q ts k.once k.stored k.served none_left) [
        | inl all_taken ↦ inl all_taken
        | inr (empty, placed, done) ↦ inr (
          empty,
          λ p below. ground (arith, placed p, number),
          λ p below returns. ground (arith, done p returns, number),
        )
      ]

  -- `ends` says which jobs return. From any state that the loop of a server reaches, also when
  -- workers woke without a signal, take any steps of the workers, in any order, none of them a
  -- waking without a signal and none the end of a job that does not return, after which no such
  -- step is left. They are at most twice as many as the queued jobs and two for each worker, they
  -- lead to a state that differs in the pool only, and there either all workers, as many as there
  -- are threads, have jobs that do not return; or no job is queued, the job of each connection that
  -- was handed over is with a worker or has been executed, just once, and has been executed if it
  -- returns.
  pub server_drains :
      (run : Functions) (ends : ℕ → Bool) (sys : Sockets) (s : Server Regex) (threads n : ℕ)
      {u v : System Regex} {q : Pool} {es : List Event}
      → server_run sys s threads ≡ returns (loops u) es
      → Reach run u v
      → Services run ends v.pool n q
      → ((r : Pool) → Service run ends q r → ⊥)
      → (n ≤ v.pool.memory.size + v.pool.memory.size + (threads + threads))
        × Reach run v (record v { pool = q })
        × (length q.workers ≡ threads)
        × AllServed ends v q
  unfolding ready
  server_drains run ends sys s threads n {u} {v} {q} e r services none_left =
      let h = server_run-IsHandled run sys s threads e r in
      let (pool, made, start) = server_run-ready sys s threads e in
      let (_, more, number) = pool_new-length threads made in
      let at_start : length u.pool.workers ≡ threads =
        subst (λ (u : System Regex). length u.pool.workers ≡ threads) (sym start)
          (number ∙ sym more) in
      let (reached, same) = Services-Reach run ends v services in
      let all_there : length v.pool.workers ≡ threads = sym (Reach-length run r) ∙ at_start in
      (
        omega (
          arith,
          Turns-steps_left run (Services-Turns run ends services) h.once,
          weights_bound v.pool.workers,
          all_there,
        ),
        reached,
        sym same ∙ all_there,
        served_out run ends v h (loop-IsServed run sys s threads e r) services none_left,
      )

  -- From every such state there are steps of the workers like these to one in which all workers are
  -- at rest, so that no such step is left.
  server_rests :
      (run : Functions) (ends : ℕ → Bool) (sys : Sockets) (s : Server Regex) (threads : ℕ)
      {u v : System Regex} {es : List Event}
      → server_run sys s threads ≡ returns (loops u) es
      → Reach run u v
      → (n : ℕ) × (q : Pool) × Services run ends v.pool n q
        × All (IsAtRest ends) q.workers
        × ((r : Pool) → Service run ends q r → ⊥)
  server_rests run ends sys s threads {u} {v} e r =
      let h = server_run-IsHandled run sys s threads e r in
      let (n, q, services, rest) =
        comes_to_rest run ends (worker_tasks (length v.handed)) v.pool (record {
          once = h.once;
          stored = h.tasks;
          served = loop-IsServed run sys s threads e r;
        }) in
      (n, q, services, rest, λ t one. rest-Service run ends rest one)
